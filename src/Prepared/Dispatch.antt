-- ===== src/Prepared/Dispatch.antt =====
-- prepared_request.go: Dispatch and what it calls, with the writer's part of it.
use acp_go_sdk.Base.{true, not, ◌||◌, Option, none, some, if◌then◌else◌}
use acp_go_sdk.Bytes.{codes}
use acp_go_sdk.Result.{Result, ok, err}
use acp_go_sdk.Connection.Requests.State.{Requests}
use acp_go_sdk.Connection.Requests.{admit_pending}
use acp_go_sdk.Prepared.{
  Stage, Phase, dispatching, dispatched, dispatch_failed, abandoned, is_ready, is_dispatching,
  is_abandoned, queued, writing, written, entering, waiting, releasing, ending, ended, Prepared,
  submission_state,
}
use acp_go_sdk.Prepared.Errors.{
  SubmissionState, possible, Err, caused, abandoned_request, already_dispatched, write_not_started,
  lifecycle_error, join_abort_error, is_not_started,
}

abbrev pub dispatch_error : SubmissionState → Err → Err
dispatch_error = lifecycle_error (codes "dispatch")

-- Dispatch, its first critical section: an error, or the request is being dispatched.
unfoldable pub begin_dispatch : Prepared → Prepared × Option Err
begin_dispatch p =
    if is_ready p.phase then (record p { phase = dispatching; stage = entering }, none) else (
      p,
      some (
          dispatch_error (submission_state p)
            (if is_abandoned p.phase then abandoned_request else already_dispatched)),
    )

-- Dispatch sends the write to the writer's queue.
abbrev pub enqueue_write : Prepared → Prepared
enqueue_write p = record p { write = queued; stage = waiting }

-- beginWrite, with what ctx.Err says.
abbrev pub start_write : Prepared → Requests × Result Err (Unit {0}) → Prepared × Option Err
start_write p (r, ok _) = (record p { requests = r; submission = possible }, none)
start_write p (r, err e) = (record p { requests = r }, some e)

unfoldable pub admit : Prepared → Requests × Result Err (Unit {0})
admit p = elim (admit_pending p.requests p.slot p.key).1 [
  | ok u ↦ ((admit_pending p.requests p.slot p.key).0, ok u)
  | err c ↦ ((admit_pending p.requests p.slot p.key).0, err (caused c))
]

unfoldable pub begin_write : Prepared → Option Err → Prepared × Option Err
begin_write p ctx_err =
    if not (is_dispatching p.phase)
    then (p, some (if is_abandoned p.phase then abandoned_request else write_not_started))
    else elim ctx_err [ some e ↦ (p, some e) | none ↦ start_write p (admit p) ]

-- processWrites, up to the call of the transport's Write, which follows where it says `writing`.
abbrev pub after_begin : Prepared × Option Err → Prepared
after_begin (p, some e) = record p { write = written (some e) }
after_begin (p, none) = record p { write = writing }

unfoldable pub take_write : Prepared → Option Err → Option Err → Prepared
take_write p write_ctx_err ctx_err = elim write_ctx_err [
  | some e ↦ record p { write = written (some e) }
  | none ↦ after_begin (begin_write p ctx_err)
]

-- completeAbandonedDispatch, up to completeDispatch.
unfoldable pub complete_abandoned_dispatch : Prepared → Prepared
complete_abandoned_dispatch p = record p {
  stage = ending (some (dispatch_error (submission_state p) abandoned_request)) abandoned;
}

-- What `abort` adds to the cause, where Write may have been invoked; `opts` is the option Abort,
-- which Dispatch calls at most once since only one of failDispatch and completeWrite runs.
abbrev pub aborted_cause : SubmissionState → Option (Err → Option Err) → Err → Err
aborted_cause possible (some revoke) cause = join_abort_error cause (revoke cause)
aborted_cause _ _ cause = cause

-- What is left to do of a dispatch that fails: releasePending with the cause, and completeDispatch.
abbrev pub failing : SubmissionState → Err → Stage
failing s cause = releasing cause (dispatch_error s cause)

-- failDispatch, up to releasePending.
unfoldable pub fail_dispatch : Prepared → Option (Err → Option Err) → Err → Prepared
fail_dispatch p opts cause =
    if is_abandoned p.phase then complete_abandoned_dispatch p else record p {
      phase = if is_not_started p.submission then dispatch_failed else p.phase;
      stage = failing p.submission (aborted_cause p.submission opts cause);
    }

-- completeWrite, up to releasePending or completeDispatch.
unfoldable pub complete_write : Prepared → Option (Err → Option Err) → Option Err → Prepared
complete_write p opts result =
    if is_abandoned p.phase
    then record p {
      stage = ending (some (dispatch_error p.submission abandoned_request)) abandoned;
    }
    else elim result [
      | none ↦ record p { stage = ending none dispatched }
      | some cause ↦ record p {
        stage = failing p.submission (aborted_cause p.submission opts cause);
      }
    ]

-- completeDispatch: the body of the once.
unfoldable pub complete_dispatch : Prepared → Option Err → Phase → Prepared
complete_dispatch p e phase = if p.dispatch_done then record p { stage = ended } else record p {
  phase = if not (is_abandoned p.phase) || is_abandoned phase then phase else p.phase;
  dispatch_err = e;
  dispatch_done = true;
  stage = ended;
}
