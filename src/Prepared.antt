-- ===== src/Prepared.antt =====
-- prepared_request.go: one prepared request, each critical section of its mutex a function, and the
-- part of processWrites (connection.go) that serves its queued write.
pub mod Errors
pub mod Dispatch
pub mod Steps
pub mod Closed
pub mod Shape
pub mod Promise
pub mod Submission
pub mod Response
use acp_go_sdk.Base.{[], ℕ, Bool, true, false, not, ◌||◌, Option, none, some, if◌then◌else◌}
use acp_go_sdk.Bytes.{Bytes, codes}
use acp_go_sdk.Result.{Result, ok, err}
use acp_go_sdk.Connection.Requests.State.{Cause, request_abandoned, other_cause, Requests}
use acp_go_sdk.Connection.Requests.{admit_pending, abandon_pending, finish_pending, detach_pending}
use Errors.{
  SubmissionState, not_started, possible, pending, Err, caused, abandoned_request,
  already_dispatched, not_dispatched, write_not_started, lifecycle_error, is_possible,
  observer_unavailable, observer_registered,
}

pub data Phase : Type 0 where
  ready dispatching dispatched dispatch_failed abandoned finished : Phase

abbrev pub is_ready : Phase → Bool
is_ready ready = true
is_ready _ = false

abbrev pub is_dispatching : Phase → Bool
is_dispatching dispatching = true
is_dispatching _ = false

abbrev pub is_abandoned : Phase → Bool
is_abandoned abandoned = true
is_abandoned _ = false

abbrev pub is_finished : Phase → Bool
is_finished finished = true
is_finished _ = false

-- The queued write, from the writer's side.
pub data Write : Type 0 where
  unqueued : Write
  queued : Write
  writing : Write
  written : Option Err → Write

-- Where the one call of Dispatch is that passed the test of the phase. `releasing` has the cause for
-- releasePending and the error for completeDispatch after it.
pub data Stage : Type 0 where
  idle : Stage
  entering : Stage
  waiting : Stage
  releasing : (cause : Err) → Err → Stage
  ending : Option Err → Phase → Stage
  ended : Stage

-- `dispatch_done` is dispatchOnce and the channel that it closes, `released` pendingRelease. The
-- connection's pending requests are part of the state: the request is `slot` of them, with `key`.
pub record Prepared : Type 0 where
  pub key : Bytes
  pub slot : ℕ
  pub requests : Requests
  pub phase : Phase
  pub submission : SubmissionState
  pub has_observer : Bool
  pub stage : Stage
  pub write : Write
  pub dispatch_done : Bool
  pub dispatch_err : Option Err
  pub resolving : Bool
  pub resolved : Bool
  pub released : Bool

-- What prepareRequestLifecycle returns for a request that addPending has registered.
abbrev pub prepare : Bytes → ℕ → Requests → Prepared
prepare key slot requests = record {
  key = key;
  slot = slot;
  requests = requests;
  phase = ready;
  submission = not_started;
  has_observer = false;
  stage = idle;
  write = unqueued;
  dispatch_done = false;
  dispatch_err = none;
  resolving = false;
  resolved = false;
  released = false;
}

-- submissionStateLocked.
unfoldable pub submission_state : Prepared → SubmissionState
submission_state p =
    if is_possible p.submission
    then possible
    else if is_ready p.phase || is_dispatching p.phase
    then pending
    else not_started

-- ObserveResponse, for an observer that is not nil.
unfoldable pub observe_response : Prepared → Prepared × Option Err
observe_response p =
    if not (is_ready p.phase)
    then (p, some observer_unavailable)
    else if p.has_observer
    then (p, some observer_registered)
    else (record p { has_observer = true }, none)

-- The error as the connection keeps it: of one that is not a cause itself, such as an error of the
-- transport or one that Abort's is joined to, only that it is another.
abbrev pub as_cause : Err → Cause
as_cause (caused c) = c
as_cause abandoned_request = request_abandoned
as_cause _ = other_cause []

-- releasePending: the body of the once, `none` while finishPending waits.
unfoldable pub release_body : Prepared → Requests × Bool → Option Prepared
release_body p (r, true) = some (record p { requests = r; released = true })
release_body p (r, false) = elim (finish_pending r p.slot) [
  | none ↦ none
  | some r' ↦ some (record p { requests = r'; released = true })
]

unfoldable pub release_pending : Prepared → Err → Option Prepared
release_pending p e =
    if p.released then some p else release_body p (abandon_pending p.requests p.slot (as_cause e))

-- Abandon, its critical section: the state it returns, and whether it goes on.
abbrev pub abandon_section : Prepared → Prepared × SubmissionState × Bool
abandon_section p =
    if p.resolved || is_finished p.phase
    then (p, p.submission, false)
    else (record p { phase = abandoned }, p.submission, true)

-- Abandon; `none` while finishPending waits.
unfoldable pub abandon_rest : Prepared → Option Prepared
abandon_rest p =
    if p.resolving
    then some (record p { requests = detach_pending p.requests p.slot })
    else release_pending p abandoned_request
