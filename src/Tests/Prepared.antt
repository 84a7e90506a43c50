-- ===== src/Tests/Prepared.antt =====
-- A prepared request at concrete inputs: one that is abandoned while it waits for the writer, and
-- one that is written.
use acp_go_sdk.Base.{◌≡◌, ◌≢◌, refl, inl, true, [], ◌∷◌, none, some}
use acp_go_sdk.Bytes.{codes, equal}
use acp_go_sdk.Message.{lookup}
use acp_go_sdk.Connection.Requests.{fresh, admit_pending}
use acp_go_sdk.Connection.Requests.State.{Requests, no_requests, is_registered}
use acp_go_sdk.Prepared.{
  written, Prepared, prepare, writing, abandoned, dispatched, submission_state, abandon_section,
}
use acp_go_sdk.Prepared.Dispatch.{
  begin_dispatch, enqueue_write, take_write, begin_write, admit, complete_abandoned_dispatch,
  complete_dispatch, complete_write, dispatch_error,
}
use acp_go_sdk.Prepared.Errors.{
  not_started, possible, Err, abandoned_request, request_may_have_been_submitted,
  request_submission_state_of, find_lifecycle,
}
use acp_go_sdk.Prepared.Steps.{
  Reach, here, next, dispatches, abandons, gives_up, ends, enqueues, takes, writes, completes,
}
use acp_go_sdk.Prepared.Submission.{
  not_submitted_final, submission_state_final, abandon_final, dispatch_ok-possible,
}

abbrev registered : Requests
registered = record (no_requests 2) {
  pending = (codes "1", 0) ∷ [];
  objects = fresh (codes "1") true ∷ [];
  slots = 1;
}

abbrev begins : Prepared
begins = (begin_dispatch (prepare (codes "1") 0 registered)).0

abbrev left : Prepared
left = (abandon_section begins).0

abbrev left_error : Err
left_error = dispatch_error not_started abandoned_request

abbrev given_up : Prepared
given_up = complete_abandoned_dispatch left

abbrev over : Prepared
over = complete_dispatch given_up (some left_error) abandoned

left-Reach : Reach (prepare (codes "1") 0 registered) left
left-Reach = next (next here dispatches) abandons

given_up-Reach : Reach left given_up
unfolding begin_dispatch
given_up-Reach = next here (gives_up (inl refl) refl)

over-Reach : Reach (prepare (codes "1") 0 registered) over
unfolding begin_dispatch complete_abandoned_dispatch submission_state
over-Reach =
    next (next left-Reach (gives_up (inl refl) refl)) (ends (some left_error) abandoned refl)

not_submitted_final_example : (over.write ≢ writing) × (over.submission ≡ not_started)
unfolding begin_dispatch complete_abandoned_dispatch submission_state complete_dispatch
    request_may_have_been_submitted request_submission_state_of find_lifecycle
not_submitted_final_example =
    not_submitted_final (codes "1") 0 registered {e = left_error} over-Reach (inl refl) refl here

submission_state_final_example : (given_up.write ≢ writing) × (given_up.submission ≡ not_started)
unfolding begin_dispatch submission_state
submission_state_final_example =
    submission_state_final (codes "1") 0 registered left-Reach refl given_up-Reach

abandon_final_example : (given_up.write ≢ writing) × (given_up.submission ≡ not_started)
unfolding begin_dispatch
abandon_final_example =
    abandon_final (codes "1") 0 registered (next here dispatches) refl refl given_up-Reach

abbrev sent : Prepared
sent = record (take_write (enqueue_write begins) none none) { write = written none }

abbrev answered_sent : Prepared
answered_sent = complete_dispatch (complete_write sent none none) none dispatched

sent-Reach : Reach (prepare (codes "1") 0 registered) answered_sent
unfolding begin_dispatch take_write begin_write admit admit_pending is_registered lookup equal
    complete_write
sent-Reach =
    next
      (next
        (next (next (next (next here dispatches) (enqueues refl)) (takes none none refl))
          (writes none refl))
        (completes none none refl refl))
      (ends none dispatched refl)

dispatch_ok-possible_example : answered_sent.submission ≡ possible
unfolding begin_dispatch take_write begin_write admit admit_pending is_registered lookup equal
    complete_write complete_dispatch
dispatch_ok-possible_example = dispatch_ok-possible (codes "1") 0 registered sent-Reach refl refl
