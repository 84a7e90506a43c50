-- ===== src/Prepared/Errors.antt =====
-- prepared_request.go: the errors of a prepared request and what they say about its submission.
use acp_go_sdk.Base.{Bool, true, false, not, ◌||◌, Option, none, some}
use acp_go_sdk.Bytes.{Bytes, codes}
use acp_go_sdk.Error.{RequestError}
use acp_go_sdk.Connection.Requests.State.{Cause}

pub data SubmissionState : Type 0 where
  not_started : SubmissionState
  possible : SubmissionState
  pending : SubmissionState

-- Go's errors as the code builds them: what other code returns, the connection's causes, the
-- package's own, and the three that hold errors.
pub data Err : Type 0 where
  external : Bytes → Err
  caused : Cause → Err
  unavailable : Err
  already_dispatched : Err
  not_dispatched : Err
  abandoned_request : Err
  observer_required : Err
  observer_registered : Err
  observer_unavailable : Err
  write_not_started : Err
  response_error : RequestError → Err
  response_decode : Err → Err
  wrapped : Bytes → Err → Err
  joined : Err → Err → Err
  lifecycle : (operation : Bytes) (submission : SubmissionState) (classified : Bool) → Err → Err

-- errors.As for *RequestLifecycleError: the first one of the tree, its state and `classified`.
abbrev pub or_else :
    Option (SubmissionState × Bool)
    → Option (SubmissionState × Bool)
    → Option (SubmissionState × Bool)
or_else (some x) _ = some x
or_else none y = y

unfoldable pub find_lifecycle : Err → Option (SubmissionState × Bool)
find_lifecycle (response_decode e) = find_lifecycle e
find_lifecycle (wrapped _ e) = find_lifecycle e
find_lifecycle (joined a b) = or_else (find_lifecycle a) (find_lifecycle b)
find_lifecycle (lifecycle _ s c _) = some (s, c)
find_lifecycle _ = none

-- RequestLifecycleError.SubmissionState.
abbrev pub submission_of : SubmissionState → Bool → SubmissionState
submission_of s false = pending
submission_of s true = s

-- RequestSubmissionStateOf.
abbrev pub classified_state : Option (SubmissionState × Bool) → SubmissionState × Bool
classified_state none = (not_started, false)
classified_state (some (s, false)) = (not_started, false)
classified_state (some (s, true)) = (submission_of s true, true)

unfoldable pub request_submission_state_of : Err → SubmissionState × Bool
request_submission_state_of e = classified_state (find_lifecycle e)

abbrev pub is_not_started : SubmissionState → Bool
is_not_started not_started = true
is_not_started _ = false

abbrev pub is_possible : SubmissionState → Bool
is_possible possible = true
is_possible _ = false

-- RequestMayHaveBeenSubmitted.
unfoldable pub request_may_have_been_submitted : Option Err → Bool
request_may_have_been_submitted none = false
request_may_have_been_submitted (some e) =
    let found = request_submission_state_of e in not found.1 || not (is_not_started found.0)

-- lifecycleError, for an error that is there.
abbrev pub lifecycle_error : Bytes → SubmissionState → Err → Err
lifecycle_error operation s e = lifecycle operation s true e

-- joinAbortError.
abbrev pub join_abort_error : Err → Option Err → Err
join_abort_error cause none = cause
join_abort_error cause (some e) =
    joined cause (wrapped (codes "acp: abort prepared request transport") e)
