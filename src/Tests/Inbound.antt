-- ===== src/Tests/Inbound.antt =====
-- An inbound request, and the answer to a prepared one, at concrete inputs.
use acp_go_sdk.Base.{List, Option, false, ℕ, true, ◌≡◌, refl, [], ◌∷◌, none, some}
use acp_go_sdk.Bytes.{equal, Bytes, codes}
use acp_go_sdk.Error.{RequestError, no_data, new_internal_error}
use acp_go_sdk.Message.{AnyMessage, no_message}
use acp_go_sdk.Json.{IdCodec, text, eof}
use acp_go_sdk.Connection.AfterResponse.{AfterResponse, add, add_all, seal, seal-add_all}
use acp_go_sdk.Result.{ok}
use acp_go_sdk.Connection.Handling.{Delivery, handle_inbound, IsAnswered, handle_inbound-IsAnswered}
use acp_go_sdk.Connection.Inbound.{
  remove, Inbound, enqueue_request, handle_cancel_request, enqueue_keyed, member,
}
use acp_go_sdk.RequestId.{canonical_id_key}
use acp_go_sdk.Connection.Inbound.Inflight.{
  enqueue_request-duplicate, enqueue_request-cancel, duplicate_id, ReachBut, still, then_step,
  takes, removes,
}
use acp_go_sdk.Prepared.Errors.{
  possible, lifecycle_error, response_error, request_may_have_been_submitted,
}
use acp_go_sdk.Prepared.Response.{
  DataCodec, Completing, complete_response, complete_response-IsPossible,
}

abbrev no_codec : DataCodec
no_codec = record { marshal = λ d. none; unmarshal = λ s. none }

abbrev plain : Completing Bytes
plain = record {
  zero_result = [];
  waited_for = none;
  context_cause = none;
  observer = none;
  unmarshal = λ s. (s, none);
  typed_hook = none;
}

abbrev failure : RequestError
failure = new_internal_error no_data

abbrev failed_response : AnyMessage
failed_response = record no_message { error = some failure }

complete_response-IsPossible_example :
    request_may_have_been_submitted
      (some (lifecycle_error (codes "wait") possible (response_error failure)))
    ≡ true
unfolding complete_response
complete_response-IsPossible_example =
    complete_response-IsPossible no_codec plain failed_response refl

-- A decoder that takes every input for one string.
abbrev one_text : IdCodec
one_text = record { decode = λ s. some (text (codes "a"), eof); marshal_text = λ s. some s }

abbrev nothing_queued : Inbound
nothing_queued = record { max_queued = 2; queue = []; inflight = [] }

abbrev accepted : Inbound
accepted = record nothing_queued { queue = (codes "a", no_message) ∷ []; inflight = codes "a" ∷ [] }

-- The worker has taken the request, and one with another id was removed.
abbrev under_way : Inbound
under_way = record accepted { queue = [] }

under_way-ReachBut :
    ReachBut one_text
      (codes "a")
      (enqueue_request one_text nothing_queued no_message none (codes "\"a\"")).0
      under_way
unfolding enqueue_keyed member canonical_id_key enqueue_request remove equal
under_way-ReachBut =
    then_step (then_step still (takes (codes "a", no_message) [] refl)) (removes (codes "b") refl)

enqueue_request-duplicate_example :
    enqueue_request one_text under_way no_message none (codes " \"a\"")
    ≡ (under_way, some duplicate_id)
unfolding enqueue_keyed member canonical_id_key enqueue_request
enqueue_request-duplicate_example =
    enqueue_request-duplicate one_text nothing_queued no_message no_message none none
      (codes "\"a\"") (codes " \"a\"") refl refl refl under_way-ReachBut

abbrev granted : Option ℕ
granted = none

abbrev later : List (ℕ × Option ℕ)
later = (8, none) ∷ []

abbrev nothing_later : List (ℕ × Option ℕ)
nothing_later = []

abbrev unsealed : AfterResponse ℕ
unsealed = record { sealed = false; callback = none }

seal-add_all_example :
    ((seal (add_all (add unsealed 7 granted).0 later)).1 ≡ some 7)
    × ((seal (add_all (seal (add_all (add unsealed 7 granted).0 later)).0 nothing_later)).1 ≡ none)
seal-add_all_example = seal-add_all unsealed later nothing_later 7 granted refl refl refl

enqueue_request-cancel_example :
    handle_cancel_request one_text
      (λ p. some p)
      under_way
      (record no_message { params = codes " \"a\"" })
    ≡ some (codes "a")
unfolding enqueue_keyed member canonical_id_key enqueue_request
enqueue_request-cancel_example =
    enqueue_request-cancel one_text (λ p. some p) nothing_queued no_message
      (record no_message { params = codes " \"a\"" }) none (codes "\"a\"") (codes " \"a\"") refl
      refl refl refl under_way-ReachBut

-- A request of a batch whose handler registered the callback 5 and succeeded.
abbrev in_batch : Delivery
in_batch = record { has_commit = true; in_batch = true; is_sent = false }

abbrev numbered : AnyMessage
numbered = record no_message { id = some (codes "1") }

abbrev five : Option ℕ
five = some 5

handle_inbound-IsAnswered_example :
    IsAnswered in_batch numbered
      (ok (ok (codes "{}")))
      five
      (handle_inbound true in_batch numbered five (ok (ok (codes "{}"))))
handle_inbound-IsAnswered_example =
    handle_inbound-IsAnswered in_batch numbered five (ok (ok (codes "{}"))) refl
