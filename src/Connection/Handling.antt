-- ===== src/Connection/Handling.antt =====
-- connection.go, handleInbound: one inbound message, from its handler's result to its response.
use acp_go_sdk.Base.{
  ℕ, suc, ◌≡◌, refl, Bool, true, false, not, ◌&&◌, ◌||◌, List, [], ◌∷◌, Option, none, some,
  if◌then◌else◌,
}
use acp_go_sdk.Bytes.{Bytes}
use acp_go_sdk.Error.{RequestError, error_entry, new_method_not_found, new_internal_error}
use acp_go_sdk.Message.{AnyMessage, no_message, is_some}
use acp_go_sdk.Result.{Result, ok, err}

-- What handleInbound does, in its order: a reply for the collector of a batch with what is to be
-- done after the batch, a response that is sent on its own, responseCommitted, a slot that is
-- received from batchCallbackSlots, and a callback that is run.
pub data Effect (C : Type 0) : Type 0 where
  collects_reply : AnyMessage → (has_finish : Bool) → (callback : Option C) → Effect C
  sends_reply : AnyMessage → Effect C
  commits : Effect C
  receives_slot : Effect C
  runs_callback : C → Effect C

-- What the message came with: whether responseCommitted is given, and whether there is the writer
-- of a batch; and whether a response that is sent on its own is written.
pub record Delivery : Type 0 where
  pub has_commit : Bool
  pub in_batch : Bool
  pub is_sent : Bool

-- The response, and whether it is a success; `marshal` is json.Marshal of the handler's result.
abbrev pub response_of : AnyMessage → Result RequestError (Result Bytes Bytes) → AnyMessage × Bool
response_of response (err e) = (record response { error = some e }, false)
response_of response (ok (err text)) =
    (record response { error = some (new_internal_error (error_entry text)) }, false)
response_of response (ok (ok encoded)) = (record response { result = encoded }, true)

abbrev pub commits_if : {C : Type 0} → Bool → List (Effect C)
commits_if true = commits ∷ []
commits_if false = []

-- The answer to a request by what its handler returned: the id of the request, and either the
-- encoded result or an error, which is the handler's or internal where the result has no encoding.
abbrev pub IsReplyTo : AnyMessage → Result RequestError (Result Bytes Bytes) → AnyMessage → Type 0
IsReplyTo req (err e) m = (m.id ≡ req.id) × (m.method ≡ []) × (m.result ≡ []) × (m.error ≡ some e)
IsReplyTo req (ok (err text)) m =
    (m.id ≡ req.id)
    × (m.method ≡ [])
    × (m.result ≡ [])
    × (m.error ≡ some (new_internal_error (error_entry text)))
IsReplyTo req (ok (ok encoded)) m =
    (m.id ≡ req.id) × (m.method ≡ []) × (m.result ≡ encoded) × (m.error ≡ none)

abbrev pub has_result : Result RequestError (Result Bytes Bytes) → Bool
has_result (err e) = false
has_result (ok (err text)) = false
has_result (ok (ok encoded)) = true

module _ {C : Type 0} where
  -- A request of a connection without a handler.
  unfoldable pub refuse_request : Delivery → AnyMessage → List (Effect C)
  refuse_request d response =
      if d.in_batch
      then collects_reply response d.has_commit none ∷ []
      else sends_reply response ∷ commits_if (d.is_sent && d.has_commit)

  -- A callback of a failed request is dropped, and its slot is given back.
  abbrev pub collect_response : Delivery → AnyMessage → Bool → Option C → List (Effect C)
  collect_response d response false (some callback) =
      receives_slot ∷ collects_reply response d.has_commit none ∷ []
  collect_response d response false none = collects_reply response d.has_commit none ∷ []
  collect_response d response true callback = collects_reply response d.has_commit callback ∷ []

  abbrev pub run_if : Bool → Option C → List (Effect C)
  run_if true (some callback) = runs_callback callback ∷ []
  run_if true none = []
  run_if false callback = []

  abbrev pub commit_then : Bool → List (Effect C) → List (Effect C)
  commit_then true rest = commits ∷ rest
  commit_then false rest = rest

  abbrev pub send_response : Delivery → AnyMessage → Bool → Option C → List (Effect C)
  send_response d response succeeded callback =
      sends_reply response
      ∷ (if d.is_sent then commit_then d.has_commit (run_if succeeded callback) else [])

  unfoldable pub answer : Delivery → AnyMessage × Bool → Option C → List (Effect C)
  answer d (response, succeeded) callback =
      if d.in_batch
      then collect_response d response succeeded callback
      else send_response d response succeeded callback

  -- handleInbound: `callback` is what seal returns, `outcome` what the handler returns with
  -- json.Marshal of its result. The log of a notification that failed is left out.
  unfoldable pub handle_inbound :
      (has_handler : Bool)
      → Delivery
      → AnyMessage
      → Option C
      → Result RequestError (Result Bytes Bytes)
      → List (Effect C)
  handle_inbound has_handler d req callback outcome =
      let response = record no_message { id = req.id } in
      if not (is_some req.id)
      then []
      else if has_handler
      then answer d (response_of response outcome) callback
      else refuse_request d (record response { error = some (new_method_not_found req.method) })

  -- The responses that were collected or sent.
  unfoldable pub replies_in : List (Effect C) → List AnyMessage
  replies_in [] = []
  replies_in (collects_reply m finish callback ∷ es) = m ∷ replies_in es
  replies_in (sends_reply m ∷ es) = m ∷ replies_in es
  replies_in (commits ∷ es) = replies_in es
  replies_in (receives_slot ∷ es) = replies_in es
  replies_in (runs_callback c ∷ es) = replies_in es

  -- The slots that were received or that went on to the collector with their callback.
  unfoldable pub slots_passed_on : List (Effect C) → ℕ
  slots_passed_on [] = 0
  slots_passed_on (collects_reply m finish (some callback) ∷ es) = suc (slots_passed_on es)
  slots_passed_on (collects_reply m finish none ∷ es) = slots_passed_on es
  slots_passed_on (sends_reply m ∷ es) = slots_passed_on es
  slots_passed_on (commits ∷ es) = slots_passed_on es
  slots_passed_on (receives_slot ∷ es) = suc (slots_passed_on es)
  slots_passed_on (runs_callback c ∷ es) = slots_passed_on es

  -- The callbacks that were run or went to the collector.
  unfoldable pub callbacks_in : List (Effect C) → List C
  callbacks_in [] = []
  callbacks_in (collects_reply m finish (some callback) ∷ es) = callback ∷ callbacks_in es
  callbacks_in (collects_reply m finish none ∷ es) = callbacks_in es
  callbacks_in (sends_reply m ∷ es) = callbacks_in es
  callbacks_in (commits ∷ es) = callbacks_in es
  callbacks_in (receives_slot ∷ es) = callbacks_in es
  callbacks_in (runs_callback c ∷ es) = c ∷ callbacks_in es

  abbrev pub as_list : Option C → List C
  as_list none = []
  as_list (some callback) = callback ∷ []

  abbrev pub one_for : Option C → ℕ
  one_for none = 0
  one_for (some callback) = 1

  -- What is done with a reply and with the callback of its request.
  abbrev pub IsHandedOn : Delivery → AnyMessage × Bool → Option C → List (Effect C) → Type 0
  IsHandedOn d (response, succeeded) callback effects =
      (replies_in effects ≡ response ∷ [])
      × (callbacks_in effects
          ≡ (if succeeded && (d.in_batch || d.is_sent) then as_list callback else []))
      × (slots_passed_on effects ≡ (if d.in_batch then one_for callback else 0))

  -- What a request with a handler comes to, by what its handler returned.
  abbrev pub IsAnswered :
      Delivery
      → AnyMessage
      → Result RequestError (Result Bytes Bytes)
      → Option C
      → List (Effect C)
      → Type 0
  IsAnswered d req outcome callback effects =
      (m : AnyMessage) × IsReplyTo req outcome m
      × IsHandedOn d (m, has_result outcome) callback effects

  answer-IsHandedOn :
      (has_commit in_batch is_sent : Bool) (response : AnyMessage) (succeeded : Bool)
      (callback : Option C)
      → IsHandedOn
          (record { has_commit = has_commit; in_batch = in_batch; is_sent = is_sent })
          (response, succeeded)
          callback
          (answer
            (record { has_commit = has_commit; in_batch = in_batch; is_sent = is_sent })
            (response, succeeded)
            callback)
  unfolding answer replies_in slots_passed_on callbacks_in
  answer-IsHandedOn has_commit true is_sent m true (some c) = (refl, refl, refl)
  answer-IsHandedOn has_commit true is_sent m true none = (refl, refl, refl)
  answer-IsHandedOn has_commit true is_sent m false (some c) = (refl, refl, refl)
  answer-IsHandedOn has_commit true is_sent m false none = (refl, refl, refl)
  answer-IsHandedOn has_commit false false m true callback = (refl, refl, refl)
  answer-IsHandedOn has_commit false false m false callback = (refl, refl, refl)
  answer-IsHandedOn true false true m true (some c) = (refl, refl, refl)
  answer-IsHandedOn false false true m true (some c) = (refl, refl, refl)
  answer-IsHandedOn true false true m true none = (refl, refl, refl)
  answer-IsHandedOn false false true m true none = (refl, refl, refl)
  answer-IsHandedOn true false true m false callback = (refl, refl, refl)
  answer-IsHandedOn false false true m false callback = (refl, refl, refl)

  -- Whatever its handler returns, a request is answered by one reply, which has its id and no
  -- method: the encoded result, or the handler's error, or an internal error where the result cannot
  -- be encoded. The callback that the handler registered is run or goes on with the reply exactly
  -- where the reply is a result that was sent or collected; and in a batch its slot is received or
  -- goes on with it.
  pub handle_inbound-IsAnswered :
      (d : Delivery) (req : AnyMessage) (callback : Option C)
      (outcome : Result RequestError (Result Bytes Bytes))
      → is_some req.id ≡ true
      → IsAnswered d req outcome callback (handle_inbound true d req callback outcome)
  unfolding handle_inbound
  handle_inbound-IsAnswered d req callback (err e) i = rw i (
    _,
    (refl, refl, refl, refl),
    answer-IsHandedOn d.has_commit d.in_batch d.is_sent _ false callback,
  )
  handle_inbound-IsAnswered d req callback (ok (err text)) i = rw i (
    _,
    (refl, refl, refl, refl),
    answer-IsHandedOn d.has_commit d.in_batch d.is_sent _ false callback,
  )
  handle_inbound-IsAnswered d req callback (ok (ok encoded)) i = rw i (
    _,
    (refl, refl, refl, refl),
    answer-IsHandedOn d.has_commit d.in_batch d.is_sent _ true callback,
  )
