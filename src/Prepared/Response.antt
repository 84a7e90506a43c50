-- ===== src/Prepared/Response.antt =====
-- prepared_request.go: what becomes of a response that arrived, and the errors of Wait and
-- CancelRequest.
use acp_go_sdk.Base.{
  some-injective, subst, Bool, true, false, ◌≡◌, refl, [], ◌∷◌, Option, none, some,
}
use acp_go_sdk.Bytes.{Bytes, codes}
use acp_go_sdk.Error.{RequestError, ErrorData, no_data}
use acp_go_sdk.Message.{AnyMessage}
use acp_go_sdk.Prepared.{dispatched, finished, Prepared, submission_state}
use acp_go_sdk.Prepared.Errors.{
  possible, Err, wrapped, response_error, response_decode, not_dispatched, lifecycle_error,
  request_may_have_been_submitted, request_submission_state_of, find_lifecycle,
}

pub record RpcResponse : Type 0 where
  pub request_id : Option Bytes
  pub result : Bytes
  pub error : Option RequestError

-- json.Marshal and json.Unmarshal of the data of an error.
pub record DataCodec : Type 0 where
  pub marshal : ErrorData → Option Bytes
  pub unmarshal : Bytes → Option ErrorData

-- cloneRequestError.
abbrev pub cloned_data : DataCodec → Option Bytes → ErrorData
cloned_data codec none = no_data
cloned_data codec (some raw) = elim (codec.unmarshal raw) [ none ↦ no_data | some d ↦ d ]

unfoldable pub clone_request_error : DataCodec → RequestError → RequestError
clone_request_error codec e = record {
  code = e.code;
  message = e.message;
  details = cloned_data codec (codec.marshal e.details);
}

-- publicRPCResponse.
unfoldable pub public_rpc_response : DataCodec → AnyMessage → RpcResponse
public_rpc_response codec m = record {
  request_id = m.id;
  result = m.result;
  error = elim m.error [ none ↦ none | some e ↦ some (clone_request_error codec e) ];
}

-- What completeResponse is given: its observer and hook, if any, the results of waiting for the
-- notifications and of ctx.Err after it, and json.Unmarshal into T.
pub record Completing (T : Type 0) : Type 0 where
  pub zero_result : T
  pub waited_for : Option Err
  pub context_cause : Option Err
  pub observer : Option (RpcResponse → Option Err)
  pub unmarshal : Bytes → T × Option Err
  pub typed_hook : Option (T → Option Err)

module _ {T : Type 0} (codec : DataCodec) (c : Completing T) where
  abbrev pub run_hook : T → Option (T → Option Err) → T × Option Err × Bool
  run_hook t none = (t, none, false)
  run_hook t (some hook) = elim (hook t) [
    | none ↦ (t, none, false)
    | some e ↦ (
      t,
      some (lifecycle_error (codes "hook") possible (wrapped (codes "acp: response hook") e)),
      false,
    )
  ]

  abbrev pub decoded : T × Option Err → T × Option Err × Bool
  decoded (t, some e) =
      (t, some (lifecycle_error (codes "wait") possible (response_decode e)), false)
  decoded (t, none) = run_hook t c.typed_hook

  abbrev pub decode_result : Bytes → T × Option Err × Bool
  decode_result [] = run_hook c.zero_result c.typed_hook
  decode_result (b ∷ bs) = decoded (c.unmarshal (b ∷ bs))

  abbrev pub read_response : AnyMessage → Option RequestError → T × Option Err × Bool
  read_response m (some e) =
      (c.zero_result, some (lifecycle_error (codes "wait") possible (response_error e)), false)
  read_response m none = decode_result m.result

  abbrev pub observed : AnyMessage → Option Err → T × Option Err × Bool
  observed m (some e) = (
    c.zero_result,
    some (lifecycle_error (codes "observe") possible (wrapped (codes "acp: response observer") e)),
    false,
  )
  observed m none = read_response m m.error

  abbrev pub observe : AnyMessage → Option (RpcResponse → Option Err) → T × Option Err × Bool
  observe m none = observed m none
  observe m (some observer) = observed m (observer (public_rpc_response codec m))

  abbrev pub after_barrier : AnyMessage → Option Err → Option Err → T × Option Err × Bool
  after_barrier m none _ = observe m c.observer
  after_barrier m (some e) (some cause) =
      (c.zero_result, some (lifecycle_error (codes "wait") possible cause), true)
  after_barrier m (some e) none =
      (c.zero_result, some (lifecycle_error (codes "wait") possible e), false)

  -- completeResponse: the result, the error, and whether another Wait may try again.
  unfoldable pub complete_response : AnyMessage → T × Option Err × Bool
  complete_response m = after_barrier m c.waited_for c.context_cause

-- CancelRequest: the error with which it ends before it sends anything, if any.
unfoldable pub cancel_refused : Prepared → Option Err
cancel_refused p = elim p.phase [
  | dispatched ↦ none
  | finished ↦ none
  | _ ↦ some (lifecycle_error (codes "cancel") (submission_state p) not_dispatched)
]

-- CancelRequest: `sent` is what SendNotification returned, the first time that it was called.
abbrev pub cancel_result : Option Err → Option Err → Option Err
cancel_result (some refusal) sent = some refusal
cancel_result none none = none
cancel_result none (some e) = some (lifecycle_error (codes "cancel") possible e)

unfoldable pub cancel_request : Prepared → Option Err → Option Err
cancel_request p sent = cancel_result (cancel_refused p) sent

-- Where a claim of the response can fail, the caller learns that the request may have been
-- submitted.
abbrev IsPossible : {T : Type 0} → T × Option Err × Bool → Type 0
IsPossible (t, none, retry) = Unit {0}
IsPossible (t, some e, retry) = request_may_have_been_submitted (some e) ≡ true

possible-IsPossible :
    (operation : Bytes) (e : Err)
    → request_may_have_been_submitted (some (lifecycle_error operation possible e)) ≡ true
unfolding request_may_have_been_submitted request_submission_state_of find_lifecycle
possible-IsPossible operation e = refl

module _ {T : Type 0} (codec : DataCodec) (c : Completing T) where
  run_hook-IsPossible :
      (t : T) (hook : Option (T → Option Err)) → IsPossible (run_hook codec c t hook)
  run_hook-IsPossible t none = tt
  run_hook-IsPossible t (some hook) = by_result (hook t) refl
    where
      by_result : (r : Option Err) → hook t ≡ r → IsPossible (run_hook codec c t (some hook))
      by_result none e = rw e tt
      by_result (some x) e =
          rw e (possible-IsPossible (codes "hook") (wrapped (codes "acp: response hook") x))

  decoded-IsPossible : (r : T × Option Err) → IsPossible (decoded codec c r)
  decoded-IsPossible (t, none) = run_hook-IsPossible t c.typed_hook
  decoded-IsPossible (t, some e) = possible-IsPossible (codes "wait") (response_decode e)

  decode_result-IsPossible : (raw : Bytes) → IsPossible (decode_result codec c raw)
  decode_result-IsPossible [] = run_hook-IsPossible c.zero_result c.typed_hook
  decode_result-IsPossible (b ∷ bs) = decoded-IsPossible (c.unmarshal (b ∷ bs))

  read_response-IsPossible :
      (m : AnyMessage) (e : Option RequestError) → IsPossible (read_response codec c m e)
  read_response-IsPossible m none = decode_result-IsPossible m.result
  read_response-IsPossible m (some e) = possible-IsPossible (codes "wait") (response_error e)

  observed-IsPossible : (m : AnyMessage) (e : Option Err) → IsPossible (observed codec c m e)
  observed-IsPossible m none = read_response-IsPossible m m.error
  observed-IsPossible m (some e) =
      possible-IsPossible (codes "observe") (wrapped (codes "acp: response observer") e)

  observe-IsPossible :
      (m : AnyMessage) (o : Option (RpcResponse → Option Err)) → IsPossible (observe codec c m o)
  observe-IsPossible m none = observed-IsPossible m none
  observe-IsPossible m (some o) = observed-IsPossible m (o (public_rpc_response codec m))

  after_barrier-IsPossible :
      (m : AnyMessage) (a b : Option Err) → IsPossible (after_barrier codec c m a b)
  after_barrier-IsPossible m none b = observe-IsPossible m c.observer
  after_barrier-IsPossible m (some e) (some cause) = possible-IsPossible (codes "wait") cause
  after_barrier-IsPossible m (some e) none = possible-IsPossible (codes "wait") e

-- Whatever fails once a response has arrived, be it the wait for the notifications before it, the
-- observer, the peer's error, the decoding or the hook: the error that the caller gets says that
-- the request may have been submitted.
pub complete_response-IsPossible :
    {T : Type 0} (codec : DataCodec) (c : Completing T) (m : AnyMessage) {e : Err}
    → (complete_response codec c m).1 ≡ some e
    → request_may_have_been_submitted (some e) ≡ true
unfolding complete_response
complete_response-IsPossible codec c m {e} h =
    of (complete_response codec c m) h
      (after_barrier-IsPossible codec c m c.waited_for c.context_cause)
  where
    of :
        {T : Type 0}
        → (r : T × Option Err × Bool) → r.1 ≡ some e
        → IsPossible r
        → request_may_have_been_submitted (some e) ≡ true
    of (t, none, b) k p = absurd cc
    of (t, some x, b) k p =
        subst (λ y. request_may_have_been_submitted (some y) ≡ true) (some-injective k) p
