-- ===== src/V2/Dispatch.antt =====
-- experimental/v2/conn.go: how a connection of version 2 gets from a message to the method of its
-- agent or client. Surface has the switch of each side.
pub mod Admission
pub mod Surfaces
use acp_go_sdk.Base.{Bool, true, false, not, ◌||◌, List, [], ◌∷◌, Option, none, some, if◌then◌else◌}
use acp_go_sdk.Bytes.{Bytes, codes, equal, trim_space}
use acp_go_sdk.Error.{
  RequestError, no_data, error_entry, new_invalid_params, new_method_not_found, new_internal_error,
  new_request_cancelled,
}
use acp_go_sdk.Result.{Result, ok, err, ◌>>=◌, ◌>>◌, guard}
use acp_go_sdk.V2.Initialization.{
  InboundKind, InboundInfo, inbound_request, inbound_notification, validate_request_id,
}
use acp_go_sdk.V2.Router.{refuse_if}

-- What a case of the switch does between the kind of the message and the call: read the
-- parameters; look for the method, then read them; or read them, then look for the method.
pub data Arm : Type 0 where
  mandatory looked_up looked_up_late : Arm

-- The cases of a switch, in their order.
pub record Surface : Type 1 where
  pub Method : Type 0
  pub methods : List Method
  pub wire_name : Method → Bytes
  pub kind : Method → InboundKind
  pub arm : Method → Arm

-- What the code reads of an error that a handler returns: the RequestError that errors.As finds,
-- whether errors.Is finds a context's error, and its text.
pub record Failure : Type 0 where
  pub request_error : Option RequestError
  pub is_context_error : Bool
  pub text : Bytes

-- An agent or a client: the types of its parameters, which methods it has, and what they return,
-- where `none` is a nil result. An error of encoding/json or of Validate is its text.
pub record Handlers (surface : Surface) : Type 1 where
  pub Params : surface.Method → Type 0
  pub unmarshal : (m : surface.Method) → Bytes → Result Bytes (Params m)
  pub validate : (m : surface.Method) → Params m → Option Bytes
  pub offers : surface.Method → Bool
  pub perform : (m : surface.Method) → Params m → Result Failure (Option Bytes)

-- decodeParams: no parameters and null stand for an empty object.
unfoldable pub effective : Bytes → Bytes
effective params =
    if equal (trim_space params) [] || equal (trim_space params) (codes "null")
    then codes "{}"
    else params

abbrev pub validated : {A : Type 0} → A → Option Bytes → Result RequestError A
validated a none = ok a
validated a (some text) = err (new_invalid_params (error_entry text))

abbrev pub decoded_params :
    {A : Type 0} → (A → Option Bytes) → Result Bytes A → Result RequestError A
decoded_params check (err text) = err (new_invalid_params (error_entry text))
decoded_params check (ok a) = validated a (check a)

abbrev pub same_kind : InboundKind → InboundKind → Bool
same_kind inbound_request inbound_request = true
same_kind inbound_notification inbound_notification = true
same_kind _ _ = false

-- requireInboundKind.
unfoldable pub require_inbound_kind :
    Option InboundInfo → InboundKind → Bytes → Result RequestError (Unit {0})
require_inbound_kind none want method =
    err (new_internal_error (error_entry (codes "ACP inbound message metadata is unavailable")))
require_inbound_kind (some info) want method =
    guard (same_kind info.kind want) (new_method_not_found method)

-- toRequestError.
unfoldable pub to_request_error : Failure → RequestError
to_request_error f = elim f.request_error [
  | some e ↦ e
  | none ↦
      if f.is_context_error
      then new_request_cancelled (error_entry f.text)
      else new_internal_error (error_entry f.text)
]

abbrev pub reply_of : {A : Type 0} → Result Failure A → Result RequestError A
reply_of (ok a) = ok a
reply_of (err f) = err (to_request_error f)

-- The case of the switch that a method belongs to.
unfoldable pub find_method :
    (surface : Surface) → List surface.Method → Bytes → Option surface.Method
find_method surface [] name = none
find_method surface (m ∷ ms) name =
    if equal name (surface.wire_name m) then some m else find_method surface ms name

module _ {surface : Surface} (handlers : Handlers surface) where
  unfoldable pub decode_params :
      (m : surface.Method) → Bytes → Result RequestError (handlers.Params m)
  decode_params m params =
      decoded_params (handlers.validate m) (handlers.unmarshal m (effective params))

  unfoldable pub run_arm :
      (m : surface.Method) → Arm → (method params : Bytes) → Result RequestError (handlers.Params m)
  run_arm m mandatory method params = decode_params m params
  run_arm m looked_up method params = do
    guard (handlers.offers m) (new_method_not_found method)
    decode_params m params
  run_arm m looked_up_late method params = do
    value ← decode_params m params
    guard (handlers.offers m) (new_invalid_params no_data)
    ok value

  -- A method with the parameters that it is called with.
  abbrev pub Invocation : Type 0
  Invocation = (m : surface.Method) × handlers.Params m

  unfoldable pub run_case :
      Option surface.Method
      → Option InboundInfo
      → (method params : Bytes) → Result RequestError Invocation
  run_case none info method params = err (new_method_not_found method)
  run_case (some m) info method params = do
    require_inbound_kind info (surface.kind m) method
    value ← run_arm m (surface.arm m) method params
    ok (m, value)

  -- The handler up to the call of the method.
  unfoldable pub admit_message :
      (Bytes → Bool) → Option InboundInfo → (method params : Bytes) → Result RequestError Invocation
  admit_message is_request_id info method params = do
    refuse_if (validate_request_id is_request_id info)
    run_case (find_method surface surface.methods method) info method params

  unfoldable pub invoke :
      (Bytes → Bool)
      → Option InboundInfo
      → (method params : Bytes) → Result RequestError (Option Bytes)
  invoke is_request_id info method params =
      admit_message is_request_id info method params >>= λ invocation.
      reply_of (handlers.perform invocation.0 invocation.1)
