-- ===== src/Message.antt =====
-- connection.go, anyMessage: one JSON-RPC message, and what the code relies on of encoding/json to
-- read one.
use acp_go_sdk.Base.{Bool, true, false, List, [], ◌∷◌, Option, none, some, if◌then◌else◌}
use acp_go_sdk.Bytes.{Bytes, codes, equal}
use acp_go_sdk.Error.{RequestError}

-- Raw JSON values are bytes; an omitted value is the empty string, a nil id is `none`.
pub record AnyMessage : Type 0 where
  pub jsonrpc : Bytes
  pub id : Option Bytes
  pub method : Bytes
  pub params : Bytes
  pub result : Bytes
  pub error : Option RequestError

abbrev pub no_message : AnyMessage
no_message = record { jsonrpc = []; id = none; method = []; params = []; result = []; error = none }

pub record Json : Type 0 where
  -- json.Valid.
  pub valid : Bytes → Bool
  -- json.Unmarshal into the fields of wireMessage, for which an id of null is a nil id.
  pub decode_wire : Bytes → Option AnyMessage
  -- json.Unmarshal into map[string]json.RawMessage: the last value of each key.
  pub decode_fields : Bytes → Option (List (Bytes × Bytes))
  -- json.Unmarshal into []json.RawMessage.
  pub decode_elements : Bytes → Option (List Bytes)

unfoldable pub lookup {ℓ} : {V : Type ℓ} → Bytes → List (Bytes × V) → Option V
lookup k [] = none
lookup k ((j, v) ∷ m) = if equal j k then some v else lookup k m

abbrev pub is_some {ℓ} : {A : Type ℓ} → Option A → Bool
is_some none = false
is_some (some a) = true

-- The id as the wire has it, null included.
abbrev with_raw_id : AnyMessage → Option Bytes → AnyMessage
with_raw_id m none = m
with_raw_id m (some raw) = record m { id = some raw }

infixl 5 ◌>>=◌
abbrev ◌>>=◌ {ℓ κ} : {A : Type ℓ} {B : Type κ} → Option A → (A → Option B) → Option B
none >>= f = none
some a >>= f = f a

-- anyMessage.UnmarshalJSON.
unfoldable pub unmarshal_message : Json → Bytes → Option AnyMessage
unfolding lookup equal
unmarshal_message json text = do
  decoded ← json.decode_wire text
  fields ← json.decode_fields text
  some (with_raw_id decoded (lookup (codes "id") fields))
