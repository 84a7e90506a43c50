-- ===== src/V2/Fields.antt =====
-- experimental/v2: the parameters of initialize, read and rewritten field by field. A Go map from
-- strings to raw values is a list of its entries.
use acp_go_sdk.Base.{
  ℕ, Bool, true, false, not, ◌&&◌, ◌||◌, List, [], ◌∷◌, Option, none, some, ltb, if◌then◌else◌,
}
use acp_go_sdk.Bytes.{Bytes, codes, equal, trim_space}
use acp_go_sdk.Message.{lookup}
use acp_go_sdk.Result.{Result, ok, err, ◌>>=◌}

abbrev pub Fields : Type 0
Fields = List (Bytes × Bytes)

-- request.Capabilities.Auth of an InitializeRequest: whether it has Terminal, and what json.Marshal
-- makes of its Meta, where that is not nil.
pub record AuthCapabilities : Type 0 where
  pub has_terminal : Bool
  pub meta : Option (Result Bytes Bytes)

-- encoding/json, for the types that initialize reads; an error is its text.
pub record InitializeCodec : Type 0 where
  -- Into a struct whose one field is a pointer to a ProtocolVersion.
  pub decode_version : Bytes → Result Bytes (Option ℕ)
  -- Into map[string]json.RawMessage, where null gives an empty map, and back, where a nil value is
  -- written as null.
  pub decode_fields : Bytes → Result Bytes Fields
  pub encode_fields : Fields → Result Bytes Bytes
  -- Whether a value can be read as an Implementation, as ClientCapabilities, as a map.
  pub is_implementation : Bytes → Bool
  pub is_capabilities : Bytes → Bool
  pub is_meta : Bytes → Bool
  -- Into InitializeRequest, of which Capabilities.Auth is read, and its Validate.
  pub decode_auth : Bytes → Result Bytes (Option AuthCapabilities)
  pub validate_request : Bytes → Result Bytes (Unit {0})
  -- Whether a value can be read as a RequestId.
  pub is_request_id : Bytes → Bool

unfoldable pub remove_field : Bytes → Fields → Fields
remove_field k [] = []
remove_field k ((j, v) ∷ fs) = if equal j k then remove_field k fs else (j, v) ∷ remove_field k fs

-- An assignment to the map.
abbrev pub put_field : Bytes → Bytes → Fields → Fields
put_field k v fs = (k, v) ∷ remove_field k fs

-- `len(raw) > 0`, where the key may be missing.
abbrev pub filled : Option Bytes → Bool
filled none = false
filled (some []) = false
filled (some (c ∷ cs)) = true

-- `raw`, nil where the key is missing.
abbrev pub raw_of : Option Bytes → Bytes
raw_of none = []
raw_of (some raw) = raw

-- ProtocolVersionFromInitialize.
unfoldable pub protocol_version_from_initialize : InitializeCodec → Bytes → Result Bytes ℕ
protocol_version_from_initialize json params = json.decode_version params >>= λ version.
    elim version [ none ↦ err (codes "protocolVersion is required") | some v ↦ ok v ]

abbrev pub unknown_implementation : Bytes
unknown_implementation = codes "{\"name\":\"unknown\",\"version\":\"unknown\"}"

unfoldable pub with_info : InitializeCodec → Fields → Fields
with_info json fs =
    let raw = lookup (codes "info") fs in
    if not (filled raw)
      || not (json.is_implementation (raw_of raw))
      || equal (trim_space (raw_of raw)) (codes "null")
    then put_field (codes "info") unknown_implementation fs
    else fs

-- A field that is known and cannot be read is dropped.
unfoldable pub drop_unless : (Bytes → Bool) → Bytes → Fields → Fields
drop_unless readable key fs =
    if filled (lookup key fs) && not (readable (raw_of (lookup key fs)))
    then remove_field key fs
    else fs

-- normalizeInitialize, between reading and writing.
unfoldable pub normalize_fields : InitializeCodec → Fields → ℕ → ℕ → Fields
normalize_fields json fs requested selected =
    let versioned = put_field (codes "protocolVersion") (codes "2") fs in
    if ltb selected requested
    then drop_unless json.is_meta (codes "_meta")
        (drop_unless json.is_capabilities (codes "capabilities") (with_info json versioned))
    else versioned

unfoldable pub normalize_initialize : InitializeCodec → Bytes → ℕ → ℕ → Result Bytes Bytes
normalize_initialize json params requested selected = json.decode_fields params >>= λ fs.
    json.encode_fields (normalize_fields json fs requested selected)

-- v1InitializeFields: the capabilities that are copied as they are.
abbrev pub copy_field : Bytes → Fields → Fields → Fields
copy_field key source fs = elim (lookup key source) [ none ↦ fs | some raw ↦ put_field key raw fs ]

unfoldable pub copied_capabilities : Fields → Fields
copied_capabilities source =
    copy_field (codes "_meta") source (copy_field (codes "elicitation") source [])

abbrev pub bool_text : Bool → Bytes
bool_text true = codes "true"
bool_text false = codes "false"

unfoldable pub auth_fields : AuthCapabilities → Result Bytes Fields
auth_fields auth =
    let terminal = (codes "terminal", bool_text auth.has_terminal) ∷ [] in
    elim auth.meta [
      | none ↦ ok terminal
      | some meta ↦ meta >>= λ raw. ok (put_field (codes "_meta") raw terminal)
    ]

unfoldable pub v1_capabilities :
    InitializeCodec → Fields → Option AuthCapabilities → Result Bytes Fields
v1_capabilities json source none = ok (copied_capabilities source)
v1_capabilities json source (some auth) = auth_fields auth >>= λ fs.
    json.encode_fields fs >>= λ raw. ok (put_field (codes "auth") raw (copied_capabilities source))

unfoldable pub capability_source : InitializeCodec → Option Bytes → Result Bytes Fields
capability_source json none = ok []
capability_source json (some raw) = json.decode_fields raw

abbrev pub v1_result : Fields → Bytes → Fields
v1_result fs capabilities = copy_field (codes "_meta") fs (
    (codes "clientInfo", raw_of (lookup (codes "info") fs))
    ∷ (codes "clientCapabilities", capabilities)
    ∷ [])

-- v1InitializeFields.
unfoldable pub v1_initialize_fields : InitializeCodec → Bytes → Fields → Result Bytes Fields
v1_initialize_fields json params fs = json.decode_auth params >>= λ auth.
    json.validate_request params >>= λ _.
    capability_source json (lookup (codes "capabilities") fs) >>= λ source.
    v1_capabilities json source auth >>= λ capabilities.
    json.encode_fields capabilities >>= λ raw. ok (v1_result fs raw)
