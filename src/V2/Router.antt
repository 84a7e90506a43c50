-- ===== src/V2/Router.antt =====
-- experimental/v2/negotiate.go: ProtocolRouter.Handle, up to the call of the handler.
use acp_go_sdk.Base.{
  ◌≡◌, refl, ◌≡◌, ℕ, Bool, true, false, not, ◌&&◌, ◌||◌, List, [], ◌∷◌, ◌++◌, Option, none, some,
  leb, ◌==◌, if◌then◌else◌,
}
use acp_go_sdk.Bytes.{Bytes, codes, equal}
use acp_go_sdk.Error.{
  RequestError, no_data, error_entry, new_invalid_request, new_invalid_params, new_method_not_found,
}
use acp_go_sdk.Result.{Result, ok, err, ◌>>=◌, ◌>>◌, guard}
use acp_go_sdk.V2.Initialization.{
  Initialization, InboundInfo, is_inbound_request, begin, route, check_repeat_version,
  new_unsupported_protocol_version, validate_request_id,
}
use acp_go_sdk.V2.Handshake.{Version, v1, v2, number}
use acp_go_sdk.V2.Fields.{
  Fields, InitializeCodec, put_field, protocol_version_from_initialize, normalize_initialize,
  v1_initialize_fields,
}

-- SelectProtocolVersion, without the text of its error, which no caller reads.
unfoldable pub select_protocol_version : ℕ → Option ℕ
select_protocol_version requested = if leb 2 requested then some 2 else none

-- Which handlers the router has.
pub record Router : Type 0 where
  pub has_v1 : Bool
  pub has_v2 : Bool

-- The switch over the handlers; `none` stands for a nil handler.
unfoldable pub choose : Router → ℕ → Option Version
choose r requested =
    if r.has_v1 && not r.has_v2
    then some v1
    else if leb 2 requested && r.has_v2
    then some v2
    else if leb 1 requested && r.has_v1
    then some v1
    else none

unfoldable pub supported : Router → List ℕ
supported r = (if r.has_v1 then 1 ∷ [] else []) ++ (if r.has_v2 then 2 ∷ [] else [])

-- What Handle returns or calls: the handler of a version with its method and parameters.
pub data Routed : Type 0 where
  replies : RequestError → Routed
  calls : Version → (method params : Bytes) → Routed

abbrev pub refuse_if : Option RequestError → Result RequestError (Unit {0})
refuse_if none = ok tt
refuse_if (some e) = err e

-- An error of encoding/json or of the version is reported by its text.
abbrev pub invalid_unless {ℓ} : {A : Type ℓ} → Result Bytes A → Result RequestError A
invalid_unless (ok a) = ok a
invalid_unless (err text) = err (new_invalid_params (error_entry text))

abbrev pub is_v2 : Version → Bool
is_v2 v1 = false
is_v2 v2 = true

abbrev pub version_text : Version → Bytes
version_text v1 = codes "1"
version_text v2 = codes "2"

-- Handle, for a method other than initialize, once the version is read.
abbrev pub forward :
    (Bytes → Bool) → Option InboundInfo → (method params : Bytes) → ℕ → Bool → Routed
forward is_request_id info method params selected true = replies (new_invalid_request no_data)
forward is_request_id info method params selected false =
    if selected == 2
    then elim (validate_request_id is_request_id info) [
      | some e ↦ replies e
      | none ↦ calls v2 method params
    ]
    else if selected == 1
    then calls v1 method params
    else replies
        (new_invalid_request (error_entry (codes "initialize must succeed before other methods")))

unfoldable pub handle_method :
    (Bytes → Bool)
    → Initialization
    → Option InboundInfo
    → (method params : Bytes) → Initialization × Routed
handle_method is_request_id s info method params =
    let (s', selected, pending) = route s info in
    (s', forward is_request_id info method params selected pending)

-- The parameters for the handler that was chosen: normalised, then with the version replaced.
unfoldable pub normalized : InitializeCodec → Version → ℕ → Bytes → Result RequestError Bytes
normalized json v requested params =
    if is_v2 v || leb 2 requested
    then invalid_unless (normalize_initialize json params requested (number v))
    else ok params

unfoldable pub converted : InitializeCodec → Version → ℕ → Bytes → Fields → Result Bytes Fields
converted json v requested params fs =
    if not (is_v2 v) && leb 2 requested then v1_initialize_fields json params fs else ok fs

unfoldable pub rewritten : InitializeCodec → Version → ℕ → Bytes → Result RequestError Bytes
rewritten json v requested params = if number v == requested then ok params else do
  fs ← invalid_unless (json.decode_fields params)
  converted_fs ← invalid_unless (converted json v requested params fs)
  invalid_unless
      (json.encode_fields (put_field (codes "protocolVersion") (version_text v) converted_fs))

abbrev pub chosen_or_unsupported : Router → ℕ → Option Version → Result RequestError Version
chosen_or_unsupported r requested (some v) = ok v
chosen_or_unsupported r requested none =
    err (new_unsupported_protocol_version requested (supported r))

abbrev pub is_notification : Option InboundInfo → Bool
is_notification none = false
is_notification (some info) = not (is_inbound_request info.kind)

-- Handle, for initialize, up to the attempt: the version and the parameters for its handler.
unfoldable pub negotiate :
    InitializeCodec
    → Router
    → Initialization
    → Option InboundInfo
    → (method params : Bytes) → Result RequestError (Version × Bytes)
negotiate json r s info method params = do
  guard (not (is_notification info)) (new_method_not_found method)
  requested ← invalid_unless (protocol_version_from_initialize json params)
  refuse_if (check_repeat_version s requested)
  v ← chosen_or_unsupported r requested (choose r requested)
  refuse_if (if is_v2 v then validate_request_id json.is_request_id info else none)
  normal ← normalized json v requested params
  final ← rewritten json v requested normal
  ok (v, final)

abbrev pub attempted :
    Initialization → (method : Bytes) → Version → Bytes → Option RequestError → Routed
attempted s method v params none = calls v method params
attempted s method v params (some e) = replies e

abbrev pub begin_attempt :
    Initialization
    → (method : Bytes) → Result RequestError (Version × Bytes)
    → Initialization × Routed
begin_attempt s method (err e) = (s, replies e)
begin_attempt s method (ok (v, params)) =
    let (s', refusal) = begin s (number v) in (s', attempted s' method v params refusal)

-- Handle, for initialize, up to the call; `finish` follows with what the handler returns. The
-- state may have changed between checkRepeatVersion, which sees `checked`, and begin.
unfoldable pub handle_initialize :
    InitializeCodec
    → Router
    → (checked s : Initialization) → Option InboundInfo
    → (method params : Bytes) → Initialization × Routed
handle_initialize json r checked s info method params =
    begin_attempt s method (negotiate json r checked info method params)

-- Handle.
unfoldable pub handle :
    InitializeCodec
    → Router
    → (checked s : Initialization) → Option InboundInfo
    → (method params : Bytes) → Initialization × Routed
handle json r checked s info method params =
    if equal method (codes "initialize")
    then handle_initialize json r checked s info method params
    else handle_method json.is_request_id s info method params

pub invalid_unless-ok :
    {A : Type 0} (m : Result Bytes A) {a : A} → invalid_unless m ≡ ok a → m ≡ ok a
invalid_unless-ok (ok b) h = cc
invalid_unless-ok (err e) h = absurd cc

pub refuse_if-ok : (e : Option RequestError) {u : Unit {0}} → refuse_if e ≡ ok u → e ≡ none
refuse_if-ok none h = refl
refuse_if-ok (some e) h = absurd cc
