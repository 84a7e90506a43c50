-- ===== src/V2/Rewriting.antt =====
-- What a router's handlers get of an initialize.
use acp_go_sdk.Base.{◌<◌, ◌≤◌, ℕ, ◌≡◌, refl, ◌⊎◌, false, [], ◌∷◌, Option, none, some, arith}
use acp_go_sdk.Bytes.{Bytes, codes}
use acp_go_sdk.Message.{lookup}
use acp_go_sdk.Result.{Result, ok}
use acp_go_sdk.V2.Initialization.{Initialization, InboundInfo}
use acp_go_sdk.V2.Handshake.{v1, v2, Version, number}
use acp_go_sdk.V2.Fields.{
  normalize_initialize, Fields, InitializeCodec, remove_field, protocol_version_from_initialize,
}
use acp_go_sdk.V2.Router.{Router, choose, version_text, is_notification}

remove_field-lookup : (k : Bytes) (fs : Fields) → lookup k (remove_field k fs) ≡ none
unfolding lookup remove_field
remove_field-lookup k [] = refl
remove_field-lookup k ((j, v) ∷ fs) = ground (arith, remove_field-lookup k fs)

-- What the handler is given: the parameters as they came, where the version asked for is served as
-- such, or an object whose protocolVersion is the version that serves it.
abbrev pub HasVersion :
    InitializeCodec → Version → (requested : ℕ) → (before after : Bytes) → Type 0
HasVersion json v requested before after =
    ((number v ≡ requested) × (after ≡ before))
    ⊎ ((fs : Fields) × (json.encode_fields fs ≡ ok after)
        × (lookup (codes "protocolVersion") fs ≡ some (version_text v)))

-- Where version 2 serves or was asked for, the parameters are those that normalizeInitialize
-- returns; where version 1 was asked for and serves, they are as they came.
abbrev pub IsNormal : InitializeCodec → Version → (requested : ℕ) → (params normal : Bytes) → Type 0
IsNormal json v requested params normal =
    (((v ≡ v2) ⊎ (2 ≤ requested))
      × (normalize_initialize json params requested (number v) ≡ ok normal))
    ⊎ ((v ≡ v1) × (requested < 2) × (normal ≡ params))

-- What a successful negotiation went through.
pub record IsNegotiated (json : InitializeCodec) (r : Router) (info : Option InboundInfo)
    (params : Bytes) (v : Version) (final : Bytes) : Type 0 where
  pub requested : ℕ
  pub normal : Bytes
  pub read : protocol_version_from_initialize json params ≡ ok requested
  pub chose : choose r requested ≡ some v
  pub was_request : is_notification info ≡ false
  pub is_normal : IsNormal json v requested params normal
  pub has_version : HasVersion json v requested normal final
