-- ===== src/V2/Dispatch/Admission.antt =====
-- Which messages reach a method, for a switch whose cases have distinct names.
use acp_go_sdk.Base.{
  ◌≡◌, refl, ap, subst, ◌∙◌, ◌⊎◌, inl, inr, Bool, true, List, [], ◌∷◌, Option, none, some,
  Bool-cases, some-injective,
}
use acp_go_sdk.Bytes.{Bytes, equal, equal_iff}
use acp_go_sdk.Result.{Result, ok, err, guard, guard-ok, >>=-eq-ok, ok-injective}
use acp_go_sdk.V2.Initialization.{
  InboundKind, InboundInfo, inbound_request, inbound_notification, validate_request_id,
}
use acp_go_sdk.V2.Router.{refuse_if, refuse_if-ok}
use acp_go_sdk.V2.Dispatch.{
  Arm, mandatory, looked_up, looked_up_late, Surface, Handlers, effective, validated,
  decoded_params, same_kind, require_inbound_kind, find_method, decode_params, run_arm, run_case,
  admit_message,
}

-- What a call of a method stands on.
pub record IsAdmitted {surface : Surface} (handlers : Handlers surface)
    (is_request_id : Bytes → Bool) (info : Option InboundInfo) (method params : Bytes)
    (m : surface.Method) (value : handlers.Params m) : Type 0 where
  pub has_id : validate_request_id is_request_id info ≡ none
  pub is_named : method ≡ surface.wire_name m
  pub has_kind : (known : InboundInfo) × (info ≡ some known) × (known.kind ≡ surface.kind m)
  pub offered : (surface.arm m ≡ mandatory) ⊎ (handlers.offers m ≡ true)
  pub was_read : handlers.unmarshal m (effective params) ≡ ok value
  pub is_valid : handlers.validate m value ≡ none

same_kind-eq : (a b : InboundKind) → same_kind a b ≡ true → a ≡ b
same_kind-eq inbound_request inbound_request h = refl
same_kind-eq inbound_notification inbound_notification h = refl
same_kind-eq inbound_request inbound_notification h = absurd cc
same_kind-eq inbound_notification inbound_request h = absurd cc

same_kind_refl : (a : InboundKind) → same_kind a a ≡ true
same_kind_refl inbound_request = refl
same_kind_refl inbound_notification = refl

require-ok :
    (info : Option InboundInfo) (want : InboundKind) (method : Bytes) {u : Unit {0}}
    → require_inbound_kind info want method ≡ ok u
    → (known : InboundInfo) × (info ≡ some known) × (known.kind ≡ want)
unfolding require_inbound_kind
require-ok none want method h = absurd cc
require-ok (some known) want method h =
    (known, refl, same_kind-eq known.kind want (guard-ok (same_kind known.kind want) _ h))

abbrev good : {A : Type 0} → A → Result Bytes A
good a = ok a

decoded_params-ok :
    {A : Type 0} (check : A → Option Bytes) (read : Result Bytes A) {a : A}
    → decoded_params check read ≡ ok a
    → (read ≡ ok a) × (check a ≡ none)
decoded_params-ok check (err text) h = absurd cc
decoded_params-ok check (ok b) {a} h = by_check (check b) refl h
  where
    by_check :
        (found : Option Bytes)
        → check b ≡ found
        → validated b found ≡ ok a
        → (good b ≡ good a) × (check a ≡ none)
    by_check none e k =
        let same : b ≡ a = ok-injective refl k in (ap good same, subst (λ x. check x ≡ none) same e)
    by_check (some text) e k = absurd cc

find_method-name :
    (surface : Surface) (ms : List surface.Method) (name : Bytes) {m : surface.Method}
    → find_method surface ms name ≡ some m
    → name ≡ surface.wire_name m
unfolding find_method
find_method-name surface [] name h = absurd cc
find_method-name surface (k ∷ ms) name {m} h =
    elim (Bool-cases (equal name (surface.wire_name k))) [
      | inl found ↦
          let same : k ≡ m = some-injective (rw found at h) in
          subst (λ x. name ≡ surface.wire_name x) same
            ((equal_iff name (surface.wire_name k)).0 found)
      | inr other ↦ find_method-name surface ms name (rw other at h)
    ]

module _ {surface : Surface} (handlers : Handlers surface) where
  run_arm-ok :
      (m : surface.Method) (arm : Arm) (method params : Bytes) {value : handlers.Params m}
      → run_arm handlers m arm method params ≡ ok value
      → ((arm ≡ mandatory) ⊎ (handlers.offers m ≡ true))
        × (decode_params handlers m params ≡ ok value)
  unfolding run_arm
  run_arm-ok m mandatory method params h = (inl refl, h)
  run_arm-ok m looked_up method params h =
      let (_, offered, h1) = >>=-eq-ok (guard (handlers.offers m) _) _ h in
      (inr (guard-ok (handlers.offers m) _ offered), h1)
  run_arm-ok m looked_up_late method params h =
      let (v, decoded, h1) = >>=-eq-ok (decode_params handlers m params) _ h in
      let (_, offered, h2) = >>=-eq-ok (guard (handlers.offers m) _) _ h1 in
      (inr (guard-ok (handlers.offers m) _ offered), decoded ∙ h2)

  run_arm-of :
      (m : surface.Method) (arm : Arm) (method params : Bytes) {value : handlers.Params m}
      → (arm ≡ mandatory) ⊎ (handlers.offers m ≡ true)
      → decode_params handlers m params ≡ ok value
      → run_arm handlers m arm method params ≡ ok value
  unfolding run_arm
  run_arm-of m mandatory method params offered h = h
  run_arm-of m looked_up method params (inl never) h = absurd cc
  run_arm-of m looked_up method params (inr offered) h = rw offered h
  run_arm-of m looked_up_late method params (inl never) h = absurd cc
  run_arm-of m looked_up_late method params (inr offered) h = rw (h, offered) refl

  -- Whatever the switch, a method is called only as IsAdmitted says.
  pub admit_message-IsAdmitted :
      (is_request_id : Bytes → Bool) (info : Option InboundInfo) (method params : Bytes)
      (m : surface.Method) (value : handlers.Params m)
      → admit_message handlers is_request_id info method params ≡ ok (m, value)
      → IsAdmitted handlers is_request_id info method params m value
  unfolding admit_message run_case decode_params
  admit_message-IsAdmitted is_request_id info method params m value h =
      let (_, has_id, h1) = >>=-eq-ok (refuse_if (validate_request_id is_request_id info)) _ h in
      by_case (find_method surface surface.methods method) refl (refuse_if-ok _ has_id) h1
    where
      by_case :
          (found : Option surface.Method)
          → find_method surface surface.methods method ≡ found
          → validate_request_id is_request_id info ≡ none
          → run_case handlers found info method params ≡ ok (m, value)
          → IsAdmitted handlers is_request_id info method params m value
      by_case none e has_id k = absurd cc
      by_case (some n) e has_id k =
          let (_, has_kind, k1) =
            >>=-eq-ok (require_inbound_kind info (surface.kind n) method) _ k in
          let (v, ran, k2) = >>=-eq-ok (run_arm handlers n (surface.arm n) method params) _ k1 in
          let (offered, decoded) = run_arm-ok n (surface.arm n) method params ran in
          let (was_read, is_valid) = decoded_params-ok (handlers.validate n) _ decoded in
          subst (λ c. IsAdmitted handlers is_request_id info method params c.0 c.1)
            (ok-injective refl k2)
            (record {
              has_id = has_id;
              is_named = find_method-name surface surface.methods method e;
              has_kind = require-ok info (surface.kind n) method has_kind;
              offered = offered;
              was_read = was_read;
              is_valid = is_valid;
            })

  pub IsAdmitted-admit_message :
      (is_request_id : Bytes → Bool) (info : Option InboundInfo) (method params : Bytes)
      (m : surface.Method) (value : handlers.Params m)
      → find_method surface surface.methods (surface.wire_name m) ≡ some m
      → IsAdmitted handlers is_request_id info method params m value
      → admit_message handlers is_request_id info method params ≡ ok (m, value)
  unfolding admit_message run_case require_inbound_kind decode_params
  IsAdmitted-admit_message is_request_id info method params m value found a =
      let (known, at, of_kind) = a.has_kind in
      let decoded : decode_params handlers m params ≡ ok value = rw (a.was_read, a.is_valid) refl in
      let ran : run_arm handlers m (surface.arm m) method params ≡ ok value =
        run_arm-of m (surface.arm m) method params a.offered decoded in
      rw
        (
          a.has_id,
          a.is_named,
          found,
          at,
          of_kind,
          same_kind_refl (surface.kind m),
          subst (λ n. run_arm handlers m (surface.arm m) n params ≡ ok value) a.is_named ran,
        )
        refl
