-- ===== src/V2/Fallback.antt =====
-- The capabilities that reach the handler of version 1 from a client that asked for version 2.
use acp_go_sdk.Base.{
  ap, ◌⊎◌, Bool, ◌≡◌, refl, ◌∙◌, inl, inr, true, false, [], ◌∷◌, Option, none, some, if◌then◌else◌,
  arith, Bool-cases, subst,
}
use acp_go_sdk.Bytes.{Bytes, codes, equal, equal_iff}
use acp_go_sdk.Message.{lookup}
use acp_go_sdk.Result.{err, Result, ok, >>=-eq-ok, ok-injective}
use acp_go_sdk.V2.Fields.{
  bool_text, Fields, InitializeCodec, AuthCapabilities, put_field, remove_field, copy_field,
  copied_capabilities, auth_fields, v1_capabilities,
}

lookup-remove_field :
    (k j : Bytes) (fs : Fields)
    → lookup k (remove_field j fs) ≡ (if equal j k then none else lookup k fs)
unfolding lookup remove_field
lookup-remove_field k j [] = ground arith
lookup-remove_field k j ((i, v) ∷ fs) =
    ground (arith, equal_iff i j, equal_iff i k, equal_iff j k, lookup-remove_field k j fs)

pub lookup-put_field :
    (k j v : Bytes) (fs : Fields)
    → lookup k (put_field j v fs) ≡ (if equal j k then some v else lookup k fs)
unfolding lookup
lookup-put_field k j v fs = ground (arith, lookup-remove_field k j fs)

module _ (k j : Bytes) (source fs : Fields) where
  copy_field-other : equal j k ≡ false → lookup k (copy_field j source fs) ≡ lookup k fs
  copy_field-other ne = split (lookup j source) refl
    where
      split :
          (found : Option Bytes)
          → lookup j source ≡ found
          → lookup k (copy_field j source fs) ≡ lookup k fs
      split none e = rw (e, copy_field) refl
      split (some raw) e = rw (e, copy_field) (lookup-put_field k j raw fs ∙ rw ne refl)

  copy_field-same :
      equal j k ≡ true → lookup k fs ≡ none → lookup k (copy_field j source fs) ≡ lookup j source
  copy_field-same same absent = split (lookup j source) refl
    where
      split :
          (found : Option Bytes)
          → lookup j source ≡ found
          → lookup k (copy_field j source fs) ≡ lookup j source
      split none e = rw (e, copy_field) absent
      split (some raw) e = rw (e, copy_field) (lookup-put_field k j raw fs ∙ rw same refl)

abbrev pub Copies : Fields → Bytes → Option Bytes → Type 0
Copies source key found = found ≡ (
    if equal (codes "elicitation") key
    then lookup (codes "elicitation") source
    else if equal (codes "_meta") key
    then lookup (codes "_meta") source
    else none)

copied_capabilities-lookup :
    (source : Fields) (key : Bytes) → Copies source key (lookup key (copied_capabilities source))
unfolding copied_capabilities
copied_capabilities-lookup source key =
    let el = codes "elicitation" in
    let empty : lookup {V = Bytes} key [] ≡ none = unfold lookup in refl in
    elim (Bool-cases (equal (codes "_meta") key)) [
      | inr not_meta ↦ elim (Bool-cases (equal el key)) [
        | inl is_el ↦
            copy_field-other key (codes "_meta") source (copy_field el source []) not_meta
            ∙ copy_field-same key el source [] is_el empty
            ∙ rw is_el refl
        | inr not_el ↦
            copy_field-other key (codes "_meta") source (copy_field el source []) not_meta
            ∙ copy_field-other key el source [] not_el
            ∙ empty
            ∙ rw (not_el, not_meta) refl
      ]
      | inl is_meta ↦
          let not_el : equal el key ≡ false =
            subst (λ k. equal el k ≡ false) ((equal_iff (codes "_meta") key).0 is_meta)
              (unfold equal in refl) in
          copy_field-same key (codes "_meta") source (copy_field el source []) is_meta
            (copy_field-other key el source [] not_el ∙ empty)
          ∙ rw (not_el, is_meta) refl
    ]

-- _meta is what json.Marshal makes of the client's, and missing where that is nil.
abbrev pub HasMeta : Option (Result Bytes Bytes) → Option Bytes → Type 0
HasMeta none found = found ≡ none
HasMeta (some encoded) found = (raw : Bytes) × (encoded ≡ ok raw) × (found ≡ some raw)

-- The translation of auth has terminal and _meta, and no other field.
abbrev pub IsAuth : AuthCapabilities → Fields → Type 0
IsAuth auth inner =
    (lookup (codes "terminal") inner
      ≡ some (if auth.has_terminal then codes "true" else codes "false"))
    × HasMeta auth.meta (lookup (codes "_meta") inner)
    × ((key : Bytes)
        → (equal (codes "terminal") key ≡ true)
          ⊎ ((equal (codes "_meta") key ≡ true) ⊎ (lookup key inner ≡ none)))

-- auth is missing, or the encoding of its translation.
abbrev pub Translates : InitializeCodec → Option AuthCapabilities → Option Bytes → Type 0
Translates json none found = found ≡ none
Translates json (some auth) found =
    (inner : Fields) × (raw : Bytes) × IsAuth auth inner
    × (json.encode_fields inner ≡ ok raw)
    × (found ≡ some raw)

-- What the handler of version 1 finds under a key.
abbrev pub IsSeen :
    InitializeCodec → Fields → Option AuthCapabilities → Bytes → Option Bytes → Type 0
IsSeen json source auth key found =
    ((equal (codes "auth") key ≡ true) × Translates json auth found)
    ⊎ ((equal (codes "auth") key ≡ false) × Copies source key found)

-- The entry for terminal, as it is or after _meta.
terminal_only :
    (t key : Bytes)
    → (equal (codes "terminal") key ≡ true) ⊎ (lookup key ((codes "terminal", t) ∷ []) ≡ none)
unfolding lookup
terminal_only t key = elim (Bool-cases (equal (codes "terminal") key)) [
  | inl same ↦ inl same
  | inr other ↦ inr (rw other refl)
]

terminal_and_meta :
    (t raw key : Bytes)
    → (equal (codes "terminal") key ≡ true)
      ⊎ ((equal (codes "_meta") key ≡ true)
          ⊎ (lookup key (put_field (codes "_meta") raw ((codes "terminal", t) ∷ [])) ≡ none))
terminal_and_meta t raw key = elim (Bool-cases (equal (codes "_meta") key)) [
  | inl same ↦ inr (inl same)
  | inr other ↦ elim (terminal_only t key) [
    | inl terminal ↦ inl terminal
    | inr absent ↦ inr (
        inr
          (lookup-put_field key (codes "_meta") raw ((codes "terminal", t) ∷ []) ∙ rw other absent))
  ]
]

bool_text_if : (b : Bool) → bool_text b ≡ (if b then codes "true" else codes "false")
bool_text_if true = refl
bool_text_if false = refl

auth_fields-IsAuth :
    (terminal : Bool) (meta : Option (Result Bytes Bytes)) {inner : Fields}
    → auth_fields (record { has_terminal = terminal; meta = meta }) ≡ ok inner
    → IsAuth (record { has_terminal = terminal; meta = meta }) inner
unfolding auth_fields lookup remove_field equal
auth_fields-IsAuth t none h =
    subst (IsAuth (record { has_terminal = t; meta = none })) (ok-injective refl h) (
      ap some (bool_text_if t),
      refl,
      λ key. elim (terminal_only (bool_text t) key) [
        | inl terminal ↦ inl terminal
        | inr absent ↦ inr (inr absent)
      ],
    )
auth_fields-IsAuth t (some (err e)) h = absurd cc
auth_fields-IsAuth t (some (ok raw)) h =
    subst (IsAuth (record { has_terminal = t; meta = some (ok raw) })) (ok-injective refl h)
      (ap some (bool_text_if t), (raw, refl, refl), terminal_and_meta (bool_text t) raw)

copied_capabilities-auth :
    (source : Fields) (key : Bytes)
    → equal (codes "auth") key ≡ true
    → lookup key (copied_capabilities source) ≡ none
unfolding equal
copied_capabilities-auth source key same =
    subst (λ k. lookup k (copied_capabilities source) ≡ none)
      ((equal_iff (codes "auth") key).0 same) (copied_capabilities-lookup source (codes "auth"))

-- Of the capabilities of a version 2 client, the handler of version 1 sees elicitation and _meta as
-- the client gave them; auth, where the client gave it, as an object of the client's terminal and
-- _meta alone; and no other, so that no unknown capability enables anything.
pub v1_capabilities-lookup :
    (json : InitializeCodec) (source : Fields) (auth : Option AuthCapabilities) {fs : Fields}
    (key : Bytes)
    → v1_capabilities json source auth ≡ ok fs
    → IsSeen json source auth key (lookup key fs)
unfolding v1_capabilities
v1_capabilities-lookup json source none {fs} key h =
    subst (λ x. IsSeen json source none key (lookup key x)) (ok-injective refl h)
      (elim (Bool-cases (equal (codes "auth") key)) [
        | inl same ↦ inl (same, copied_capabilities-auth source key same)
        | inr other ↦ inr (other, copied_capabilities-lookup source key)
      ])
v1_capabilities-lookup json source (some auth) {fs} key h =
    let (inner, a, h1) = >>=-eq-ok (auth_fields auth) _ h in
    let (raw, b, h2) = >>=-eq-ok (json.encode_fields inner) _ h1 in
    let found = lookup-put_field key (codes "auth") raw (copied_capabilities source) in
    subst (λ x. IsSeen json source (some auth) key (lookup key x)) (ok-injective refl h2)
      (elim (Bool-cases (equal (codes "auth") key)) [
        | inl same ↦ inl (
          same,
          (inner, raw, auth_fields-IsAuth auth.has_terminal auth.meta a, b, found ∙ rw same refl),
        )
        | inr other ↦ inr (other, found ∙ rw other (copied_capabilities-lookup source key))
      ])
