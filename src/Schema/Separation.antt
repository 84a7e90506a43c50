-- ===== src/Schema/Separation.antt =====
-- merge.go: the references of copies and of shared definitions.
use acp_go_sdk.Base.{
  ◌≡◌, ◌⊎◌, inl, inr, refl, sym, subst, ◌∙◌, Bool, true, false, not, List, [], ◌∷◌, ◌++◌, Option,
  none, some, arith, Bool-cases, some-injective,
}
use acp_go_sdk.Bytes.{Bytes, codes}
use acp_go_sdk.Result.{ok}
use acp_go_sdk.Schema.{Definition, collect_definition_refs, Schema, has_key, definition, has_name}
use acp_go_sdk.Schema.Names.{has_name-cons}
use acp_go_sdk.Schema.Loop.{nothing_waits}
use acp_go_sdk.Schema.Duplicates.{any_name, new_or_changed, build_unstable_duplicate_set}
use acp_go_sdk.Schema.DuplicateSet.{IsDuplicateSet, build-IsDuplicateSet}
use acp_go_sdk.Schema.Copies.{
  unstable_copy, IsRenamed, collect-AllRenamed, collect-without_stable_method,
}

any_name-false :
    (refs dups : List Bytes) (r : Bytes)
    → any_name refs dups ≡ false
    → has_name r refs ≡ true
    → has_name r dups ≡ false
unfolding any_name
any_name-false [] dups r h m = absurd (nothing_waits r m)
any_name-false (k ∷ refs) dups r h m = elim (Bool-cases (has_name k dups)) [
  | inl e ↦ absurd (not_true (rw e at h))
  | inr e ↦ elim (has_name-cons r k refs m) [
    | inl same ↦ subst (λ x. has_name x dups ≡ false) same e
    | inr later ↦ any_name-false refs dups r (rw e at h) later
  ]
]
  where
    not_true : true ≡ false → ⊥
    not_true e = absurd cc

module _ (deep_equal : Definition → Definition → Bool) (stable unstable : Schema)
    (wires : List Bytes) where
  -- A name that both schemas define alike.
  abbrev pub IsShared : Bytes → Type 0
  IsShared n =
      (s u : Definition) × (definition stable n ≡ some s)
      × (definition unstable n ≡ some u)
      × (deep_equal s u ≡ true)

  new_or_changed-false :
      (n : Bytes)
      → has_key unstable n ≡ true
      → new_or_changed deep_equal stable unstable n ≡ false
      → IsShared n
  unfolding new_or_changed
  new_or_changed-false n known h =
      by_stable (definition stable n) refl (definition unstable n) refl (rw known at h)
    where
      by_stable :
          (found : Option Definition)
          → definition stable n ≡ found
          → (other : Option Definition) → definition unstable n ≡ other
          → (elim found as (λ _. Bool) [
            | none ↦ true
            | some s ↦ elim other as (λ _. Bool) [ none ↦ true | some u ↦ not (deep_equal s u) ]
          ])
            ≡ false
          → IsShared n
      by_stable none a other b k = absurd (ground (arith, k))
      by_stable (some s) a none b k = absurd (ground (arith, k))
      by_stable (some s) a (some u) b k = (s, u, a, b, ground (arith, k))

  -- The copy of a duplicated definition refers only to copies of duplicated definitions, to
  -- definitions that are the same in both schemas, and to names that the unstable schema does not
  -- have.
  pub unstable_copy-refs :
      {dups : List Bytes} (stable_wires : List Bytes) (name : Bytes) (d : Definition) (n : Bytes)
      → build_unstable_duplicate_set deep_equal stable unstable wires ≡ ok dups
      → has_name name dups ≡ true
      → definition unstable name ≡ some d
      → has_name n (collect_definition_refs (unstable_copy dups stable_wires d)) ≡ true
      → ((r : Bytes) × (has_name r dups ≡ true) × (n ≡ codes "Unstable" ++ r))
        ⊎ (IsShared n ⊎ (has_key unstable n ≡ false))
  unfolding unstable_copy
  unstable_copy-refs {dups} stable_wires name d n built dup at h =
      let q = build-IsDuplicateSet deep_equal stable unstable wires built in
      by_renamed q (
        collect-AllRenamed dups d n
          (subst (λ x. has_name n x ≡ true) (collect-without_stable_method stable_wires _) h))
    where
      by_renamed :
          IsDuplicateSet deep_equal stable unstable wires dups
          → IsRenamed dups (collect_definition_refs d) n
          → ((r : Bytes) × (has_name r dups ≡ true) × (n ≡ codes "Unstable" ++ r))
            ⊎ (IsShared n ⊎ (has_key unstable n ≡ false))
      by_renamed q (inl (r, is_dup, _, e)) = inl (r, is_dup, e)
      by_renamed q (inr (not_dup, was)) = elim (Bool-cases (has_key unstable n)) [
        | inr unknown ↦ inr (inr unknown)
        | inl known ↦
            let reached = q.closes name (q.is_reached name dup) d n at was known in
            elim (Bool-cases (new_or_changed deep_equal stable unstable n)) [
              | inl changed ↦ absurd (ground (arith, not_dup, q.has_changed n reached changed))
              | inr same ↦ inr (inl (new_or_changed-false n known same))
            ]
      ]

  -- A definition that a duplicated one refers to and that is not duplicated itself refers to no
  -- duplicated one, so that what stays shared never leads to a copy.
  pub shared_refs :
      {dups : List Bytes} (name : Bytes) (d : Definition) (n : Bytes) (u : Definition) (r : Bytes)
      → build_unstable_duplicate_set deep_equal stable unstable wires ≡ ok dups
      → has_name name dups ≡ true
      → definition unstable name ≡ some d
      → has_name n (collect_definition_refs d) ≡ true
      → has_name n dups ≡ false
      → has_key unstable n ≡ true
      → definition unstable n ≡ some u
      → has_name r (collect_definition_refs u) ≡ true
      → has_name r dups ≡ false
  shared_refs {dups} name d n u r built dup at was not_dup known at_n refers =
      let q = build-IsDuplicateSet deep_equal stable unstable wires built in
      let reached = q.closes name (q.is_reached name dup) d n at was known in
      elim (q.is_settled n reached) [
        | inl is_dup ↦ absurd (ground (arith, not_dup, is_dup))
        | inr (v, at_v, free) ↦
            any_name-false (collect_definition_refs u) dups r
              (subst (λ x. any_name (collect_definition_refs x) dups ≡ false)
                (some-injective (sym at_v ∙ at_n)) free)
              refers
      ]
