-- ===== src/Schema/Fixpoint.antt =====
-- merge.go: one round of the last loop of buildUnstableDuplicateSet.
use acp_go_sdk.Base.{
  ℕ, ◌+◌, ◌≤◌, ◌≡◌, ◌≢◌, ◌⊎◌, inl, inr, refl, subst, Bool, true, false, ◌||◌, List, [], ◌∷◌, Option,
  none, some, if◌then◌else◌, arith, Bool-cases,
}
use acp_go_sdk.Bytes.{Bytes}
use acp_go_sdk.Result.{Result, ok, err, ok-injective, >>=-eq-ok}
use acp_go_sdk.Schema.{Definition, collect_definition_refs, Schema, definition, has_name}
use acp_go_sdk.Schema.Duplicates.{
  MergeError, out_of_fuel, missing_definition, any_name, joins, round,
}
use acp_go_sdk.Schema.Names.{has_name-cons, has_name_head, has_name_tail, absent, absent-cons_lt}
use acp_go_sdk.Schema.Loop.{nothing_waits}

-- A name is in the set, or its definition refers to none of the set.
abbrev pub IsSettled : Schema → List Bytes → Bytes → Type 0
IsSettled defs dups n =
    (has_name n dups ≡ true)
    ⊎ ((d : Definition) × (definition defs n ≡ some d)
        × (any_name (collect_definition_refs d) dups ≡ false))

joins-IsSettled :
    (defs : Schema) (name : Bytes) (dups : List Bytes)
    → joins defs name dups ≡ ok false
    → IsSettled defs dups name
unfolding joins
joins-IsSettled defs name dups h = elim (Bool-cases (has_name name dups)) [
  | inl known ↦ inl known
  | inr new ↦ by_definition (definition defs name) refl (rw new at h)
]
  where
    by_definition :
        (found : Option Definition)
        → definition defs name ≡ found
        → (elim found as (λ _. Result MergeError Bool) [
          | none ↦ err (missing_definition name)
          | some d ↦ ok (any_name (collect_definition_refs d) dups)
        ])
          ≡ ok false
        → IsSettled defs dups name
    by_definition none at k = absurd cc
    by_definition (some d) at k = inr (d, at, ok-injective refl k)

joins-new :
    (defs : Schema) (name : Bytes) (dups : List Bytes)
    → joins defs name dups ≡ ok true
    → has_name name dups ≡ false
unfolding joins
joins-new defs name dups h = elim (Bool-cases (has_name name dups)) [
  | inl known ↦ absurd (not_both (ok-injective refl (rw known at h)))
  | inr new ↦ new
]
  where
    not_both : false ≡ true → ⊥
    not_both e = absurd cc

abbrev good_false : Result MergeError Bool
good_false = ok false

pub joins-fuel :
    (defs : Schema) (name : Bytes) (dups : List Bytes) → joins defs name dups ≢ err out_of_fuel
unfolding joins
joins-fuel defs name dups h = elim (Bool-cases (has_name name dups)) [
  | inl known ↦ never (rw known at h)
  | inr new ↦ by_definition (definition defs name) (rw new at h)
]
  where
    never : good_false ≡ err out_of_fuel → ⊥
    never e = absurd cc

    by_definition :
        (found : Option Definition)
        → (elim found as (λ _. Result MergeError Bool) [
          | none ↦ err (missing_definition name)
          | some d ↦ ok (any_name (collect_definition_refs d) dups)
        ])
          ≡ err out_of_fuel
        → ⊥
    by_definition none k = absurd cc
    by_definition (some d) k = absurd cc

abbrev pub one_if : Bool → ℕ
one_if true = 1
one_if false = 0

-- What a round comes to.
pub record IsRound (defs : Schema) (names dups : List Bytes) (after : List Bytes × Bool)
    : Type 0 where
  pub kept : (n : Bytes) → has_name n dups ≡ true → has_name n after.0 ≡ true
  pub from :
      (n : Bytes) → has_name n after.0 ≡ true → (has_name n dups ≡ true) ⊎ (has_name n names ≡ true)
  pub measure :
      (all : List Bytes)
      → ((n : Bytes) → has_name n names ≡ true → has_name n all ≡ true)
      → absent all after.0 + one_if after.1 ≤ absent all dups
  pub settled :
      after.1 ≡ false
      → (after.0 ≡ dups) × ((n : Bytes) → has_name n names ≡ true → IsSettled defs dups n)

skipped :
    {defs : Schema} {name : Bytes} {names dups : List Bytes} {after : List Bytes × Bool}
    → IsSettled defs dups name
    → IsRound defs names dups after
    → IsRound defs (name ∷ names) dups after
skipped {defs} {name} {names} {dups} is q = record {
  kept = q.kept;
  from = λ n h. elim (q.from n h) [ inl a ↦ inl a | inr b ↦ inr (has_name_tail n name names b) ];
  measure = λ all within. q.measure all (λ n h. within n (has_name_tail n name names h));
  settled = λ e.
      let (same, rest) = q.settled e in
      (
        same,
        λ n h. elim (has_name-cons n name names h) [
          | inl here_it_is ↦ subst (λ x. IsSettled defs dups x) here_it_is is
          | inr later ↦ rest n later
        ],
      );
}

joined :
    {defs : Schema} {name : Bytes} {names dups : List Bytes} {after : List Bytes × Bool}
    → has_name name dups ≡ false
    → IsRound defs names (name ∷ dups) after
    → IsRound defs (name ∷ names) dups (after.0, true)
joined {defs} {name} {names} {dups} new q = record {
  kept = λ n h. q.kept n (has_name_tail n name dups h);
  from = λ n h. elim (q.from n h) [
    | inr b ↦ inr (has_name_tail n name names b)
    | inl a ↦ elim (has_name-cons n name dups a) [
      | inl same ↦
          inr (subst (λ x. has_name x (name ∷ names) ≡ true) same (has_name_head name names))
      | inr old ↦ inl old
    ]
  ];
  measure = λ all within. omega (
    arith,
    q.measure all (λ n h. within n (has_name_tail n name names h)),
    absent-cons_lt all name dups (within name (has_name_head name names)) new,
  );
  settled = λ e. absurd cc;
}

pub round-IsRound :
    (defs : Schema) (names dups : List Bytes) {after : List Bytes × Bool}
    → round defs names dups ≡ ok after
    → IsRound defs names dups after
unfolding round
round-IsRound defs [] dups {after} h =
    subst (λ x. IsRound defs [] dups x) (ok-injective refl h)
      (record {
        kept = λ n k. k;
        from = λ n k. inl k;
        measure = λ all within. omega arith;
        settled = λ e. (refl, λ n k. absurd (nothing_waits n k));
      })
round-IsRound defs (name ∷ names) dups {after} h =
    let (j, was, h1) = >>=-eq-ok (joins defs name dups) _ h in
    let (r, ran, h2) = >>=-eq-ok (round defs names (if j then name ∷ dups else dups)) _ h1 in
    subst (λ x. IsRound defs (name ∷ names) dups x) (ok-injective refl h2)
      (by_join j was (round-IsRound defs names (if j then name ∷ dups else dups) ran))
  where
    by_join :
        {r : List Bytes × Bool} (j : Bool)
        → joins defs name dups ≡ ok j
        → IsRound defs names (if j then name ∷ dups else dups) r
        → IsRound defs (name ∷ names) dups (r.0, j || r.1)
    by_join true was q = joined (joins-new defs name dups was) q
    by_join false was q = skipped (joins-IsSettled defs name dups was) q
