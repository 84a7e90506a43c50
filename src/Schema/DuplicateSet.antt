-- ===== src/Schema/DuplicateSet.antt =====
-- merge.go: what buildUnstableDuplicateSet returns.
use acp_go_sdk.Base.{
  suc, ◌+◌, ◌≡◌, ◌≢◌, ◌⊎◌, inl, inr, refl, sym, ap, subst, Bool, true, List, [], ◌∷◌, length,
  if◌then◌else◌, arith, Bool-cases,
}
use acp_go_sdk.Bytes.{Bytes}
use acp_go_sdk.Result.{ok, err, >>=-eq-ok}
use acp_go_sdk.Schema.{Definition, Schema, has_name}
use acp_go_sdk.Schema.Duplicates.{
  out_of_fuel, traverse, find_roots, new_or_changed, add_changed, build_unstable_duplicate_set,
}
use acp_go_sdk.Schema.Names.{absent-length, has_name-cons, has_name_head, has_name_tail}
use acp_go_sdk.Schema.Loop.{keys, IsDone, traverse-IsDone, traverse-fuel, nothing_waits}
use acp_go_sdk.Schema.Fixpoint.{IsSettled}
use acp_go_sdk.Schema.Closure.{>>=-fuel, rounds-fuel, rounds-IsFixed}

add_changed-kept :
    (changed : Bytes → Bool) (names dups : List Bytes) (n : Bytes)
    → has_name n dups ≡ true
    → has_name n (add_changed changed names dups) ≡ true
unfolding add_changed
add_changed-kept changed [] dups n h = h
add_changed-kept changed (name ∷ names) dups n h =
    add_changed-kept changed names (if changed name then name ∷ dups else dups) n
      (elim (Bool-cases (changed name)) [
        | inl e ↦ rw e (has_name_tail n name dups h)
        | inr e ↦ rw e h
      ])

add_changed-added :
    (changed : Bytes → Bool) (names dups : List Bytes) (n : Bytes)
    → has_name n names ≡ true
    → changed n ≡ true
    → has_name n (add_changed changed names dups) ≡ true
unfolding add_changed
add_changed-added changed [] dups n h e = absurd (nothing_waits n h)
add_changed-added changed (name ∷ names) dups n h e = elim (has_name-cons n name names h) [
  | inr later ↦
      add_changed-added changed names (if changed name then name ∷ dups else dups) n later e
  | inl same ↦ add_changed-kept changed names (if changed name then name ∷ dups else dups) n (
      rw (subst (λ x. changed x ≡ true) (sym same) e)
        (subst (λ x. has_name x (name ∷ dups) ≡ true) same (has_name_head name dups)))
]

add_changed-from :
    (changed : Bytes → Bool) (names dups : List Bytes) (n : Bytes)
    → has_name n (add_changed changed names dups) ≡ true
    → (has_name n dups ≡ true) ⊎ (has_name n names ≡ true)
unfolding add_changed
add_changed-from changed [] dups n h = inl h
add_changed-from changed (name ∷ names) dups n h =
    elim (add_changed-from changed names (if changed name then name ∷ dups else dups) n h) [
      | inr b ↦ inr (has_name_tail n name names b)
      | inl a ↦ elim (Bool-cases (changed name)) [
        | inr e ↦ inl (rw e at a)
        | inl e ↦ elim (has_name-cons n name dups (rw e at a)) [
          | inr old ↦ inl old
          | inl same ↦
              inr (subst (λ x. has_name x (name ∷ names) ≡ true) same (has_name_head name names))
        ]
      ]
    ]

length-keys : (defs : Schema) → length (keys defs) ≡ length defs
length-keys [] = refl
length-keys ((name, d) ∷ defs) = ap suc (length-keys defs)

module _ (deep_equal : Definition → Definition → Bool) (stable unstable : Schema)
    (wires : List Bytes) where
  -- The search for the definitions to copy always ends: its loops have fuel enough.
  pub build-fuel : build_unstable_duplicate_set deep_equal stable unstable wires ≢ err out_of_fuel
  unfolding build_unstable_duplicate_set
  build-fuel =
      >>=-fuel (traverse (length roots + length unstable) unstable roots roots) _
        (traverse-fuel (length roots + length unstable) unstable roots roots
          (omega (arith, absent-length (keys unstable) roots, length-keys unstable)))
        (λ reachable _.
          rounds-fuel (suc (length reachable)) unstable reachable
            (add_changed (new_or_changed deep_equal stable unstable) reachable roots)
            (omega (
              arith,
              absent-length reachable
                  (add_changed (new_or_changed deep_equal stable unstable) reachable roots),
            )))
    where
      roots : List Bytes
      roots = find_roots wires unstable

  -- What the set is: closed in a set that is closed under references.
  pub record IsDuplicateSet (dups : List Bytes) : Type 0 where
    pub reachable : List Bytes
    pub has_roots :
        (n : Bytes) → has_name n (find_roots wires unstable) ≡ true → has_name n dups ≡ true
    pub is_reached : (n : Bytes) → has_name n dups ≡ true → has_name n reachable ≡ true
    pub closes : (n : Bytes) → has_name n reachable ≡ true → IsDone unstable reachable n
    pub has_changed :
        (n : Bytes)
        → has_name n reachable ≡ true
        → new_or_changed deep_equal stable unstable n ≡ true
        → has_name n dups ≡ true
    pub is_settled : (n : Bytes) → has_name n reachable ≡ true → IsSettled unstable dups n

  pub build-IsDuplicateSet :
      {dups : List Bytes}
      → build_unstable_duplicate_set deep_equal stable unstable wires ≡ ok dups
      → IsDuplicateSet dups
  unfolding build_unstable_duplicate_set
  build-IsDuplicateSet {dups} h =
      let (reachable, reached, h1) =
        >>=-eq-ok (traverse (length roots + length unstable) unstable roots roots) _ h in
      let (kept, closed) =
        traverse-IsDone (length roots + length unstable) unstable roots roots reached
          (λ n m. inl m) in
      let f =
        rounds-IsFixed (suc (length reachable)) unstable reachable
          (add_changed changed reachable roots) h1 in
      record {
        reachable = reachable;
        has_roots = λ n m. f.kept n (add_changed-kept changed reachable roots n m);
        is_reached = λ n m. elim (f.from n m) [
          | inr b ↦ b
          | inl a ↦ elim (add_changed-from changed reachable roots n a) [
            | inl r ↦ kept n r
            | inr b ↦ b
          ]
        ];
        closes = closed;
        has_changed = λ n m e. f.kept n (add_changed-added changed reachable roots n m e);
        is_settled = f.settled;
      }
    where
      roots : List Bytes
      roots = find_roots wires unstable

      changed : Bytes → Bool
      changed = new_or_changed deep_equal stable unstable
