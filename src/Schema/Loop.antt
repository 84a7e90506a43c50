-- ===== src/Schema/Loop.antt =====
-- merge.go: the loop over the references in buildUnstableDuplicateSet.
use acp_go_sdk.Base.{
  ℕ, zero, suc, ◌+◌, ◌≤◌, ◌≡◌, ◌≢◌, ◌⊎◌, inl, inr, refl, sym, ap, subst, ◌∙◌, true, false, not,
  ◌&&◌, List, [], ◌∷◌, ◌++◌, Option, none, some, length, arith, Bool-cases, some-injective,
}
use acp_go_sdk.Bytes.{Bytes, equal}
use mathlib.Core.Logic.{⊎_elim}
use acp_go_sdk.Message.{lookup}
use acp_go_sdk.Result.{Result, ok, err, ok-injective}
use acp_go_sdk.Schema.{Definition, collect_definition_refs, Schema, has_key, definition, has_name}
use acp_go_sdk.Schema.Duplicates.{
  MergeError, out_of_fuel, missing_definition, enqueue_refs, traverse,
}
use acp_go_sdk.Schema.Names.{
  has_name-cons, has_name_head, has_name_tail, has_name-append, has_name_last, absent,
  absent-cons_lt,
}

abbrev pub keys : Schema → List Bytes
keys [] = []
keys ((name, d) ∷ defs) = name ∷ keys defs

has_key-keys :
    (defs : Schema) (name : Bytes) → has_key defs name ≡ true → has_name name (keys defs) ≡ true
unfolding lookup has_name
has_key-keys [] name h = absurd cc
has_key-keys ((key, d) ∷ defs) name h = elim (Bool-cases (equal key name)) [
  | inl same ↦ rw same refl
  | inr other ↦ rw other (has_key-keys defs name (rw other at h))
]

-- What queueing the references of one definition comes to.
record IsQueued (defs : Schema) (refs queue reachable : List Bytes)
    (after : List Bytes × List Bytes) : Type 0 where
  kept : (n : Bytes) → has_name n reachable ≡ true → has_name n after.1 ≡ true
  still_queued : (n : Bytes) → has_name n queue ≡ true → has_name n after.0 ≡ true
  from :
      (n : Bytes)
      → has_name n after.1 ≡ true
      → (has_name n reachable ≡ true) ⊎ (has_name n after.0 ≡ true)
  took : (n : Bytes) → has_name n refs ≡ true → has_key defs n ≡ true → has_name n after.1 ≡ true
  measure :
      length after.0 + absent (keys defs) after.1 ≤ length queue + absent (keys defs) reachable

length-append_one : (xs : List Bytes) (x : Bytes) → length (xs ++ x ∷ []) ≡ suc (length xs)
length-append_one [] x = refl
length-append_one (y ∷ xs) x = ap suc (length-append_one xs x)

enqueue_refs-IsQueued :
    (defs : Schema) (refs queue reachable : List Bytes)
    → IsQueued defs refs queue reachable (enqueue_refs defs refs queue reachable)
unfolding enqueue_refs
enqueue_refs-IsQueued defs [] queue reachable = record {
  kept = λ n h. h;
  still_queued = λ n h. h;
  from = λ n h. inl h;
  took = λ n h. absurd (unfold has_name in cc);
  measure = omega arith;
}
enqueue_refs-IsQueued defs (r ∷ refs) queue reachable =
    elim (Bool-cases (has_key defs r && not (has_name r reachable))) [
      | inr old ↦ rw old (old_ref (enqueue_refs-IsQueued defs refs queue reachable) old)
      | inl new ↦
          rw new (new_ref (enqueue_refs-IsQueued defs refs (queue ++ r ∷ []) (r ∷ reachable)) new)
    ]
  where
    old_ref :
        {after : List Bytes × List Bytes}
        → IsQueued defs refs queue reachable after
        → (has_key defs r && not (has_name r reachable)) ≡ false
        → IsQueued defs (r ∷ refs) queue reachable after
    old_ref q old = record {
      kept = q.kept;
      still_queued = q.still_queued;
      from = q.from;
      took = λ n h k. elim (has_name-cons n r refs h) [
        | inr later ↦ q.took n later k
        | inl same ↦ q.kept n (
            subst (λ x. has_name x reachable ≡ true) same
              (ground (arith, old, subst (λ x. has_key defs x ≡ true) (sym same) k)))
      ];
      measure = q.measure;
    }

    new_ref :
        {after : List Bytes × List Bytes}
        → IsQueued defs refs (queue ++ r ∷ []) (r ∷ reachable) after
        → (has_key defs r && not (has_name r reachable)) ≡ true
        → IsQueued defs (r ∷ refs) queue reachable after
    new_ref {after} q new =
        let fresh : has_name r reachable ≡ false = ground (arith, new) in
        let known : has_key defs r ≡ true = ground (arith, new) in
        record {
          kept = λ n h. q.kept n (has_name_tail n r reachable h);
          still_queued = λ n h. q.still_queued n (has_name-append n r queue h);
          from = λ n h. elim (q.from n h) [
            | inr waits ↦ inr waits
            | inl was ↦ elim (has_name-cons n r reachable was) [
              | inr before ↦ inl before
              | inl same ↦ inr (
                  q.still_queued n
                    (subst (λ x. has_name x (queue ++ r ∷ []) ≡ true) same (has_name_last r queue)))
            ]
          ];
          took = λ n h k. elim (has_name-cons n r refs h) [
            | inr later ↦ q.took n later k
            | inl same ↦
                q.kept n
                  (subst (λ x. has_name x (r ∷ reachable) ≡ true) same (has_name_head r reachable))
          ];
          measure = omega (
            arith,
            q.measure,
            length-append_one queue r,
            absent-cons_lt (keys defs) r reachable (has_key-keys defs r known) fresh,
          );
        }

-- The references of a name that was taken from the queue are reached.
abbrev pub IsDone : Schema → List Bytes → Bytes → Type 0
IsDone defs reachable n =
    (d : Definition) (r : Bytes)
    → definition defs n ≡ some d
    → has_name r (collect_definition_refs d) ≡ true
    → has_key defs r ≡ true
    → has_name r reachable ≡ true

abbrev IsOpen : Schema → List Bytes → List Bytes → Type 0
IsOpen defs queue reachable =
    (n : Bytes) → has_name n reachable ≡ true → (has_name n queue ≡ true) ⊎ IsDone defs reachable n

abbrev step : Schema → Definition → List Bytes → List Bytes → List Bytes × List Bytes
step defs d queue reachable = enqueue_refs defs (collect_definition_refs d) queue reachable

step-IsOpen :
    (defs : Schema) (name : Bytes) (d : Definition) (queue reachable : List Bytes)
    → definition defs name ≡ some d
    → IsOpen defs (name ∷ queue) reachable
    → IsOpen defs (step defs d queue reachable).0 (step defs d queue reachable).1
step-IsOpen defs name d queue reachable at before n h =
    let q = enqueue_refs-IsQueued defs (collect_definition_refs d) queue reachable in
    elim (q.from n h) [
      | inr waits ↦ inl waits
      | inl was ↦ elim (before n was) [
        | inr done_before ↦ inr (λ d' r e m k. q.kept r (done_before d' r e m k))
        | inl waited ↦ elim (has_name-cons n name queue waited) [
          | inr waits ↦ inl (q.still_queued n waits)
          | inl same ↦ inr (λ d' r e m k.
              q.took r
                (subst (λ x. has_name r (collect_definition_refs x) ≡ true)
                  (some-injective (sym e ∙ subst (λ x. definition defs x ≡ some d) same at)) m)
                k)
        ]
      ]
    ]

-- The loop has fuel enough, and ends with a set that holds what it started from and the references
-- of all that it holds.
pub traverse-fuel :
    (fuel : ℕ) (defs : Schema) (queue reachable : List Bytes)
    → length queue + absent (keys defs) reachable ≤ fuel
    → traverse fuel defs queue reachable ≢ err out_of_fuel
unfolding traverse
traverse-fuel fuel defs [] reachable enough h = absurd cc
traverse-fuel zero defs (name ∷ queue) reachable enough h = absurd (omega (arith, enough))
traverse-fuel (suc fuel) defs (name ∷ queue) reachable enough h =
    by_definition (definition defs name)
      (λ d.
        traverse-fuel fuel defs (step defs d queue reachable).0 (step defs d queue reachable).1 (
          omega (
            arith,
            enough,
            (enqueue_refs-IsQueued defs (collect_definition_refs d) queue reachable).measure,
          )))
      h
  where
    by_definition :
        (found : Option Definition)
        → ((d : Definition)
            → traverse fuel defs (step defs d queue reachable).0 (step defs d queue reachable).1
              ≢ err out_of_fuel)
        → (elim found as (λ _. Result MergeError (List Bytes)) [
          | none ↦ err (missing_definition name)
          | some d ↦
              traverse fuel defs (step defs d queue reachable).0 (step defs d queue reachable).1
        ])
          ≢ err out_of_fuel
    by_definition none rest h = absurd cc
    by_definition (some d) rest h = rest d h

pub nothing_waits : (n : Bytes) → has_name n [] ≡ true → ⊥
unfolding has_name
nothing_waits n h = absurd cc

pub traverse-IsDone :
    (fuel : ℕ) (defs : Schema) (queue reachable : List Bytes) {all : List Bytes}
    → traverse fuel defs queue reachable ≡ ok all
    → IsOpen defs queue reachable
    → ((n : Bytes) → has_name n reachable ≡ true → has_name n all ≡ true)
      × ((n : Bytes) → has_name n all ≡ true → IsDone defs all n)
unfolding traverse
traverse-IsDone fuel defs [] reachable {all} h before =
    let same : reachable ≡ all = ok-injective refl h in
    subst
      (λ x.
        ((n : Bytes) → has_name n reachable ≡ true → has_name n x ≡ true)
        × ((n : Bytes) → has_name n x ≡ true → IsDone defs x n))
      same (λ n m. m, λ n m. ⊎_elim (λ w. absurd (nothing_waits n w)) (λ d. d) (before n m))
traverse-IsDone zero defs (name ∷ queue) reachable h before = absurd cc
traverse-IsDone (suc fuel) defs (name ∷ queue) reachable {all} h before =
    by_definition (definition defs name) refl h (λ d.
      traverse-IsDone fuel defs (step defs d queue reachable).0 (step defs d queue reachable).1)
  where
    Goal : Type 0
    Goal =
        ((n : Bytes) → has_name n reachable ≡ true → has_name n all ≡ true)
        × ((n : Bytes) → has_name n all ≡ true → IsDone defs all n)

    by_definition :
        (found : Option Definition)
        → definition defs name ≡ found
        → (elim found as (λ _. Result MergeError (List Bytes)) [
          | none ↦ err (missing_definition name)
          | some d ↦
              traverse fuel defs (step defs d queue reachable).0 (step defs d queue reachable).1
        ])
          ≡ ok all
        → ((d : Definition)
            → traverse fuel defs (step defs d queue reachable).0 (step defs d queue reachable).1
              ≡ ok all
            → IsOpen defs (step defs d queue reachable).0 (step defs d queue reachable).1
            → ((n : Bytes)
                → has_name n (step defs d queue reachable).1 ≡ true
                → has_name n all ≡ true)
              × ((n : Bytes) → has_name n all ≡ true → IsDone defs all n))
        → Goal
    by_definition none at k rest = absurd cc
    by_definition (some d) at k rest =
        let (kept, closed) = rest d k (step-IsOpen defs name d queue reachable at before) in
        (
          λ n m.
              kept n
                ((enqueue_refs-IsQueued defs (collect_definition_refs d) queue reachable).kept n m),
          closed,
        )
