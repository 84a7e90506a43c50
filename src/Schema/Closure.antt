-- ===== src/Schema/Closure.antt =====
-- merge.go: the rounds of the last loop of buildUnstableDuplicateSet.
use acp_go_sdk.Base.{
  ℕ, zero, suc, ◌+◌, ◌≤◌, ◌≡◌, ◌≢◌, ◌⊎◌, inl, inr, refl, sym, subst, ◌∙◌, Bool, true, false, List,
  [], ◌∷◌, if◌then◌else◌, arith,
}
use acp_go_sdk.Bytes.{Bytes}
use acp_go_sdk.Result.{Result, ok, err, ◌>>=◌, ok-injective, >>=-eq-ok}
use acp_go_sdk.Schema.{Schema, has_name}
use acp_go_sdk.Schema.Duplicates.{MergeError, out_of_fuel, joins, round, rounds}
use acp_go_sdk.Schema.Names.{absent}
use acp_go_sdk.Schema.Fixpoint.{IsSettled, IsRound, round-IsRound, joins-fuel, one_if}

abbrev failed : {B : Type 0} → MergeError → Result MergeError B
failed e = err e

-- A chain runs out of fuel only where one of its parts does.
pub >>=-fuel :
    {A B : Type 0} (first : Result MergeError A) (next : A → Result MergeError B)
    → first ≢ err out_of_fuel
    → ((a : A) → first ≡ ok a → next a ≢ err out_of_fuel)
    → first >>= next ≢ err out_of_fuel
>>=-fuel (ok a) next p q h = q a refl h
>>=-fuel {A} (err e) next p q h = p (same_error h)
  where
    same_error :
        {B : Type 0} → failed {B = B} e ≡ err out_of_fuel → failed {B = A} e ≡ err out_of_fuel
    same_error k = cc

round-fuel : (defs : Schema) (names dups : List Bytes) → round defs names dups ≢ err out_of_fuel
unfolding round
round-fuel defs [] dups h = absurd cc
round-fuel defs (name ∷ names) dups h =
    >>=-fuel (joins defs name dups) _ (joins-fuel defs name dups)
      (λ j _.
        >>=-fuel (round defs names (if j then name ∷ dups else dups)) _
          (round-fuel defs names (if j then name ∷ dups else dups)) (λ r _ k. absurd cc))
      h

pub rounds-fuel :
    (fuel : ℕ) (defs : Schema) (names dups : List Bytes)
    → suc (absent names dups) ≤ fuel
    → rounds fuel defs names dups ≢ err out_of_fuel
unfolding rounds
rounds-fuel zero defs names dups enough h = absurd (omega (arith, enough))
rounds-fuel (suc fuel) defs names dups enough h =
    >>=-fuel (round defs names dups) _ (round-fuel defs names dups)
      (λ r ran.
        by_change r.1 r.0 ((round-IsRound defs names dups ran).measure names (λ n m. m))
          (rounds-fuel fuel defs names r.0))
      h
  where
    by_change :
        (changed : Bool) (set : List Bytes)
        → absent names set + one_if changed ≤ absent names dups
        → (suc (absent names set) ≤ fuel → rounds fuel defs names set ≢ err out_of_fuel)
        → (if changed then rounds fuel defs names set else ok set) ≢ err out_of_fuel
    by_change true set less rest k = rest (omega (arith, less, enough)) k
    by_change false set less rest h = absurd cc

-- What the rounds come to.
pub record IsFixed (defs : Schema) (names dups all : List Bytes) : Type 0 where
  pub kept : (n : Bytes) → has_name n dups ≡ true → has_name n all ≡ true
  pub from :
      (n : Bytes) → has_name n all ≡ true → (has_name n dups ≡ true) ⊎ (has_name n names ≡ true)
  pub settled : (n : Bytes) → has_name n names ≡ true → IsSettled defs all n

pub rounds-IsFixed :
    (fuel : ℕ) (defs : Schema) (names dups : List Bytes) {all : List Bytes}
    → rounds fuel defs names dups ≡ ok all
    → IsFixed defs names dups all
unfolding rounds
rounds-IsFixed zero defs names dups h = absurd cc
rounds-IsFixed (suc fuel) defs names dups {all} h =
    let (r, ran, h1) = >>=-eq-ok (round defs names dups) _ h in
    by_change r.1 r.0 (round-IsRound defs names dups ran) h1
      (λ set. rounds-IsFixed fuel defs names set)
  where
    by_change :
        (changed : Bool) (set : List Bytes)
        → IsRound defs names dups (set, changed)
        → (if changed then rounds fuel defs names set else ok set) ≡ ok all
        → ((s : List Bytes) → rounds fuel defs names s ≡ ok all → IsFixed defs names s all)
        → IsFixed defs names dups all
    by_change true set q k rest =
        let f = rest set k in
        record {
          kept = λ n m. f.kept n (q.kept n m);
          from = λ n m. elim (f.from n m) [ inl a ↦ q.from n a | inr b ↦ inr b ];
          settled = f.settled;
        }
    by_change false set q k rest =
        let (same, settled) = q.settled refl in
        let is_all : dups ≡ all = sym same ∙ ok-injective refl k in
        record {
          kept = λ n m. subst (λ x. has_name n x ≡ true) is_all m;
          from = λ n m. inl (subst (λ x. has_name n x ≡ true) (sym is_all) m);
          settled = λ n m. subst (λ x. IsSettled defs x n) is_all (settled n m);
        }
