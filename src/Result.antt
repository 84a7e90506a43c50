-- ===== src/Result.antt =====
-- Go's pairs of a value and an error: a result, with the errors of a component as a type.
use acp_go_sdk.Base.{Bool, true, false, ◌≡◌, refl}

pub data Result {ℓ} (E : Type 0) (A : Type ℓ) : Type ℓ where
  ok : A → Result E A
  err : E → Result E A

infixl 5 ◌>>=◌ ◌>>◌
abbrev pub ◌>>=◌ {ℓ κ} :
    {E : Type 0} {A : Type ℓ} {B : Type κ} → Result E A → (A → Result E B) → Result E B
ok a >>= f = f a
err e >>= f = err e

abbrev pub ◌>>◌ {κ} : {E : Type 0} {B : Type κ} → Result E (Unit {0}) → Result E B → Result E B
m >> k = m >>= λ _. k

-- An early return with an error where the test fails.
abbrev pub guard : {E : Type 0} → Bool → E → Result E (Unit {0})
guard true e = ok tt
guard false e = err e

-- A chain succeeds only where each part does.
pub >>=-eq-ok {ℓ κ} :
    {E : Type 0} {S : Type ℓ} {T : Type κ} (first : Result E S) (then_run : S → Result E T)
    {out : T}
    → first >>= then_run ≡ ok out
    → (mid : S) × (first ≡ ok mid) × (then_run mid ≡ ok out)
>>=-eq-ok (err why) then_run succeeds = absurd cc
>>=-eq-ok (ok mid) then_run succeeds = (mid, refl, succeeds)

pub ok-injective {ℓ} :
    {E : Type 0} {A : Type ℓ} {a b : A} {r : Result E A} → r ≡ ok a → r ≡ ok b → a ≡ b
ok-injective p q = cc

pub guard-ok : {E : Type 0} (b : Bool) (e : E) {u : Unit {0}} → guard b e ≡ ok u → b ≡ true
guard-ok true e h = refl
guard-ok false e h = absurd cc
