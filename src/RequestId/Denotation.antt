-- ===== src/RequestId/Denotation.antt =====
-- request_id.go: the number that a text of the JSON grammar denotes, against which the reader is
-- proved.
use acp_go_sdk.Base.{
  ℕ, suc, ◌≡◌, ◌≤◌, ◌<◌, ◌⊎◌, inl, inr, refl, sym, ap, Bool, false, [], ◌∷◌, ◌++◌, length, ltb,
  ◌==◌, ==_iff, replicate, arith, Bool-cases, subst,
}
use acp_go_sdk.Base.Int.{ℤ, pos, ◌+ℤ◌, ◌-ℤ◌, sub_ℕ}
use acp_go_sdk.Bytes.{Bytes}
use acp_go_sdk.Result.{Result, ok, err, ◌>>=◌}
use acp_go_sdk.RequestId.Bounds.{digits_value}
use acp_go_sdk.RequestId.Digits.{NoLeadingZero, trim_left_zeros-NoLeadingZero}
use acp_go_sdk.RequestId.Grammar.{
  Exponent, no_exponent, exponent, ExpSign, bare, plus, minus, Number, IsNumber, number_text,
  exp_value, is_minus, parse_numeric_id-number_text,
}
use acp_go_sdk.RequestId.Scan.{
  signed, IdError, number_too_large, Decimal, trim_left_zeros, to_decimal, parse_numeric_id,
}

-- The exponent that is written, and its magnitude; none is 0.
abbrev pub magnitude : Exponent → ℕ
magnitude no_exponent = 0
magnitude (exponent mark sign ds) = digits_value 0 ds

abbrev pub exponent_of : Exponent → ℤ
exponent_of no_exponent = pos 0
exponent_of (exponent mark bare ds) = pos (digits_value 0 ds)
exponent_of (exponent mark plus ds) = pos (digits_value 0 ds)
exponent_of (exponent mark minus ds) = sub_ℕ 0 (digits_value 0 ds)

-- `ds` are the digits of the number, without the zeros in front.
abbrev pub IsUnpadded : Number → Bytes → Type 0
IsUnpadded n ds = NoLeadingZero ds × ((k : ℕ) × (n.int_part ++ n.fraction ≡ replicate k b'0' ++ ds))

-- Zero has no sign and no exponent; any other number is its digits, as an integer, times the power
-- of ten that the places of the fraction take off the exponent.
abbrev IsWorth : Number → Bool → Bytes → ℤ → Type 0
IsWorth n negative [] e = (negative ≡ false) × (e ≡ pos 0)
IsWorth n negative (d ∷ ds) e =
    (negative ≡ n.negative) × (e +ℤ pos (length n.fraction) ≡ exponent_of n.exp)

-- What the reader is to return for a number: the number, or that it is too large.
abbrev pub Denotes : Number → Result IdError Decimal → Type 0
Denotes n (ok d) =
    (magnitude n.exp ≤ 4096)
    × (length d.digits ≤ 4096)
    × IsUnpadded n d.digits
    × IsWorth n d.negative d.digits d.exp10
Denotes n (err e) =
    (e ≡ number_too_large)
    × ((4096 < magnitude n.exp) ⊎ ((ds : Bytes) × IsUnpadded n ds × (4096 < length ds)))

trim_left_zeros-replicate : (s : Bytes) → (k : ℕ) × (s ≡ replicate k b'0' ++ trim_left_zeros s)
unfolding trim_left_zeros
trim_left_zeros-replicate [] = (0, refl)
trim_left_zeros-replicate (c ∷ cs) = elim (Bool-cases (c == b'0')) [
  | inl z ↦
      let (k, e) = trim_left_zeros-replicate cs in
      rw (z, (==_iff c b'0').0 z) (suc k, ap (◌∷◌ b'0') e)
  | inr nz ↦ rw nz (0, refl)
]

sub-add : (e : ℤ) (n : ℕ) → e -ℤ pos n +ℤ pos n ≡ e
unfolding ◌-ℤ◌ ◌+ℤ◌
sub-add e n = ground arith

module _ (n : Number) where
  to_decimal-Denotes :
      (ds : Bytes)
      → IsUnpadded n ds
      → magnitude n.exp ≤ 4096
      → Denotes n (to_decimal n.negative ds (length n.fraction) (exponent_of n.exp))
  unfolding to_decimal
  to_decimal-Denotes [] u m = (m, omega arith, u, (refl, refl))
  to_decimal-Denotes (d ∷ ds) u m = elim (Bool-cases (ltb 4096 (length (d ∷ ds)))) [
    | inl long ↦
        let e : to_decimal n.negative (d ∷ ds) (length n.fraction) (exponent_of n.exp)
            ≡ err number_too_large =
          rw long refl in
        subst (Denotes n) (sym e) (refl, inr (d ∷ ds, u, ground (arith, long)))
    | inr short ↦
        let e : to_decimal n.negative (d ∷ ds) (length n.fraction) (exponent_of n.exp)
            ≡ ok (record {
              negative = n.negative;
              digits = d ∷ ds;
              exp10 = exponent_of n.exp -ℤ pos (length n.fraction);
            }) =
          rw short refl in
        subst (Denotes n) (sym e)
          (m, ground (arith, short), u, (refl, sub-add (exponent_of n.exp) (length n.fraction)))
  ]

exp_value-magnitude :
    (e : Exponent)
    → ((4096 < magnitude e) × (exp_value e ≡ err number_too_large))
      ⊎ ((magnitude e ≤ 4096) × (exp_value e ≡ ok (exponent_of e)))
exp_value-magnitude no_exponent = inr (omega arith, refl)
exp_value-magnitude (exponent mark sign ds) = elim (Bool-cases (ltb 4096 (digits_value 0 ds))) [
  | inl big ↦ inl (ground (arith, big), rw big refl)
  | inr small ↦ inr (ground (arith, small), rw small (by_sign sign))
]
  where
    by_sign :
        (s : ExpSign)
        → ◌≡◌ {A = Result IdError ℤ}
            (ok (signed (is_minus s) (digits_value 0 ds)))
            (ok (exponent_of (exponent mark s ds)))
    by_sign bare = refl
    by_sign plus = refl
    by_sign minus = refl

-- Every number of the JSON grammar is read as what it denotes: its digits without the zeros in
-- front, with its sign and with the exponent less the number of places of the fraction, or as zero
-- without sign or exponent. It is refused, as too large, exactly when its exponent is more than
-- 4096 either way or more than 4096 digits are left.
pub parse_numeric_id-Denotes :
    (n : Number) → IsNumber n → Denotes n (parse_numeric_id (number_text n))
parse_numeric_id-Denotes n h =
    let digits = n.int_part ++ n.fraction in
    let places = length n.fraction in
    let after : ℤ → Result IdError Decimal =
      λ e. to_decimal n.negative (trim_left_zeros digits) places e in
    subst (Denotes n) (sym (parse_numeric_id-number_text n h)) (elim (exp_value-magnitude n.exp) [
      | inl (big, e) ↦ subst (Denotes n) (sym (ap (λ r. r >>= after) e)) (refl, inl big)
      | inr (small, e) ↦ subst (Denotes n) (sym (ap (λ r. r >>= after) e)) (
          to_decimal-Denotes n (trim_left_zeros digits)
            (trim_left_zeros-NoLeadingZero digits, trim_left_zeros-replicate digits) small)
    ])
