-- ===== src/RequestId/Grammar.antt =====
-- The grammar of JSON numbers, against which parseJSONRPCNumericID is proved.
use acp_go_sdk.Base.{
  ℕ, ◌≡◌, refl, sym, ap, ◌∙◌, ◌⊎◌, inl, inr, Bool, true, false, [], ◌∷◌, ◌++◌, length, append-nil,
  ltb, if◌then◌else◌, ◌==◌, arith,
}
use acp_go_sdk.Base.Int.{ℤ, pos}
use acp_go_sdk.Bytes.{Bytes, within}
use acp_go_sdk.Result.{Result, ok, err, ◌>>=◌, ◌>>◌, guard}
use acp_go_sdk.RequestId.Scan.{
  IdError, number_too_large, invalid_number, Decimal, max_abs_exp10, span_digits, trim_left_zeros,
  scan_sign, scan_int, scan_frac, scan_exp_sign, scan_exp, scan_magnitude, nonempty_digits, at_end,
  to_decimal, parse_numeric_id, signed,
}
use acp_go_sdk.RequestId.Render.{sign_text}
use acp_go_sdk.RequestId.Bounds.{AllDigits, digits_value, parse_bounded_int-value}
use acp_go_sdk.RequestId.Digits.{NoDigitFirst, span_digits-append}

pub data ExpSign : Type 0 where
  bare plus minus : ExpSign

-- The mark of an exponent is its `e` or `E`.
pub data Exponent : Type 0 where
  no_exponent : Exponent
  exponent : ℕ → ExpSign → Bytes → Exponent

pub record Number : Type 0 where
  pub negative : Bool
  pub int_part : Bytes
  pub fraction : Bytes
  pub exp : Exponent

abbrev pub exp_sign_text : ExpSign → Bytes → Bytes
exp_sign_text bare s = s
exp_sign_text plus s = b'+' ∷ s
exp_sign_text minus s = b'-' ∷ s

abbrev pub exp_text : Exponent → Bytes
exp_text no_exponent = []
exp_text (exponent mark sign ds) = mark ∷ exp_sign_text sign ds

abbrev pub fraction_text : Bytes → Bytes → Bytes
fraction_text [] rest = rest
fraction_text (d ∷ ds) rest = b'.' ∷ (d ∷ ds) ++ rest

abbrev pub number_text : Number → Bytes
number_text n = sign_text n.negative ++ (n.int_part ++ fraction_text n.fraction (exp_text n.exp))

abbrev pub IsIntPart : Bytes → Type 0
IsIntPart [] = ⊥
IsIntPart (c ∷ cs) = ((c ≡ b'0') × (cs ≡ [])) ⊎ ((within b'1' b'9' c ≡ true) × AllDigits cs)

abbrev NonEmpty : Bytes → Type 0
NonEmpty [] = ⊥
NonEmpty (c ∷ cs) = Unit {0}

abbrev pub IsExponent : Exponent → Type 0
IsExponent no_exponent = Unit {0}
IsExponent (exponent mark sign ds) = ((mark ≡ b'e') ⊎ (mark ≡ b'E')) × NonEmpty ds × AllDigits ds

pub record IsNumber (n : Number) : Type 0 where
  pub int_ok : IsIntPart n.int_part
  pub fraction_ok : AllDigits n.fraction
  pub exp_ok : IsExponent n.exp

abbrev pub is_minus : ExpSign → Bool
is_minus minus = true
is_minus _ = false

-- The power of ten that an exponent stands for, refused above the limit.
abbrev pub exp_value : Exponent → Result IdError ℤ
exp_value no_exponent = ok (pos 0)
exp_value (exponent mark sign ds) =
    if ltb max_abs_exp10 (digits_value 0 ds)
    then err number_too_large
    else ok (signed (is_minus sign) (digits_value 0 ds))

scan_sign-text :
    (negative : Bool) (c : ℕ) (cs : Bytes)
    → (c == b'-') ≡ false
    → scan_sign (sign_text negative ++ (c ∷ cs)) ≡ ok (negative, c ∷ cs)
unfolding scan_sign
scan_sign-text true c cs h = refl
scan_sign-text false c [] h = ground arith
scan_sign-text false c (d ∷ cs) h = ground arith

scan_int-append :
    (s rest : Bytes) → IsIntPart s → NoDigitFirst rest → scan_int (s ++ rest) ≡ ok (s, rest)
unfolding scan_int
scan_int-append [] rest i h = absurd i
scan_int-append (c ∷ cs) [] (inl (z, e)) h = ground arith
scan_int-append (c ∷ cs) (r ∷ rest) (inl (z, e)) h = rw e (ground arith)
scan_int-append (c ∷ cs) rest (inr (d, a)) h =
    ground (arith, span_digits-append (c ∷ cs) rest (ground arith, a) h)

exp_text-NoDigitFirst : (e : Exponent) → IsExponent e → NoDigitFirst (exp_text e)
exp_text-NoDigitFirst no_exponent h = tt
exp_text-NoDigitFirst (exponent mark sign ds) h = ground arith

fraction_text-NoDigitFirst :
    (f : Bytes) (e : Exponent) → IsExponent e → NoDigitFirst (fraction_text f (exp_text e))
fraction_text-NoDigitFirst [] e h = exp_text-NoDigitFirst e h
fraction_text-NoDigitFirst (d ∷ ds) e h = refl

scan_frac-text :
    (f : Bytes) (e : Exponent)
    → AllDigits f
    → IsExponent e
    → scan_frac (fraction_text f (exp_text e)) ≡ ok (f, exp_text e)
unfolding scan_frac nonempty_digits
scan_frac-text [] no_exponent a h = refl
scan_frac-text [] (exponent mark sign ds) a h = ground arith
scan_frac-text (d ∷ ds) e a h =
    rw (span_digits-append (d ∷ ds) (exp_text e) a (exp_text-NoDigitFirst e h)) refl

scan_exp_sign-text :
    (sign : ExpSign) (ds : Bytes)
    → NonEmpty ds
    → AllDigits ds
    → scan_exp_sign (exp_sign_text sign ds) ≡ ok (is_minus sign, ds)
unfolding scan_exp_sign
scan_exp_sign-text sign [] n a = absurd n
scan_exp_sign-text bare (d ∷ []) n a = ground arith
scan_exp_sign-text bare (d ∷ e ∷ ds) n a = ground arith
scan_exp_sign-text plus (d ∷ ds) n a = refl
scan_exp_sign-text minus (d ∷ ds) n a = refl

span_digits-whole : (ds : Bytes) → AllDigits ds → span_digits ds ≡ (ds, [])
span_digits-whole ds a = sym (ap span_digits (append-nil ds)) ∙ span_digits-append ds [] a tt

scan_magnitude-digits :
    (below : Bool) (ds : Bytes)
    → NonEmpty ds
    → AllDigits ds
    → scan_magnitude below ds ≡ (
        if ltb max_abs_exp10 (digits_value 0 ds)
        then err number_too_large
        else ok (signed below (digits_value 0 ds), []))
unfolding scan_magnitude nonempty_digits
scan_magnitude-digits below [] n a = absurd n
scan_magnitude-digits below (d ∷ ds) n a =
    rw (span_digits-whole (d ∷ ds) a, nonempty_digits)
      (rw (parse_bounded_int-value max_abs_exp10 d ds (omega arith) a) (ground arith))

scan_exp-text :
    (e : Exponent) → IsExponent e → scan_exp (exp_text e) ≡ (do v ← exp_value e; ok (v, []))
unfolding scan_exp
scan_exp-text no_exponent h = refl
scan_exp-text (exponent mark sign ds) (m, n, a) =
    ground (arith, scan_exp_sign-text sign ds n a, scan_magnitude-digits (is_minus sign) ds n a)

ending :
    (r : Result IdError ℤ) (f : ℤ → Result IdError Decimal)
    → (◌>>=◌ {B = ℤ × Bytes} r (λ e. ok (e, [])) >>= λ p.
        guard (at_end p.1) invalid_number >> f p.0)
      ≡ (r >>= f)
unfolding at_end
ending (ok e) f = refl
ending (err e) f = refl

-- Every JSON number is read as the number that it denotes: its digits without leading zeros, scaled
-- by the exponent less the length of the fraction. It is refused as too large exactly when the
-- exponent exceeds 4096 or more than 4096 digits are left.
pub parse_numeric_id-number_text :
    (n : Number)
    → IsNumber n
    → parse_numeric_id (number_text n) ≡ (do
      e ← exp_value n.exp
      to_decimal n.negative (trim_left_zeros (n.int_part ++ n.fraction)) (length n.fraction) e)
unfolding parse_numeric_id at_end
parse_numeric_id-number_text n h = rw (sign_of n.int_part h.int_ok) (
    rw
      (scan_int-append n.int_part (fraction_text n.fraction (exp_text n.exp)) h.int_ok
        (fraction_text-NoDigitFirst n.fraction n.exp h.exp_ok))
      (rw (scan_frac-text n.fraction n.exp h.fraction_ok h.exp_ok)
        (rw (scan_exp-text n.exp h.exp_ok) (ending (exp_value n.exp) _))))
  where
    sign_of :
        (s : Bytes)
        → IsIntPart s
        → scan_sign (sign_text n.negative ++ (s ++ fraction_text n.fraction (exp_text n.exp)))
          ≡ ok (n.negative, s ++ fraction_text n.fraction (exp_text n.exp))
    sign_of [] i = absurd i
    sign_of (c ∷ cs) i = scan_sign-text n.negative c _ (ground arith)
