-- ===== src/RequestId/Canonical.antt =====
-- request_id.go: a key and the normal form of the number that it is rendered from.
use acp_go_sdk.Base.{
  ◌≤◌, ◌≡◌, refl, sym, ap, ◌∙◌, ◌↔◌, Bool, false, [], ◌∷◌, ◌++◌, Option, none, some, length, arith,
  length-append, subst,
}
use acp_go_sdk.Base.Int.{ℤ, pos}
use acp_go_sdk.Bytes.{Bytes, codes}
use acp_go_sdk.Result.{Result, ok}
use acp_go_sdk.RequestId.Scan.{
  to_decimal, trim_left_zeros, at_end, scan_exp, scan_frac, scan_int, scan_sign, IdError, Decimal,
  max_key_len, parse_numeric_id,
}
use acp_go_sdk.RequestId.Render.{strip_loop, zeros, strip_zeros, render_stripped, format_numeric_id}
use acp_go_sdk.RequestId.Bounds.{AllDigits}
use acp_go_sdk.RequestId.Digits.{
  NoLeadingZero, strip_zeros-split, strip_zeros-strip_zeros, AllDigits-prefix,
}
use acp_go_sdk.RequestId.ReadBack.{IsDecimal, render_key-ReadsAs}

-- A decimal up to leading and trailing zeros: its sign, digits and exponent, or none for zero.
abbrev pub normal_of : Bool → Bytes × ℤ → Option (Bool × Bytes × ℤ)
normal_of negative ([], e) = none
normal_of negative (d ∷ ds, e) = some (negative, d ∷ ds, e)

abbrev pub normal : Decimal → Option (Bool × Bytes × ℤ)
normal d = normal_of d.negative (strip_zeros d.digits d.exp10)

render_normal : Option (Bool × Bytes × ℤ) → Result IdError Bytes
unfolding render_stripped
render_normal none = render_stripped false ([], pos 0)
render_normal (some (negative, ds, e)) = render_stripped negative (ds, e)

render_stripped-normal :
    (negative : Bool) (r : Bytes × ℤ)
    → render_stripped negative r ≡ render_normal (normal_of negative r)
unfolding render_normal render_stripped
render_stripped-normal negative ([], e) = refl
render_stripped-normal negative (d ∷ ds, e) = refl

format_numeric_id-normal : (d : Decimal) → format_numeric_id d ≡ render_normal (normal d)
unfolding format_numeric_id
format_numeric_id-normal d = render_stripped-normal d.negative (strip_zeros d.digits d.exp10)

-- The text `key` is read as a decimal with the normal form `v`.
abbrev KeyOf : Bytes → Option (Bool × Bytes × ℤ) → Type 0
KeyOf key v = (d : Decimal) × (parse_numeric_id key ≡ ok d) × (normal d ≡ v)

zero-KeyOf : KeyOf (codes "0") none
unfolding parse_numeric_id scan_sign scan_int scan_frac scan_exp at_end trim_left_zeros to_decimal
    strip_zeros strip_loop
zero-KeyOf = (record { negative = false; digits = []; exp10 = pos 0 }, refl, refl)

render_stripped-KeyOf :
    (negative : Bool) (r : Bytes × ℤ) {key : Bytes}
    → AllDigits r.0
    → NoLeadingZero r.0
    → length r.0 ≤ max_key_len
    → strip_zeros r.0 r.1 ≡ r
    → render_stripped negative r ≡ ok key
    → KeyOf key (normal_of negative r)
unfolding render_stripped
render_stripped-KeyOf negative ([], e) a l b s h =
    subst (λ k. KeyOf k none) (ground arith) zero-KeyOf
render_stripped-KeyOf negative (c ∷ cs, e) a l b s h =
    let (d, read, sign, same) = render_key-ReadsAs negative c cs e a l b h in
    (d, read, ap (normal_of d.negative) (same ∙ s) ∙ ap (λ n. some (n, c ∷ cs, e)) sign)

pub format_numeric_id-KeyOf :
    (d : Decimal) {key : Bytes} → IsDecimal d → format_numeric_id d ≡ ok key → KeyOf key (normal d)
unfolding format_numeric_id
format_numeric_id-KeyOf d i h =
    let r = strip_zeros d.digits d.exp10 in
    let (n, split, exp, lead) = strip_zeros-split d.digits d.exp10 in
    render_stripped-KeyOf d.negative r
      (AllDigits-prefix r.0 (zeros n) (subst AllDigits split i.digits_ok))
      (NoLeadingZero-prefix r.0 (zeros n) (subst NoLeadingZero split i.leading_ok))
      (omega (arith, ap length split, length-append r.0 (zeros n), i.bounded))
      (strip_zeros-strip_zeros d.digits d.exp10) h
  where
    NoLeadingZero-prefix : (xs ys : Bytes) → NoLeadingZero (xs ++ ys) → NoLeadingZero xs
    NoLeadingZero-prefix [] ys l = tt
    NoLeadingZero-prefix (x ∷ xs) ys l = l

-- Two numbers read from texts get the same key exactly when they agree up to leading and trailing
-- zeros, the sign of zero left aside.
pub format_numeric_id-eq_iff :
    (x y : Decimal) {key : Bytes}
    → IsDecimal x
    → IsDecimal y
    → format_numeric_id x ≡ ok key
    → (format_numeric_id y ≡ ok key) ↔ (normal x ≡ normal y)
format_numeric_id-eq_iff x y ix iy hx = (
  λ hy.
      let (dx, rx, nx) = format_numeric_id-KeyOf x ix hx in
      let (dy, ry, ny) = format_numeric_id-KeyOf y iy hy in
      sym nx ∙ ap normal (ok-injective (sym rx ∙ ry)) ∙ ny,
  λ e.
      format_numeric_id-normal y ∙ ap render_normal (sym e) ∙ sym (format_numeric_id-normal x) ∙ hx,
)
  where
    ok-injective : {a b : Decimal} → ◌≡◌ {A = Result IdError Decimal} (ok a) (ok b) → a ≡ b
    ok-injective e = cc

-- Reading a key and formatting it again gives the key back.
pub format-parse-format :
    (x : Decimal) {key : Bytes}
    → IsDecimal x
    → format_numeric_id x ≡ ok key
    → (d : Decimal) × (parse_numeric_id key ≡ ok d) × (format_numeric_id d ≡ ok key)
format-parse-format x i h =
    let (d, read, same) = format_numeric_id-KeyOf x i h in
    (
      d,
      read,
      format_numeric_id-normal d ∙ ap render_normal same ∙ sym (format_numeric_id-normal x) ∙ h,
    )
