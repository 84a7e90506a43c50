-- ===== src/RequestId/ReadBack.antt =====
-- request_id.go: a rendered key is itself a number, and reads back as the decimal that it renders.
use acp_go_sdk.Base.{◌-◌, subst}
use acp_go_sdk.RequestId.Digits.{AllDigits-take, AllDigits-drop, trim_left_zeros-zeros}
use acp_go_sdk.Base.{
  ◌<◌, take, drop, take-append-drop, length-drop, length-replicate, inl, inr, ltb, Bool-cases,
}
use acp_go_sdk.RequestId.Render.{render_key}
use acp_go_sdk.Base.{
  ℕ, suc, ◌+◌, ◌≤◌, ◌≡◌, refl, ap, ◌∙◌, inr, Bool, false, [], ◌∷◌, ◌++◌, length, append-nil, ◌==◌,
  arith, length-append, length-replicate,
}
use acp_go_sdk.Base.Int.{ℤ, pos, negsuc, ◌+ℤ◌, ◌-ℤ◌}
use acp_go_sdk.Bytes.{Bytes}
use acp_go_sdk.Result.{ok, guard, >>=-eq-ok}
use acp_go_sdk.RequestId.Scan.{
  invalid_number, Decimal, max_key_len, span_digits, trim_left_zeros, scan_sign, scan_int,
  scan_frac, scan_exp, nonempty_digits, at_end, to_decimal, parse_numeric_id,
}
use acp_go_sdk.RequestId.Render.{sign_text, zeros, strip_zeros}
use acp_go_sdk.RequestId.Bounds.{AllDigits}
use acp_go_sdk.RequestId.Digits.{
  AllDigits-append, AllDigits-zeros, span_digits-AllDigits, NoLeadingZero,
  trim_left_zeros-NoLeadingZero, trim_left_zeros-AllDigits, trim_left_zeros_id, strip_zeros-zeros,
}
use acp_go_sdk.RequestId.Grammar.{
  Number, no_exponent, IsIntPart, fraction_text, parse_numeric_id-number_text,
}

-- What the reader returns: digits only, no leading zero, within the limit.
pub record IsDecimal (d : Decimal) : Type 0 where
  pub digits_ok : AllDigits d.digits
  pub leading_ok : NoLeadingZero d.digits
  pub bounded : length d.digits ≤ max_key_len

to_decimal-IsDecimal :
    (negative : Bool) (ds : Bytes) (places : ℕ) (e : ℤ) {d : Decimal}
    → AllDigits ds
    → NoLeadingZero ds
    → to_decimal negative ds places e ≡ ok d
    → IsDecimal d
unfolding to_decimal
to_decimal-IsDecimal negative [] places e a l h = ground arith
to_decimal-IsDecimal negative (c ∷ cs) places e a l h = ground arith

scan_int-AllDigits : (s : Bytes) {r : Bytes × Bytes} → scan_int s ≡ ok r → AllDigits r.0
unfolding scan_int
scan_int-AllDigits [] h = cc
scan_int-AllDigits (c ∷ cs) h = ground (arith, span_digits-AllDigits (c ∷ cs))

nonempty_digits-AllDigits :
    (p : Bytes × Bytes) {r : Bytes × Bytes}
    → AllDigits p.0
    → nonempty_digits p ≡ ok r
    → AllDigits r.0
unfolding nonempty_digits
nonempty_digits-AllDigits ([], s) a h = cc
nonempty_digits-AllDigits (d ∷ ds, s) a h = ground arith

scan_frac-AllDigits : (s : Bytes) {r : Bytes × Bytes} → scan_frac s ≡ ok r → AllDigits r.0
unfolding scan_frac
scan_frac-AllDigits [] h = ground arith
scan_frac-AllDigits (c ∷ cs) {r} h = ground (
  arith,
  span_digits-AllDigits cs,
  nonempty_digits-AllDigits (span_digits cs) {r = r} (span_digits-AllDigits cs).0,
)

pub parse_numeric_id-IsDecimal :
    (raw : Bytes) {d : Decimal} → parse_numeric_id raw ≡ ok d → IsDecimal d
unfolding parse_numeric_id
parse_numeric_id-IsDecimal raw h =
    let ((negative, s), _, h1) = >>=-eq-ok (scan_sign raw) _ h in
    let (i, hi, h2) = >>=-eq-ok (scan_int s) _ h1 in
    let (f, hf, h3) = >>=-eq-ok (scan_frac i.1) _ h2 in
    let (e, _, h4) = >>=-eq-ok (scan_exp f.1) _ h3 in
    let (_, _, h5) = >>=-eq-ok (guard (at_end e.1) invalid_number) _ h4 in
    let a = AllDigits-append i.0 f.0 (scan_int-AllDigits s hi) (scan_frac-AllDigits i.1 hf) in
    to_decimal-IsDecimal negative (trim_left_zeros (i.0 ++ f.0)) (length f.0) e.0
      (trim_left_zeros-AllDigits (i.0 ++ f.0) a) (trim_left_zeros-NoLeadingZero (i.0 ++ f.0)) h5

-- A text without exponent whose digits begin with `c` behind any zeros.
read_plain :
    (negative : Bool) (int_part fraction : Bytes) (c : ℕ) (cs : Bytes)
    → IsIntPart int_part
    → AllDigits fraction
    → trim_left_zeros (int_part ++ fraction) ≡ c ∷ cs
    → length (c ∷ cs) ≤ max_key_len
    → parse_numeric_id (sign_text negative ++ (int_part ++ fraction_text fraction []))
      ≡ ok (record { negative = negative; digits = c ∷ cs; exp10 = pos 0 -ℤ pos (length fraction) })
unfolding to_decimal
read_plain negative int_part fraction c cs i f t b =
    let n : Number = record {
      negative = negative;
      int_part = int_part;
      fraction = fraction;
      exp = no_exponent;
    } in
    parse_numeric_id-number_text n (record { int_ok = i; fraction_ok = f; exp_ok = tt })
    ∙ rw t (ground arith)

-- `key` is the text of some decimal worth `negative`, `ds` and `e`.
abbrev pub ReadsAs : Bytes → Bool → Bytes → ℤ → Type 0
ReadsAs key negative ds e =
    (d : Decimal) × (parse_numeric_id key ≡ ok d)
    × (d.negative ≡ negative)
    × (strip_zeros d.digits d.exp10 ≡ strip_zeros ds e)

IsIntPart-digits :
    (c : ℕ) (cs : Bytes) → (c == b'0') ≡ false → AllDigits (c ∷ cs) → IsIntPart (c ∷ cs)
IsIntPart-digits c cs l a = inr (ground arith, a.1)

zero-sub : (n : ℕ) → pos 0 -ℤ pos (suc n) ≡ negsuc n
unfolding ◌-ℤ◌
zero-sub n = ground arith

whole-shift : (e : ℕ) → pos 0 -ℤ pos 0 +ℤ pos e ≡ pos e
unfolding ◌-ℤ◌ ◌+ℤ◌
whole-shift e = ground arith

-- Digits with zeros behind them.
read_whole :
    (negative : Bool) (c : ℕ) (cs : Bytes) (e : ℕ)
    → AllDigits (c ∷ cs)
    → (c == b'0') ≡ false
    → e + length (c ∷ cs) ≤ max_key_len
    → ReadsAs (sign_text negative ++ ((c ∷ cs) ++ zeros e)) negative (c ∷ cs) (pos e)
read_whole negative c cs e a l b = (
  _,
  rw (append-nil (c ∷ (cs ++ zeros e))) at (
      read_plain negative ((c ∷ cs) ++ zeros e) [] c (cs ++ zeros e)
        (IsIntPart-digits c (cs ++ zeros e) l
          (a.0, AllDigits-append cs (zeros e) a.1 (AllDigits-zeros e)))
        tt
        (ap trim_left_zeros (append-nil (c ∷ (cs ++ zeros e)))
          ∙ trim_left_zeros_id (c ∷ (cs ++ zeros e)) l)
        (omega (arith, length-append cs (zeros e), length-replicate {A = ℕ} e b'0'))),
  refl,
  strip_zeros-zeros (c ∷ cs) e (pos 0 -ℤ pos 0) ∙ ap (strip_zeros (c ∷ cs)) (whole-shift e),
)

fraction_text-point : (f : Bytes) → 0 < length f → fraction_text f [] ≡ b'.' ∷ f
fraction_text-point [] h = absurd (omega arith)
fraction_text-point (d ∷ ds) h = rw (append-nil ds)

-- Digits with a point among them, `k + 1` in front of it.
read_pointed :
    (negative : Bool) (c : ℕ) (cs : Bytes) (k n : ℕ)
    → AllDigits (c ∷ cs)
    → (c == b'0') ≡ false
    → length cs ≡ k + suc n
    → length (c ∷ cs) ≤ max_key_len
    → ReadsAs
        (sign_text negative ++ ((c ∷ take k cs) ++ (b'.' ∷ drop k cs)))
        negative
        (c ∷ cs)
        (negsuc n)
read_pointed negative c cs k n a l e b =
    let behind : length (drop k cs) ≡ suc n = omega (arith, length-drop k cs) in
    (
      _,
      rw (fraction_text-point (drop k cs) (omega arith)) at (
          read_plain negative (c ∷ take k cs) (drop k cs) c cs
            (IsIntPart-digits c (take k cs) l (a.0, AllDigits-take k cs a.1))
            (AllDigits-drop k cs a.1)
            (ap (λ s. trim_left_zeros (c ∷ s)) (take-append-drop k cs)
              ∙ trim_left_zeros_id (c ∷ cs) l)
            b),
      refl,
      ap (strip_zeros (c ∷ cs)) (ap (λ m. pos 0 -ℤ pos m) behind ∙ zero-sub n),
    )

-- Digits behind a point and `z` zeros.
read_small :
    (negative : Bool) (c : ℕ) (cs : Bytes) (z n : ℕ)
    → AllDigits (c ∷ cs)
    → (c == b'0') ≡ false
    → z + length (c ∷ cs) ≡ suc n
    → length (c ∷ cs) ≤ max_key_len
    → ReadsAs
        (sign_text negative ++ (b'0' ∷ b'.' ∷ (zeros z ++ (c ∷ cs))))
        negative
        (c ∷ cs)
        (negsuc n)
read_small negative c cs z n a l e b =
    let f = zeros z ++ (c ∷ cs) in
    let places : length f ≡ suc n =
      omega (arith, length-append (zeros z) (c ∷ cs), length-replicate {A = ℕ} z b'0') in
    (
      _,
      rw (fraction_text-point f (omega arith)) at (
          read_plain negative (b'0' ∷ []) f c cs (inl (refl, refl))
            (AllDigits-append (zeros z) (c ∷ cs) (AllDigits-zeros z) a)
            (trim_left_zeros-zeros (suc z) (c ∷ cs) ∙ trim_left_zeros_id (c ∷ cs) l) b),
      refl,
      ap (strip_zeros (c ∷ cs)) (ap (λ m. pos 0 -ℤ pos m) places ∙ zero-sub n),
    )

-- A rendered key reads back as what it renders.
pub render_key-ReadsAs :
    (negative : Bool) (c : ℕ) (cs : Bytes) (e : ℤ) {key : Bytes}
    → AllDigits (c ∷ cs)
    → (c == b'0') ≡ false
    → length (c ∷ cs) ≤ max_key_len
    → render_key negative (c ∷ cs) e ≡ ok key
    → ReadsAs key negative (c ∷ cs) e
unfolding render_key
render_key-ReadsAs negative c cs (pos e) a l b h =
    elim (Bool-cases (ltb max_key_len (e + length (c ∷ cs)))) [
      | inl big ↦ absurd (ground arith)
      | inr fits ↦
          subst (λ k. ReadsAs k negative (c ∷ cs) (pos e)) (ground arith)
            (read_whole negative c cs e a l (ground arith))
    ]
render_key-ReadsAs negative c cs (negsuc n) a l b h =
    elim (Bool-cases (ltb (suc n) (length (c ∷ cs)))) [
      | inl pointed ↦
          let k = length cs - suc n in
          let front : length (c ∷ cs) - suc n ≡ suc k = ground arith in
          subst (λ s. ReadsAs s negative (c ∷ cs) (negsuc n)) (ground arith)
            (read_pointed negative c cs k n a l (ground arith) b)
      | inr small ↦
          subst (λ s. ReadsAs s negative (c ∷ cs) (negsuc n)) (ground arith)
            (read_small negative c cs (suc n - length (c ∷ cs)) n a l (ground arith) b)
    ]
