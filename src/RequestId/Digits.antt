-- ===== src/RequestId/Digits.antt =====
-- Lemmas on digit strings: spans, zeros at either end, and what a decimal read from a text is.
use acp_go_sdk.Base.{
  ℕ, zero, suc, ◌≡◌, refl, sym, ap, ◌∙◌, inl, inr, false, [], ◌∷◌, ◌++◌, reverse, ◌==◌, arith,
  Bool-cases, ==_iff, take, drop,
}
use mathlib.Core.List.{reverse-reverse, reverse-append, reverse-cons}
use acp_go_sdk.Base.Int.{ℤ, pos, ◌+ℤ◌, +ℤ_zero}
use acp_go_sdk.Bytes.{Bytes}
use acp_go_sdk.RequestId.Scan.{is_ascii_digit, span_digits, trim_left_zeros}
use acp_go_sdk.RequestId.Render.{strip_loop, strip_zeros, zeros}
use acp_go_sdk.RequestId.Bounds.{AllDigits}

pub AllDigits-append : (xs ys : Bytes) → AllDigits xs → AllDigits ys → AllDigits (xs ++ ys)
AllDigits-append [] ys a b = b
AllDigits-append (x ∷ xs) ys a b = (a.0, AllDigits-append xs ys a.1 b)

pub AllDigits-zeros : (n : ℕ) → AllDigits (zeros n)
AllDigits-zeros zero = tt
AllDigits-zeros (suc n) = (refl, AllDigits-zeros n)

pub AllDigits-take : (n : ℕ) (xs : Bytes) → AllDigits xs → AllDigits (take n xs)
AllDigits-take zero xs a = tt
AllDigits-take (suc n) [] a = tt
AllDigits-take (suc n) (x ∷ xs) a = (a.0, AllDigits-take n xs a.1)

pub AllDigits-drop : (n : ℕ) (xs : Bytes) → AllDigits xs → AllDigits (drop n xs)
AllDigits-drop zero xs a = a
AllDigits-drop (suc n) [] a = tt
AllDigits-drop (suc n) (x ∷ xs) a = AllDigits-drop n xs a.1

pub AllDigits-reverse : (xs : Bytes) → AllDigits xs → AllDigits (reverse xs)
AllDigits-reverse [] a = tt
AllDigits-reverse (x ∷ xs) a =
    rw (reverse-cons x xs)
      (AllDigits-append (reverse xs) (x ∷ []) (AllDigits-reverse xs a.1) (a.0, tt))

-- Digits that nothing follows, or a byte that is no digit, are read whole.
abbrev pub NoDigitFirst : Bytes → Type 0
NoDigitFirst [] = Unit {0}
NoDigitFirst (c ∷ cs) = is_ascii_digit c ≡ false

pub span_digits-append :
    (xs rest : Bytes) → AllDigits xs → NoDigitFirst rest → span_digits (xs ++ rest) ≡ (xs, rest)
unfolding span_digits
span_digits-append [] [] a h = refl
span_digits-append [] (c ∷ cs) a h = ground arith
span_digits-append (x ∷ xs) rest a h = ground (arith, span_digits-append xs rest a.1 h)

pub span_digits-AllDigits :
    (s : Bytes) → AllDigits (span_digits s).0 × NoDigitFirst (span_digits s).1
unfolding span_digits
span_digits-AllDigits [] = (tt, tt)
span_digits-AllDigits (c ∷ cs) = ground (arith, span_digits-AllDigits cs)

-- The first digit, if there is one, is not 0.
abbrev pub NoLeadingZero : Bytes → Type 0
NoLeadingZero [] = Unit {0}
NoLeadingZero (c ∷ cs) = (c == b'0') ≡ false

pub trim_left_zeros-NoLeadingZero : (s : Bytes) → NoLeadingZero (trim_left_zeros s)
unfolding trim_left_zeros
trim_left_zeros-NoLeadingZero [] = tt
trim_left_zeros-NoLeadingZero (c ∷ cs) = ground (arith, trim_left_zeros-NoLeadingZero cs)

pub trim_left_zeros-AllDigits : (s : Bytes) → AllDigits s → AllDigits (trim_left_zeros s)
unfolding trim_left_zeros
trim_left_zeros-AllDigits [] a = tt
trim_left_zeros-AllDigits (c ∷ cs) a = ground (arith, trim_left_zeros-AllDigits cs a.1)

pub trim_left_zeros_id : (s : Bytes) → NoLeadingZero s → trim_left_zeros s ≡ s
unfolding trim_left_zeros
trim_left_zeros_id [] h = refl
trim_left_zeros_id (c ∷ cs) h = ground arith

pub trim_left_zeros-zeros : (n : ℕ) (s : Bytes) → trim_left_zeros (zeros n ++ s) ≡ trim_left_zeros s
unfolding trim_left_zeros
trim_left_zeros-zeros zero s = refl
trim_left_zeros-zeros (suc n) s = trim_left_zeros-zeros n s

one_more : (e : ℤ) (n : ℕ) → e +ℤ pos 1 +ℤ pos n ≡ e +ℤ pos (suc n)
unfolding ◌+ℤ◌
one_more e n = ground arith

strip_loop-zeros :
    (n : ℕ) (s : Bytes) (e : ℤ) → strip_loop (zeros n ++ s) e ≡ strip_loop s (e +ℤ pos n)
unfolding strip_loop
strip_loop-zeros zero s e = rw (+ℤ_zero e)
strip_loop-zeros (suc n) s e = strip_loop-zeros n s (e +ℤ pos 1) ∙ ap (strip_loop s) (one_more e n)

zeros-concat : (n : ℕ) → zeros n ++ b'0' ∷ [] ≡ b'0' ∷ zeros n
zeros-concat zero = refl
zeros-concat (suc n) = ap (◌∷◌ b'0') (zeros-concat n)

reverse-zeros : (n : ℕ) → reverse (zeros n) ≡ zeros n
reverse-zeros zero = refl
reverse-zeros (suc n) = rw (reverse-cons b'0' (zeros n), reverse-zeros n) (zeros-concat n)

-- Zeros at the end of the digits are worth as much in the exponent.
pub strip_zeros-zeros :
    (digits : Bytes) (n : ℕ) (e : ℤ)
    → strip_zeros (digits ++ zeros n) e ≡ strip_zeros digits (e +ℤ pos n)
unfolding strip_zeros
strip_zeros-zeros digits n e =
    rw (reverse-append digits (zeros n), reverse-zeros n, strip_loop-zeros n (reverse digits) e)

-- What the loop strips is put back by zeros.
strip_loop-split :
    (s : Bytes) (e : ℤ)
    → (n : ℕ) × (s ≡ zeros n ++ (strip_loop s e).0)
      × ((strip_loop s e).1 ≡ e +ℤ pos n)
      × NoLeadingZero (strip_loop s e).0
unfolding strip_loop
strip_loop-split [] e = (0, refl, sym (+ℤ_zero e), tt)
strip_loop-split (c ∷ cs) e = elim (Bool-cases (c == b'0')) [
  | inl z ↦
      let (n, split, exp, lead) = strip_loop-split cs (e +ℤ pos 1) in
      rw (z, (==_iff c b'0').0 z) (suc n, ap (◌∷◌ b'0') split, exp ∙ one_more e n, lead)
  | inr nz ↦ rw nz (0, refl, sym (+ℤ_zero e), nz)
]

-- The digits are what is left and zeros, counted in the exponent; what is left ends in no zero.
pub strip_zeros-split :
    (digits : Bytes) (e : ℤ)
    → (n : ℕ) × (digits ≡ (strip_zeros digits e).0 ++ zeros n)
      × ((strip_zeros digits e).1 ≡ e +ℤ pos n)
      × NoLeadingZero (reverse (strip_zeros digits e).0)
unfolding strip_zeros
strip_zeros-split digits e =
    let (n, split, exp, lead) = strip_loop-split (reverse digits) e in
    let r = (strip_loop (reverse digits) e).0 in
    (
      n,
      sym (reverse-reverse digits)
          ∙ ap reverse split
          ∙ reverse-append (zeros n) r
          ∙ ap (◌++◌ (reverse r)) (reverse-zeros n),
      exp,
      rw (reverse-reverse r) lead,
    )

strip_loop_id : (s : Bytes) (e : ℤ) → NoLeadingZero s → strip_loop s e ≡ (s, e)
unfolding strip_loop
strip_loop_id [] e h = refl
strip_loop_id (c ∷ cs) e h = ground arith

pub strip_zeros-strip_zeros :
    (digits : Bytes) (e : ℤ)
    → strip_zeros (strip_zeros digits e).0 (strip_zeros digits e).1 ≡ strip_zeros digits e
strip_zeros-strip_zeros digits e =
    let (n, split, exp, lead) = strip_zeros-split digits e in
    strip_zeros_id (strip_zeros digits e) lead
  where
    strip_zeros_id : (r : Bytes × ℤ) → NoLeadingZero (reverse r.0) → strip_zeros r.0 r.1 ≡ r
    strip_zeros_id r h =
        unfold strip_zeros in rw (strip_loop_id (reverse r.0) r.1 h) (rw (reverse-reverse r.0))

pub AllDigits-prefix : (xs ys : Bytes) → AllDigits (xs ++ ys) → AllDigits xs
AllDigits-prefix [] ys a = tt
AllDigits-prefix (x ∷ xs) ys a = (a.0, AllDigits-prefix xs ys a.1)
