-- ===== src/RequestId/SameNumber.antt =====
-- request_id.go: which numbers get one key.
use Prim.Native.Nat.{ℕ}
use acp_go_sdk.Base.{
  ℕ, zero, suc, ◌≡◌, ◌⊎◌, ◌↔◌, inl, inr, refl, sym, ap, ◌∙◌, [], ◌∷◌, ◌++◌, ◌+◌, none, replicate,
  arith, append_assoc, subst,
}
use acp_go_sdk.Base.Int.{ℤ, pos, ◌+ℤ◌, ◌-ℤ◌}
use acp_go_sdk.Bytes.{Bytes}
use acp_go_sdk.Result.{ok}
use acp_go_sdk.RequestId.Digits.{NoLeadingZero, strip_zeros-zeros, strip_zeros-split}
use acp_go_sdk.RequestId.Render.{zeros, strip_zeros, strip_loop, format_numeric_id}
use acp_go_sdk.RequestId.ReadBack.{IsDecimal}
use acp_go_sdk.RequestId.Canonical.{normal, normal_of, format_numeric_id-eq_iff}
use acp_go_sdk.RequestId.Scan.{Decimal}

-- Two decimals are the same number: both are zero, or their signs are the same and zeros behind
-- their digits, each worth a power of ten, bring them to the same digits and the same power.
abbrev pub SameNumber : Decimal → Decimal → Type 0
SameNumber x y =
    ((x.digits ≡ []) × (y.digits ≡ []))
    ⊎ ((x.negative ≡ y.negative)
        × ((m n : ℕ) × (x.digits ++ replicate m b'0' ≡ y.digits ++ replicate n b'0')
            × (x.exp10 -ℤ pos m ≡ y.exp10 -ℤ pos n)))

sub-add_back : (e : ℤ) (n : ℕ) → e -ℤ pos n +ℤ pos n ≡ e
unfolding ◌-ℤ◌ ◌+ℤ◌
sub-add_back e n = ground arith

strip_zeros-padded :
    (digits : Bytes) (e : ℤ) (m : ℕ)
    → strip_zeros (digits ++ replicate m b'0') (e -ℤ pos m) ≡ strip_zeros digits e
strip_zeros-padded digits e m =
    strip_zeros-zeros digits m (e -ℤ pos m) ∙ ap (strip_zeros digits) (sub-add_back e m)

strip_zeros-nil : (e : ℤ) → strip_zeros [] e ≡ ([], e)
unfolding strip_zeros strip_loop
strip_zeros-nil e = refl

normal-zero : (x : Decimal) → x.digits ≡ [] → normal x ≡ none
normal-zero x h =
    ap (normal_of x.negative) (ap (λ d. strip_zeros d x.exp10) h ∙ strip_zeros-nil x.exp10)

SameNumber-normal : (x y : Decimal) → SameNumber x y → normal x ≡ normal y
SameNumber-normal x y (inl (a, b)) = normal-zero x a ∙ sym (normal-zero y b)
SameNumber-normal x y (inr (sign, (m, n, digits, exp))) =
    ap (normal_of x.negative) (
      sym (strip_zeros-padded x.digits x.exp10 m)
      ∙ ap (λ d. strip_zeros d (x.exp10 -ℤ pos m)) digits
      ∙ ap (strip_zeros (y.digits ++ replicate n b'0')) exp
      ∙ strip_zeros-padded y.digits y.exp10 n)
    ∙ ap (λ s. normal_of s (strip_zeros y.digits y.exp10)) sign

replicate-append : (m n : ℕ) → zeros m ++ zeros n ≡ zeros (m + n)
replicate-append zero n = ap zeros (omega arith)
replicate-append (suc m) n =
    let e : suc (m + n) ≡ suc m + n = omega arith in
    ap (◌∷◌ b'0') (replicate-append m n) ∙ ap zeros e

replicate_comm : (ds : Bytes) (m n : ℕ) → (ds ++ zeros m) ++ zeros n ≡ (ds ++ zeros n) ++ zeros m
replicate_comm ds m n =
    append_assoc ds (zeros m) (zeros n)
    ∙ ap (λ z. ds ++ z)
        (replicate-append m n ∙ ap (λ k. zeros k) (omega arith) ∙ sym (replicate-append n m))
    ∙ sym (append_assoc ds (zeros n) (zeros m))

zeros-NoLeadingZero : (n : ℕ) → NoLeadingZero (zeros n) → zeros n ≡ []
zeros-NoLeadingZero zero h = refl
zeros-NoLeadingZero (suc n) h = absurd cc

same_power : (e f : ℤ) (a b : ℕ) → e +ℤ pos a ≡ f +ℤ pos b → e -ℤ pos b ≡ f -ℤ pos a
unfolding ◌-ℤ◌ ◌+ℤ◌
same_power e f a b h = ground arith

-- Decimals of the same normal form, by what was stripped of them.
normal_of-SameNumber :
    (x y : Decimal) (rx ry : Bytes × ℤ) (a b : ℕ)
    → NoLeadingZero x.digits
    → NoLeadingZero y.digits
    → x.digits ≡ rx.0 ++ replicate a b'0'
    → y.digits ≡ ry.0 ++ replicate b b'0'
    → rx.1 ≡ x.exp10 +ℤ pos a
    → ry.1 ≡ y.exp10 +ℤ pos b
    → normal_of x.negative rx ≡ normal_of y.negative ry
    → SameNumber x y
normal_of-SameNumber x y ([], e) ([], f) a b lx ly dx dy ex ey h = inl (
  dx ∙ zeros-NoLeadingZero a (subst NoLeadingZero dx lx),
  dy ∙ zeros-NoLeadingZero b (subst NoLeadingZero dy ly),
)
normal_of-SameNumber x y ([], e) (d ∷ ds, f) a b lx ly dx dy ex ey h = absurd cc
normal_of-SameNumber x y (c ∷ cs, e) ([], f) a b lx ly dx dy ex ey h = absurd cc
normal_of-SameNumber x y (c ∷ cs, e) (d ∷ ds, f) a b lx ly dx dy ex ey h =
    let digits : c ∷ cs ≡ d ∷ ds = cc in
    inr (
      cc,
      (
        b,
        a,
        ap (λ z. z ++ replicate b b'0') dx
            ∙ replicate_comm (c ∷ cs) a b
            ∙ ap (λ z. (z ++ replicate b b'0') ++ replicate a b'0') digits
            ∙ sym (ap (λ z. z ++ replicate a b'0') dy),
        same_power x.exp10 y.exp10 a b cc,
      ),
    )

normal-SameNumber :
    (x y : Decimal)
    → NoLeadingZero x.digits
    → NoLeadingZero y.digits
    → normal x ≡ normal y
    → SameNumber x y
normal-SameNumber x y lx ly h =
    let (a, dx, ex, _) = strip_zeros-split x.digits x.exp10 in
    let (b, dy, ey, _) = strip_zeros-split y.digits y.exp10 in
    normal_of-SameNumber x y (strip_zeros x.digits x.exp10) (strip_zeros y.digits y.exp10) a b lx ly
      dx dy ex ey h

-- Where a number that was read from a text has a key, another number that was read gets the same
-- key exactly when it is the same number: both zero, or of one sign and, once zeros are put behind
-- their digits, of the same digits and the same power of ten.
pub format_numeric_id-SameNumber :
    (x y : Decimal) {key : Bytes}
    → IsDecimal x
    → IsDecimal y
    → format_numeric_id x ≡ ok key
    → (format_numeric_id y ≡ ok key) ↔ SameNumber x y
format_numeric_id-SameNumber x y ix iy hx =
    let (to, back) = format_numeric_id-eq_iff x y ix iy hx in
    (
      λ h. normal-SameNumber x y ix.leading_ok iy.leading_ok (to h),
      λ same. back (SameNumber-normal x y same),
    )
