-- ===== src/Versions/Order.antt =====
-- The laws of the comparisons of version.go.
use acp_go_sdk.Base.{inr, ◌⊎◌, inl, ◌≡◌, refl, sym, ap, ◌∙◌, List, [], ◌∷◌, arith}
use acp_go_sdk.Bytes.{Bytes}
use acp_go_sdk.Versions.Compare.{Sign, below, level, above, compare_int, then_by, compare_text}

abbrev pub opposite : Sign → Sign
opposite below = above
opposite level = level
opposite above = below

-- What the comparison of a total order, up to what it calls level, satisfies.
pub record IsComparison {A : Type 0} (cmp : A → A → Sign) : Type 0 where
  pub turned : (a b : A) → cmp b a ≡ opposite (cmp a b)
  pub replaced : (a b c : A) → cmp a b ≡ level → cmp a c ≡ cmp b c
  pub chained : (a b c : A) → cmp a b ≡ below → cmp b c ≡ below → cmp a c ≡ below

pub compare_int-IsComparison : IsComparison compare_int
unfolding compare_int
compare_int-IsComparison = record {
  turned = λ a b. ground arith;
  replaced = λ a b c h. ground (arith, h);
  chained = λ a b c h k. ground (arith, h, k);
}

then_by-level : (x y : Sign) → then_by x y ≡ level → (x ≡ level) × (y ≡ level)
then_by-level level y h = (refl, h)
then_by-level below y h = absurd cc
then_by-level above y h = absurd cc

then_by-opposite : (x y : Sign) → then_by (opposite x) (opposite y) ≡ opposite (then_by x y)
then_by-opposite level y = refl
then_by-opposite below y = refl
then_by-opposite above y = refl

-- Either the first comparison decides, or both go on.
then_by-below : (x y : Sign) → then_by x y ≡ below → (x ≡ below) ⊎ ((x ≡ level) × (y ≡ below))
then_by-below level y h = inr (refl, h)
then_by-below below y h = inl refl
then_by-below above y h = absurd cc

-- In a chain of three, whatever is level may be left out on either side.
pub replaced_right :
    {A : Type 0} {cmp : A → A → Sign}
    → IsComparison cmp
    → (a b c : A) → cmp b c ≡ level
    → cmp a b ≡ cmp a c
replaced_right {A} {cmp} laws a b c h =
    laws.turned b a ∙ ap opposite (laws.replaced b c a h) ∙ sym (laws.turned c a)

-- The step of a lexicographic comparison: from the laws of the heads at three points and those of
-- the rests.
then_by-chained :
    {x1 y1 z1 x2 y2 z2 : Sign}
    → (x1 ≡ level → z1 ≡ y1)
    → (y1 ≡ level → z1 ≡ x1)
    → (x1 ≡ below → y1 ≡ below → z1 ≡ below)
    → (x2 ≡ below → y2 ≡ below → z2 ≡ below)
    → then_by x1 x2 ≡ below
    → then_by y1 y2 ≡ below
    → then_by z1 z2 ≡ below
then_by-chained {x1} {y1} {z1} {x2} {y2} {z2} left right heads rests h k =
    elim (then_by-below x1 x2 h) [
      | inl hx ↦ elim (then_by-below y1 y2 k) [
        | inl hy ↦ rw (heads hx hy) refl
        | inr (hy, k2) ↦ rw (right hy, hx) refl
      ]
      | inr (hx, h2) ↦ elim (then_by-below y1 y2 k) [
        | inl hy ↦ rw (left hx, hy) refl
        | inr (hy, k2) ↦ rw (left hx, hy) (rests h2 k2)
      ]
    ]

module _ {A : Type 0} {first second : A → A → Sign} (p : IsComparison first)
    (q : IsComparison second) where
  -- Two comparisons, one after the other.
  pub then_by-IsComparison : IsComparison (λ a b. then_by (first a b) (second a b))
  then_by-IsComparison = record {
    turned = λ a b. rw (p.turned a b, q.turned a b) (then_by-opposite (first a b) (second a b));
    replaced = λ a b c h.
        let (h1, h2) = then_by-level (first a b) (second a b) h in
        rw (p.replaced a b c h1, q.replaced a b c h2) refl;
    chained = λ a b c h k.
        then_by-chained (p.replaced a b c) (λ e. sym (replaced_right p a b c e)) (p.chained a b c)
          (q.chained a b c) h k;
  }

-- A comparison of parts.
pub IsComparison-on :
    {A B : Type 0} {cmp : B → B → Sign} (f : A → B)
    → IsComparison cmp
    → IsComparison (λ a b. cmp (f a) (f b))
IsComparison-on f p = record {
  turned = λ a b. p.turned (f a) (f b);
  replaced = λ a b c h. p.replaced (f a) (f b) (f c) h;
  chained = λ a b c h k. p.chained (f a) (f b) (f c) h k;
}

pub IsComparison-same :
    {A : Type 0} {c d : A → A → Sign}
    → ((a b : A) → c a b ≡ d a b)
    → IsComparison d
    → IsComparison c
IsComparison-same same p = record {
  turned = λ a b. rw (same a b, same b a) (p.turned a b);
  replaced = λ a b e h. rw (same a e, same b e) (p.replaced a b e (sym (same a b) ∙ h));
  chained = λ a b e h k. same a e ∙ p.chained a b e (sym (same a b) ∙ h) (sym (same b e) ∙ k);
}

-- The lexicographic comparison of lists.
unfoldable pub lex : {A : Type 0} → (A → A → Sign) → List A → List A → Sign
lex cmp [] [] = level
lex cmp [] (b ∷ ys) = below
lex cmp (a ∷ xs) [] = above
lex cmp (a ∷ xs) (b ∷ ys) = then_by (cmp a b) (lex cmp xs ys)

module _ {A : Type 0} {cmp : A → A → Sign} (p : IsComparison cmp) where
  lex-turned : (xs ys : List A) → lex cmp ys xs ≡ opposite (lex cmp xs ys)
  unfolding lex
  lex-turned [] [] = refl
  lex-turned [] (b ∷ ys) = refl
  lex-turned (a ∷ xs) [] = refl
  lex-turned (a ∷ xs) (b ∷ ys) =
      rw (p.turned a b, lex-turned xs ys) (then_by-opposite (cmp a b) (lex cmp xs ys))

  lex-replaced : (xs ys zs : List A) → lex cmp xs ys ≡ level → lex cmp xs zs ≡ lex cmp ys zs
  unfolding lex
  lex-replaced [] [] zs h = refl
  lex-replaced [] (b ∷ ys) zs h = absurd cc
  lex-replaced (a ∷ xs) [] zs h = absurd cc
  lex-replaced (a ∷ xs) (b ∷ ys) [] h = refl
  lex-replaced (a ∷ xs) (b ∷ ys) (c ∷ zs) h =
      let (h1, h2) = then_by-level (cmp a b) (lex cmp xs ys) h in
      rw (p.replaced a b c h1, lex-replaced xs ys zs h2) refl

  lex-chained :
      (xs ys zs : List A) → lex cmp xs ys ≡ below → lex cmp ys zs ≡ below → lex cmp xs zs ≡ below
  unfolding lex
  lex-chained [] [] zs h k = absurd cc
  lex-chained [] (b ∷ ys) [] h k = absurd cc
  lex-chained [] (b ∷ ys) (c ∷ zs) h k = refl
  lex-chained (a ∷ xs) [] zs h k = absurd cc
  lex-chained (a ∷ xs) (b ∷ ys) [] h k = absurd cc
  lex-chained (a ∷ xs) (b ∷ ys) (c ∷ zs) h k =
      then_by-chained (p.replaced a b c) (λ e. sym (replaced_right p a b c e)) (p.chained a b c)
        (lex-chained xs ys zs) h k

  pub lex-IsComparison : IsComparison (lex cmp)
  lex-IsComparison = record { turned = lex-turned; replaced = lex-replaced; chained = lex-chained }

compare_text-lex : (s t : Bytes) → compare_text s t ≡ lex compare_int s t
unfolding compare_text lex
compare_text-lex [] [] = refl
compare_text-lex [] (d ∷ t) = refl
compare_text-lex (c ∷ s) [] = refl
compare_text-lex (c ∷ s) (d ∷ t) = rw (compare_text-lex s t) refl

pub compare_text-IsComparison : IsComparison compare_text
compare_text-IsComparison =
    IsComparison-same compare_text-lex (lex-IsComparison compare_int-IsComparison)
