-- ===== src/Bytes/Trim.antt =====
-- bytes.TrimSpace: trimmed text stays as it is, also behind a newline.
use mathlib.Core.List.{reverse-append, reverse-reverse}
use acp_go_sdk.Base.{
  ◌≢◌, ℕ, zero, suc, ◌-◌, ◌≡◌, refl, sym, ap, ◌∙◌, [], ◌∷◌, ◌++◌, reverse, arith, Bool-cases, inl,
  inr, ◌==◌, ==_iff,
}
use acp_go_sdk.Bytes.{Bytes, space_width, last_space_width, trim_with, trim_space}

-- What is left begins with no white space.
trim_with-done :
    (width : Bytes → ℕ) (k : ℕ) (s : Bytes) → width [] ≡ 0 → width (trim_with width k s) ≡ 0
unfolding trim_with
trim_with-done width k [] h = h
trim_with-done width (suc k) (c ∷ cs) h = trim_with-done width k cs h
trim_with-done width zero (c ∷ cs) h = elim (Bool-cases (width (c ∷ cs) == 0)) [
  | inl z ↦ rw z ((==_iff (width (c ∷ cs)) 0).0 z)
  | inr more ↦ rw more (trim_with-done width (width (c ∷ cs) - 1) cs h)
]

-- What is left is an end of the text.
trim_with-suffix :
    (width : Bytes → ℕ) (k : ℕ) (s : Bytes) → (p : Bytes) × (s ≡ p ++ trim_with width k s)
unfolding trim_with
trim_with-suffix width k [] = ([], refl)
trim_with-suffix width (suc k) (c ∷ cs) =
    let (p, e) = trim_with-suffix width k cs in (c ∷ p, ap (◌∷◌ c) e)
trim_with-suffix width zero (c ∷ cs) = elim (Bool-cases (width (c ∷ cs) == 0)) [
  | inl z ↦ rw z ([], refl)
  | inr more ↦
      let (p, e) = trim_with-suffix width (width (c ∷ cs) - 1) cs in rw more (c ∷ p, ap (◌∷◌ c) e)
]

trim_with_id : (width : Bytes → ℕ) (s : Bytes) → width s ≡ 0 → trim_with width 0 s ≡ s
unfolding trim_with
trim_with_id width [] h = refl
trim_with_id width (c ∷ cs) h = rw h

-- White space at the front of a beginning of a text is at the front of the text.
space_width-prefix : (p q : Bytes) → space_width (p ++ q) ≡ 0 → space_width p ≡ 0
unfolding space_width
space_width-prefix [] q h = refl
space_width-prefix (a ∷ []) [] h = h
space_width-prefix (a ∷ []) (b ∷ []) h = ground arith
space_width-prefix (a ∷ []) (b ∷ c ∷ q) h = ground arith
space_width-prefix (a ∷ b ∷ []) [] h = h
space_width-prefix (a ∷ b ∷ []) (c ∷ q) h = ground arith
space_width-prefix (a ∷ b ∷ c ∷ p) q h = h

space_width-newline : (s : Bytes) → s ≢ [] → space_width s ≡ 0 → space_width (s ++ b'\n' ∷ []) ≡ 0
unfolding space_width
space_width-newline [] n h = absurd (n refl)
space_width-newline (a ∷ []) n h = ground arith
space_width-newline (a ∷ b ∷ []) n h = ground arith
space_width-newline (a ∷ b ∷ c ∷ s) n h = h

-- No white space at either end.
pub record IsTrimmed (s : Bytes) : Type 0 where
  pub front : space_width s ≡ 0
  pub back : last_space_width (reverse s) ≡ 0

pub trim_space-IsTrimmed : (s : Bytes) → IsTrimmed (trim_space s)
unfolding trim_space
trim_space-IsTrimmed s =
    let u = trim_with space_width 0 s in
    let v = trim_with last_space_width 0 (reverse u) in
    let (p, e) = trim_with-suffix last_space_width 0 (reverse u) in
    let whole : u ≡ reverse v ++ reverse p =
      sym (reverse-reverse u) ∙ ap reverse e ∙ reverse-append p v in
    record {
      front = space_width-prefix (reverse v) (reverse p) (
          sym (ap space_width whole) ∙ trim_with-done space_width 0 s (unfold space_width in refl));
      back =
          ap last_space_width (reverse-reverse v)
          ∙ trim_with-done last_space_width 0 (reverse u) (unfold last_space_width in refl);
    }

pub trim_space_id : (s : Bytes) → IsTrimmed s → trim_space s ≡ s
unfolding trim_space
trim_space_id s t =
    rw (trim_with_id space_width s t.front, trim_with_id last_space_width (reverse s) t.back)
      (reverse-reverse s)

newline-width : (r : Bytes) → last_space_width (b'\n' ∷ r) ≡ 1
unfolding last_space_width
newline-width [] = refl
newline-width (a ∷ []) = refl
newline-width (a ∷ b ∷ r) = refl

trim_with-newline :
    (r : Bytes) → last_space_width r ≡ 0 → trim_with last_space_width 0 (b'\n' ∷ r) ≡ r
unfolding trim_with
trim_with-newline r h = rw (newline-width r) (trim_with_id last_space_width r h)

-- A newline behind trimmed text is trimmed away.
pub trim_space-newline : (s : Bytes) → IsTrimmed s → trim_space (s ++ b'\n' ∷ []) ≡ s
unfolding trim_space
trim_space-newline [] t = unfold trim_with space_width last_space_width in refl
trim_space-newline (c ∷ cs) t =
    let whole = space_width-newline (c ∷ cs) (λ e. cc) t.front in
    rw
      (
        trim_with_id space_width ((c ∷ cs) ++ b'\n' ∷ []) whole,
        reverse-append (c ∷ cs) (b'\n' ∷ []),
        trim_with-newline (reverse (c ∷ cs)) t.back,
      )
      (reverse-reverse (c ∷ cs))
