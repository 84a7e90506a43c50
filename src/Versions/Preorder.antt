-- ===== src/Versions/Preorder.antt =====
-- version.go: the laws of Compare.
use acp_go_sdk.Base.{
  ℕ, suc, ◌≡◌, refl, sym, ap, ◌∙◌, inl, inr, not, List, [], ◌∷◌, length, ◌==◌, if◌then◌else◌, arith,
  Bool-cases,
}
use acp_go_sdk.Bytes.{Bytes}
use acp_go_sdk.Versions.{PreIdent, Version}
use acp_go_sdk.Versions.Compare.{
  Sign, below, level, above, compare_int, then_by, compare_text, compare_pre_ident, compare_common,
  compare_pre, compare,
}
use acp_go_sdk.Versions.Order.{
  IsComparison, lex, compare_int-IsComparison, then_by-IsComparison, IsComparison-on,
  IsComparison-same, compare_text-IsComparison, lex-IsComparison,
}

-- The parts by which identifiers are ordered: numbers first, by their value, then texts.
abbrev ident_rank : PreIdent → ℕ
ident_rank a = if a.numeric then 0 else 1

abbrev ident_number : PreIdent → ℕ
ident_number a = if a.numeric then a.n else 0

abbrev ident_text : PreIdent → Bytes
ident_text a = if a.numeric then [] else a.s

abbrev by_parts : PreIdent → PreIdent → Sign
by_parts a b = then_by (compare_int (ident_rank a) (ident_rank b)) (
    then_by (compare_int (ident_number a) (ident_number b))
      (compare_text (ident_text a) (ident_text b)))

then_by_level : (x : Sign) → then_by x level ≡ x
then_by_level below = refl
then_by_level level = refl
then_by_level above = refl

compare_pre_ident-parts : (a b : PreIdent) → compare_pre_ident a b ≡ by_parts a b
unfolding compare_pre_ident compare_int compare_text
compare_pre_ident-parts a b = elim (Bool-cases a.numeric) [
  | inl ea ↦ elim (Bool-cases b.numeric) [
    | inl eb ↦ rw (ea, eb) (sym (then_by_level (compare_int a.n b.n)))
    | inr eb ↦ rw (ea, eb) refl
  ]
  | inr ea ↦ elim (Bool-cases b.numeric) [ inl eb ↦ rw (ea, eb) refl | inr eb ↦ rw (ea, eb) refl ]
]

compare_pre_ident-IsComparison : IsComparison compare_pre_ident
compare_pre_ident-IsComparison = IsComparison-same compare_pre_ident-parts (
    then_by-IsComparison (IsComparison-on ident_rank compare_int-IsComparison) (
      then_by-IsComparison (IsComparison-on ident_number compare_int-IsComparison)
        (IsComparison-on ident_text compare_text-IsComparison)))

compare_int-suc : (m n : ℕ) → compare_int (suc m) (suc n) ≡ compare_int m n
unfolding compare_int
compare_int-suc m n = ground arith

-- The loop, and then the lengths, are the lexicographic comparison.
compare_common-lex :
    (xs ys : List PreIdent)
    → then_by (compare_common xs ys) (compare_int (length xs) (length ys))
      ≡ lex compare_pre_ident xs ys
unfolding compare_common lex
compare_common-lex [] [] = unfold compare_int in refl
compare_common-lex [] (b ∷ ys) = unfold compare_int in ground arith
compare_common-lex (a ∷ xs) [] = unfold compare_int in ground arith
compare_common-lex (a ∷ xs) (b ∷ ys) =
    then_by-then_by (compare_pre_ident a b) (compare_common xs ys)
      (compare_int (suc (length xs)) (suc (length ys)))
    ∙ rw (compare_int-suc (length xs) (length ys), compare_common-lex xs ys) refl
  where
    then_by-then_by : (x y z : Sign) → then_by (then_by x y) z ≡ then_by x (then_by y z)
    then_by-then_by below y z = refl
    then_by-then_by level y z = refl
    then_by-then_by above y z = refl

abbrev pre_rank : List PreIdent → ℕ
pre_rank [] = 1
pre_rank (a ∷ xs) = 0

compare_pre-parts :
    (xs ys : List PreIdent)
    → compare_pre xs ys
      ≡ then_by (compare_int (pre_rank xs) (pre_rank ys)) (lex compare_pre_ident xs ys)
unfolding compare_pre compare_int
compare_pre-parts [] [] = unfold lex in refl
compare_pre-parts [] (b ∷ ys) = refl
compare_pre-parts (a ∷ xs) [] = refl
compare_pre-parts (a ∷ xs) (b ∷ ys) = compare_common-lex (a ∷ xs) (b ∷ ys)

compare_pre-IsComparison : IsComparison compare_pre
compare_pre-IsComparison = IsComparison-same compare_pre-parts (
    then_by-IsComparison (IsComparison-on pre_rank compare_int-IsComparison)
      (lex-IsComparison compare_pre_ident-IsComparison))

number-then_by :
    (m n : ℕ) (rest : Sign)
    → (if not (m == n) then compare_int m n else rest) ≡ then_by (compare_int m n) rest
unfolding compare_int
number-then_by m n rest = ground arith

-- Compare is the comparison of a total order: it turns around with its arguments, versions that it
-- calls equal compare alike with every other, and it is transitive.
pub compare-IsComparison : IsComparison compare
unfolding compare
compare-IsComparison =
    IsComparison-same
      (λ v w.
        number-then_by v.major w.major _
        ∙ ap (then_by (compare_int v.major w.major)) (
            number-then_by v.minor w.minor _
            ∙ ap (then_by (compare_int v.minor w.minor)) (number-then_by v.patch w.patch _)))
      (then_by-IsComparison (IsComparison-on (λ (v : Version). v.major) compare_int-IsComparison) (
        then_by-IsComparison (IsComparison-on (λ (v : Version). v.minor) compare_int-IsComparison) (
          then_by-IsComparison (IsComparison-on (λ (v : Version). v.patch) compare_int-IsComparison)
            (IsComparison-on (λ (v : Version). v.pre) compare_pre-IsComparison))))
