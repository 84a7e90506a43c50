-- ===== src/Schema/Names.antt =====
-- Sets of names, as lists, and how many names are not in one.
use acp_go_sdk.Base.{
  ℕ, suc, ◌+◌, ◌≤◌, ◌≡◌, ◌⊎◌, inl, inr, refl, sym, subst, true, false, List, [], ◌∷◌, ◌++◌, length,
  if◌then◌else◌, arith, Bool-cases,
}
use acp_go_sdk.Bytes.{Bytes, equal, equal_iff}
use acp_go_sdk.Schema.{has_name}

pub has_name-cons :
    (n m : Bytes) (ns : List Bytes) → has_name n (m ∷ ns) ≡ true → (m ≡ n) ⊎ (has_name n ns ≡ true)
unfolding has_name
has_name-cons n m ns h = elim (Bool-cases (equal m n)) [
  | inl same ↦ inl ((equal_iff m n).0 same)
  | inr other ↦ inr (rw other at h)
]

pub has_name_head : (n : Bytes) (ns : List Bytes) → has_name n (n ∷ ns) ≡ true
unfolding has_name
has_name_head n ns = rw ((equal_iff n n).1 refl) refl

pub has_name_tail :
    (n m : Bytes) (ns : List Bytes) → has_name n ns ≡ true → has_name n (m ∷ ns) ≡ true
unfolding has_name
has_name_tail n m ns h = ground (arith, h)

pub has_name-append :
    (n m : Bytes) (ns : List Bytes) → has_name n ns ≡ true → has_name n (ns ++ m ∷ []) ≡ true
unfolding has_name
has_name-append n m [] h = absurd cc
has_name-append n m (k ∷ ns) h = elim (Bool-cases (equal k n)) [
  | inl same ↦ rw same refl
  | inr other ↦ rw other (has_name-append n m ns (rw other at h))
]

pub has_name_last : (n : Bytes) (ns : List Bytes) → has_name n (ns ++ n ∷ []) ≡ true
has_name_last n [] = has_name_head n []
has_name_last n (m ∷ ns) = has_name_tail n m (ns ++ n ∷ []) (has_name_last n ns)

-- How many names are not in a set.
unfoldable pub absent : List Bytes → List Bytes → ℕ
absent [] set = 0
absent (n ∷ ns) set = (if has_name n set then 0 else 1) + absent ns set

pub absent-cons_le :
    (ns : List Bytes) (m : Bytes) (set : List Bytes) → absent ns (m ∷ set) ≤ absent ns set
unfolding absent
absent-cons_le [] m set = omega arith
absent-cons_le (n ∷ ns) m set =
    let rest = absent-cons_le ns m set in
    elim (Bool-cases (has_name n set)) [
      | inl known ↦ rw (known, has_name_tail n m set known) (omega (arith, rest))
      | inr new ↦ elim (Bool-cases (has_name n (m ∷ set))) [
        | inl e ↦ rw (new, e) (omega (arith, rest))
        | inr e ↦ rw (new, e) (omega (arith, rest))
      ]
    ]

pub absent-cons_lt :
    (ns : List Bytes) (m : Bytes) (set : List Bytes)
    → has_name m ns ≡ true
    → has_name m set ≡ false
    → suc (absent ns (m ∷ set)) ≤ absent ns set
unfolding absent
absent-cons_lt [] m set h k = absurd (unfold has_name in cc)
absent-cons_lt (n ∷ ns) m set h k = elim (has_name-cons m n ns h) [
  | inl same ↦
      let known : has_name n (m ∷ set) ≡ true =
        subst (λ x. has_name x (m ∷ set) ≡ true) (sym same) (has_name_head m set) in
      let new : has_name n set ≡ false = subst (λ x. has_name x set ≡ false) (sym same) k in
      rw (known, new) (omega (arith, absent-cons_le ns m set))
  | inr later ↦
      let rest = absent-cons_lt ns m set later k in
      elim (Bool-cases (has_name n set)) [
        | inl known ↦ rw (known, has_name_tail n m set known) (omega (arith, rest))
        | inr new ↦ elim (Bool-cases (has_name n (m ∷ set))) [
          | inl e ↦ rw (new, e) (omega (arith, rest))
          | inr e ↦ rw (new, e) (omega (arith, rest))
        ]
      ]
]

pub absent-length : (ns set : List Bytes) → absent ns set ≤ length ns
unfolding absent
absent-length [] set = omega arith
absent-length (n ∷ ns) set = elim (Bool-cases (has_name n set)) [
  | inl e ↦ rw e (omega (arith, absent-length ns set))
  | inr e ↦ rw e (omega (arith, absent-length ns set))
]

pub has_name-append_cases :
    (n : Bytes) (xs ys : List Bytes)
    → has_name n (xs ++ ys) ≡ true
    → (has_name n xs ≡ true) ⊎ (has_name n ys ≡ true)
has_name-append_cases n [] ys h = inr h
has_name-append_cases n (x ∷ xs) ys h = elim (has_name-cons n x (xs ++ ys) h) [
  | inl same ↦ inl (subst (λ z. has_name z (x ∷ xs) ≡ true) same (has_name_head x xs))
  | inr later ↦ elim (has_name-append_cases n xs ys later) [
    | inl a ↦ inl (has_name_tail n x xs a)
    | inr b ↦ inr b
  ]
]

pub has_name-append_left :
    (n : Bytes) (xs ys : List Bytes) → has_name n xs ≡ true → has_name n (xs ++ ys) ≡ true
unfolding has_name
has_name-append_left n [] ys h = absurd cc
has_name-append_left n (x ∷ xs) ys h = ground (arith, has_name-append_left n xs ys)

pub has_name-append_right :
    (n : Bytes) (xs ys : List Bytes) → has_name n ys ≡ true → has_name n (xs ++ ys) ≡ true
has_name-append_right n [] ys h = h
has_name-append_right n (x ∷ xs) ys h =
    has_name_tail n x (xs ++ ys) (has_name-append_right n xs ys h)
