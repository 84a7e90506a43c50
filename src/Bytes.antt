-- ===== src/Bytes.antt =====
-- Byte strings, and what the code uses of Go's packages bytes and strings: a byte string is a
-- `List ℕ` of byte values.
use acp_go_sdk.Base.{
  ℕ, zero, suc, ◌-◌, Bool, true, false, ◌&&◌, ◌||◌, List, [], ◌∷◌, ◌++◌, reverse, leb, ◌==◌,
  if◌then◌else◌, ◌≡◌, ◌↔◌, refl, arith,
}
pub mod Trim
pub mod Prefix
use mathlib.Core.List.{reverse-cons, reverse-reverse}
use Prim.Native.Char.{code}
use Prim.Native.String.{String}

abbrev pub Bytes : Type 0
Bytes = List ℕ

-- The bytes of an ASCII literal.
abbrev pub codes : String → Bytes
codes String.[] = []
codes (String.◌∷◌ c s) = code c ∷ codes s

-- `bytes.Equal`, and `==` on strings.
unfoldable pub equal : Bytes → Bytes → Bool
equal (c ∷ s) (d ∷ t) = c == d && equal s t
equal [] [] = true
equal [] (d ∷ t) = false
equal (c ∷ s) [] = false

pub equal_iff : (s t : Bytes) → (equal s t ≡ true) ↔ (s ≡ t)
unfolding equal
equal_iff [] [] = (λ h. refl, λ h. refl)
equal_iff [] (d ∷ t) = ground arith
equal_iff (c ∷ s) [] = ground arith
equal_iff (c ∷ s) (d ∷ t) = ground (arith, equal_iff s t)

abbrev pub within : ℕ → ℕ → ℕ → Bool
within lo hi c = leb lo c && leb c hi

-- The one-byte members of `unicode.IsSpace`.
abbrev is_ascii_space : ℕ → Bool
is_ascii_space c = within 9 13 c || c == 32

-- U+0085 and U+00A0 in UTF-8.
abbrev is_space_pair : ℕ → ℕ → Bool
is_space_pair a b = a == 0xc2 && (b == 0x85 || b == 0xa0)

-- U+1680, U+2000 to U+200A, U+2028, U+2029, U+202F, U+205F and U+3000 in UTF-8.
abbrev is_space_triple : ℕ → ℕ → ℕ → Bool
is_space_triple a b c =
    (a == 0xe1 && b == 0x9a && c == 0x80)
    || (a == 0xe2 && b == 0x80 && (within 0x80 0x8a c || c == 0xa8 || c == 0xa9 || c == 0xaf))
    || (a == 0xe2 && b == 0x81 && c == 0x9f)
    || (a == 0xe3 && b == 0x80 && c == 0x80)

-- How many bytes the white space at the front takes, 0 if there is none.
unfoldable pub space_width : Bytes → ℕ
space_width [] = 0
space_width (a ∷ []) = if is_ascii_space a then 1 else 0
space_width (a ∷ b ∷ []) = if is_ascii_space a then 1 else if is_space_pair a b then 2 else 0
space_width (a ∷ b ∷ c ∷ _) =
    if is_ascii_space a
    then 1
    else if is_space_pair a b
    then 2
    else if is_space_triple a b c
    then 3
    else 0

-- The same for a string that is held last byte first.
unfoldable pub last_space_width : Bytes → ℕ
last_space_width [] = 0
last_space_width (a ∷ []) = if is_ascii_space a then 1 else 0
last_space_width (b ∷ a ∷ []) = if is_ascii_space b then 1 else if is_space_pair a b then 2 else 0
last_space_width (c ∷ b ∷ a ∷ _) =
    if is_ascii_space c
    then 1
    else if is_space_pair b c
    then 2
    else if is_space_triple a b c
    then 3
    else 0

-- Drops white space from the front, the first `skip` bytes unseen.
unfoldable pub trim_with : (Bytes → ℕ) → ℕ → Bytes → Bytes
trim_with width skip [] = []
trim_with width (suc skip) (c ∷ cs) = trim_with width skip cs
trim_with width zero (c ∷ cs) =
    let rest = trim_with width (width (c ∷ cs) - 1) cs in
    if width (c ∷ cs) == 0 then c ∷ cs else rest

-- `bytes.TrimSpace` and `strings.TrimSpace`.
unfoldable pub trim_space : Bytes → Bytes
trim_space s = reverse (trim_with last_space_width 0 (reverse (trim_with space_width 0 s)))

trim_space_test : trim_space (codes " \t 12 3\n" ++ 0xc2 ∷ 0xa0 ∷ []) ≡ codes "12 3"
unfolding trim_space trim_with space_width last_space_width
trim_space_test = refl

-- A byte that can stand in no white space: ASCII above the space.
abbrev pub is_graphic : ℕ → Bool
is_graphic c = within 33 126 c

abbrev pub AllGraphic : Bytes → Type 0
AllGraphic [] = Unit {0}
AllGraphic (c ∷ cs) = (is_graphic c ≡ true) × AllGraphic cs

pub AllGraphic-append : (xs ys : Bytes) → AllGraphic xs → AllGraphic ys → AllGraphic (xs ++ ys)
AllGraphic-append [] ys a b = b
AllGraphic-append (x ∷ xs) ys a b = (a.0, AllGraphic-append xs ys a.1 b)

AllGraphic-reverse : (xs : Bytes) → AllGraphic xs → AllGraphic (reverse xs)
AllGraphic-reverse [] a = tt
AllGraphic-reverse (x ∷ xs) a =
    rw (reverse-cons x xs)
      (AllGraphic-append (reverse xs) (x ∷ []) (AllGraphic-reverse xs a.1) (a.0, tt))

space_width-AllGraphic : (s : Bytes) → AllGraphic s → space_width s ≡ 0
unfolding space_width
space_width-AllGraphic [] a = refl
space_width-AllGraphic (x ∷ []) a = ground arith
space_width-AllGraphic (x ∷ y ∷ []) a = ground arith
space_width-AllGraphic (x ∷ y ∷ z ∷ s) a = ground arith

last_space_width-AllGraphic : (s : Bytes) → AllGraphic s → last_space_width s ≡ 0
unfolding last_space_width
last_space_width-AllGraphic [] a = refl
last_space_width-AllGraphic (x ∷ []) a = ground arith
last_space_width-AllGraphic (x ∷ y ∷ []) a = ground arith
last_space_width-AllGraphic (x ∷ y ∷ z ∷ s) a = ground arith

trim_with_id : (width : Bytes → ℕ) (s : Bytes) → width s ≡ 0 → trim_with width 0 s ≡ s
unfolding trim_with
trim_with_id width [] h = refl
trim_with_id width (c ∷ cs) h = rw h

-- Text without white space at its ends is left alone.
pub trim_space-AllGraphic : (s : Bytes) → AllGraphic s → trim_space s ≡ s
unfolding trim_space
trim_space-AllGraphic s a =
    rw
      (
        trim_with_id space_width s (space_width-AllGraphic s a),
        trim_with_id last_space_width (reverse s)
            (last_space_width-AllGraphic (reverse s) (AllGraphic-reverse s a)),
      )
      (reverse-reverse s)
