-- ===== src/Versions/Compare.antt =====
-- cmd/upstreamdrift/version.go: Compare and what it calls.
use acp_go_sdk.Base.{ℕ, length, Bool, true, false, not, List, [], ◌∷◌, ltb, ◌==◌, if◌then◌else◌}
use acp_go_sdk.Bytes.{Bytes}
use acp_go_sdk.Versions.{PreIdent, Version}

-- The results of the comparisons: -1, 0 and 1.
pub data Sign : Type 0 where
  below level above : Sign

-- compareInt.
unfoldable pub compare_int : ℕ → ℕ → Sign
compare_int a b = if ltb a b then below else if ltb b a then above else level

-- A comparison decides, unless it says 0.
abbrev pub then_by : Sign → Sign → Sign
then_by level other = other
then_by below other = below
then_by above other = above

-- strings.Compare, of bytes.
unfoldable pub compare_text : Bytes → Bytes → Sign
compare_text [] [] = level
compare_text [] (d ∷ ds) = below
compare_text (c ∷ cs) [] = above
compare_text (c ∷ cs) (d ∷ ds) = then_by (compare_int c d) (compare_text cs ds)

abbrev pub both_are : Bool → Bool → Bool
both_are true b = b
both_are false b = not b

-- comparePreIdent.
unfoldable pub compare_pre_ident : PreIdent → PreIdent → Sign
compare_pre_ident a b =
    if not (both_are a.numeric b.numeric)
    then (if a.numeric then below else above)
    else if a.numeric
    then compare_int a.n b.n
    else compare_text a.s b.s

-- The loop of comparePre, up to the shorter length.
unfoldable pub compare_common : List PreIdent → List PreIdent → Sign
compare_common [] ys = level
compare_common (a ∷ xs) [] = level
compare_common (a ∷ xs) (b ∷ ys) = then_by (compare_pre_ident a b) (compare_common xs ys)

-- comparePre: no prerelease is above any.
unfoldable pub compare_pre : List PreIdent → List PreIdent → Sign
compare_pre [] [] = level
compare_pre [] (b ∷ ys) = above
compare_pre (a ∷ xs) [] = below
compare_pre (a ∷ xs) (b ∷ ys) =
    then_by (compare_common (a ∷ xs) (b ∷ ys)) (compare_int (length (a ∷ xs)) (length (b ∷ ys)))

-- Compare.
unfoldable pub compare : Version → Version → Sign
compare v other =
    if not (v.major == other.major)
    then compare_int v.major other.major
    else if not (v.minor == other.minor)
    then compare_int v.minor other.minor
    else if not (v.patch == other.patch)
    then compare_int v.patch other.patch
    else compare_pre v.pre other.pre
