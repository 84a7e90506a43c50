-- ===== src/Versions.antt =====
-- cmd/upstreamdrift/version.go: the tags of the schema's releases. Compare has the order of the
-- versions, Order, Preorder and
-- AtMost its laws, Latest the
-- choice of the latest tag, Maximum what it chooses.
pub mod Compare
pub mod Order
pub mod Preorder
pub mod AtMost
pub mod Latest
pub mod Maximum
use acp_go_sdk.Base.{
  ℕ, ◌+◌, ◌-◌, ◌*◌, ◌^◌, Bool, true, false, not, ◌||◌, ◌&&◌, List, [], ◌∷◌, ◌++◌, ltb, ◌==◌,
  if◌then◌else◌,
}
use acp_go_sdk.Bytes.{Bytes, codes, trim_space, within}
use acp_go_sdk.Bytes.Prefix.{trim_prefix}
use acp_go_sdk.Result.{Result, ok, err, ◌>>=◌}

pub record PreIdent : Type 0 where
  pub numeric : Bool
  pub n : ℕ
  pub s : Bytes

-- The numbers are never negative: they come from parse_version_number.
pub record Version : Type 0 where
  pub major : ℕ
  pub minor : ℕ
  pub patch : ℕ
  pub pre : List PreIdent
  pub raw : Bytes

-- What a range loop over a string yields, and what the package unicode says of it.
pub record Unicode : Type 0 where
  pub runes : Bytes → List ℕ
  pub is_digit : ℕ → Bool
  pub is_letter : ℕ → Bool

-- The errors of this file; the errors of the parts of a tag are all replaced by one of the tag.
pub data TagError : Type 0 where
  empty_tag bad_number bad_ident no_matching_tags : TagError
  unsupported_tag : Bytes → TagError

-- strings.Cut, for a separator of one byte: before it, after it, and whether it is there.
unfoldable pub cut : ℕ → Bytes → Bytes × Bytes × Bool
cut sep [] = ([], [], false)
cut sep (c ∷ cs) =
    if c == sep
    then ([], cs, true)
    else (let (before, rest, found) = cut sep cs in (c ∷ before, rest, found))

-- strings.Split, for a separator of one byte: the first part and the others.
unfoldable pub split_parts : ℕ → Bytes → Bytes × List Bytes
split_parts sep [] = ([], [])
split_parts sep (c ∷ cs) =
    let (first, others) = split_parts sep cs in
    if c == sep then ([], first ∷ others) else (c ∷ first, others)

unfoldable pub split_at : ℕ → Bytes → List Bytes
split_at sep s = let (first, others) = split_parts sep s in first ∷ others

-- strconv.Atoi, for a text without a sign, on a machine of 64 bits.
unfoldable pub atoi : ℕ → Bytes → Result TagError ℕ
atoi acc [] = if ltb acc (2 ^ 63) then ok acc else err bad_number
atoi acc (c ∷ cs) = if within b'0' b'9' c then atoi (acc * 10 + (c - b'0')) cs else err bad_number

unfoldable pub all_digits : Unicode → List ℕ → Bool
all_digits u [] = true
all_digits u (r ∷ rs) = u.is_digit r && all_digits u rs

-- parseVersionNumber.
unfoldable pub parse_version_number : Unicode → Bytes → Result TagError ℕ
parse_version_number u [] = err bad_number
parse_version_number u (c ∷ cs) =
    if all_digits u (u.runes (c ∷ cs)) then atoi 0 (c ∷ cs) else err bad_number

-- The loop of parsePreIdent: whether all runes are digits, or that one is not allowed.
unfoldable pub scan_ident : Unicode → Bool → List ℕ → Result TagError Bool
scan_ident u numeric [] = ok numeric
scan_ident u numeric (r ∷ rs) =
    if u.is_digit r
    then scan_ident u numeric rs
    else if u.is_letter r || r == b'-'
    then scan_ident u false rs
    else err bad_ident

abbrev pub ident_of : Bytes → Bool → Result TagError PreIdent
ident_of s true = atoi 0 s >>= λ n. ok (record { numeric = true; n = n; s = s })
ident_of s false = ok (record { numeric = false; n = 0; s = s })

-- parsePreIdent.
unfoldable pub parse_pre_ident : Unicode → Bytes → Result TagError PreIdent
parse_pre_ident u [] = err bad_ident
parse_pre_ident u (c ∷ cs) =
    scan_ident u true (u.runes (c ∷ cs)) >>= λ numeric. ident_of (c ∷ cs) numeric

unfoldable pub parse_pre : Unicode → List Bytes → Result TagError (List PreIdent)
parse_pre u [] = ok []
parse_pre u (p ∷ ps) = do ident ← parse_pre_ident u p; idents ← parse_pre u ps; ok (ident ∷ idents)

-- The part before the first dash.
unfoldable pub parse_core : Unicode → Bytes → List Bytes → Result TagError Version
parse_core u raw (a ∷ b ∷ c ∷ []) = do
  major ← parse_version_number u a
  minor ← parse_version_number u b
  patch ← parse_version_number u c
  ok (record { major = major; minor = minor; patch = patch; pre = []; raw = raw })
parse_core u raw _ = err (unsupported_tag raw)

-- The part after it, where there is a dash.
unfoldable pub with_pre : Unicode → Version → Bytes → Bool → Result TagError Version
with_pre u v pre false = ok v
with_pre u v [] true = err (unsupported_tag v.raw)
with_pre u v (c ∷ cs) true =
    parse_pre u (split_at b'.' (c ∷ cs)) >>= λ idents. ok (record v { pre = idents })

abbrev pub or_unsupported : {A : Type 0} → Bytes → Result TagError A → Result TagError A
or_unsupported raw (ok a) = ok a
or_unsupported raw (err e) = err (unsupported_tag raw)

unfoldable pub parse_trimmed : Unicode → Bytes → Result TagError Version
parse_trimmed u [] = err empty_tag
parse_trimmed u (c ∷ cs) =
    let original = c ∷ cs in
    let (core, pre, has_pre) =
      cut b'-' (trim_prefix (trim_prefix original (codes "schema-")) (codes "v")) in
    or_unsupported original
      (parse_core u original (split_at b'.' core) >>= λ v. with_pre u v pre has_pre)

-- parseTag.
unfoldable pub parse_tag : Unicode → Bytes → Result TagError Version
parse_tag u tag = parse_trimmed u (trim_space tag)
