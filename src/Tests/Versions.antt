-- ===== src/Tests/Versions.antt =====
-- The latest of some tags.
use acp_go_sdk.Base.{◌≡◌, ◌⊎◌, refl, List, [], ◌∷◌, none}
use acp_go_sdk.Bytes.{Bytes, codes, within, trim_space, trim_with, space_width, last_space_width}
use acp_go_sdk.Bytes.Prefix.{trim_prefix, starts_with, after}
use acp_go_sdk.Result.{ok, err}
use acp_go_sdk.Versions.{
  Unicode, Version, no_matching_tags, parse_tag, parse_trimmed, cut, split_at, split_parts,
  parse_core, parse_version_number, all_digits, atoi, with_pre,
}
use acp_go_sdk.Versions.Compare.{compare, compare_int, compare_pre}
use acp_go_sdk.Versions.Latest.{latest_tag, latest_loop, better}
use acp_go_sdk.Versions.Maximum.{IsLatest, HasNoCandidate, latest_tag-IsLatest}

abbrev ascii : Unicode
ascii = record {
  runes = λ s. s;
  is_digit = λ r. within b'0' b'9' r;
  is_letter = λ r. within b'a' b'z' r;
}

abbrev tags : List Bytes
tags = codes "schema-v1.9.0" ∷ codes "schema-v1.21.0" ∷ codes "other" ∷ codes "schema-v1.20.0" ∷ []

latest_of_tags : latest_tag ascii tags none ≡ ok (codes "schema-v1.21.0")
unfolding latest_tag latest_loop better compare compare_int compare_pre parse_tag parse_trimmed
    trim_space trim_with space_width last_space_width trim_prefix starts_with after cut split_at
    split_parts parse_core parse_version_number all_digits atoi with_pre
latest_of_tags = refl

latest_tag-IsLatest_example :
    ((v : Version) × (latest_tag ascii tags none ≡ ok v.raw) × IsLatest ascii none tags v)
    ⊎ ((latest_tag ascii tags none ≡ err no_matching_tags) × HasNoCandidate ascii none tags)
latest_tag-IsLatest_example = latest_tag-IsLatest ascii none tags
