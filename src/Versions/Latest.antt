-- ===== src/Versions/Latest.antt =====
-- version.go: latestTag.
use acp_go_sdk.Base.{Bool, true, false, List, [], ◌∷◌, Option, none, some, if◌then◌else◌}
use acp_go_sdk.Bytes.{Bytes}
use acp_go_sdk.Result.{Result, ok, err}
use acp_go_sdk.Versions.{Unicode, Version, TagError, no_matching_tags, parse_tag}
use acp_go_sdk.Versions.Compare.{Sign, below, level, above, compare}

-- `include`, which lets every version pass where it is nil.
abbrev pub passes : Option (Version → Bool) → Version → Bool
passes none v = true
passes (some test) v = test v

abbrev pub is_above : Sign → Bool
is_above above = true
is_above level = false
is_above below = false

-- The best version after another, which is better only where it compares above.
unfoldable pub better : Option Version → Version → Version
better none v = v
better (some best) v = if is_above (compare v best) then v else best

abbrev pub consider :
    Option (Version → Bool) → Option Version → Result TagError Version → Option Version
consider include best (err e) = best
consider include best (ok v) = if passes include v then some (better best v) else best

-- The loop of latestTag; `none` stands for `found` being false.
unfoldable pub latest_loop :
    Unicode → Option (Version → Bool) → Option Version → List Bytes → Option Version
latest_loop u include best [] = best
latest_loop u include best (tag ∷ tags) =
    latest_loop u include (consider include best (parse_tag u tag)) tags

abbrev pub raw_or_error : Option Version → Result TagError Bytes
raw_or_error none = err no_matching_tags
raw_or_error (some v) = ok v.raw

-- latestTag.
unfoldable pub latest_tag : Unicode → List Bytes → Option (Version → Bool) → Result TagError Bytes
latest_tag u tags include = raw_or_error (latest_loop u include none tags)
