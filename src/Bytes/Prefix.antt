-- ===== src/Bytes/Prefix.antt =====
-- strings.HasPrefix, strings.TrimPrefix and strings.HasSuffix.
use acp_go_sdk.Base.{
  Bool, true, false, ◌&&◌, [], ◌∷◌, ◌++◌, ◌==◌, reverse, if◌then◌else◌, ◌≡◌, refl, arith,
}
use acp_go_sdk.Bytes.{Bytes}

unfoldable pub starts_with : Bytes → Bytes → Bool
starts_with [] s = true
starts_with (c ∷ cs) [] = false
starts_with (c ∷ cs) (d ∷ ds) = c == d && starts_with cs ds

unfoldable pub after : Bytes → Bytes → Bytes
after [] s = s
after (c ∷ cs) [] = []
after (c ∷ cs) (d ∷ ds) = after cs ds

unfoldable pub trim_prefix : Bytes → Bytes → Bytes
trim_prefix s prefix = if starts_with prefix s then after prefix s else s

unfoldable pub ends_with : Bytes → Bytes → Bool
ends_with suffix s = starts_with (reverse suffix) (reverse s)

pub starts_with-append : (p s : Bytes) → starts_with p (p ++ s) ≡ true
unfolding starts_with
starts_with-append [] s = refl
starts_with-append (c ∷ cs) s = ground (arith, starts_with-append cs s)

pub after-append : (p s : Bytes) → after p (p ++ s) ≡ s
unfolding after
after-append [] s = refl
after-append (c ∷ cs) s = after-append cs s
