-- ===== src/Versions/Maximum.antt =====
-- version.go: the result of latestTag.
use acp_go_sdk.Base.{
  ◌≡◌, ◌≢◌, ◌⊎◌, inl, inr, refl, sym, ap, subst, ◌∙◌, Bool, true, false, List, [], ◌∷◌, Option,
  none, some, if◌then◌else◌, Bool-cases,
}
use acp_go_sdk.Bytes.{Bytes}
use acp_go_sdk.Result.{Result, ok, err, ok-injective}
use acp_go_sdk.Versions.{Unicode, Version, TagError, no_matching_tags, parse_tag}
use acp_go_sdk.Versions.Compare.{Sign, below, level, above, compare}
use mathlib.Core.List.{Memᴰ}
use mathlib.Core.List.Memᴰ
use mathlib.Core.Logic.{⊎_elim}
use acp_go_sdk.Versions.Latest.{
  passes, is_above, better, consider, latest_loop, raw_or_error, latest_tag,
}
use acp_go_sdk.Versions.AtMost.{AtMost, AtMost-refl, above-AtMost, AtMost-trans}

fails_both :
    (include : Option (Version → Bool)) (new w : Version)
    → passes include new ≡ false
    → w ≡ new
    → passes include w ≢ true
fails_both include new w f same p =
    let clash : passes include w ≡ false = ap (passes include) same ∙ f in absurd cc

module _ (u : Unicode) (include : Option (Version → Bool)) where
  -- A version that one of the tags spells and that passes.
  abbrev pub IsCandidate : List Bytes → Version → Type 0
  IsCandidate tags v =
      (tag : Bytes) × Memᴰ tag tags × (parse_tag u tag ≡ ok v) × (passes include v ≡ true)

  IsCandidate-cons :
      {tag : Bytes} {tags : List Bytes} {v : Version}
      → IsCandidate (tag ∷ tags) v
      → ((parse_tag u tag ≡ ok v) × (passes include v ≡ true)) ⊎ IsCandidate tags v
  IsCandidate-cons {tag} {tags} {v} (t, Memᴰ.head same, parsed, passed) =
      inl (subst (λ x. parse_tag u x ≡ ok v) same parsed, passed)
  IsCandidate-cons (t, Memᴰ.tail m, parsed, passed) = inr (t, m, parsed, passed)

  IsCandidate-tail :
      {tag : Bytes} {tags : List Bytes} {v : Version}
      → IsCandidate tags v
      → IsCandidate (tag ∷ tags) v
  IsCandidate-tail (t, m, parsed, passed) = (t, Memᴰ.tail m, parsed, passed)

  -- What the loop has found: the best of the version it started from and the candidates.
  abbrev Beats : Version → List Bytes → Version → Type 0
  Beats best tags v =
      ((v ≡ best) ⊎ IsCandidate tags v)
      × AtMost best v
      × ((w : Version) → IsCandidate tags w → AtMost w v)

  -- A tag that is not a candidate changes nothing.
  Beats-skip :
      {best : Version} {tag : Bytes} {tags : List Bytes} {v : Version}
      → ((w : Version) → parse_tag u tag ≡ ok w → passes include w ≢ true)
      → Beats best tags v
      → Beats best (tag ∷ tags) v
  Beats-skip none_here (found, least, top) = (
    ⊎_elim inl (λ c. inr (IsCandidate-tail c)) found,
    least,
    λ w c. ⊎_elim (λ p. absurd (none_here w p.0 p.1)) (top w) (IsCandidate-cons c),
  )

  IsCandidate-new :
      {tag : Bytes} {tags : List Bytes} {v new : Version}
      → parse_tag u tag ≡ ok new
      → passes include new ≡ true
      → v ≡ new
      → IsCandidate (tag ∷ tags) v
  IsCandidate-new {tag} parsed passed e =
      (tag, Memᴰ.head refl, parsed ∙ ap ok (sym e), ap (passes include) e ∙ passed)

  top_of :
      {tag : Bytes} {tags : List Bytes} {new : Version} (v : Version)
      → parse_tag u tag ≡ ok new
      → AtMost new v
      → ((w : Version) → IsCandidate tags w → AtMost w v)
      → (w : Version) → IsCandidate (tag ∷ tags) w
      → AtMost w v
  top_of v parsed most top w c = elim (IsCandidate-cons c) [
    | inl (spelled, _) ↦ subst (λ x. AtMost x v) (ok-injective parsed spelled) most
    | inr later ↦ top w later
  ]

  module _ (best : Version) {tag : Bytes} {tags : List Bytes} (v : Version) {new : Version}
      (parsed : parse_tag u tag ≡ ok new) where
    -- A candidate that is better takes over, and one that is not changes nothing.
    Beats-replace :
        passes include new ≡ true
        → compare new best ≡ above
        → Beats new tags v
        → Beats best (tag ∷ tags) v
    Beats-replace passed h (found, least, top) = (
      ⊎_elim (λ e. inr (IsCandidate-new parsed passed e)) (λ c. inr (IsCandidate-tail c)) found,
      AtMost-trans best new v (above-AtMost new best h) least,
      top_of v parsed least top,
    )

    Beats-keep : AtMost new best → Beats best tags v → Beats best (tag ∷ tags) v
    Beats-keep h (found, least, top) = (
      ⊎_elim inl (λ c. inr (IsCandidate-tail c)) found,
      least,
      top_of v parsed (AtMost-trans new best v h least) top,
    )

  -- What the loop comes to from a version that was found.
  abbrev Ends : Version → List Bytes → Option Version → Type 0
  Ends best tags result = (v : Version) × (result ≡ some v) × Beats best tags v

  Ends-step :
      (best : Version) (tag : Bytes) (tags : List Bytes)
      → ((b : Version) → Ends b tags (latest_loop u include (some b) tags))
      → (parsed : Result TagError Version) → parse_tag u tag ≡ parsed
      → Ends best (tag ∷ tags) (latest_loop u include (consider include (some best) parsed) tags)
  unfolding better
  Ends-step best tag tags rest (err e) at =
      let (v, ran, beats) = rest best in (v, ran, Beats-skip (λ w h. absurd cc) beats)
  Ends-step best tag tags rest (ok new) at = elim (Bool-cases (passes include new)) [
    | inl passed ↦ rw passed (by_sign passed (compare new best) refl)
    | inr failed ↦
        let (v, ran, beats) = rest best in
        (
          v,
          rw failed ran,
          Beats-skip (λ w h p. fails_both include new w failed (ok-injective h at) p) beats,
        )
  ]
    where
      by_sign :
          passes include new ≡ true
          → (x : Sign) → compare new best ≡ x
          → Ends best
              (tag ∷ tags)
              (latest_loop u include (some (if is_above x then new else best)) tags)
      by_sign passed above e =
          let (v, ran, beats) = rest new in (v, ran, Beats-replace best v at passed e beats)
      by_sign passed level e =
          let (v, ran, beats) = rest best in (v, ran, Beats-keep best v at (λ h. absurd cc) beats)
      by_sign passed below e =
          let (v, ran, beats) = rest best in (v, ran, Beats-keep best v at (λ h. absurd cc) beats)

  latest_loop-some :
      (best : Version) (tags : List Bytes) → Ends best tags (latest_loop u include (some best) tags)
  unfolding latest_loop
  latest_loop-some best [] =
      (best, refl, (inl refl, AtMost-refl best, λ w c. absurd (Memᴰ.not-nil c.1)))
  latest_loop-some best (tag ∷ tags) =
      Ends-step best tag tags (λ b. latest_loop-some b tags) (parse_tag u tag) refl

  -- What latestTag finds.
  abbrev pub IsLatest : List Bytes → Version → Type 0
  IsLatest tags v = IsCandidate tags v × ((w : Version) → IsCandidate tags w → AtMost w v)

  abbrev pub HasNoCandidate : List Bytes → Type 0
  HasNoCandidate tags = (w : Version) → ¬ IsCandidate tags w

  abbrev Found : List Bytes → Option Version → Type 0
  Found tags none = HasNoCandidate tags
  Found tags (some v) = IsLatest tags v

  Found-skip :
      (tag : Bytes) (tags : List Bytes)
      → ((w : Version) → parse_tag u tag ≡ ok w → passes include w ≢ true)
      → (result : Option Version) → Found tags result
      → Found (tag ∷ tags) result
  Found-skip tag tags none_here none empty =
      λ w c. ⊎_elim (λ p. none_here w p.0 p.1) (empty w) (IsCandidate-cons c)
  Found-skip tag tags none_here (some v) (found, top) = (
    IsCandidate-tail found,
    λ w c. ⊎_elim (λ p. absurd (none_here w p.0 p.1)) (top w) (IsCandidate-cons c),
  )

  Found-step :
      (tag : Bytes) (tags : List Bytes)
      → Found tags (latest_loop u include none tags)
      → (parsed : Result TagError Version) → parse_tag u tag ≡ parsed
      → Found (tag ∷ tags) (latest_loop u include (consider include none parsed) tags)
  unfolding better
  Found-step tag tags rest (err e) at = Found-skip tag tags (λ w h. absurd cc) _ rest
  Found-step tag tags rest (ok new) at = elim (Bool-cases (passes include new)) [
    | inr failed ↦ rw failed (
        Found-skip tag tags (λ w h p. fails_both include new w failed (ok-injective h at) p) _ rest)
    | inl passed ↦
        let (v, ran, (found, least, top)) = latest_loop-some new tags in
        rw (passed, ran)
          (⊎_elim (IsCandidate-new at passed) IsCandidate-tail found, top_of v at least top)
  ]

  latest_loop-Found : (tags : List Bytes) → Found tags (latest_loop u include none tags)
  unfolding latest_loop
  latest_loop-Found [] = λ w c. Memᴰ.not-nil c.1
  latest_loop-Found (tag ∷ tags) =
      Found-step tag tags (latest_loop-Found tags) (parse_tag u tag) refl

  -- Of the tags that parse as versions which pass, latestTag returns the text of one that no other
  -- is above; it fails exactly where there is none.
  pub latest_tag-IsLatest :
      (tags : List Bytes)
      → ((v : Version) × (latest_tag u tags include ≡ ok v.raw) × IsLatest tags v)
        ⊎ ((latest_tag u tags include ≡ err no_matching_tags) × HasNoCandidate tags)
  unfolding latest_tag
  latest_tag-IsLatest tags = by_result (latest_loop u include none tags) (latest_loop-Found tags)
    where
      by_result :
          (result : Option Version)
          → Found tags result
          → ((v : Version) × (raw_or_error result ≡ ok v.raw) × IsLatest tags v)
            ⊎ ((raw_or_error result ≡ err no_matching_tags) × HasNoCandidate tags)
      by_result none empty = inr (refl, empty)
      by_result (some v) latest = inl (v, refl, latest)
