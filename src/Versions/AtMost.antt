-- ===== src/Versions/AtMost.antt =====
-- version.go: when a version is not above another.
use acp_go_sdk.Base.{◌≡◌, ◌≢◌, refl, sym, ap, ◌∙◌}
use acp_go_sdk.Versions.{Version}
use acp_go_sdk.Versions.Compare.{Sign, below, level, above, compare}
use acp_go_sdk.Versions.Order.{opposite, replaced_right}
use acp_go_sdk.Versions.Preorder.{compare-IsComparison}

abbrev pub AtMost : Version → Version → Type 0
AtMost v w = compare v w ≢ above

pub AtMost-refl : (v : Version) → AtMost v v
AtMost-refl v h = not_own_opposite (compare v v) h (compare-IsComparison.turned v v)
  where
    not_own_opposite : (x : Sign) → x ≡ above → x ≡ opposite x → ⊥
    not_own_opposite below h k = absurd cc
    not_own_opposite level h k = absurd cc
    not_own_opposite above h k = absurd cc

-- A version that is above another has it at most itself.
pub above-AtMost : (v w : Version) → compare v w ≡ above → AtMost w v
above-AtMost v w h k =
    let turned : compare w v ≡ below = compare-IsComparison.turned v w ∙ ap opposite h in absurd cc

pub AtMost-trans : (a b c : Version) → AtMost a b → AtMost b c → AtMost a c
AtMost-trans a b c h k z = by_sign (compare a b) refl
  where
    by_second : compare a b ≡ below → (y : Sign) → compare b c ≡ y → ⊥
    by_second e level f = h (replaced_right compare-IsComparison a b c f ∙ z)
    by_second e above f = k f
    by_second e below f =
        let chain : compare a c ≡ below = compare-IsComparison.chained a b c e f in absurd cc

    by_sign : (x : Sign) → compare a b ≡ x → ⊥
    by_sign level e = k (sym (compare-IsComparison.replaced a b c e) ∙ z)
    by_sign above e = h e
    by_sign below e = by_second e (compare b c) refl
