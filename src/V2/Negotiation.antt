-- ===== src/V2/Negotiation.antt =====
-- What a router of both versions chooses, and what its handlers get.
use acp_go_sdk.Base.{
  ◌↔◌, ℕ, ◌≤◌, ◌<◌, ◌≡◌, refl, sym, ap, ◌∙◌, ◌⊎◌, inl, inr, Bool, true, false, some, leb, arith,
  Bool-cases,
}
use acp_go_sdk.V2.Handshake.{Version, v1, v2, number}
use acp_go_sdk.V2.Router.{Router, choose}

abbrev pub serves : Router → Version → Bool
serves r v1 = r.has_v1
serves r v2 = r.has_v2

-- A version that the router has a handler for, that the peer accepts.
abbrev pub IsCommon : Router → ℕ → Version → Type 0
IsCommon r requested v = (serves r v ≡ true) × (number v ≤ requested)

abbrev pub IsHighest : Router → ℕ → Version → Type 0
IsHighest r requested v =
    IsCommon r requested v × ((w : Version) → IsCommon r requested w → number w ≤ number v)

abbrev pub IsLegacy : Router → Type 0
IsLegacy r = (r.has_v1 ≡ true) × (r.has_v2 ≡ false)

IsLegacy-choose : (r : Router) (requested : ℕ) → IsLegacy r → choose r requested ≡ some v1
unfolding choose
IsLegacy-choose r requested (a, b) = rw (a, b) refl

module _ (r : Router) (requested : ℕ) where
  number-le_2 : (w : Version) → IsCommon r requested w → number w ≤ 2
  number-le_2 v1 c = omega arith
  number-le_2 v2 c = omega arith

  number-le_1 : requested < 2 → (w : Version) → IsCommon r requested w → number w ≤ 1
  number-le_1 low v1 c = omega arith
  number-le_1 low v2 c = absurd (omega (arith, c.1))

  choose-IsHighest :
      (v : Version)
      → choose r requested ≡ some v
      → (IsLegacy r × (v ≡ v1)) ⊎ (IsHighest r requested v)
  unfolding choose
  choose-IsHighest v2 h = inr ((ground arith, ground arith), number-le_2)
  choose-IsHighest v1 h = elim (Bool-cases r.has_v2) [
    | inr alone ↦ inl ((ground arith, alone), refl)
    | inl both ↦ inr ((ground arith, ground arith), number-le_1 (ground arith))
  ]

  IsHighest-choose :
      (v : Version) → r.has_v2 ≡ true → IsHighest r requested v → choose r requested ≡ some v
  unfolding choose
  IsHighest-choose v2 both (c, top) = ground (arith, c.0, c.1)
  IsHighest-choose v1 both (c, top) = elim (Bool-cases (leb 2 requested)) [
    | inr low ↦ ground (arith, c.0, c.1)
    | inl high ↦ absurd (ground (arith, top v2 (both, ground arith)))
  ]

-- A router that serves version 2 chooses the highest version that it serves and that is not above
-- the requested one; a router that serves version 1 alone chooses version 1 whatever is requested.
pub choose_iff :
    (r : Router) (requested : ℕ) (v : Version)
    → (choose r requested ≡ some v)
      ↔ ((IsLegacy r × (v ≡ v1)) ⊎ ((r.has_v2 ≡ true) × IsHighest r requested v))
choose_iff r requested v = (forth, back)
  where
    forth :
        choose r requested ≡ some v
        → (IsLegacy r × (v ≡ v1)) ⊎ ((r.has_v2 ≡ true) × IsHighest r requested v)
    forth h = elim (Bool-cases r.has_v2) [
      | inl both ↦ elim (choose-IsHighest r requested v h) [
        | inl (legacy, e) ↦ absurd (ground arith)
        | inr top ↦ inr (both, top)
      ]
      | inr alone ↦ elim (choose-IsHighest r requested v h) [
        | inl legacy ↦ inl legacy
        | inr ((served, le), top) ↦ inl (alone_v1 v served alone)
      ]
    ]
      where
        alone_v1 : (v : Version) → serves r v ≡ true → r.has_v2 ≡ false → IsLegacy r × (v ≡ v1)
        alone_v1 v1 a b = ((a, b), refl)
        alone_v1 v2 a b = absurd (ground arith)

    back :
        (IsLegacy r × (v ≡ v1)) ⊎ ((r.has_v2 ≡ true) × IsHighest r requested v)
        → choose r requested ≡ some v
    back (inl (legacy, e)) = IsLegacy-choose r requested legacy ∙ ap some (sym e)
    back (inr (both, top)) = IsHighest-choose r requested v both top
