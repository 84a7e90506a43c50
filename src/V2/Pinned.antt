-- ===== src/V2/Pinned.antt =====
-- The version that a connection serves, once an initialize has succeeded.
use acp_go_sdk.Base.{true, false, ◌≡◌, ◌≢◌, refl, sym, ap, ◌∙◌, List, [], ◌∷◌, none, subst, ℕ}
use acp_go_sdk.V2.Initialization.{begin}
use acp_go_sdk.V2.Handshake.{
  Version, v1, v2, number, Call, begins, finishes, receives, fresh_endpoint, Handshake, untried,
  trying, refused, settled, retrying, respond, respond_all, stands_for, run, run_from,
}

abbrev chosen : Handshake → ℕ
chosen (settled v other) = number v
chosen (retrying other) = 2
chosen _ = 0

chosen-stands_for : (h : Handshake) → (stands_for h).state.selected ≡ chosen h
chosen-stands_for untried = refl
chosen-stands_for (trying v other) = refl
chosen-stands_for (refused other) = refl
chosen-stands_for (settled v other) = refl
chosen-stands_for (retrying other) = refl

chosen-respond : (h : Handshake) (c : Call) → chosen h ≢ 0 → chosen (respond h c).0 ≡ chosen h
unfolding respond
chosen-respond untried c h = absurd (h refl)
chosen-respond (trying v other) c h = absurd (h refl)
chosen-respond (refused other) c h = absurd (h refl)
chosen-respond (settled v1 other) (begins w) h = refl
chosen-respond (settled v2 true) (begins w) h = refl
chosen-respond (settled v2 false) (begins v1) h = refl
chosen-respond (settled v2 false) (begins v2) h = refl
chosen-respond (settled v1 other) (finishes e) h = refl
chosen-respond (settled v2 true) (finishes e) h = refl
chosen-respond (settled v2 false) (finishes e) h = refl
chosen-respond (settled v1 other) (receives info) h = refl
chosen-respond (settled v2 true) (receives info) h = refl
chosen-respond (settled v2 false) (receives info) h = refl
chosen-respond (retrying other) (begins w) h = refl
chosen-respond (retrying other) (finishes e) h = refl
chosen-respond (retrying other) (receives info) h = refl

chosen-respond_all :
    (h : Handshake) (ks : List Call) → chosen h ≢ 0 → chosen (respond_all h ks).0 ≡ chosen h
unfolding respond_all
chosen-respond_all h [] ne = refl
chosen-respond_all h (k ∷ ks) ne =
    let e = chosen-respond h k ne in chosen-respond_all (respond h k).0 ks (λ z. ne (sym e ∙ z)) ∙ e

selected-run :
    (h : Handshake) (ks : List Call)
    → (run (stands_for h) ks).0.state.selected ≡ chosen (respond_all h ks).0
selected-run h ks = rw (run_from h ks) (chosen-stands_for (respond_all h ks).0)

-- A version that was once selected is never changed, whatever calls follow.
pub selected_pinned :
    (ks ls : List Call)
    → (run fresh_endpoint ks).0.state.selected ≢ 0
    → (run (run fresh_endpoint ks).0 ls).0.state.selected ≡ (run fresh_endpoint ks).0.state.selected
selected_pinned ks ls ne =
    let h = (respond_all untried ks).0 in
    let at : (run fresh_endpoint ks).0 ≡ stands_for h = ap (λ x. x.0) (run_from untried ks) in
    let e : (run fresh_endpoint ks).0.state.selected ≡ chosen h = selected-run untried ks in
    subst (λ c. (run c ls).0.state.selected ≡ c.state.selected) (sym at)
      (selected-run h ls ∙ chosen-respond_all h ls (λ z. ne (e ∙ z)) ∙ sym (chosen-stands_for h))

-- A second initialize is let through only on a connection of version 2 that is between attempts
-- and has had no other request, and only for version 2.
pub begin-again :
    (ks : List Call) (v : Version)
    → (run fresh_endpoint ks).0.state.selected ≢ 0
    → (begin (run fresh_endpoint ks).0.state (number v)).1 ≡ none
    → (respond_all untried ks).0 ≡ settled v2 false × v ≡ v2
unfolding begin
begin-again ks v ne ok =
    by_state (respond_all untried ks).0 v (λ z. ne (selected-run untried ks ∙ z))
      (subst (λ c. (begin c.state (number v)).1 ≡ none) (ap (λ x. x.0) (run_from untried ks)) ok)
  where
    by_state :
        (h : Handshake) (v : Version)
        → chosen h ≢ 0
        → (begin (stands_for h).state (number v)).1 ≡ none
        → h ≡ settled v2 false × v ≡ v2
    by_state untried v ne ok = absurd (ne refl)
    by_state (trying w other) v ne ok = absurd (ne refl)
    by_state (refused other) v ne ok = absurd (ne refl)
    by_state (retrying other) v ne ok = absurd cc
    by_state (settled v1 other) v ne ok = absurd cc
    by_state (settled v2 true) v1 ne ok = absurd cc
    by_state (settled v2 true) v2 ne ok = absurd cc
    by_state (settled v2 false) v1 ne ok = absurd cc
    by_state (settled v2 false) v2 ne ok = (refl, refl)
