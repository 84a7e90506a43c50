-- ===== src/Connection/AfterResponse.antt =====
-- connection.go, afterResponseState: the callback that a handler may register to run after its
-- response.
use acp_go_sdk.Base.{
  ap, ◌∙◌, arith, Bool, true, false, ◌≡◌, refl, List, [], ◌∷◌, Option, none, some, if◌then◌else◌,
}

pub data AfterResponseError (E : Type 0) : Type 0 where
  after_response_unavailable : AfterResponseError E
  after_response_registered : AfterResponseError E
  reserve_failed : E → AfterResponseError E

-- `callback` is nil as `none`.
pub record AfterResponse (C : Type 0) : Type 0 where
  pub sealed : Bool
  pub callback : Option C

-- seal: from now on nothing is taken, and the callback goes to the caller.
abbrev pub seal : {C : Type 0} → AfterResponse C → AfterResponse C × Option C
seal s = (record s { sealed = true; callback = none }, s.callback)

module _ {C E : Type 0} where
  -- add, once nothing stands against it: `reserved` is what `reserve` returns, if there is one and
  -- it fails.
  abbrev pub add_reserved :
      AfterResponse C → C → Option E → AfterResponse C × Option (AfterResponseError E)
  add_reserved s c (some e) = (s, some (reserve_failed e))
  add_reserved s c none = (record s { callback = some c }, none)

  abbrev pub add_open :
      AfterResponse C → Option C → C → Option E → AfterResponse C × Option (AfterResponseError E)
  add_open s (some old) c reserved = (s, some after_response_registered)
  add_open s none c reserved = add_reserved s c reserved

  -- add.
  unfoldable pub add :
      AfterResponse C → C → Option E → AfterResponse C × Option (AfterResponseError E)
  add s c reserved =
      if s.sealed then (s, some after_response_unavailable) else add_open s s.callback c reserved

  -- The calls of `add` that come one after the other, with the callbacks that were taken.
  unfoldable pub add_all : AfterResponse C → List (C × Option E) → AfterResponse C
  add_all s [] = s
  add_all s ((c, reserved) ∷ calls) = add_all (add s c reserved).0 calls

  add-sealed :
      (s : AfterResponse C) (c : C) (reserved : Option E)
      → s.sealed ≡ true
      → (add s c reserved).0 ≡ s
  unfolding add
  add-sealed s c reserved h = ground arith

  add-registered :
      (s : AfterResponse C) (d : C) (reserved : Option E) {c : C}
      → s.sealed ≡ false
      → s.callback ≡ some c
      → (add s d reserved).0 ≡ s
  unfolding add
  add-registered s d reserved h k = ground arith

  add_all-sealed :
      (s : AfterResponse C) (calls : List (C × Option E)) → s.sealed ≡ true → add_all s calls ≡ s
  unfolding add_all
  add_all-sealed s [] h = refl
  add_all-sealed s ((c, reserved) ∷ calls) h =
      ap (λ x. add_all x calls) (add-sealed s c reserved h) ∙ add_all-sealed s calls h

  add_all-registered :
      (s : AfterResponse C) (calls : List (C × Option E)) {c : C}
      → s.sealed ≡ false
      → s.callback ≡ some c
      → add_all s calls ≡ s
  unfolding add_all
  add_all-registered s [] h k = refl
  add_all-registered s ((d, reserved) ∷ calls) h k =
      ap (λ x. add_all x calls) (add-registered s d reserved h k) ∙ add_all-registered s calls h k

  first_add :
      (s : AfterResponse C) (c : C) (reserved : Option E)
      → reserved ≡ none
      → s.sealed ≡ false
      → s.callback ≡ none
      → ((add s c reserved).0.sealed ≡ false) × ((add s c reserved).0.callback ≡ some c)
  unfolding add
  first_add s c reserved g h k = (ground arith, ground arith)

  -- The callback that a handler registers first, where `reserve` grants it, is the one that runs
  -- after the response, whatever the handler registers later; and once the response is sealed, no
  -- callback is taken any more.
  pub seal-add_all :
      (s : AfterResponse C) (early late : List (C × Option E)) (c : C) (reserved : Option E)
      → reserved ≡ none
      → s.sealed ≡ false
      → s.callback ≡ none
      → ((seal (add_all (add s c reserved).0 early)).1 ≡ some c)
        × ((seal (add_all (seal (add_all (add s c reserved).0 early)).0 late)).1 ≡ none)
  seal-add_all s early late c reserved g h k =
      let (closed, held) = first_add s c reserved g h k in
      (
        ap (λ x. x.callback) (add_all-registered (add s c reserved).0 early closed held) ∙ held,
        ap (λ x. x.callback)
            (add_all-sealed (seal (add_all (add s c reserved).0 early)).0 late refl),
      )
