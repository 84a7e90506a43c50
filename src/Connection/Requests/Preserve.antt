-- ===== src/Connection/Requests/Preserve.antt =====
-- Each operation on the pending requests keeps the invariant of Accounting.
use acp_go_sdk.Base.{some-injective}
use acp_go_sdk.Base.{
  ℕ, ◌+◌, ◌≤◌, ◌<◌, ◌≡◌, ◌≢◌, refl, sym, ap, ◌∙◌, inl, inr, Bool, true, false, ◌&&◌, [], ◌∷◌, ◌++◌,
  Option, none, some, length, leb, get_elem?, arith, Bool-cases, subst,
}
use acp_go_sdk.Bytes.{Bytes, equal, equal_iff}
use acp_go_sdk.Message.{lookup}
use acp_go_sdk.Connection.Requests.State.{Cause, PendingResponse, Requests, modify, object, prune}
use acp_go_sdk.Connection.Requests.Heap.{
  get-concat_new, get-concat_old, get-concat_cases, holds, count_holds-modify, count_holds-concat,
  lookup-put_key, length-remove_key,
}
use acp_go_sdk.Connection.Requests.Accounting.{
  IsObject, IsUntouched, IsAccounted, AllObjects-modify, Registered-modify, Registered-modify_free,
  prune-IsAccounted,
}
use acp_go_sdk.Connection.Requests.{fresh, register, register_open, register_unless, add_pending}

-- The object at `i` changes in a way that keeps its key and what it holds.
module _ (r : Requests) (i : ℕ) (f : PendingResponse → PendingResponse) {o : PendingResponse}
    (at : object r i ≡ some o) where
  pub modify-IsAccounted :
      IsAccounted r
      → holds (f o) ≡ holds o
      → IsObject (f o)
      → (f o).key ≡ o.key
      → (IsUntouched o → IsUntouched (f o))
      → IsAccounted (record r { objects = modify r.objects i f })
  modify-IsAccounted v same good key keep = record {
    slots_exact = omega (arith, v.slots_exact, count_holds-modify r.objects i f at);
    slots_bounded = v.slots_bounded;
    pending_bounded = v.pending_bounded;
    objects_ok = AllObjects-modify r.objects i f at v.objects_ok good;
    registered = Registered-modify r.objects i f at r.pending v.registered key keep;
    ended = v.ended;
  }

  -- One that is not registered may give up its token.
  pub modify_free-IsAccounted :
      (slots : ℕ)
      → IsAccounted r
      → lookup o.key r.pending ≢ some i
      → slots + holds o ≡ r.slots + holds (f o)
      → slots ≤ r.slots
      → IsObject (f o)
      → IsAccounted (record r { objects = modify r.objects i f; slots = slots })
  modify_free-IsAccounted slots v free shift le good = record {
    slots_exact = omega (arith, v.slots_exact, count_holds-modify r.objects i f at);
    slots_bounded = omega (arith, v.slots_bounded);
    pending_bounded = v.pending_bounded;
    objects_ok = AllObjects-modify r.objects i f at v.objects_ok good;
    registered = Registered-modify_free r.objects i f at r.pending v.registered free;
    ended = v.ended;
  }

fresh-IsObject : (key : Bytes) (gated : Bool) → IsObject (fresh key gated)
fresh-IsObject key gated = record {
  claimed_first = λ h. cc;
  open_while_claimed = λ h. cc;
  only_answers = λ h. cc;
}

register-IsAccounted :
    (r : Requests) (key : Bytes) (gated : Bool)
    → IsAccounted r
    → length r.pending < r.max_pending
    → (gated ≡ true → r.slots < r.max_pending)
    → ((c : Cause) → r.cause ≢ some c)
    → IsAccounted (register r key gated)
register-IsAccounted r key gated v room free alive = record {
  slots_exact = ground (arith, count_holds-concat r.objects (fresh key gated), v.slots_exact);
  slots_bounded = ground arith;
  pending_bounded = omega (arith, length-remove_key key r.pending);
  objects_ok = λ i o h. elim (get-concat_cases r.objects (fresh key gated) i h) [
    | inl old ↦ v.objects_ok i o old
    | inr (e, same) ↦ subst IsObject same (fresh-IsObject key gated)
  ];
  registered = λ k i h. elim (Bool-cases (equal key k)) [
    | inl same ↦
        let here : length r.objects ≡ i =
          some-injective (sym (lookup-put_key k key (length r.objects) r.pending ∙ rw same) ∙ h) in
        (
          fresh key gated,
          ap (get_elem? (r.objects ++ fresh key gated ∷ [])) (sym here)
              ∙ get-concat_new r.objects (fresh key gated),
          (equal_iff key k).0 same,
          λ e. (refl, refl),
        )
    | inr other ↦
        let before : lookup k r.pending ≡ some i =
          sym (lookup-put_key k key (length r.objects) r.pending ∙ rw other) ∙ h in
        let (o, ho, ko, uo) = v.registered k i before in
        (o, get-concat_old r.objects (fresh key gated) i ho, ko, uo)
  ];
  ended = λ c e. absurd (alive c e);
}

register_unless-IsAccounted :
    (r : Requests) (c : Option Cause) (key : Bytes) (gated : Bool)
    → r.cause ≡ c
    → IsAccounted r
    → IsAccounted (register_unless c r key gated).0
unfolding register_unless register_open
register_unless-IsAccounted r (some c) key gated e v = v
register_unless-IsAccounted r none key gated e v =
    elim (Bool-cases (leb r.max_pending (length r.pending))) [
      | inl full ↦ rw full v
      | inr room ↦ rw room (elim (Bool-cases (gated && leb r.max_pending r.slots)) [
        | inl taken ↦ rw taken v
        | inr free ↦
            rw free
              (register-IsAccounted r key gated v (ground arith) (λ g. ground arith) (λ c h. cc))
      ])
    ]

pub add_pending-IsAccounted :
    (r : Requests) (key : Bytes) (gated : Bool)
    → IsAccounted r
    → IsAccounted (add_pending r key gated).0
unfolding add_pending
add_pending-IsAccounted r key true v =
    register_unless-IsAccounted (prune r) (prune r).cause key true refl (prune-IsAccounted r v)
add_pending-IsAccounted r key false v = register_unless-IsAccounted r r.cause key false refl v
