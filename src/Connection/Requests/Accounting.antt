-- ===== src/Connection/Requests/Accounting.antt =====
-- The invariant of the pending requests: each token of responseDeliverySlots belongs to one delivery,
-- on the chain or still open, and a registered request that no response has claimed is untouched.
use acp_go_sdk.Base.{some-injective}
use acp_go_sdk.Base.{
  ℕ, ◌+◌, ◌-◌, ◌≤◌, ◌≡◌, ◌≢◌, refl, sym, ap, ◌∙◌, inl, inr, Bool, true, false, List, [], ◌∷◌, none,
  some, length, ◌==◌, if◌then◌else◌, get_elem?, arith, Bool-cases, ==_iff, subst,
}
use acp_go_sdk.Bytes.{Bytes, equal, equal_iff}
use acp_go_sdk.Message.{lookup}
use acp_go_sdk.Connection.Requests.State.{
  Cause, waits, PendingResponse, Requests, remove_key, modify, is_closed_at, prune_from, prune,
}
use acp_go_sdk.Connection.Requests.Heap.{
  get-modify_self, get-modify_ne, delivered, count_holds, lookup-remove_key,
}
use acp_go_sdk.Connection.Requests.{is_done}

pub record IsObject (o : PendingResponse) : Type 0 where
  pub claimed_first : delivered o ≡ true → o.responded ≡ true
  pub open_while_claimed : o.responded ≡ true → is_done o.completion ≡ false → o.closed ≡ false
  pub only_answers : o.responded ≡ true → is_done o.completion ≡ true → delivered o ≡ true

abbrev pub IsUntouched : PendingResponse → Type 0
IsUntouched o = o.responded ≡ false → (o.completion ≡ waits) × (o.closed ≡ false)

abbrev pub AllObjects : List PendingResponse → Type 0
AllObjects os = (i : ℕ) (o : PendingResponse) → get_elem? os i ≡ some o → IsObject o

abbrev pub Registered : List (Bytes × ℕ) → List PendingResponse → Type 0
Registered m os =
    (k : Bytes) (i : ℕ)
    → lookup k m ≡ some i
    → (o : PendingResponse) × (get_elem? os i ≡ some o) × (o.key ≡ k) × IsUntouched o

pub record IsAccounted (r : Requests) : Type 0 where
  pub slots_exact : r.slots ≡ length r.chain + count_holds r.objects
  pub slots_bounded : r.slots ≤ r.max_pending
  pub pending_bounded : length r.pending ≤ r.max_pending
  pub objects_ok : AllObjects r.objects
  pub registered : Registered r.pending r.objects
  pub ended : (c : Cause) → r.cause ≡ some c → r.pending ≡ []

module _ (os : List PendingResponse) (i : ℕ) (f : PendingResponse → PendingResponse)
    {o : PendingResponse} (at : get_elem? os i ≡ some o) where
  pub AllObjects-modify : AllObjects os → IsObject (f o) → AllObjects (modify os i f)
  AllObjects-modify all good j p h = elim (Bool-cases (i == j)) [
    | inl same ↦
        let e : f o ≡ p = some-injective (
          sym (get-modify_self os i f at)
          ∙ ap (get_elem? (modify os i f)) ((==_iff i j).0 same)
          ∙ h) in
        subst IsObject e good
    | inr other ↦ all j p (sym (get-modify_ne os i j f (λ e. ground (arith, ==_iff i j))) ∙ h)
  ]

  pub Registered-modify :
      (m : List (Bytes × ℕ))
      → Registered m os
      → (f o).key ≡ o.key
      → (IsUntouched o → IsUntouched (f o))
      → Registered m (modify os i f)
  Registered-modify m reg key keep k j h = elim (Bool-cases (i == j)) [
    | inl same ↦
        let e : i ≡ j = (==_iff i j).0 same in
        let (p, hp, kp, up) = reg k j h in
        let ep : p ≡ o = some-injective (sym hp ∙ ap (get_elem? os) (sym e) ∙ at) in
        (
          f o,
          ap (get_elem? (modify os i f)) (sym e) ∙ get-modify_self os i f at,
          key ∙ ap (λ (x : PendingResponse). x.key) (sym ep) ∙ kp,
          keep (subst IsUntouched ep up),
        )
    | inr other ↦
        let (p, hp, kp, up) = reg k j h in
        (p, get-modify_ne os i j f (λ e. ground (arith, ==_iff i j)) ∙ hp, kp, up)
  ]

  -- An object that is registered under no key may change at will.
  pub Registered-modify_free :
      (m : List (Bytes × ℕ))
      → Registered m os
      → lookup o.key m ≢ some i
      → Registered m (modify os i f)
  Registered-modify_free m reg free k j h = elim (Bool-cases (i == j)) [
    | inl same ↦
        let e : i ≡ j = (==_iff i j).0 same in
        let (p, hp, kp, up) = reg k j h in
        let ep : p ≡ o = some-injective (sym hp ∙ ap (get_elem? os) (sym e) ∙ at) in
        absurd (
          free (
            ap (λ x. lookup x m) (ap (λ (x : PendingResponse). x.key) (sym ep) ∙ kp)
            ∙ h
            ∙ ap some (sym e)))
    | inr other ↦
        let (p, hp, kp, up) = reg k j h in
        (p, get-modify_ne os i j f (λ e. ground (arith, ==_iff i j)) ∙ hp, kp, up)
  ]

pub Registered-remove_key :
    (m : List (Bytes × ℕ)) (os : List PendingResponse) (j : Bytes)
    → Registered m os
    → Registered (remove_key j m) os
Registered-remove_key m os j reg k i h =
    reg k i (kept (equal j k) (sym (lookup-remove_key k j m) ∙ h))
  where
    kept : (b : Bool) → (if b then none else lookup k m) ≡ some i → lookup k m ≡ some i
    kept true e = absurd (cc)
    kept false e = e

pub lookup-removed : (k : Bytes) (m : List (Bytes × ℕ)) → lookup k (remove_key k m) ≡ none
lookup-removed k m = lookup-remove_key k k m ∙ rw ((equal_iff k k).1 refl)

-- Pruning gives back the token of each delivery that it takes off the chain.
prune_from-exact :
    (os : List PendingResponse) (chain : List ℕ) (slots held : ℕ)
    → slots ≡ length chain + held
    → (prune_from os chain slots).1 ≡ length (prune_from os chain slots).0 + held
unfolding prune_from
prune_from-exact os [] slots held h = h
prune_from-exact os (i ∷ chain) slots held h = elim (Bool-cases (is_closed_at os i)) [
  | inl closed ↦ rw closed (prune_from-exact os chain (slots - 1) held (omega arith))
  | inr pending ↦ rw pending h
]

prune_from-le :
    (os : List PendingResponse) (chain : List ℕ) (slots : ℕ) → (prune_from os chain slots).1 ≤ slots
unfolding prune_from
prune_from-le os [] slots = omega arith
prune_from-le os (i ∷ chain) slots = ground (arith, prune_from-le os chain (slots - 1))

pub prune-IsAccounted : (r : Requests) → IsAccounted r → IsAccounted (prune r)
unfolding prune
prune-IsAccounted r v = record {
  slots_exact = prune_from-exact r.objects r.chain r.slots (count_holds r.objects) v.slots_exact;
  slots_bounded = omega (arith, prune_from-le r.objects r.chain r.slots, v.slots_bounded);
  pending_bounded = v.pending_bounded;
  objects_ok = v.objects_ok;
  registered = v.registered;
  ended = v.ended;
}
