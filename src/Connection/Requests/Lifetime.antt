-- ===== src/Connection/Requests/Lifetime.antt =====
-- Abandoning, finishing and shutting down keep the invariant of Accounting, and so does any history.
use acp_go_sdk.Base.{
  ℕ, ◌≡◌, ◌≢◌, refl, sym, ap, ◌∙◌, inl, inr, Bool, true, false, not, ◌&&◌, ◌||◌, List, [], ◌∷◌,
  Option, none, some, arith, Bool-cases, subst,
}
use acp_go_sdk.Bytes.{Bytes}
use acp_go_sdk.Message.{lookup}
use acp_go_sdk.Connection.Requests.State.{
  Cause, ResponseEnvelope, waits, failed, PendingResponse, Requests, remove_key, modify, object,
  complete, close, is_registered, prune, finish_response_delivery, discard_response_delivery,
}
use acp_go_sdk.Connection.Requests.Heap.{get-modify_self, length-remove_key}
use acp_go_sdk.Connection.Requests.Accounting.{
  IsAccounted, Registered-remove_key, lookup-removed, prune-IsAccounted,
}
use acp_go_sdk.Connection.Requests.{
  end_by, add_pending, admit_pending, claim_response, deliver_object, abandon_object, unregister,
  is_done, finish_object, end_object,
}
use acp_go_sdk.Connection.Requests.Preserve.{modify-IsAccounted, add_pending-IsAccounted}
use acp_go_sdk.Connection.Requests.{shutdown}
use acp_go_sdk.Connection.Requests.State.{no_requests}
use acp_go_sdk.Connection.Requests.Outcomes.{
  admit_pending-IsAccounted, claim_response-IsAccounted, deliver_object-IsAccounted,
  discard-IsAccounted, fail-IsAccounted, is_registered-false,
}

remove_key-IsAccounted :
    (r : Requests) (key : Bytes)
    → IsAccounted r
    → IsAccounted (record r { pending = remove_key key r.pending })
remove_key-IsAccounted r key v = record {
  slots_exact = v.slots_exact;
  slots_bounded = v.slots_bounded;
  pending_bounded = omega (arith, v.pending_bounded, length-remove_key key r.pending);
  objects_ok = v.objects_ok;
  registered = Registered-remove_key r.pending r.objects key v.registered;
  ended = λ c e. rw (v.ended c e) (unfold remove_key in refl);
}

removed-free : (r : Requests) (i : ℕ) (key : Bytes) → lookup key (remove_key key r.pending) ≢ some i
removed-free r i key e = ground (arith, lookup-removed key r.pending)

pub unregister-IsAccounted :
    (r : Requests) (i : ℕ) (o : PendingResponse) → IsAccounted r → IsAccounted (unregister r i o)
unfolding unregister
unregister-IsAccounted r i o v = elim (Bool-cases (is_registered r i o.key)) [
  | inl found ↦ rw found (remove_key-IsAccounted r o.key v)
  | inr other ↦ rw other v
]

unregister-free :
    (r : Requests) (i : ℕ) (o : PendingResponse) → lookup o.key (unregister r i o).pending ≢ some i
unfolding unregister
unregister-free r i o = elim (Bool-cases (is_registered r i o.key)) [
  | inl found ↦ rw found (removed-free r i o.key)
  | inr other ↦ rw other (is_registered-false r i o.key other)
]

object-unregister :
    (r : Requests) (i : ℕ) (o : PendingResponse) → object (unregister r i o) i ≡ object r i
unfolding unregister
object-unregister r i o = ground arith

-- Discarding leaves the map alone and the object as it is, but for the closed channel.
discard-object :
    (r : Requests) (i : ℕ) {o : PendingResponse}
    → object r i ≡ some o
    → (p : PendingResponse) × (object (discard_response_delivery r i o) i ≡ some p)
      × (p.responded ≡ o.responded)
      × (p.key ≡ o.key)
unfolding discard_response_delivery
discard-object r i {o} at = elim (Bool-cases (o.gated && not o.closed)) [
  | inl held ↦ rw held (close o, get-modify_self r.objects i close at, refl, refl)
  | inr nothing ↦ rw nothing (o, at, refl, refl)
]

discard-pending :
    (r : Requests) (i : ℕ) (o : PendingResponse)
    → (discard_response_delivery r i o).pending ≡ r.pending
unfolding discard_response_delivery
discard-pending r i o = ground arith

pub abandon_object-IsAccounted :
    (r : Requests) (i : ℕ) (c : Cause) {o : PendingResponse}
    → IsAccounted r
    → object r i ≡ some o
    → IsAccounted (abandon_object r i c o).0
unfolding abandon_object
abandon_object-IsAccounted r i c {o} v at =
    elim (Bool-cases (not (is_registered r i o.key) || o.responded)) [
      | inl late ↦ rw late v
      | inr ours ↦
          let r1 : Requests = record r { pending = remove_key o.key r.pending } in
          let v1 = remove_key-IsAccounted r o.key v in
          let idle : o.responded ≡ false = ground arith in
          let free = removed-free r i o.key in
          let (p, at2, same, key) = discard-object r1 i at in
          rw ours (
            fail-IsAccounted (discard_response_delivery r1 i o) i
              (discard-IsAccounted r1 i v1 at idle free) at2 (same ∙ idle)
              (λ e. free (
                ap (lookup o.key) (sym (discard-pending r1 i o))
                ∙ ap (λ k. lookup k (discard_response_delivery r1 i o).pending) (sym key)
                ∙ e))
              c)
    ]

module _ (r : Requests) (i : ℕ) {o : PendingResponse} (v : IsAccounted r)
    (at : object r i ≡ some o) where
  close_done-IsAccounted :
      o.responded ≡ true
      → is_done o.completion ≡ true
      → IsAccounted (finish_response_delivery r i o)
  unfolding finish_response_delivery
  close_done-IsAccounted h d = elim (Bool-cases o.gated) [
    | inr plain ↦ rw plain v
    | inl gated ↦
        let w = v.objects_ok i o at in
        rw gated (
          prune-IsAccounted (record r { objects = modify r.objects i close })
            (modify-IsAccounted r i close at v (ground (arith, w.only_answers h d))
              (record {
                claimed_first = w.claimed_first;
                open_while_claimed = λ a b. absurd (ground arith);
                only_answers = w.only_answers;
              })
              refl (λ u k. absurd (ground arith))))
  ]

end_by-cases :
    (o : PendingResponse) (a b : Requests) {r : Requests}
    → (o.responded ≡ true → is_done o.completion ≡ true → IsAccounted a)
    → (o.responded ≡ false → IsAccounted b)
    → end_by o a b ≡ some r
    → IsAccounted r
unfolding end_by
end_by-cases o a b {r} ha hb h = elim (Bool-cases o.responded) [
  | inr idle ↦ subst IsAccounted {x = b} (ground arith) (hb idle)
  | inl claimed ↦ elim (Bool-cases (is_done o.completion)) [
    | inl done ↦ subst IsAccounted {x = a} (ground arith) (ha claimed done)
    | inr waiting ↦ absurd (ground arith)
  ]
]

pub finish_object-IsAccounted :
    (r : Requests) (i : ℕ) {o : PendingResponse} {r' : Requests}
    → IsAccounted r
    → object r i ≡ some o
    → finish_object r i o ≡ some r'
    → IsAccounted r'
unfolding finish_object
finish_object-IsAccounted r i {o} v at h =
    let u = unregister-IsAccounted r i o v in
    let at' = object-unregister r i o ∙ at in
    end_by-cases o (finish_response_delivery (unregister r i o) i o)
      (discard_response_delivery (unregister r i o) i o)
      (close_done-IsAccounted (unregister r i o) i u at')
      (λ idle. discard-IsAccounted (unregister r i o) i u at' idle (unregister-free r i o)) h

shutdown-IsAccounted : (r : Requests) (c : Cause) → IsAccounted r → IsAccounted (shutdown r c)
unfolding shutdown
shutdown-IsAccounted r c v = by_cause r.cause refl
  where
    by_cause : (d : Option Cause) → r.cause ≡ d → IsAccounted (shutdown r c)
    by_cause (some d) e = rw (e, shutdown) v
    by_cause none e =
        rw (e, shutdown)
          (record {
            slots_exact = v.slots_exact;
            slots_bounded = v.slots_bounded;
            pending_bounded = omega arith;
            objects_ok = v.objects_ok;
            registered = λ k i h. absurd (unfold lookup in cc);
            ended = λ d h. refl;
          })

-- Once the map is empty no key leads anywhere.
ended-free : (r : Requests) (i : ℕ) (key : Bytes) → r.pending ≡ [] → lookup key r.pending ≢ some i
ended-free r i key e h = unfold lookup in cc (ap (lookup key) e)

end_object-IsAccounted :
    (r : Requests) (i : ℕ) (c : Cause) {o : PendingResponse} {r' : Requests}
    → IsAccounted r
    → r.pending ≡ []
    → object r i ≡ some o
    → end_object r i c o ≡ some r'
    → IsAccounted r'
unfolding end_object discard_response_delivery
end_object-IsAccounted r i c {o} v e at h =
    let failed_r : Requests = record r { objects = modify r.objects i (complete (failed c)) } in
    end_by-cases o (finish_response_delivery r i o) (discard_response_delivery failed_r i o)
      (close_done-IsAccounted r i v at)
      (λ idle.
        discard-IsAccounted failed_r i (fail-IsAccounted r i v at idle (ended-free r i o.key e) c)
          (get-modify_self r.objects i (complete (failed c)) at) idle
          (ended-free failed_r i o.key e))
      h

-- The ways in which the state changes. The connection gives fresh keys; the delivery of a response
-- follows its claim, and the rounds of shutdown follow its critical section.
pub data Step (r : Requests) : Requests → Type 0 where
  adds : (key : Bytes) (gated : Bool) → Step r (add_pending r key gated).0
  admits : (i : ℕ) (key : Bytes) → Step r (admit_pending r i key).0
  claims : (key : Bytes) → Step r (claim_response r key).0
  delivers :
      (i : ℕ) (e : ResponseEnvelope) (o : PendingResponse)
      → object r i ≡ some o
      → o.responded ≡ true
      → o.completion ≡ waits
      → Step r (deliver_object r i e o)
  abandons :
      (i : ℕ) (c : Cause) (o : PendingResponse)
      → object r i ≡ some o
      → Step r (abandon_object r i c o).0
  detaches : (i : ℕ) (o : PendingResponse) → object r i ≡ some o → Step r (unregister r i o)
  finishes :
      (i : ℕ) (o : PendingResponse) (r' : Requests)
      → object r i ≡ some o
      → finish_object r i o ≡ some r'
      → Step r r'
  prunes : Step r (prune r)
  shuts_down : (c : Cause) → Step r (shutdown r c)
  ends :
      (c : Cause) (i : ℕ) (rest : List ℕ) (o : PendingResponse) (r' : Requests)
      → r.cause ≡ some c
      → r.closing ≡ i ∷ rest
      → object r i ≡ some o
      → end_object (record r { closing = rest }) i c o ≡ some r'
      → Step r r'

pub data Reach (s : Requests) : Requests → Type 0 where
  here : Reach s s
  next : {t u : Requests} → Reach s t → Step t u → Reach s u

closing-IsAccounted :
    (r : Requests) (rest : List ℕ) → IsAccounted r → IsAccounted (record r { closing = rest })
closing-IsAccounted r rest v = record {
  slots_exact = v.slots_exact;
  slots_bounded = v.slots_bounded;
  pending_bounded = v.pending_bounded;
  objects_ok = v.objects_ok;
  registered = v.registered;
  ended = v.ended;
}

pub Step-IsAccounted : {r r' : Requests} → Step r r' → IsAccounted r → IsAccounted r'
Step-IsAccounted {r} (adds key gated) v = add_pending-IsAccounted r key gated v
Step-IsAccounted {r} (admits i key) v = admit_pending-IsAccounted r i key v
Step-IsAccounted {r} (claims key) v = claim_response-IsAccounted r key v
Step-IsAccounted {r} (delivers i e o at h w) v = deliver_object-IsAccounted r i e v at h w
Step-IsAccounted {r} (abandons i c o at) v = abandon_object-IsAccounted r i c v at
Step-IsAccounted {r} (detaches i o at) v = unregister-IsAccounted r i o v
Step-IsAccounted {r} (finishes i o r' at h) v = finish_object-IsAccounted r i v at h
Step-IsAccounted {r} prunes v = prune-IsAccounted r v
Step-IsAccounted {r} (shuts_down c) v = shutdown-IsAccounted r c v
Step-IsAccounted {r} (ends c i rest o r' e _ at h) v =
    end_object-IsAccounted (record r { closing = rest }) i c (closing-IsAccounted r rest v)
      (v.ended c e) at h

no_requests-IsAccounted : (max : ℕ) → IsAccounted (no_requests max)
no_requests-IsAccounted max = record {
  slots_exact = refl;
  slots_bounded = omega arith;
  pending_bounded = omega arith;
  objects_ok = λ i o h. cc;
  registered = λ k i h. absurd (unfold lookup in cc);
  ended = λ c h. refl;
}

-- In every history of a connection, whatever requests are added, answered, abandoned and finished
-- and however the shutdown falls between: the registered requests and the response slots stay
-- within MaxPendingRequests, each slot taken belongs to one delivery on the chain or to one open
-- delivery, and a registered request that no response has claimed is neither failed nor closed.
pub Reach-IsAccounted : (max : ℕ) {r : Requests} → Reach (no_requests max) r → IsAccounted r
Reach-IsAccounted max here = no_requests-IsAccounted max
Reach-IsAccounted max (next h s) = Step-IsAccounted s (Reach-IsAccounted max h)
