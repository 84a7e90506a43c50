-- ===== src/Connection/Requests/Outcomes.antt =====
-- Responses, failures and ends of pending requests keep the invariant of Accounting.
use acp_go_sdk.Base.{
  ℕ, ◌+◌, ◌-◌, ◌≡◌, ◌≢◌, refl, ◌∙◌, inl, inr, true, false, not, ◌&&◌, List, ◌∷◌, Option, none, some,
  length, arith, Bool-cases,
}
use acp_go_sdk.Bytes.{Bytes}
use acp_go_sdk.Message.{lookup}
use acp_go_sdk.Connection.Requests.State.{
  Cause, ResponseEnvelope, waits, answered, failed, PendingResponse, Requests, modify, object,
  complete, close, is_registered, prune, discard_response_delivery,
}
use acp_go_sdk.Connection.Requests.Heap.{holds, count_holds-modify}
use acp_go_sdk.Connection.Requests.Accounting.{
  IsObject, IsUntouched, IsAccounted, AllObjects-modify, Registered-modify, prune-IsAccounted,
}
use acp_go_sdk.Connection.Requests.{
  admit_pending, may_claim, claim_object, claim_response, deliver_object,
}
use acp_go_sdk.Connection.Requests.Preserve.{modify-IsAccounted, modify_free-IsAccounted}

IsObject-admitted : (o : PendingResponse) → IsObject o → IsObject (record o { admitted = true })
IsObject-admitted o w = record {
  claimed_first = w.claimed_first;
  open_while_claimed = w.open_while_claimed;
  only_answers = w.only_answers;
}

pub is_registered-lookup :
    (r : Requests) (i : ℕ) (key : Bytes)
    → is_registered r i key ≡ true
    → lookup key r.pending ≡ some i
unfolding is_registered
is_registered-lookup r i key h = ground arith

pub is_registered-false :
    (r : Requests) (i : ℕ) (key : Bytes)
    → is_registered r i key ≡ false
    → lookup key r.pending ≢ some i
unfolding is_registered
is_registered-false r i key h e = ground arith

pub admit_pending-IsAccounted :
    (r : Requests) (i : ℕ) (key : Bytes) → IsAccounted r → IsAccounted (admit_pending r i key).0
unfolding admit_pending
admit_pending-IsAccounted r i key v = by_cause r.cause refl
  where
    by_cause : (c : Option Cause) → r.cause ≡ c → IsAccounted (admit_pending r i key).0
    by_cause (some c) e = rw (e, admit_pending) v
    by_cause none e =
        rw (e, admit_pending)
          (elim (Bool-cases (is_registered r i key)) [
            | inr other ↦ rw other v
            | inl found ↦
                let (o, at, _, _) = v.registered key i (is_registered-lookup r i key found) in
                rw found (
                  modify-IsAccounted r i (λ p. record p { admitted = true }) at v refl
                    (IsObject-admitted o (v.objects_ok i o at)) refl (λ u. u))
          ])

claimed-IsObject :
    (o : PendingResponse)
    → o.responded ≡ false
    → IsUntouched o
    → IsObject (record o { responded = true })
claimed-IsObject o e u = record {
  claimed_first = λ h. refl;
  open_while_claimed = λ h k. (u e).1;
  only_answers = λ h k. ground (arith, (u e).0);
}

pub claim_response-IsAccounted :
    (r : Requests) (key : Bytes) → IsAccounted r → IsAccounted (claim_response r key).0
unfolding claim_response claim_object
claim_response-IsAccounted r key v = by_key (lookup key r.pending) refl
  where
    by_key : (m : Option ℕ) → lookup key r.pending ≡ m → IsAccounted (claim_response r key).0
    by_key none e = rw (e, claim_response) v
    by_key (some i) e =
        let (o, at, _, u) = v.registered key i e in
        rw (e, claim_response)
          (rw (at, claim_object)
            (elim (Bool-cases (may_claim o)) [
              | inr idle ↦ rw idle v
              | inl ready ↦ rw ready (
                  modify-IsAccounted r i (λ p. record p { responded = true }) at v refl
                    (claimed-IsObject o (ground arith) u) refl (λ _ h. cc))
            ]))

module _ (r : Requests) (i : ℕ) (e : ResponseEnvelope) {o : PendingResponse} (v : IsAccounted r)
    (at : object r i ≡ some o) (claimed : o.responded ≡ true) (w : o.completion ≡ waits) where
  answered-IsObject : IsObject (complete (answered e) o)
  answered-IsObject = record {
    claimed_first = λ h. claimed;
    open_while_claimed = λ h k. absurd (ground arith);
    only_answers = λ h k. ground arith;
  }

  answered-IsAccounted :
      (chain : List ℕ)
      → length chain ≡ length r.chain + holds o
      → IsAccounted
          (record r { chain = chain; objects = modify r.objects i (complete (answered e)) })
  answered-IsAccounted chain h =
      let none_left : holds (complete (answered e) o) ≡ 0 = ground arith in
      record {
        slots_exact = omega (
          arith,
          v.slots_exact,
          none_left,
          count_holds-modify r.objects i (complete (answered e)) at,
        );
        slots_bounded = v.slots_bounded;
        pending_bounded = v.pending_bounded;
        objects_ok =
            AllObjects-modify r.objects i (complete (answered e)) at v.objects_ok answered-IsObject;
        registered =
            Registered-modify r.objects i (complete (answered e)) at r.pending v.registered refl
              (λ u k. absurd (ground arith));
        ended = v.ended;
      }

object-prune : (r : Requests) (i : ℕ) → object (prune r) i ≡ object r i
unfolding prune
object-prune r i = refl

-- A response that claimed a request is delivered.
pub deliver_object-IsAccounted :
    (r : Requests) (i : ℕ) (e : ResponseEnvelope) {o : PendingResponse}
    → IsAccounted r
    → object r i ≡ some o
    → o.responded ≡ true
    → o.completion ≡ waits
    → IsAccounted (deliver_object r i e o)
unfolding deliver_object
deliver_object-IsAccounted r i e {o} v at h w = elim (Bool-cases o.gated) [
  | inr plain ↦ rw plain (answered-IsAccounted r i e v at h w r.chain (ground arith))
  | inl gated ↦
      let open_ = (v.objects_ok i o at).open_while_claimed h (ground arith) in
      rw gated (
        answered-IsAccounted (prune r) i e (prune-IsAccounted r v) (object-prune r i ∙ at) h w
          (i ∷ (prune r).chain) (ground arith))
]

closed-IsObject : (o : PendingResponse) → o.responded ≡ false → IsObject o → IsObject (close o)
closed-IsObject o e w = record {
  claimed_first = w.claimed_first;
  open_while_claimed = λ h. cc;
  only_answers = w.only_answers;
}

failed-IsObject :
    (o : PendingResponse) (c : Cause)
    → o.responded ≡ false
    → IsObject o
    → IsObject (complete (failed c) o)
failed-IsObject o c e w = record {
  claimed_first = λ h. absurd (ground (arith, w.claimed_first));
  open_while_claimed = λ h. cc;
  only_answers = λ h. cc;
}

holds-failed : (o : PendingResponse) (c : Cause) → holds (complete (failed c) o) ≡ holds o
holds-failed o c = ground arith

-- A request that no response has claimed and no key leads to gives up its delivery, or fails.
module _ (r : Requests) (i : ℕ) {o : PendingResponse} (v : IsAccounted r) (at : object r i ≡ some o)
    (idle : o.responded ≡ false) (free : lookup o.key r.pending ≢ some i) where
  pub discard-IsAccounted : IsAccounted (discard_response_delivery r i o)
  unfolding discard_response_delivery
  discard-IsAccounted = elim (Bool-cases (o.gated && not o.closed)) [
    | inr nothing ↦ rw nothing v
    | inl held ↦
        let w = v.objects_ok i o at in
        let one : holds o ≡ 1 = ground (arith, w.claimed_first) in
        let least = count_holds-modify r.objects i close at in
        let zero_left : holds (close o) ≡ 0 = ground arith in
        rw held (
          modify_free-IsAccounted r i close at (r.slots - 1) v free (omega (arith, v.slots_exact))
            (omega arith) (closed-IsObject o idle w))
  ]

  pub fail-IsAccounted :
      (c : Cause) → IsAccounted (record r { objects = modify r.objects i (complete (failed c)) })
  fail-IsAccounted c =
      modify_free-IsAccounted r i (complete (failed c)) at r.slots v free
        (omega (arith, holds-failed o c)) (omega arith)
        (failed-IsObject o c idle (v.objects_ok i o at))
