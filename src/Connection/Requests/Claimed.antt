-- ===== src/Connection/Requests/Claimed.antt =====
-- connection.go, handleResponse: the responses of a request over its life.
use acp_go_sdk.Base.{
  ℕ, zero, suc, ◌≡◌, ◌≢◌, refl, ◌∙◌, Bool, true, false, List, [], ◌∷◌, ◌++◌, Option, none, some,
  get_elem?, arith, subst,
}
use acp_go_sdk.Bytes.{Bytes}
use acp_go_sdk.Message.{lookup}
use acp_go_sdk.Connection.Requests.State.{
  PendingResponse, Requests, modify, object, complete, close, prune, failed, answered,
  finish_response_delivery, discard_response_delivery, Cause, ResponseEnvelope, Completion,
  remove_key,
}
use acp_go_sdk.Connection.Requests.{
  fresh, add_pending, register_unless, register_open, admit_pending, claim_response, claim_object,
  deliver_object, abandon_object, unregister, end_by, finish_object, shutdown, end_object,
}
use acp_go_sdk.Connection.Requests.Responses.{claim_response-IsClaim, IsClaim}
use acp_go_sdk.Connection.Requests.Lifetime.{
  Step, adds, admits, claims, delivers, abandons, detaches, finishes, prunes, shuts_down, ends,
  Reach, here, next,
}

-- Whether the object at a place has its response.
has_response : List PendingResponse → ℕ → Bool
has_response [] i = false
has_response (o ∷ os) zero = o.responded
has_response (o ∷ os) (suc i) = has_response os i

has_response-get :
    (os : List PendingResponse) (i : ℕ) {o : PendingResponse}
    → get_elem? os i ≡ some o
    → has_response os i ≡ o.responded
unfolding has_response
has_response-get [] i h = absurd cc
has_response-get (x ∷ os) zero h = cc
has_response-get (x ∷ os) (suc i) h = has_response-get os i h

has_response-concat :
    (os : List PendingResponse) (o : PendingResponse) (i : ℕ)
    → has_response os i ≡ true
    → has_response (os ++ o ∷ []) i ≡ true
unfolding has_response
has_response-concat [] o i h = absurd cc
has_response-concat (x ∷ os) o zero h = h
has_response-concat (x ∷ os) o (suc i) h = has_response-concat os o i h

-- A write that takes no response back.
has_response-modify :
    (os : List PendingResponse) (j i : ℕ) (f : PendingResponse → PendingResponse)
    → ((o : PendingResponse) → o.responded ≡ true → (f o).responded ≡ true)
    → has_response os i ≡ true
    → has_response (modify os j f) i ≡ true
unfolding has_response modify
has_response-modify [] j i f k h = h
has_response-modify (x ∷ os) zero zero f k h = k x h
has_response-modify (x ∷ os) zero (suc i) f k h = h
has_response-modify (x ∷ os) (suc j) zero f k h = h
has_response-modify (x ∷ os) (suc j) (suc i) f k h = has_response-modify os j i f k h

abbrev Has : ℕ → Requests → Type 0
Has i r = has_response r.objects i ≡ true

module _ (i : ℕ) (r : Requests) (h : Has i r) where
  add_pending-Has : (key : Bytes) (gated : Bool) → Has i (add_pending r key gated).0
  unfolding add_pending register_unless register_open prune
  add_pending-Has key gated = ground (arith, has_response-concat r.objects (fresh key gated) i h)

  admit_pending-Has : (j : ℕ) (key : Bytes) → Has i (admit_pending r j key).0
  unfolding admit_pending
  admit_pending-Has j key =
      ground
        (arith, has_response-modify r.objects j i (λ o. record o { admitted = true }) (λ o k. k) h)

  claim_object-Has : (j : ℕ) (found : Option PendingResponse) → Has i (claim_object r j found).0
  unfolding claim_object
  claim_object-Has j none = h
  claim_object-Has j (some o) = ground (
    arith,
    has_response-modify r.objects j i (λ p. record p { responded = true }) (λ p k. refl) h,
  )

  claim_response-Has : (key : Bytes) → Has i (claim_response r key).0
  unfolding claim_response has_response
  claim_response-Has key = by_key (lookup key r.pending) refl
    where
      by_key : (m : Option ℕ) → lookup key r.pending ≡ m → Has i (claim_response r key).0
      by_key none e = rw (e, claim_response) h
      by_key (some j) e = rw (e, claim_response) (claim_object-Has j (object r j))

  completed-Has :
      (j : ℕ) (c : Completion) → Has i (record r { objects = modify r.objects j (complete c) })
  completed-Has j c = has_response-modify r.objects j i (complete c) (λ o k. k) h

  deliver_object-Has :
      (j : ℕ) (e : ResponseEnvelope) (o : PendingResponse) → Has i (deliver_object r j e o)
  unfolding deliver_object prune
  deliver_object-Has j e o = ground (arith, completed-Has j (answered e))

  closed-Has : (j : ℕ) → Has i (record r { objects = modify r.objects j close })
  closed-Has j = has_response-modify r.objects j i close (λ o k. k) h

  discard-Has : (j : ℕ) (o : PendingResponse) → Has i (discard_response_delivery r j o)
  unfolding discard_response_delivery
  discard-Has j o = ground (arith, closed-Has j)

  finish-Has : (j : ℕ) (o : PendingResponse) → Has i (finish_response_delivery r j o)
  unfolding finish_response_delivery prune
  finish-Has j o = ground (arith, closed-Has j)

  unregister-Has : (j : ℕ) (o : PendingResponse) → Has i (unregister r j o)
  unfolding unregister
  unregister-Has j o = ground arith

  shutdown-Has : (c : Cause) → Has i (shutdown r c)
  unfolding shutdown
  shutdown-Has c = ground arith

end_by-Has :
    (i : ℕ) (o : PendingResponse) (a b : Requests) {r : Requests}
    → Has i a
    → Has i b
    → end_by o a b ≡ some r
    → Has i r
unfolding end_by
end_by-Has i o a b ha hb e = ground arith

module _ (i : ℕ) (r : Requests) (h : Has i r) where
  abandon_object-Has : (j : ℕ) (c : Cause) (o : PendingResponse) → Has i (abandon_object r j c o).0
  unfolding abandon_object
  abandon_object-Has j c o =
      let r1 : Requests = record r { pending = remove_key o.key r.pending } in
      ground (
        arith,
        completed-Has i (discard_response_delivery r1 j o) (discard-Has i r1 h j o) j (failed c),
      )

  finish_object-Has :
      (j : ℕ) (o : PendingResponse) {r' : Requests} → finish_object r j o ≡ some r' → Has i r'
  unfolding finish_object
  finish_object-Has j o e =
      let u = unregister-Has i r h j o in
      end_by-Has i o (finish_response_delivery (unregister r j o) j o)
        (discard_response_delivery (unregister r j o) j o) (finish-Has i (unregister r j o) u j o)
        (discard-Has i (unregister r j o) u j o) e

  end_object-Has :
      (j : ℕ) (c : Cause) (o : PendingResponse) {r' : Requests}
      → end_object r j c o ≡ some r'
      → Has i r'
  unfolding end_object
  end_object-Has j c o e =
      let ended : Requests = record r { objects = modify r.objects j (complete (failed c)) } in
      end_by-Has i o (finish_response_delivery r j o) (discard_response_delivery ended j o)
        (finish-Has i r h j o) (discard-Has i ended (completed-Has i r h j (failed c)) j o) e

-- No step of the connection takes a response back.
Step-Has : (i : ℕ) {r s : Requests} → Step r s → Has i r → Has i s
unfolding prune
Step-Has i {r} (adds key gated) h = add_pending-Has i r h key gated
Step-Has i {r} (admits j key) h = admit_pending-Has i r h j key
Step-Has i {r} (claims key) h = claim_response-Has i r h key
Step-Has i {r} (delivers j e o _ _ _) h = deliver_object-Has i r h j e o
Step-Has i {r} (abandons j c o _) h = abandon_object-Has i r h j c o
Step-Has i {r} (detaches j o _) h = unregister-Has i r h j o
Step-Has i {r} (finishes j o r' _ e) h = finish_object-Has i r h j o e
Step-Has i {r} prunes h = h
Step-Has i {r} (shuts_down c) h = shutdown-Has i r h c
Step-Has i {r} (ends c j rest o r' _ _ _ e) h =
    end_object-Has i (record r { closing = rest }) h j c o e

Reach-Has : (i : ℕ) {r s : Requests} → Has i r → Reach r s → Has i s
Reach-Has i h here = h
Reach-Has i h (next r st) = Step-Has i st (Reach-Has i h r)

-- What is claimed has a response then, and had none before.
claimed-Has :
    (r : Requests) (key : Bytes) (result : Requests × Option ℕ) {i : ℕ}
    → IsClaim r key result
    → result.1 ≡ some i
    → Has i result.0
claimed-Has r key (r', none) c h = absurd cc
claimed-Has r key (r', some j) {i} (_, (_, (o, _, at), _)) h =
    let e : j ≡ i = cc in subst (λ k. Has k r') e (has_response-get r'.objects j at)

claimable-unanswered :
    (r : Requests) (key : Bytes) (result : Requests × Option ℕ) {i : ℕ}
    → IsClaim r key result
    → result.1 ≡ some i
    → has_response r.objects i ≡ false
claimable-unanswered r key (r', none) c h = absurd cc
claimable-unanswered r key (r', some j) {i} ((_, (o, at, _, new)), _) h =
    let e : j ≡ i = cc in
    subst (λ k. has_response r.objects k ≡ false) e (has_response-get r.objects j at ∙ new)

-- A request takes at most one response in its life: once it has taken one, and whatever the
-- connection does from then on, no response, whatever its id, is taken by it.
pub claim_response_once :
    (r : Requests) (key later : Bytes) {i : ℕ} {s : Requests}
    → (claim_response r key).1 ≡ some i
    → Reach (claim_response r key).0 s
    → (claim_response s later).1 ≢ some i
claim_response_once r key later {i} {s} h g k =
    let has =
      Reach-Has i (claimed-Has r key (claim_response r key) (claim_response-IsClaim r key) h) g in
    let lacks =
      claimable-unanswered s later (claim_response s later) (claim_response-IsClaim s later) k in
    absurd cc
