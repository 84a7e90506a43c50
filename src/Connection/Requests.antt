-- ===== src/Connection/Requests.antt =====
-- connection.go: outbound requests that wait for a response, each critical section a function.
pub mod State
pub mod Heap
pub mod Accounting
pub mod Preserve
pub mod Outcomes
pub mod Lifetime
pub mod Responses
pub mod Claimed
use acp_go_sdk.Base.{
  ℕ, zero, suc, ◌+◌, ◌-◌, Bool, true, false, not, ◌&&◌, ◌||◌, List, [], ◌∷◌, ◌++◌, Option, none,
  some, length, ltb, leb, ◌==◌, if◌then◌else◌, get_elem?,
}
use acp_go_sdk.Bytes.{Bytes, equal}
use acp_go_sdk.Message.{AnyMessage, lookup, is_some}
use acp_go_sdk.Result.{Result, ok, err}
use State.{
  Cause, connection_closed, pending_requests_exceeded, request_unavailable, ResponseEnvelope,
  Completion, waits, answered, failed, PendingResponse, Requests, remove_key, put_key, modify,
  object, complete, close, is_registered, prune, finish_response_delivery,
  discard_response_delivery,
}

abbrev pub fresh : Bytes → Bool → PendingResponse
fresh key gated = record {
  key = key;
  gated = gated;
  closed = false;
  admitted = false;
  responded = false;
  completion = waits;
}

-- The last part of addPending, and the name of the object.
abbrev pub register : Requests → Bytes → Bool → Requests
register r key gated = record r {
  objects = r.objects ++ fresh key gated ∷ [];
  pending = put_key key (length r.objects) r.pending;
  slots = if gated then r.slots + 1 else r.slots;
}

unfoldable pub register_open : Requests → Bytes → Bool → Requests × Result Cause ℕ
register_open r key gated =
    if leb r.max_pending (length r.pending)
    then (r, err pending_requests_exceeded)
    else if gated && leb r.max_pending r.slots
    then (r, err pending_requests_exceeded)
    else (register r key gated, ok (length r.objects))

unfoldable pub register_unless : Option Cause → Requests → Bytes → Bool → Requests × Result Cause ℕ
register_unless (some c) r key gated = (r, err c)
register_unless none r key gated = register_open r key gated

-- addPending.
unfoldable pub add_pending : Requests → Bytes → Bool → Requests × Result Cause ℕ
add_pending r key gated =
    let r' = if gated then prune r else r in register_unless r'.cause r' key gated

-- admitPending.
unfoldable pub admit_pending : Requests → ℕ → Bytes → Requests × Result Cause (Unit {0})
admit_pending r i key = elim r.cause [
  | some c ↦ (r, err c)
  | none ↦
      if is_registered r i key
      then (record r { objects = modify r.objects i (λ o. record o { admitted = true }) }, ok tt)
      else (r, err request_unavailable)
]

-- handleResponse, its first critical section: the pending request that takes the response.
abbrev pub may_claim : PendingResponse → Bool
may_claim o = o.admitted && not o.responded

unfoldable pub claim_object : Requests → ℕ → Option PendingResponse → Requests × Option ℕ
claim_object r i none = (r, none)
claim_object r i (some o) =
    if may_claim o
    then (record r { objects = modify r.objects i (λ p. record p { responded = true }) }, some i)
    else (r, none)

unfoldable pub claim_response : Requests → Bytes → Requests × Option ℕ
claim_response r key = elim (lookup key r.pending) [
  | none ↦ (r, none)
  | some i ↦ claim_object r i (object r i)
]

-- handleResponse, the rest, for the object that was claimed.
unfoldable pub deliver_object : Requests → ℕ → ResponseEnvelope → PendingResponse → Requests
deliver_object r i e o =
    let r' = if o.gated then record (prune r) { chain = i ∷ (prune r).chain } else r in
    record r' { objects = modify r'.objects i (complete (answered e)) }

-- abandonPending.
unfoldable pub abandon_object : Requests → ℕ → Cause → PendingResponse → Requests × Bool
abandon_object r i c o =
    let r1 = record r { pending = remove_key o.key r.pending } in
    let r2 = discard_response_delivery r1 i o in
    if not (is_registered r i o.key) || o.responded
    then (r, false)
    else (record r2 { objects = modify r2.objects i (complete (failed c)) }, true)

unfoldable pub unregister : Requests → ℕ → PendingResponse → Requests
unregister r i o =
    if is_registered r i o.key then record r { pending = remove_key o.key r.pending } else r

-- finishPending; `none` while it waits for `done`.
abbrev pub is_done : Completion → Bool
is_done waits = false
is_done _ = true

-- What becomes of a request at its end: a claimed one is first waited for.
unfoldable pub end_by : PendingResponse → Requests → Requests → Option Requests
end_by o finished discarded =
    if o.responded then (if is_done o.completion then some finished else none) else some discarded

unfoldable pub finish_object : Requests → ℕ → PendingResponse → Option Requests
finish_object r i o =
    let r' = unregister r i o in
    end_by o (finish_response_delivery r' i o) (discard_response_delivery r' i o)

unfoldable pub deliver_response : Requests → ℕ → ResponseEnvelope → Requests
deliver_response r i e = elim (object r i) [ none ↦ r | some o ↦ deliver_object r i e o ]

unfoldable pub abandon_pending : Requests → ℕ → Cause → Requests × Bool
abandon_pending r i c = elim (object r i) [ none ↦ (r, false) | some o ↦ abandon_object r i c o ]

unfoldable pub finish_pending : Requests → ℕ → Option Requests
finish_pending r i = elim (object r i) [ none ↦ none | some o ↦ finish_object r i o ]

-- detachPending.
unfoldable pub detach_pending : Requests → ℕ → Requests
detach_pending r i = elim (object r i) [ none ↦ r | some o ↦ unregister r i o ]

-- pendingResponded.
unfoldable pub pending_responded : Requests → ℕ → Bool
pending_responded r i = elim (object r i) [
  | none ↦ false
  | some o ↦ is_registered r i o.key && o.responded
]

abbrev pub ids : List (Bytes × ℕ) → List ℕ
ids [] = []
ids ((k, i) ∷ m) = i ∷ ids m

-- shutdown, its critical section: the first cause stays, and the map is emptied.
unfoldable pub shutdown : Requests → Cause → Requests
shutdown r c = elim r.cause [
  | some _ ↦ r
  | none ↦ record r { cause = some c; pending = []; closing = ids r.pending }
]

-- shutdown, one round of its loop: a request that no response has claimed fails with the cause; one
-- that is claimed is waited for, `none` meanwhile.
unfoldable pub end_object : Requests → ℕ → Cause → PendingResponse → Option Requests
end_object r i c o =
    let r' = record r { objects = modify r.objects i (complete (failed c)) } in
    end_by o (finish_response_delivery r i o) (discard_response_delivery r' i o)

unfoldable pub shutdown_round : Requests → Cause → Option Requests
shutdown_round r c = elim r.closing [
  | [] ↦ none
  | i ∷ rest ↦ elim (object r i) [
    | none ↦ none
    | some o ↦ end_object (record r { closing = rest }) i c o
  ]
]
