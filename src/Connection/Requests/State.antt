-- ===== src/Connection/Requests/State.antt =====
-- connection.go: the pending requests and their response deliveries, with the operations on one
-- object. An object of the heap is named by its index. The list that lastResponseDelivery heads is
-- `chain`, newest first: a `previous` link is set once, when its delivery becomes the last.
use acp_go_sdk.Base.{
  ℕ, zero, suc, ◌-◌, Bool, true, false, not, ◌&&◌, List, [], ◌∷◌, Option, none, some, ◌==◌,
  if◌then◌else◌, get_elem?,
}
use acp_go_sdk.Bytes.{Bytes, equal}
use acp_go_sdk.Message.{AnyMessage, lookup}

-- The causes with which a request or the connection ends, as far as the code tells them apart.
pub data Cause : Type 0 where
  connection_closed pending_requests_exceeded request_unavailable request_abandoned : Cause
  notification_queue_full : Cause
  other_cause : Bytes → Cause

pub record ResponseEnvelope : Type 0 where
  pub msg : AnyMessage
  pub watermark : ℕ

-- What `done` was closed with; `once` keeps the first.
pub data Completion : Type 0 where
  waits : Completion
  answered : ResponseEnvelope → Completion
  failed : Cause → Completion

-- `key` is the id key under which the request was registered, `gated` says that it has a delivery
-- and `closed` that the delivery's channel is closed.
pub record PendingResponse : Type 0 where
  pub key : Bytes
  pub gated : Bool
  pub closed : Bool
  pub admitted : Bool
  pub responded : Bool
  pub completion : Completion

-- `slots` counts the tokens in responseDeliverySlots; `closing` are the requests that shutdown has
-- taken out of the map and not yet ended.
pub record Requests : Type 0 where
  pub max_pending : ℕ
  pub pending : List (Bytes × ℕ)
  pub objects : List PendingResponse
  pub chain : List ℕ
  pub slots : ℕ
  pub closing : List ℕ
  pub cause : Option Cause

abbrev pub no_requests : ℕ → Requests
no_requests max = record {
  max_pending = max;
  pending = [];
  objects = [];
  chain = [];
  slots = 0;
  closing = [];
  cause = none;
}

unfoldable pub remove_key : Bytes → List (Bytes × ℕ) → List (Bytes × ℕ)
remove_key k [] = []
remove_key k ((j, i) ∷ m) = if equal j k then remove_key k m else (j, i) ∷ remove_key k m

-- The map is assigned at `k`.
abbrev pub put_key : Bytes → ℕ → List (Bytes × ℕ) → List (Bytes × ℕ)
put_key k i m = (k, i) ∷ remove_key k m

-- A write to the object `i`.
unfoldable pub modify :
    List PendingResponse → ℕ → (PendingResponse → PendingResponse) → List PendingResponse
modify [] i f = []
modify (o ∷ os) zero f = f o ∷ os
modify (o ∷ os) (suc i) f = o ∷ modify os i f

abbrev pub object : Requests → ℕ → Option PendingResponse
object r i = get_elem? r.objects i

-- pendingResponse.complete.
abbrev complete_with : Completion → Completion → Completion
complete_with waits c = c
complete_with done c = done

abbrev pub complete : Completion → PendingResponse → PendingResponse
complete c o = record o { completion = complete_with o.completion c }

abbrev pub close : PendingResponse → PendingResponse
close o = record o { closed = true }

-- The object `i` is the one registered under its key: `c.pending[idKey] == pending`.
unfoldable pub is_registered : Requests → ℕ → Bytes → Bool
is_registered r i key = elim (lookup key r.pending) [ none ↦ false | some j ↦ j == i ]

abbrev pub is_closed_at : List PendingResponse → ℕ → Bool
is_closed_at os i = elim (get_elem? os i) [ none ↦ false | some o ↦ o.closed ]

-- pruneResponseDeliveriesLocked: what is left of the chain and of the slots taken.
unfoldable pub prune_from : List PendingResponse → List ℕ → ℕ → List ℕ × ℕ
prune_from os [] slots = ([], slots)
prune_from os (i ∷ chain) slots =
    let rest = prune_from os chain (slots - 1) in
    if is_closed_at os i then rest else (i ∷ chain, slots)

unfoldable pub prune : Requests → Requests
prune r =
    let (chain, slots) = prune_from r.objects r.chain r.slots in
    record r { chain = chain; slots = slots }

-- finishResponseDelivery on the delivery of `i`, nothing if it has none.
unfoldable pub finish_response_delivery : Requests → ℕ → PendingResponse → Requests
finish_response_delivery r i o =
    if o.gated then prune (record r { objects = modify r.objects i close }) else r

-- discardResponseDelivery.
unfoldable pub discard_response_delivery : Requests → ℕ → PendingResponse → Requests
discard_response_delivery r i o =
    if o.gated && not o.closed
    then record r { objects = modify r.objects i close; slots = r.slots - 1 }
    else r
