-- ===== src/Connection/Inbound/Inflight.antt =====
-- connection.go: no two requests in flight have one id.
use acp_go_sdk.Base.{
  subst, sym, true, [], false, ◌≡◌, refl, ap, ◌∙◌, inl, inr, List, ◌∷◌, Option, none, some, length,
  ltb, Bool-cases, arith,
}
use acp_go_sdk.Bytes.{equal, Bytes, codes, equal_iff}
use acp_go_sdk.Error.{RequestError, entry, new_invalid_request}
use acp_go_sdk.Message.{AnyMessage}
use acp_go_sdk.Json.{IdCodec}
use acp_go_sdk.Result.{Result, ok, err}
use acp_go_sdk.RequestId.{canonical_id_key}
use acp_go_sdk.RequestId.Scan.{IdError}
use acp_go_sdk.Connection.Inbound.{
  remove_inflight, remove, handle_cancel_request, Inbound, member, enqueue_keyed, enqueue_request,
  with_key,
}

abbrev pub duplicate_id : RequestError
duplicate_id = new_invalid_request (entry (codes "error") (codes "duplicate request id"))

member_self : (k : Bytes) (ks : List Bytes) → member k (k ∷ ks) ≡ true
unfolding member
member_self k ks = rw ((equal_iff k k).1 refl) refl

-- What was accepted is in flight.
enqueue_keyed-member :
    (s : Inbound) (m : AnyMessage) (ended_by : Option RequestError) (key : Bytes)
    → (enqueue_keyed s m ended_by key).1 ≡ none
    → member key (enqueue_keyed s m ended_by key).0.inflight ≡ true
unfolding enqueue_keyed
enqueue_keyed-member s m ended_by key h = elim (Bool-cases (member key s.inflight)) [
  | inl old ↦ absurd (ground (arith, old))
  | inr new ↦ by_done ended_by h new
]
  where
    by_done :
        (ended_by : Option RequestError)
        → (enqueue_keyed s m ended_by key).1 ≡ none
        → member key s.inflight ≡ false
        → member key (enqueue_keyed s m ended_by key).0.inflight ≡ true
    by_done (some e) h new = absurd (ground arith)
    by_done none h new = elim (Bool-cases (ltb (length s.queue) s.max_queued)) [
      | inl room ↦ rw (new, room) (member_self key s.inflight)
      | inr full ↦ absurd (ground arith)
    ]

already_there :
    (s : Inbound) (m : AnyMessage) (ended_by : Option RequestError) (key : Bytes)
    → member key s.inflight ≡ true
    → enqueue_keyed s m ended_by key ≡ (s, some duplicate_id)
unfolding enqueue_keyed
already_there s m ended_by key h = rw h refl

-- What goes on with the inbound requests: any request is enqueued, the worker takes the first of
-- the queue, and any request but the one with `key` is removed.
pub data StepBut (json : IdCodec) (key : Bytes) (s : Inbound) : Inbound → Type 0 where
  enqueues :
      (m : AnyMessage) (ended_by : Option RequestError) (raw : Bytes)
      → StepBut json key s (enqueue_request json s m ended_by raw).0
  takes :
      (first : Bytes × AnyMessage) (rest : List (Bytes × AnyMessage))
      → s.queue ≡ first ∷ rest
      → StepBut json key s (record s { queue = rest })
  removes : (j : Bytes) → equal j key ≡ false → StepBut json key s (remove_inflight s j)

pub data ReachBut (json : IdCodec) (key : Bytes) (s : Inbound) : Inbound → Type 0 where
  still : ReachBut json key s s
  then_step : {t u : Inbound} → ReachBut json key s t → StepBut json key t u → ReachBut json key s u

member-remove :
    (j k : Bytes) (ks : List Bytes)
    → equal j k ≡ false
    → member k ks ≡ true
    → member k (remove j ks) ≡ true
unfolding member remove
member-remove j k [] ne h = h
member-remove j k (x ∷ ks) ne h =
    ground (arith, equal_iff x j, equal_iff x k, equal_iff j k, member-remove j k ks ne)

with_key-keeps :
    (s : Inbound) (m : AnyMessage) (ended_by : Option RequestError) (k : Result IdError Bytes)
    (key : Bytes)
    → member key s.inflight ≡ true
    → member key (with_key s m ended_by k).0.inflight ≡ true
unfolding enqueue_keyed member
with_key-keeps s m ended_by (err e) key h = h
with_key-keeps s m (some e) (ok j) key h = ground arith
with_key-keeps s m none (ok j) key h = ground arith

StepBut-member :
    (json : IdCodec) (key : Bytes) {s t : Inbound}
    → StepBut json key s t
    → member key s.inflight ≡ true
    → member key t.inflight ≡ true
unfolding enqueue_request
StepBut-member json key {s} (enqueues m ended_by raw) h =
    with_key-keeps s m ended_by (canonical_id_key json raw) key h
StepBut-member json key (takes first rest q) h = h
StepBut-member json key {s} (removes j ne) h = member-remove j key s.inflight ne h

ReachBut-member :
    (json : IdCodec) (key : Bytes) {s t : Inbound}
    → member key s.inflight ≡ true
    → ReachBut json key s t
    → member key t.inflight ≡ true
ReachBut-member json key h still = h
ReachBut-member json key h (then_step r st) =
    StepBut-member json key st (ReachBut-member json key h r)

enqueue_request-member :
    (json : IdCodec) (s : Inbound) (m : AnyMessage) (ended_by : Option RequestError) (raw : Bytes)
    {key : Bytes}
    → (enqueue_request json s m ended_by raw).1 ≡ none
    → canonical_id_key json raw ≡ ok key
    → member key (enqueue_request json s m ended_by raw).0.inflight ≡ true
unfolding enqueue_request
enqueue_request-member json s m ended_by raw {key} h e =
    let accepted = ap (λ k. (with_key s m ended_by k).1) (sym e) ∙ h in
    subst (λ k. member key (with_key s m ended_by k).0.inflight ≡ true) (sym e)
      (enqueue_keyed-member s m ended_by key accepted)

-- Once a request was accepted, and whatever other requests are enqueued, taken from the queue and
-- removed from then on, a request with the same id, however the id is written, is refused as a
-- duplicate and changes nothing, as long as the first is not removed.
pub enqueue_request-duplicate :
    (json : IdCodec) (s : Inbound) {t : Inbound} (m m' : AnyMessage)
    (ended_by ended' : Option RequestError) (raw raw' : Bytes) {key : Bytes}
    → (enqueue_request json s m ended_by raw).1 ≡ none
    → canonical_id_key json raw ≡ ok key
    → canonical_id_key json raw' ≡ ok key
    → ReachBut json key (enqueue_request json s m ended_by raw).0 t
    → enqueue_request json t m' ended' raw' ≡ (t, some duplicate_id)
unfolding enqueue_request
enqueue_request-duplicate json s {t} m m' ended_by ended' raw raw' {key} h e e' r =
    ap (with_key t m' ended') e'
    ∙ already_there t m' ended' key
        (ReachBut-member json key (enqueue_request-member json s m ended_by raw h e) r)

cancel_known :
    (json : IdCodec) (decode : Bytes → Option Bytes) (s : Inbound) (c : AnyMessage) (raw : Bytes)
    {key : Bytes}
    → decode c.params ≡ some raw
    → canonical_id_key json raw ≡ ok key
    → member key s.inflight ≡ true
    → handle_cancel_request json decode s c ≡ some key
unfolding handle_cancel_request
cancel_known json decode s c raw d e h = rw (d, handle_cancel_request) (rw (e, h) refl)

-- Once a request was accepted, and whatever other requests are enqueued, taken from the queue and
-- removed from then on, a cancellation with its id, however the id is written, finds it, as long as
-- it is not removed.
pub enqueue_request-cancel :
    (json : IdCodec) (decode : Bytes → Option Bytes) (s : Inbound) {t : Inbound} (m c : AnyMessage)
    (ended_by : Option RequestError) (raw raw' : Bytes) {key : Bytes}
    → (enqueue_request json s m ended_by raw).1 ≡ none
    → canonical_id_key json raw ≡ ok key
    → canonical_id_key json raw' ≡ ok key
    → decode c.params ≡ some raw'
    → ReachBut json key (enqueue_request json s m ended_by raw).0 t
    → handle_cancel_request json decode t c ≡ some key
enqueue_request-cancel json decode s {t} m c ended_by raw raw' {key} h e e' d r =
    cancel_known json decode t c raw' d e'
      (ReachBut-member json key (enqueue_request-member json s m ended_by raw h e) r)
