-- ===== src/Connection/Inbound.antt =====
-- connection.go: where an inbound message goes, and the queue of inbound requests with the
-- ids in flight.
pub mod Inflight
use acp_go_sdk.Base.{
  ℕ, ◌+◌, Bool, true, false, not, ◌&&◌, ◌||◌, ◌≡◌, refl, sym, ap, ◌∙◌, inl, inr, List, [], ◌∷◌,
  ◌++◌, Option, none, some, length, ltb, if◌then◌else◌, Bool-cases, arith,
}
use acp_go_sdk.Bytes.{Bytes, codes, equal, equal_iff}
use acp_go_sdk.Frame.{
  TransportFrame, BatchEntry, kind_single, kind_batch, kind_malformed, unknown_kind,
}
use acp_go_sdk.Error.{
  no_data, new_parse_error, RequestError, entry, new_invalid_request, new_server_overloaded,
}
use acp_go_sdk.Message.{AnyMessage, is_some}
use acp_go_sdk.Result.{Result, ok, err}
use acp_go_sdk.Json.{IdCodec}
use acp_go_sdk.RequestId.{canonical_id_key}
use acp_go_sdk.RequestId.Scan.{IdError}

-- dispatchMessage: what is done with a message.
pub data Route : Type 0 where
  invalid cancellation response request notification : Route

unfoldable pub route : AnyMessage → Route
route m =
    let named = not (equal m.method []) in
    if not (equal m.jsonrpc (codes "2.0"))
    then invalid
    else if not (is_some m.id) && equal m.method (codes "$/cancel_request")
    then cancellation
    else if is_some m.id && not named
    then response
    else if named && is_some m.id
    then request
    else if named
    then notification
    else invalid

-- The requests in the queue with their keys, and the keys in flight.
pub record Inbound : Type 0 where
  pub max_queued : ℕ
  pub queue : List (Bytes × AnyMessage)
  pub inflight : List Bytes

unfoldable pub member : Bytes → List Bytes → Bool
member k [] = false
member k (j ∷ js) = equal j k || member k js

unfoldable pub remove : Bytes → List Bytes → List Bytes
remove k [] = []
remove k (j ∷ js) = if equal j k then remove k js else j ∷ remove k js

-- enqueueRequest, for an id with a key; `ended_by` is the error of a connection that has ended, where
-- the select takes that case. The error is the one of the response that is written at once. A key
-- that is put in flight and taken out again leaves the state as it was.
unfoldable pub enqueue_keyed :
    Inbound → AnyMessage → Option RequestError → Bytes → Inbound × Option RequestError
enqueue_keyed s m ended_by key =
    if member key s.inflight
    then (s, some (new_invalid_request (entry (codes "error") (codes "duplicate request id"))))
    else elim ended_by [
      | some e ↦ (s, some e)
      | none ↦
          if ltb (length s.queue) s.max_queued
          then (record s { inflight = key ∷ s.inflight; queue = s.queue ++ (key, m) ∷ [] }, none)
          else (
            s,
            some (
                new_server_overloaded
                  (entry (codes "error") (codes "acp: inbound request queue full"))),
          )
    ]

abbrev pub with_key :
    Inbound
    → AnyMessage
    → Option RequestError
    → Result IdError Bytes
    → Inbound × Option RequestError
with_key s m ended_by (ok key) = enqueue_keyed s m ended_by key
with_key s m ended_by (err e) =
    (s, some (new_invalid_request (entry (codes "error") (codes "invalid request id"))))

-- enqueueRequest, for a message with the id `raw`.
unfoldable pub enqueue_request :
    IdCodec → Inbound → AnyMessage → Option RequestError → Bytes → Inbound × Option RequestError
enqueue_request json s m ended_by raw = with_key s m ended_by (canonical_id_key json raw)

-- removeInflight.
abbrev pub remove_inflight : Inbound → Bytes → Inbound
remove_inflight s key = record s { inflight = remove key s.inflight }

-- handleCancelRequest: the key of the request in flight that is cancelled, if any; `decode` is
-- json.Unmarshal of the parameters, which gives the raw request id.
abbrev pub key_in_flight : Inbound → Result IdError Bytes → Option Bytes
key_in_flight s (err e) = none
key_in_flight s (ok key) = if member key s.inflight then some key else none

unfoldable pub handle_cancel_request :
    IdCodec → (Bytes → Option Bytes) → Inbound → AnyMessage → Option Bytes
handle_cancel_request json decode s m = elim (decode m.params) [
  | none ↦ none
  | some raw ↦ key_in_flight s (canonical_id_key json raw)
]

-- dispatchFrame: an error that is sent with a null id, a message, or the entries of a batch.
pub data FrameAction : Type 0 where
  sends_error : RequestError → FrameAction
  takes_message : AnyMessage → FrameAction
  takes_batch : List BatchEntry → FrameAction

unfoldable pub dispatch_frame : TransportFrame → FrameAction
dispatch_frame f = elim f.kind [
  | kind_malformed ↦ elim f.error [
    | some e ↦ sends_error e
    | none ↦ sends_error (new_parse_error no_data)
  ]
  | kind_single ↦ takes_message f.single
  | kind_batch ↦ takes_batch f.entries
  | unknown_kind ↦ sends_error (new_invalid_request no_data)
]
