-- ===== src/Frame.antt =====
-- frame.go: one JSON-RPC transport value, a single message, a batch, or what is neither.
pub mod Relay
use acp_go_sdk.Base.{
  ℕ, zero, suc, Bool, true, false, not, ◌&&◌, ◌||◌, List, [], ◌∷◌, ◌++◌, map, reverse, Option, none,
  some, length, ◌==◌, if◌then◌else◌,
}
use acp_go_sdk.Bytes.{Bytes, codes, equal, trim_space}
use acp_go_sdk.Error.{RequestError, no_data, new_parse_error, new_invalid_request}
use acp_go_sdk.Message.{AnyMessage, no_message, Json, lookup, is_some, unmarshal_message}
use acp_go_sdk.Result.{Result, ok, err}

-- `unknown_kind` stands for the values of the uint8 that have no name.
pub data FrameKind : Type 0 where
  kind_single kind_batch kind_malformed unknown_kind : FrameKind

pub record BatchEntry : Type 0 where
  pub raw : Bytes
  pub msg : AnyMessage
  pub is_ok : Bool
  pub error : Option RequestError

pub record TransportFrame : Type 0 where
  pub raw : Bytes
  pub kind : FrameKind
  pub single : AnyMessage
  pub entries : List BatchEntry
  pub error : Option RequestError

abbrev pub malformed : Bytes → RequestError → TransportFrame
malformed raw e = record {
  raw = raw;
  kind = kind_malformed;
  single = no_message;
  entries = [];
  error = some e;
}

unfoldable pub refused_entry : Bytes → BatchEntry
refused_entry raw = record {
  raw = raw;
  msg = no_message;
  is_ok = false;
  error = some (new_invalid_request no_data);
}

unfoldable pub decoded_entry : Bytes → Option AnyMessage → BatchEntry
decoded_entry raw none = refused_entry raw
decoded_entry raw (some m) = record { raw = raw; msg = m; is_ok = true; error = none }

unfoldable pub trimmed_entry : Json → Bytes → BatchEntry
trimmed_entry json [] = refused_entry []
trimmed_entry json (c ∷ cs) =
    if c == b'{'
    then decoded_entry (c ∷ cs) (unmarshal_message json (c ∷ cs))
    else refused_entry (c ∷ cs)

unfoldable pub parse_batch_entry : Json → Bytes → BatchEntry
parse_batch_entry json raw = trimmed_entry json (trim_space raw)

unfoldable pub decoded_single : Bytes → Option AnyMessage → TransportFrame
decoded_single raw none = malformed raw (new_parse_error no_data)
decoded_single raw (some m) = record {
  raw = raw;
  kind = kind_single;
  single = m;
  entries = [];
  error = none;
}

unfoldable pub decoded_batch : Json → Bytes → Option (List Bytes) → TransportFrame
decoded_batch json raw none = malformed raw (new_parse_error no_data)
decoded_batch json raw (some []) = malformed raw (new_invalid_request no_data)
decoded_batch json raw (some (e ∷ es)) = record {
  raw = raw;
  kind = kind_batch;
  single = no_message;
  entries = map (parse_batch_entry json) (e ∷ es);
  error = none;
}

unfoldable pub trimmed_frame : Json → Bytes → TransportFrame
trimmed_frame json [] = malformed [] (new_parse_error no_data)
trimmed_frame json (c ∷ cs) =
    if not (json.valid (c ∷ cs))
    then malformed (c ∷ cs) (new_parse_error no_data)
    else if c == b'{'
    then decoded_single (c ∷ cs) (unmarshal_message json (c ∷ cs))
    else if c == b'['
    then decoded_batch json (c ∷ cs) (json.decode_elements (c ∷ cs))
    else malformed (c ∷ cs) (new_invalid_request no_data)

unfoldable pub parse_transport_frame : Json → Bytes → TransportFrame
parse_transport_frame json raw = trimmed_frame json (trim_space raw)

pub data FrameError : Type 0 where
  empty_frame : FrameError

unfoldable pub ends_in_newline : Bytes → Bool
ends_in_newline [] = false
ends_in_newline (c ∷ []) = c == b'\n'
ends_in_newline (c ∷ d ∷ cs) = ends_in_newline (d ∷ cs)

-- TransportFrame.Encode, on the field Raw.
unfoldable pub encode_raw : Bytes → Result FrameError Bytes
encode_raw [] = err empty_frame
encode_raw (c ∷ cs) = if ends_in_newline (c ∷ cs) then ok (c ∷ cs) else ok ((c ∷ cs) ++ b'\n' ∷ [])

unfoldable pub encode : TransportFrame → Result FrameError Bytes
encode f = encode_raw f.raw

abbrev pub entry_count : TransportFrame → ℕ
entry_count f = elim f.kind [ kind_single ↦ 1 | kind_batch ↦ length f.entries | _ ↦ 0 ]

unfoldable pub request_id_from_raw : Json → Bytes → Option Bytes
unfolding lookup equal
request_id_from_raw json raw = elim (json.decode_fields raw) [
  | none ↦ none
  | some fields ↦ lookup (codes "id") fields
]

unfoldable pub is_response_only_raw : Json → Bytes → Bool
unfolding lookup equal
is_response_only_raw json raw = elim (json.decode_fields raw) [
  | none ↦ false
  | some fields ↦
      not (is_some (lookup (codes "method") fields))
      && (is_some (lookup (codes "result") fields) || is_some (lookup (codes "error") fields))
]

abbrev pub is_empty : Bytes → Bool
is_empty [] = true
is_empty (c ∷ cs) = false

abbrev pub is_version_2 : AnyMessage → Bool
is_version_2 m = equal m.jsonrpc (codes "2.0")

unfoldable pub needs_reply : Json → BatchEntry → Bool
needs_reply json e =
    if not e.is_ok
    then not (is_response_only_raw json e.raw)
    else if not (is_version_2 e.msg)
    then not (is_response_only_raw json e.raw)
    else if is_some e.msg.id && is_empty e.msg.method
    then false
    else if not (is_empty e.msg.method) && is_some e.msg.id
    then true
    else if not (is_empty e.msg.method)
    then false
    else true

abbrev pub json_rpc_id_or_null : Option Bytes → Bytes
json_rpc_id_or_null (some id) = id
json_rpc_id_or_null none = codes "null"

unfoldable pub reply_id : Json → BatchEntry → Bytes
reply_id json e = elim e.msg.id [
  | none ↦ json_rpc_id_or_null (request_id_from_raw json e.raw)
  | some id ↦ if e.is_ok then id else json_rpc_id_or_null (request_id_from_raw json e.raw)
]
