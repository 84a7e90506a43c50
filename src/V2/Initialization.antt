-- ===== src/V2/Initialization.antt =====
-- experimental/v2/initialization.go: the state of the handshake, each critical section a function.
use acp_go_sdk.Base.{
  ℕ, Bool, true, false, not, ◌&&◌, ◌||◌, List, Option, none, some, ltb, ◌==◌, if◌then◌else◌,
}
use acp_go_sdk.Base.Int.{negsuc}
use acp_go_sdk.Bytes.{Bytes, codes}
use acp_go_sdk.Error.{RequestError, error_entry, new_invalid_request, versions}

pub data InboundKind : Type 0 where
  inbound_request inbound_notification : InboundKind

-- InboundInfo.
pub record InboundInfo : Type 0 where
  pub kind : InboundKind
  pub request_id : Bytes

abbrev pub is_inbound_request : InboundKind → Bool
is_inbound_request inbound_request = true
is_inbound_request inbound_notification = false

-- `selected` is 0 before a version is selected.
pub record Initialization : Type 0 where
  pub selected : ℕ
  pub initialized : Bool
  pub initializing : Bool
  pub other_request : Bool

abbrev pub no_initialization : Initialization
no_initialization = record {
  selected = 0;
  initialized = false;
  initializing = false;
  other_request = false;
}

abbrev pub not_allowed : RequestError
not_allowed =
    new_invalid_request
      (error_entry (codes "initialize is not allowed in the current connection state"))

-- begin.
unfoldable pub begin : Initialization → ℕ → Initialization × Option RequestError
begin s selected =
    if s.initializing
      || (s.initialized && s.selected == 0)
      || (not (s.selected == 0)
          && (not (s.selected == 2) || not (selected == s.selected) || s.other_request))
    then (s, some not_allowed)
    else (record s { initialized = true; initializing = true }, none)

-- finish.
unfoldable pub finish : Initialization → ℕ → Option RequestError → Initialization
finish s selected (some e) = record s { initializing = false }
finish s selected none = record s { initializing = false; selected = selected }

-- What the context says of the message: a request, or a message of which nothing is known.
abbrev pub may_be_request : Option InboundInfo → Bool
may_be_request none = true
may_be_request (some info) = is_inbound_request info.kind

-- route: the selected version, and whether an attempt is under way.
unfoldable pub route : Initialization → Option InboundInfo → Initialization × ℕ × Bool
route s info = (
  record s {
    other_request = if may_be_request info && s.initialized then true else s.other_request;
  },
  s.selected,
  s.initializing,
)

-- checkRepeatVersion.
unfoldable pub check_repeat_version : Initialization → ℕ → Option RequestError
check_repeat_version s requested =
    if s.selected == 2 && ltb requested 2
    then some (
        new_invalid_request
          (error_entry (codes "a repeated initialize must use the selected protocol version")))
    else none

-- NewUnsupportedProtocolVersion.
abbrev pub new_unsupported_protocol_version : ℕ → List ℕ → RequestError
new_unsupported_protocol_version requested supported = record {
  code = negsuc 32021;
  message = codes "Unsupported protocol version";
  details = versions requested supported;
}

-- validateRequestID; `is_request_id` says whether json.Unmarshal reads the id as a RequestId.
unfoldable pub validate_request_id : (Bytes → Bool) → Option InboundInfo → Option RequestError
validate_request_id is_request_id none = none
validate_request_id is_request_id (some info) =
    if not (is_inbound_request info.kind)
    then none
    else if is_request_id info.request_id
    then none
    else some
        (new_invalid_request (error_entry (codes "ACP v2 requires a string or integer request ID")))
