-- ===== src/V2/Agent.antt =====
-- experimental/v2: initialize on both sides of a connection of version 2 (initialization.go and
-- conn.go), and the state that the other messages of an agent change.
pub mod Agreement
pub mod Attempts
use acp_go_sdk.Base.{
  ℕ, Bool, true, false, not, ◌||◌, List, [], ◌∷◌, Option, none, some, ltb, leb, ◌==◌, if◌then◌else◌,
}
use acp_go_sdk.Bytes.{Bytes, codes, equal}
use acp_go_sdk.Error.{RequestError, error_entry, new_invalid_params}
use acp_go_sdk.Result.{Result, ok, err, ◌>>=◌, ◌>>◌, guard}
use acp_go_sdk.V2.Initialization.{
  Initialization, InboundInfo, inbound_request, begin, finish, route, check_repeat_version,
  new_unsupported_protocol_version, validate_request_id,
}
use acp_go_sdk.V2.Fields.{InitializeCodec, protocol_version_from_initialize, normalize_initialize}
use acp_go_sdk.V2.Router.{select_protocol_version, refuse_if, invalid_unless}
use acp_go_sdk.V2.Dispatch.{
  Failure, Handlers, effective, decoded_params, require_inbound_kind, reply_of, Invocation,
  admit_message,
}
use acp_go_sdk.V2.Dispatch.Surfaces.{agent_surface}

-- InitializeRequest and InitializeResponse with what the code needs of them.
pub record InitializeTypes : Type 1 where
  pub Request : Type 0
  pub unmarshal : Bytes → Result Bytes Request
  pub validate : Request → Option Bytes
  pub Response : Type 0
  pub version_of : Response → ℕ

-- The version asked for, if the agent can serve it.
abbrev pub selected_or_unsupported : ℕ → Option ℕ → Result RequestError ℕ
selected_or_unsupported requested (some v) = ok v
selected_or_unsupported requested none = err (new_unsupported_protocol_version requested (2 ∷ []))

unfoldable pub requested_version :
    InitializeCodec → Initialization → Bytes → Result RequestError (ℕ × ℕ)
requested_version json checked params = do
  requested ← invalid_unless (protocol_version_from_initialize json params)
  refuse_if (check_repeat_version checked requested)
  selected ← selected_or_unsupported requested (select_protocol_version requested)
  ok (requested, selected)

-- The deferred finish: an attempt that fails ends at once.
abbrev pub unless_failed :
    {A : Type 0} → Initialization → ℕ → Result RequestError A → Initialization
unless_failed s selected (ok a) = s
unless_failed s selected (err e) = finish s selected (some e)

-- What finish is given.
abbrev pub error_of : {A : Type 0} → Result RequestError A → Option RequestError
error_of (ok a) = none
error_of (err e) = some e

module _ (types : InitializeTypes) where
  unfoldable pub read_request : InitializeCodec → Bytes → ℕ → ℕ → Result RequestError types.Request
  read_request json params requested selected = do
    normal ← invalid_unless (normalize_initialize json params requested selected)
    decoded_params types.validate (types.unmarshal (effective normal))

  -- From begin to the agent's Initialize.
  abbrev pub start_attempt :
      InitializeCodec
      → Initialization
      → Bytes
      → ℕ
      → ℕ
      → Initialization × Option RequestError
      → Initialization × Result RequestError (ℕ × types.Request)
  start_attempt json s params requested selected (begun, some e) = (begun, err e)
  start_attempt json s params requested selected (begun, none) =
      let request = read_request json params requested selected in
      (unless_failed begun selected request, request >>= λ r. ok (selected, r))

  abbrev pub start_initialize :
      InitializeCodec
      → Initialization
      → Bytes
      → Result RequestError (ℕ × ℕ)
      → Initialization × Result RequestError (ℕ × types.Request)
  start_initialize json s params (err e) = (s, err e)
  start_initialize json s params (ok (requested, selected)) =
      start_attempt json s params requested selected (begin s selected)

  -- AgentSideConnection.initialize, up to the call of the agent's Initialize. The state may have
  -- changed between checkRepeatVersion, which sees `checked`, and begin.
  unfoldable pub initialize :
      InitializeCodec
      → (checked s : Initialization) → Bytes
      → Initialization × Result RequestError (ℕ × types.Request)
  initialize json checked s params =
      start_initialize json s params (requested_version json checked params)

  -- What the agent's Initialize returned, as it is sent.
  unfoldable pub checked_response :
      ℕ → Result Failure types.Response → Result RequestError types.Response
  checked_response selected returned = do
    response ← reply_of returned
    guard (types.version_of response == selected)
        (new_invalid_params (error_entry (codes "agent returned a different protocol version")))
    ok response

  -- AgentSideConnection.initialize, after that call.
  unfoldable pub end_initialize :
      Initialization
      → ℕ
      → Result Failure types.Response
      → Initialization × Result RequestError types.Response
  end_initialize s selected returned =
      let response = checked_response selected returned in
      (finish s selected (error_of response), response)

  -- ClientSideConnection.Initialize, once the response has arrived; the error's second entry, the
  -- version of the response, is left out.
  unfoldable pub accept_response :
      (requested : ℕ) → types.Response → Result RequestError types.Response
  accept_response requested response =
      if not (types.version_of response == 2) || ltb requested (types.version_of response)
      then err (
          new_invalid_params (error_entry (codes "agent selected an unsupported protocol version")))
      else ok response

  -- What AgentSideConnection.handle comes to: a call of the agent's Initialize, or of a method.
  pub data AgentCall (agent : Handlers agent_surface) : Type 0 where
    fails : RequestError → AgentCall agent
    initializes : ℕ → types.Request → AgentCall agent
    invokes : Invocation agent → AgentCall agent

  abbrev pub initializing_call :
      {agent : Handlers agent_surface}
      → Initialization × Result RequestError (ℕ × types.Request)
      → Initialization × AgentCall agent
  initializing_call (s, err e) = (s, fails e)
  initializing_call (s, ok (selected, r)) = (s, initializes selected r)

  abbrev pub method_call :
      {agent : Handlers agent_surface} → Result RequestError (Invocation agent) → AgentCall agent
  method_call (err e) = fails e
  method_call (ok invocation) = invokes invocation

  abbrev pub initialize_if :
      {agent : Handlers agent_surface}
      → Initialization
      → Result RequestError (Unit {0})
      → Initialization × AgentCall agent
      → Initialization × AgentCall agent
  initialize_if s (err e) attempt = (s, fails e)
  initialize_if s (ok _) attempt = attempt

  abbrev pub unless_refused :
      {agent : Handlers agent_surface}
      → Initialization
      → Option RequestError
      → Initialization × AgentCall agent
      → Initialization × AgentCall agent
  unless_refused s (some e) rest = (s, fails e)
  unless_refused s none rest = rest

  -- AgentSideConnection.handle.
  unfoldable pub agent_handle :
      InitializeCodec
      → (agent : Handlers agent_surface) → (checked s : Initialization) → Option InboundInfo
      → (method params : Bytes) → Initialization × AgentCall agent
  agent_handle json agent checked s info method params =
      unless_refused s (validate_request_id json.is_request_id info) (
        if equal method (codes "initialize")
        then initialize_if s (require_inbound_kind info inbound_request method)
            (initializing_call (initialize json checked s params))
        else (
          (route s info).0,
          method_call (admit_message agent json.is_request_id info method params),
        ))
