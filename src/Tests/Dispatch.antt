-- ===== src/Tests/Dispatch.antt =====
-- The two sides of a connection of version 2 at concrete inputs.
use acp_go_sdk.Base.{Bool, ℕ, ◌≡◌, ◌↔◌, refl, true, false, [], Option, none, some}
use acp_go_sdk.Bytes.{trim_with, space_width, last_space_width, Bytes, codes, equal, trim_space}
use acp_go_sdk.Result.{ok}
use acp_go_sdk.V2.Initialization.{
  InboundInfo, Initialization, inbound_request, no_initialization, begin, finish,
  check_repeat_version,
}
use acp_go_sdk.V2.Fields.{InitializeCodec, protocol_version_from_initialize, normalize_initialize}
use acp_go_sdk.V2.Router.{select_protocol_version}
use acp_go_sdk.V2.Dispatch.{Handlers, effective, admit_message}
use acp_go_sdk.V2.Dispatch.Admission.{IsAdmitted}
use acp_go_sdk.V2.Dispatch.Surfaces.{agent_surface, session_prompt, agent_admit_message_iff}
use acp_go_sdk.V2.Agent.{
  InitializeTypes, initialize, requested_version, read_request, end_initialize, accept_response,
  agent_handle, checked_response,
}
use acp_go_sdk.V2.Agent.Agreement.{initialize-accept_response}
use acp_go_sdk.V2.Agent.Attempts.{is_under_way, agent_handle_under_way}

-- An agent that has every method and takes its parameters as bytes.
abbrev agent : Handlers agent_surface
agent = record {
  Params = λ m. Bytes;
  unmarshal = λ m raw. ok raw;
  validate = λ m raw. none;
  offers = λ m. true;
  perform = λ m raw. ok none;
}

abbrev any_id : Bytes → Bool
any_id raw = true

abbrev request : Option InboundInfo
request = some (record { kind = inbound_request; request_id = codes "1" })

agent_admit_message_iff_example :
    (admit_message agent any_id request (codes "session/prompt") (codes "null")
      ≡ ok (session_prompt, codes "{}"))
    ↔ IsAdmitted agent any_id request
        (codes "session/prompt")
        (codes "null")
        session_prompt
        (codes "{}")
agent_admit_message_iff_example =
    agent_admit_message_iff agent any_id request (codes "session/prompt") (codes "null")
      session_prompt (codes "{}")

-- Requests of version 2, and responses that are their version.
abbrev types : InitializeTypes
types = record {
  Request = Bytes;
  unmarshal = λ raw. ok raw;
  validate = λ raw. none;
  Response = ℕ;
  version_of = λ v. v;
}

-- Objects without a field but the version, which is 2.
abbrev json : InitializeCodec
json = record {
  decode_version = λ raw. ok (some 2);
  decode_fields = λ raw. ok [];
  encode_fields = λ fs. ok (codes "{}");
  is_implementation = λ raw. true;
  is_capabilities = λ raw. true;
  is_meta = λ raw. true;
  decode_auth = λ raw. ok none;
  validate_request = λ raw. ok tt;
  is_request_id = any_id;
}

abbrev trying_v2 : Initialization
trying_v2 = record no_initialization { initialized = true; initializing = true }

abbrev selected_v2 : Initialization
selected_v2 = record no_initialization { initialized = true; selected = 2 }

asks_v2 : protocol_version_from_initialize json (codes "{}") ≡ ok 2
unfolding protocol_version_from_initialize
asks_v2 = refl

starts_v2 :
    initialize types json no_initialization no_initialization (codes "{}")
    ≡ (trying_v2, ok (2, codes "{}"))
unfolding initialize requested_version protocol_version_from_initialize check_repeat_version begin
    select_protocol_version read_request normalize_initialize effective equal trim_space trim_with
    space_width last_space_width
starts_v2 = refl

ends_v2 : end_initialize types trying_v2 2 (ok 2) ≡ (selected_v2, ok 2)
unfolding end_initialize checked_response finish
ends_v2 = refl

initialize-accept_response_example : (accept_response types 2 2 ≡ ok 2) × (selected_v2.selected ≡ 2)
initialize-accept_response_example =
    initialize-accept_response types json no_initialization no_initialization (codes "{}") trying_v2
      (ok 2) asks_v2 starts_v2 ends_v2

agent_handle_under_way_example :
    (agent_handle types json agent no_initialization no_initialization request
      (codes "initialize")
      (codes "{}")).0.initializing
    ≡ is_under_way types false
        (agent_handle types json agent no_initialization no_initialization request
          (codes "initialize")
          (codes "{}")).1
agent_handle_under_way_example =
    agent_handle_under_way types json agent no_initialization no_initialization request
      (codes "initialize") (codes "{}")
