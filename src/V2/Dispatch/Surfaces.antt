-- ===== src/V2/Dispatch/Surfaces.antt =====
-- experimental/v2/conn.go, AgentSideConnection.handle and ClientSideConnection.handle: the cases of
-- the two switches, and which messages reach a method. initialize is in Agent.
use acp_go_sdk.Base.{Bool, ◌≡◌, ◌↔◌, refl, [], ◌∷◌, Option, some}
use acp_go_sdk.Bytes.{Bytes, codes, equal}
use acp_go_sdk.Result.{ok}
use acp_go_sdk.V2.Initialization.{InboundKind, InboundInfo, inbound_request, inbound_notification}
use acp_go_sdk.V2.Dispatch.{
  Arm, mandatory, looked_up, looked_up_late, Surface, Handlers, find_method, admit_message,
}
use acp_go_sdk.V2.Dispatch.Admission.{
  IsAdmitted, admit_message-IsAdmitted, IsAdmitted-admit_message,
}

-- The cases of the agent after initialize.
pub data AgentMethod : Type 0 where
  session_new session_prompt tool_call_cancel terminal_cancel session_cancel session_resume :
      AgentMethod
  session_list session_close session_delete auth_login auth_logout set_config_option : AgentMethod

abbrev pub agent_method_name : AgentMethod → Bytes
agent_method_name session_new = codes "session/new"
agent_method_name session_prompt = codes "session/prompt"
agent_method_name tool_call_cancel = codes "tool_call/cancel"
agent_method_name terminal_cancel = codes "terminal/cancel"
agent_method_name session_cancel = codes "session/cancel"
agent_method_name session_resume = codes "session/resume"
agent_method_name session_list = codes "session/list"
agent_method_name session_close = codes "session/close"
agent_method_name session_delete = codes "session/delete"
agent_method_name auth_login = codes "auth/login"
agent_method_name auth_logout = codes "auth/logout"
agent_method_name set_config_option = codes "session/set_config_option"

abbrev pub agent_method_kind : AgentMethod → InboundKind
agent_method_kind session_cancel = inbound_notification
agent_method_kind _ = inbound_request

abbrev pub agent_method_arm : AgentMethod → Arm
agent_method_arm tool_call_cancel = looked_up_late
agent_method_arm terminal_cancel = looked_up_late
agent_method_arm session_resume = looked_up
agent_method_arm session_list = looked_up
agent_method_arm session_close = looked_up
agent_method_arm session_delete = looked_up
agent_method_arm set_config_option = looked_up
agent_method_arm _ = mandatory

abbrev pub agent_surface : Surface
agent_surface = record {
  Method = AgentMethod;
  methods =
      session_new ∷ session_prompt ∷ tool_call_cancel ∷ terminal_cancel ∷ session_cancel
      ∷ session_resume ∷ session_list ∷ session_close ∷ session_delete ∷ auth_login ∷ auth_logout
      ∷ set_config_option ∷ [];
  wire_name = agent_method_name;
  kind = agent_method_kind;
  arm = agent_method_arm;
}

pub data ClientMethod : Type 0 where
  session_update request_permission elicitation_create elicitation_complete : ClientMethod

abbrev pub client_method_name : ClientMethod → Bytes
client_method_name session_update = codes "session/update"
client_method_name request_permission = codes "session/request_permission"
client_method_name elicitation_create = codes "elicitation/create"
client_method_name elicitation_complete = codes "elicitation/complete"

abbrev pub client_method_kind : ClientMethod → InboundKind
client_method_kind session_update = inbound_notification
client_method_kind request_permission = inbound_request
client_method_kind elicitation_create = inbound_request
client_method_kind elicitation_complete = inbound_notification

abbrev pub client_method_arm : ClientMethod → Arm
client_method_arm session_update = mandatory
client_method_arm request_permission = mandatory
client_method_arm elicitation_create = looked_up
client_method_arm elicitation_complete = looked_up

abbrev pub client_surface : Surface
client_surface = record {
  Method = ClientMethod;
  methods = session_update ∷ request_permission ∷ elicitation_create ∷ elicitation_complete ∷ [];
  wire_name = client_method_name;
  kind = client_method_kind;
  arm = client_method_arm;
}

agent_method-found :
    (m : AgentMethod)
    → find_method agent_surface agent_surface.methods (agent_method_name m) ≡ some m
unfolding find_method equal
agent_method-found session_new = refl
agent_method-found session_prompt = refl
agent_method-found tool_call_cancel = refl
agent_method-found terminal_cancel = refl
agent_method-found session_cancel = refl
agent_method-found session_resume = refl
agent_method-found session_list = refl
agent_method-found session_close = refl
agent_method-found session_delete = refl
agent_method-found auth_login = refl
agent_method-found auth_logout = refl
agent_method-found set_config_option = refl

client_method-found :
    (m : ClientMethod)
    → find_method client_surface client_surface.methods (client_method_name m) ≡ some m
unfolding find_method equal
client_method-found session_update = refl
client_method-found request_permission = refl
client_method-found elicitation_create = refl
client_method-found elicitation_complete = refl

-- A message calls a method of the agent exactly when it has the name and the kind of that method
-- and, if it is a request, an id that version 2 allows, the agent has the method, and the
-- parameters are read as valid ones; the method is called with what was read.
pub agent_admit_message_iff :
    (agent : Handlers agent_surface) (is_request_id : Bytes → Bool) (info : Option InboundInfo)
    (method params : Bytes) (m : AgentMethod) (value : agent.Params m)
    → (admit_message agent is_request_id info method params ≡ ok (m, value))
      ↔ IsAdmitted agent is_request_id info method params m value
agent_admit_message_iff agent is_request_id info method params m value = (
  admit_message-IsAdmitted agent is_request_id info method params m value,
  IsAdmitted-admit_message agent is_request_id info method params m value (agent_method-found m),
)

-- The same of the methods of the client.
pub client_admit_message_iff :
    (client : Handlers client_surface) (is_request_id : Bytes → Bool) (info : Option InboundInfo)
    (method params : Bytes) (m : ClientMethod) (value : client.Params m)
    → (admit_message client is_request_id info method params ≡ ok (m, value))
      ↔ IsAdmitted client is_request_id info method params m value
client_admit_message_iff client is_request_id info method params m value = (
  admit_message-IsAdmitted client is_request_id info method params m value,
  IsAdmitted-admit_message client is_request_id info method params m value (client_method-found m),
)
