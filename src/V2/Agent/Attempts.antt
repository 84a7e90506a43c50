-- ===== src/V2/Agent/Attempts.antt =====
-- What the messages of an agent do to the handshake.
use acp_go_sdk.Base.{
  ℕ, ◌≡◌, refl, sym, subst, Bool, true, false, List, [], ◌∷◌, Option, none, some, if◌then◌else◌,
  arith,
}
use acp_go_sdk.Bytes.{Bytes, codes, equal}
use acp_go_sdk.Error.{RequestError}
use acp_go_sdk.Result.{Result, ok, err, ◌>>=◌}
use acp_go_sdk.V2.Initialization.{
  Initialization, InboundInfo, inbound_request, begin, finish, route, validate_request_id,
}
use acp_go_sdk.V2.Handshake.{v2, Call, begins, finishes, receives, Endpoint, call, run}
use acp_go_sdk.V2.Fields.{InitializeCodec}
use acp_go_sdk.V2.Dispatch.{Handlers, require_inbound_kind, admit_message, Invocation}
use acp_go_sdk.V2.Dispatch.Surfaces.{agent_surface}
use acp_go_sdk.V2.Agent.{
  InitializeTypes, unless_refused, requested_version, unless_failed, read_request, start_attempt,
  start_initialize, initialize, agent_handle, initializing_call, initialize_if, AgentCall, fails,
  initializes, invokes, method_call,
}
use acp_go_sdk.V2.Agent.Agreement.{requested_version-ok}

begin_refused :
    (s : Initialization) (selected : ℕ) {e : RequestError}
    → (begin s selected).1 ≡ some e
    → (begin s selected).0.initializing ≡ s.initializing
unfolding begin
begin_refused s selected h = ground arith

begin_accepted :
    (s : Initialization) (selected : ℕ)
    → (begin s selected).1 ≡ none
    → ((begin s selected).0.initializing ≡ true) × (s.initializing ≡ false)
unfolding begin
begin_accepted s selected h = ground arith

route_initializing :
    (s : Initialization) (info : Option InboundInfo)
    → (route s info).0.initializing ≡ s.initializing
unfolding route
route_initializing s info = refl

module _ (types : InitializeTypes) where
  -- Whether an attempt is under way after a message, by what the message came to.
  abbrev pub is_under_way : {agent : Handlers agent_surface} → Bool → AgentCall types agent → Bool
  is_under_way before (fails e) = before
  is_under_way before (initializes v r) = true
  is_under_way before (invokes i) = before

  -- A property of what a message comes to that the pieces of the handler keep.
  by_piece :
      {agent : Handlers agent_surface} (P : Initialization × AgentCall types agent → Type 0)
      (s : Initialization)
      → ((e : RequestError) → P (s, fails e))
      → (refusal : Option RequestError) (named : Bool) (kind : Result RequestError (Unit {0}))
        {attempt other : Initialization × AgentCall types agent}
      → P attempt
      → P other
      → P (
          unless_refused types s refusal
            (if named then initialize_if types s kind attempt else other))
  by_piece P s failing (some e) named kind p q = failing e
  by_piece P s failing none true (ok u) p q = p
  by_piece P s failing none true (err e) p q = failing e
  by_piece P s failing none false kind p q = q

  -- The same of an attempt, which comes from begin.
  by_attempt :
      {agent : Handlers agent_surface} (P : Initialization × AgentCall types agent → Type 0)
      (json : InitializeCodec) (checked s : Initialization) (params : Bytes)
      → ((e : RequestError) → P (s, fails e))
      → ((e : RequestError) → (begin s 2).1 ≡ some e → P ((begin s 2).0, fails e))
      → ((e : RequestError) → (begin s 2).1 ≡ none → P (finish (begin s 2).0 2 (some e), fails e))
      → ((r : types.Request) → (begin s 2).1 ≡ none → P ((begin s 2).0, initializes 2 r))
      → P (initializing_call types (initialize types json checked s params))
  unfolding initialize
  by_attempt P json checked s params failing refused unread reading =
      by_version (requested_version json checked params) refl
    where
      by_read :
          (read : Result RequestError types.Request)
          → (begin s 2).1 ≡ none
          → P (
              initializing_call types (unless_failed (begin s 2).0 2 read, read >>= λ r. ok (2, r)))
      by_read (err e) a = unread e a
      by_read (ok r) a = reading r a

      by_refusal :
          (requested : ℕ) (refusal : Option RequestError)
          → (begin s 2).1 ≡ refusal
          → P (
              initializing_call types
                (start_attempt types json s params requested 2 ((begin s 2).0, refusal)))
      by_refusal requested (some e) a = refused e a
      by_refusal requested none a = by_read (read_request types json params requested 2) a

      by_version :
          (found : Result RequestError (ℕ × ℕ))
          → requested_version json checked params ≡ found
          → P (initializing_call types (start_initialize types json s params found))
      by_version (err e) a = failing e
      by_version (ok (requested, selected)) a =
          let (_, _, is_2) = requested_version-ok json checked params a in
          subst
            (λ x.
              P (
                initializing_call types
                  (start_attempt types json s params requested x (begin s x))))
            (sym is_2) (by_refusal requested (begin s 2).1 refl)

  -- An attempt is under way after a message exactly when the agent's Initialize is called, or when
  -- it was under way before and the message came to something else: an initialize that is refused
  -- or that cannot be read leaves no attempt behind.
  pub agent_handle_under_way :
      (json : InitializeCodec) (agent : Handlers agent_surface) (checked s : Initialization)
      (info : Option InboundInfo) (method params : Bytes)
      → (agent_handle types json agent checked s info method params).0.initializing
        ≡ is_under_way s.initializing (agent_handle types json agent checked s info method params).1
  unfolding agent_handle finish
  agent_handle_under_way json agent checked s info method params =
      by_piece IsKept s (λ e. refl) (validate_request_id json.is_request_id info)
        (equal method (codes "initialize")) (require_inbound_kind info inbound_request method)
        (by_attempt IsKept json checked s params (λ e. refl) (λ e a. begin_refused s 2 a)
          (λ e a. sym (begin_accepted s 2 a).1) (λ r a. (begin_accepted s 2 a).0))
        (routed (admit_message agent json.is_request_id info method params))
    where
      IsKept : Initialization × AgentCall types agent → Type 0
      IsKept x = x.0.initializing ≡ is_under_way s.initializing x.1

      routed :
          (admitted : Result RequestError (Invocation agent))
          → (route s info).0.initializing
            ≡ is_under_way s.initializing (method_call types {agent = agent} admitted)
      routed (ok invocation) = route_initializing s info
      routed (err e) = route_initializing s info

  -- Whatever message arrives, it changes the handshake as a run of the handshake's calls does.
  pub agent_handle-run :
      (json : InitializeCodec) (agent : Handlers agent_surface) (checked : Initialization)
      (c : Endpoint) (info : Option InboundInfo) (method params : Bytes)
      → (ks : List Call) × ((agent_handle types json agent checked c.state info method params).0
          ≡ (run c ks).0.state)
  unfolding agent_handle run call
  agent_handle-run json agent checked c info method params =
      by_piece IsRun c.state (λ e. ([], refl)) (validate_request_id json.is_request_id info)
        (equal method (codes "initialize")) (require_inbound_kind info inbound_request method)
        (by_attempt IsRun json checked c.state params (λ e. ([], refl))
          (λ e a. (begins v2 ∷ [], rw a refl))
          (λ e a. (begins v2 ∷ finishes (some e) ∷ [], rw a refl))
          (λ r a. (begins v2 ∷ [], rw a refl)))
        (receives info ∷ [], refl)
    where
      IsRun : Initialization × AgentCall types agent → Type 0
      IsRun x = (ks : List Call) × (x.0 ≡ (run c ks).0.state)
