-- ===== src/V2/Agent/Agreement.antt =====
-- initialize, from the agent's side to the client's.
use acp_go_sdk.Base.{
  ℕ, ◌≤◌, ◌≡◌, inl, inr, refl, sym, ap, subst, ◌∙◌, false, Option, none, some, ltb, leb, ◌==◌,
  arith, Bool-cases,
}
use acp_go_sdk.Bytes.{Bytes}
use acp_go_sdk.Error.{RequestError}
use acp_go_sdk.Result.{guard-ok, Result, ok, err, ◌>>=◌, guard, >>=-eq-ok, ok-injective}
use acp_go_sdk.V2.Initialization.{Initialization, begin, finish, check_repeat_version}
use acp_go_sdk.V2.Fields.{InitializeCodec, protocol_version_from_initialize}
use acp_go_sdk.V2.Router.{select_protocol_version, refuse_if, invalid_unless, invalid_unless-ok}
use acp_go_sdk.V2.Dispatch.{Failure, reply_of}
use acp_go_sdk.V2.Agent.{
  InitializeTypes, selected_or_unsupported, requested_version, unless_failed, read_request,
  start_attempt, start_initialize, initialize, checked_response, end_initialize, accept_response,
}

selected_or_unsupported-ok :
    (requested : ℕ) {selected : ℕ}
    → selected_or_unsupported requested (select_protocol_version requested) ≡ ok selected
    → (2 ≤ requested) × (selected ≡ 2)
unfolding select_protocol_version
selected_or_unsupported-ok requested h = elim (Bool-cases (leb 2 requested)) [
  | inl high ↦ (ground arith, sym (ok-injective refl (rw high at h)))
  | inr low ↦ absurd (ground arith)
]

pub requested_version-ok :
    (json : InitializeCodec) (checked : Initialization) (params : Bytes) {requested selected : ℕ}
    → requested_version json checked params ≡ ok (requested, selected)
    → (protocol_version_from_initialize json params ≡ ok requested)
      × (2 ≤ requested)
      × (selected ≡ 2)
unfolding requested_version
requested_version-ok json checked params h =
    let (r, read, h1) =
      >>=-eq-ok (invalid_unless (protocol_version_from_initialize json params)) _ h in
    let (_, _, h2) = >>=-eq-ok (refuse_if (check_repeat_version checked r)) _ h1 in
    let (v, chosen, h3) = >>=-eq-ok (selected_or_unsupported r (select_protocol_version r)) _ h2 in
    let (high, is_2) = selected_or_unsupported-ok r chosen in
    subst (λ x. (protocol_version_from_initialize json params ≡ ok x.0) × (2 ≤ x.0) × (x.1 ≡ 2))
      (ok-injective refl h3) (invalid_unless-ok _ read, high, is_2)

module _ (types : InitializeTypes) where
  -- What a call of the agent's Initialize stands on.
  pub record IsStarted (json : InitializeCodec) (s : Initialization) (params : Bytes)
      (s' : Initialization) (selected : ℕ) (request : types.Request) : Type 0 where
    pub requested : ℕ
    pub was_requested : protocol_version_from_initialize json params ≡ ok requested
    pub is_high : 2 ≤ requested
    pub is_2 : selected ≡ 2
    pub was_begun : begin s 2 ≡ (s', none)
    pub was_read : read_request types json params requested 2 ≡ ok request

  start_attempt-ok :
      (json : InitializeCodec) (s : Initialization) (params : Bytes) (requested selected : ℕ)
      {s' : Initialization} {v : ℕ} {request : types.Request}
      → start_attempt types json s params requested selected (begin s selected)
        ≡ (s', ok (v, request))
      → (begin s selected ≡ (s', none))
        × (v ≡ selected)
        × (read_request types json params requested selected ≡ ok request)
  start_attempt-ok json s params requested selected {s'} {v} {request} h =
      by_refusal (begin s selected).1 refl h
    where
      by_read :
          (read : Result RequestError types.Request)
          → read_request types json params requested selected ≡ read
          → (begin s selected).1 ≡ none
          → ◌≡◌ {A = Initialization × Result RequestError (ℕ × types.Request)}
              (unless_failed (begin s selected).0 selected read, read >>= λ r. ok (selected, r))
              (s', ok (v, request))
          → (begin s selected ≡ (s', none))
            × (v ≡ selected)
            × (read_request types json params requested selected ≡ ok request)
      by_read (err e) at accepted k = absurd cc
      by_read (ok r) at accepted k =
          let same = ok-injective {A = ℕ × types.Request} refl (ap (λ x. x.1) k) in
          let same_state : (begin s selected).0 ≡ s' = ap (λ x. x.0) k in
          (
            rw (same_state, accepted) refl,
            sym (ap (λ x. x.0) same),
            at ∙ ap ok (ap (λ x. x.1) same),
          )

      by_refusal :
          (refusal : Option RequestError)
          → (begin s selected).1 ≡ refusal
          → start_attempt types json s params requested selected ((begin s selected).0, refusal)
            ≡ (s', ok (v, request))
          → (begin s selected ≡ (s', none))
            × (v ≡ selected)
            × (read_request types json params requested selected ≡ ok request)
      by_refusal (some e) at k = absurd cc
      by_refusal none at k = by_read (read_request types json params requested selected) refl at k

  pub initialize-IsStarted :
      (json : InitializeCodec) (checked s : Initialization) (params : Bytes) {s' : Initialization}
      {selected : ℕ} {request : types.Request}
      → initialize types json checked s params ≡ (s', ok (selected, request))
      → IsStarted json s params s' selected request
  unfolding initialize
  initialize-IsStarted json checked s params {s'} {selected} {request} h =
      by_version (requested_version json checked params) refl h
    where
      by_version :
          (found : Result RequestError (ℕ × ℕ))
          → requested_version json checked params ≡ found
          → start_initialize types json s params found ≡ (s', ok (selected, request))
          → IsStarted json s params s' selected request
      by_version (err e) at k = absurd cc
      by_version (ok (r, v)) at k =
          let (was_requested, is_high, v_2) = requested_version-ok json checked params at in
          let (was_begun, same_v, was_read) = start_attempt-ok json s params r v k in
          record {
            requested = r;
            was_requested = was_requested;
            is_high = is_high;
            is_2 = same_v ∙ v_2;
            was_begun = subst (λ x. begin s x ≡ (s', none)) v_2 was_begun;
            was_read = subst (λ x. read_request types json params r x ≡ ok request) v_2 was_read;
          }

  checked_response-version :
      (selected : ℕ) (returned : Result Failure types.Response) {response : types.Response}
      → checked_response types selected returned ≡ ok response
      → types.version_of response ≡ selected
  unfolding checked_response
  checked_response-version selected returned h =
      let (r, _, h1) = >>=-eq-ok (reply_of returned) _ h in
      let (_, same, h2) = >>=-eq-ok (guard (types.version_of r == selected) _) _ h1 in
      subst (λ x. types.version_of x ≡ selected) (ok-injective refl h2)
        (ground (arith, guard-ok (types.version_of r == selected) _ same))

  -- Where an agent answers an initialize without an error, whatever the state it began in, the
  -- client that asked with those parameters accepts the answer, and version 2 is selected on the
  -- agent's side.
  pub initialize-accept_response :
      (json : InitializeCodec) (checked s : Initialization) (params : Bytes)
      (later : Initialization) (returned : Result Failure types.Response) {s' s'' : Initialization}
      {requested selected : ℕ} {request : types.Request} {response : types.Response}
      → protocol_version_from_initialize json params ≡ ok requested
      → initialize types json checked s params ≡ (s', ok (selected, request))
      → end_initialize types later selected returned ≡ (s'', ok response)
      → (accept_response types requested response ≡ ok response) × (s''.selected ≡ 2)
  unfolding end_initialize accept_response finish
  initialize-accept_response json checked s params later returned {s'} {s''} {requested} {selected}
        {request} {response} asked began ended =
      let i = initialize-IsStarted json checked s params began in
      let same_requested : i.requested ≡ requested = ok-injective i.was_requested asked in
      let was_ok : checked_response types selected returned ≡ ok response = ap (λ x. x.1) ended in
      let version : types.version_of response ≡ 2 =
        checked_response-version selected returned was_ok ∙ i.is_2 in
      let high : 2 ≤ requested = subst (λ x. 2 ≤ x) same_requested i.is_high in
      let low : ltb requested 2 ≡ false = ground (arith, high) in
      (rw (version, low) refl, subst (λ x. x.selected ≡ 2) (ap (λ x. x.0) ended) (rw was_ok i.is_2))
