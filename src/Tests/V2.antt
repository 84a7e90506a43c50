-- ===== src/Tests/V2.antt =====
-- The handshake of version 2 at concrete inputs.
use acp_go_sdk.Base.{
  Option, arith, ◌⊎◌, List, ◌≡◌, ◌≢◌, ◌↔◌, refl, true, false, [], ◌∷◌, none, some,
}
use acp_go_sdk.Bytes.{equal, codes}
use acp_go_sdk.Message.{lookup}
use acp_go_sdk.Result.{ok}
use acp_go_sdk.V2.Initialization.{finish, begin}
use acp_go_sdk.V2.Handshake.{
  v1, v2, number, Call, begins, finishes, receives, fresh_endpoint, untried, settled, run,
  stands_for, respond_all, call, respond, run-refines,
}
use acp_go_sdk.V2.Pinned.{selected_pinned}
use acp_go_sdk.V2.Fields.{
  AuthCapabilities, auth_fields, Fields, InitializeCodec, v1_capabilities, copied_capabilities,
  remove_field,
}
use acp_go_sdk.V2.Router.{Router, choose}
use acp_go_sdk.V2.Negotiation.{choose_iff, IsLegacy, IsHighest}
use acp_go_sdk.V2.Fallback.{IsSeen, v1_capabilities-lookup}

-- Version 2 succeeds; a request follows, which ends the window for another initialize.
abbrev first_success : List Call
first_success = begins v2 ∷ finishes none ∷ []

abbrev then_request : List Call
then_request = receives none ∷ begins v2 ∷ []

run-refines_example :
    run fresh_endpoint first_success
    ≡ (stands_for (respond_all untried first_success).0, (respond_all untried first_success).1)
run-refines_example = run-refines first_success

settled_after : (respond_all untried first_success).0 ≡ settled v2 false
unfolding respond_all respond
settled_after = refl

selected_v2 : (run fresh_endpoint first_success).0.state.selected ≡ 2
unfolding run call begin finish
selected_v2 = refl

is_selected : (run fresh_endpoint first_success).0.state.selected ≢ 0
is_selected e = omega (arith, e, selected_v2)

selected_pinned_example :
    (run (run fresh_endpoint first_success).0 then_request).0.state.selected
    ≡ (run fresh_endpoint first_success).0.state.selected
selected_pinned_example = selected_pinned first_success then_request is_selected

accepted_again : (begin (run fresh_endpoint first_success).0.state (number v2)).1 ≡ none
unfolding run call begin finish
accepted_again = refl

abbrev both : Router
both = record { has_v1 = true; has_v2 = true }

-- An identity codec, whose every object has version 3 and no other field.
abbrev codec : InitializeCodec
codec = record {
  decode_version = λ raw. ok (some 3);
  decode_fields = λ raw. ok [];
  encode_fields = λ fs. ok (codes "{}");
  is_implementation = λ raw. true;
  is_capabilities = λ raw. true;
  is_meta = λ raw. true;
  decode_auth = λ raw. ok none;
  validate_request = λ raw. ok tt;
  is_request_id = λ raw. true;
}

chosen_v2 : choose both 3 ≡ some v2
unfolding choose
chosen_v2 = refl

choose_iff_example :
    (choose both 3 ≡ some v2)
    ↔ ((IsLegacy both × (v2 ≡ v1)) ⊎ ((both.has_v2 ≡ true) × IsHighest both 3 v2))
choose_iff_example = choose_iff both 3 v2

-- What a client of version 2 offers, and what the handler of version 1 sees of it.
abbrev offered : Fields
offered = (codes "elicitation", codes "1") ∷ (codes "fs", codes "2") ∷ []

abbrev offered_auth : Option AuthCapabilities
offered_auth = some (record { has_terminal = true; meta = none })

abbrev seen : Fields
seen = (codes "auth", codes "{}") ∷ (codes "elicitation", codes "1") ∷ []

seen_of_offered : v1_capabilities codec offered offered_auth ≡ ok seen
unfolding v1_capabilities copied_capabilities auth_fields lookup equal remove_field
seen_of_offered = refl

v1_capabilities-lookup_example :
    IsSeen codec offered offered_auth (codes "auth") (lookup (codes "auth") seen)
v1_capabilities-lookup_example =
    v1_capabilities-lookup codec offered offered_auth (codes "auth") seen_of_offered
