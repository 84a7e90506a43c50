-- ===== src/V2/Handshake.antt =====
-- The handshake as its documentation describes it: one attempt at a time; the first success pins
-- the version; after a first failure there is no other attempt; only version 2 may be initialized
-- again, with the same version and before any other request; a failed repeat keeps the version.
use acp_go_sdk.Base.{
  ℕ, Bool, true, false, ◌≡◌, refl, List, [], ◌∷◌, Option, none, some, if◌then◌else◌, arith,
}
use acp_go_sdk.Error.{RequestError}
use acp_go_sdk.V2.Initialization.{
  Initialization, InboundInfo, no_initialization, begin, finish, route, may_be_request,
}

pub data Version : Type 0 where
  v1 v2 : Version

abbrev pub number : Version → ℕ
number v1 = 1
number v2 = 2

-- The calls of a connection's goroutines, in the order in which they get the mutex. The end of an
-- attempt belongs to the attempt under way, whose version it hands over.
pub data Call : Type 0 where
  begins : Version → Call
  finishes : Option RequestError → Call
  receives : Option InboundInfo → Call

-- The state with the version of the attempt under way.
pub record Endpoint : Type 0 where
  pub state : Initialization
  pub attempt : Option Version

abbrev pub fresh_endpoint : Endpoint
fresh_endpoint = record { state = no_initialization; attempt = none }

abbrev began : Endpoint → Version → Initialization × Option RequestError → Endpoint × Bool
began c v (s, none) = (record { state = s; attempt = some v }, true)
began c v (s, some e) = (record c { state = s }, false)

abbrev ended : Endpoint → Option RequestError → Option Version → Endpoint
ended c e none = c
ended c e (some v) = record { state = finish c.state (number v) e; attempt = none }

-- One call, and for an attempt whether it may go on.
unfoldable pub call : Endpoint → Call → Endpoint × Bool
call c (begins v) = began c v (begin c.state (number v))
call c (finishes e) = (ended c e c.attempt, true)
call c (receives info) = (record c { state = (route c.state info).0 }, true)

-- The flag is that of another request.
pub data Handshake : Type 0 where
  untried : Handshake
  trying : Version → Bool → Handshake
  refused : Bool → Handshake
  settled : Version → Bool → Handshake
  retrying : Bool → Handshake

abbrev end_attempt : Version → Bool → Option RequestError → Handshake
end_attempt v other none = settled v other
end_attempt v other (some e) = refused other

abbrev flag : Bool → Option InboundInfo → Bool
flag other info = if may_be_request info then true else other

unfoldable pub respond : Handshake → Call → Handshake × Bool
respond untried (begins v) = (trying v false, true)
respond untried (finishes e) = (untried, true)
respond untried (receives info) = (untried, true)
respond (trying v other) (begins w) = (trying v other, false)
respond (trying v other) (finishes e) = (end_attempt v other e, true)
respond (trying v other) (receives info) = (trying v (flag other info), true)
respond (refused other) (begins w) = (refused other, false)
respond (refused other) (finishes e) = (refused other, true)
respond (refused other) (receives info) = (refused (flag other info), true)
respond (settled v2 false) (begins v2) = (retrying false, true)
respond (settled v2 false) (begins v1) = (settled v2 false, false)
respond (settled v2 true) (begins w) = (settled v2 true, false)
respond (settled v1 other) (begins w) = (settled v1 other, false)
respond (settled v other) (finishes e) = (settled v other, true)
respond (settled v other) (receives info) = (settled v (flag other info), true)
respond (retrying other) (begins w) = (retrying other, false)
respond (retrying other) (finishes e) = (settled v2 other, true)
respond (retrying other) (receives info) = (retrying (flag other info), true)

-- The connection that stands for a state of the handshake.
abbrev pub stands_for : Handshake → Endpoint
stands_for untried = fresh_endpoint
stands_for (trying v other) = record {
  state = record { selected = 0; initialized = true; initializing = true; other_request = other };
  attempt = some v;
}
stands_for (refused other) = record {
  state = record { selected = 0; initialized = true; initializing = false; other_request = other };
  attempt = none;
}
stands_for (settled v other) = record {
  state = record {
    selected = number v;
    initialized = true;
    initializing = false;
    other_request = other;
  };
  attempt = none;
}
stands_for (retrying other) = record {
  state = record { selected = 2; initialized = true; initializing = true; other_request = other };
  attempt = some v2;
}

call-respond :
    (h : Handshake) (c : Call)
    → call (stands_for h) c ≡ (stands_for (respond h c).0, (respond h c).1)
unfolding call respond begin finish route
call-respond untried (begins v) = refl
call-respond untried (finishes e) = refl
call-respond untried (receives info) = ground arith
call-respond (trying v other) (begins w) = refl
call-respond (trying v other) (finishes none) = refl
call-respond (trying v other) (finishes (some e)) = refl
call-respond (trying v other) (receives info) = ground arith
call-respond (refused other) (begins w) = refl
call-respond (refused other) (finishes e) = refl
call-respond (refused other) (receives info) = ground arith
call-respond (settled v1 other) (begins w) = refl
call-respond (settled v2 false) (begins v1) = refl
call-respond (settled v2 false) (begins v2) = refl
call-respond (settled v2 true) (begins v1) = refl
call-respond (settled v2 true) (begins v2) = refl
call-respond (settled v1 other) (finishes e) = refl
call-respond (settled v2 false) (finishes e) = refl
call-respond (settled v2 true) (finishes e) = refl
call-respond (settled v1 other) (receives info) = ground arith
call-respond (settled v2 false) (receives info) = ground arith
call-respond (settled v2 true) (receives info) = ground arith
call-respond (retrying other) (begins w) = refl
call-respond (retrying other) (finishes none) = refl
call-respond (retrying other) (finishes (some e)) = refl
call-respond (retrying other) (receives info) = ground arith

-- A run of calls, and the answers to them.
unfoldable pub run : Endpoint → List Call → Endpoint × List Bool
run c [] = (c, [])
run c (k ∷ ks) =
    let (c1, answer) = call c k in let (c2, answers) = run c1 ks in (c2, answer ∷ answers)

unfoldable pub respond_all : Handshake → List Call → Handshake × List Bool
respond_all h [] = (h, [])
respond_all h (k ∷ ks) =
    let (h1, answer) = respond h k in
    let (h2, answers) = respond_all h1 ks in (h2, answer ∷ answers)

pub run_from :
    (h : Handshake) (ks : List Call)
    → run (stands_for h) ks ≡ (stands_for (respond_all h ks).0, (respond_all h ks).1)
unfolding run respond_all
run_from h [] = refl
run_from h (k ∷ ks) = rw (call-respond h k) (rw (run_from (respond h k).0 ks) refl)

-- Whatever calls the goroutines of a connection make and in whatever order, the code answers them
-- as the handshake of the documentation does, and its state is that of the handshake.
pub run-refines :
    (ks : List Call)
    → run fresh_endpoint ks ≡ (stands_for (respond_all untried ks).0, (respond_all untried ks).1)
run-refines ks = run_from untried ks
