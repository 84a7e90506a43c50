-- ===== src/Prepared/Closed.antt =====
-- prepared_request.go: a request whose write was not started and cannot start any more stays so.
use acp_go_sdk.Base.{
  some-injective, Bool, true, false, not, ◌||◌, ◌≡◌, ◌≢◌, refl, sym, ap, ◌∙◌, Option, none, some,
  ◌⊎◌, inl, inr, Bool-cases, arith, subst,
}
use acp_go_sdk.Connection.Requests.State.{Requests}
use acp_go_sdk.Prepared.{
  as_cause, abandon_pending, finish_pending, detach_pending, Phase, ready, dispatching, dispatched,
  dispatch_failed, abandoned, finished, is_ready, is_dispatching, is_finished, is_abandoned, Write,
  unqueued, queued, writing, written, idle, entering, releasing, ending, ended, Prepared,
  observe_response, release_pending, release_body, abandon_section, abandon_rest,
}
use acp_go_sdk.Prepared.Dispatch.{
  failing, dispatch_error, begin_dispatch, enqueue_write, begin_write, take_write,
  complete_abandoned_dispatch, aborted_cause, fail_dispatch, complete_write, complete_dispatch,
}
use acp_go_sdk.Prepared.Steps.{
  finish_ready, begin_resolve, retry_resolve, finish_wait, end_resolve, Step, observes, dispatches,
  enqueues, takes, writes, fails, completes, gives_up, releases, ends, abandons, lets_go,
  finishes_ready, waited, attempts, retries, resolves, elsewhere,
}
use acp_go_sdk.Prepared.Errors.{
  SubmissionState, not_started, possible, pending, Err, abandoned_request, is_not_started,
  request_may_have_been_submitted, request_submission_state_of, find_lifecycle,
}

-- A phase in which no write can start.
abbrev pub is_late : Phase → Bool
is_late ready = false
is_late dispatching = false
is_late _ = true

abbrev pub is_over : Write → Bool
is_over (written e) = true
is_over _ = false

-- The transport's Write was not called and will not be.
pub record IsClosed (p : Prepared) : Type 0 where
  pub untouched : p.submission ≡ not_started
  pub shut : (is_late p.phase || is_over p.write) ≡ true
  pub silent : p.write ≢ writing

-- What the error `e` promises the caller of a request in the state `p`.
abbrev pub IsHonest : Prepared → Err → Type 0
IsHonest p e = request_may_have_been_submitted (some e) ≡ false → IsClosed p

abbrev pub IsDecided : SubmissionState → Type 0
IsDecided s = (s ≡ not_started) ⊎ (s ≡ possible)

pub record IsSound (p : Prepared) : Type 0 where
  pub decided : IsDecided p.submission
  pub ready_idle : p.phase ≡ ready → p.stage ≡ idle
  pub idle_unqueued : p.stage ≡ idle → p.write ≡ unqueued
  pub entering_unqueued : p.stage ≡ entering → p.write ≡ unqueued
  pub writing_possible : p.write ≡ writing → p.submission ≡ possible
  pub written_possible : p.write ≡ written none → p.submission ≡ possible
  pub ending_late :
      (e : Option Err) (phase : Phase) → p.stage ≡ ending e phase → is_late phase ≡ true
  pub ending_ok : (phase : Phase) → p.stage ≡ ending none phase → p.submission ≡ possible
  pub releasing_honest : (c e : Err) → p.stage ≡ releasing c e → IsHonest p e
  pub ending_honest : (e : Err) (phase : Phase) → p.stage ≡ ending (some e) phase → IsHonest p e
  pub done_ok : p.dispatch_done ≡ true → p.dispatch_err ≡ none → p.submission ≡ possible
  pub done_honest : (e : Err) → p.dispatch_err ≡ some e → IsHonest p e

pub may_have-dispatch_error :
    (s : SubmissionState) (e : Err)
    → request_may_have_been_submitted (some (dispatch_error s e)) ≡ not (is_not_started s)
unfolding request_may_have_been_submitted request_submission_state_of find_lifecycle
may_have-dispatch_error not_started e = refl
may_have-dispatch_error possible e = refl
may_have-dispatch_error pending e = refl

pub is_late-cases : (f : Phase) → (is_late f ≡ true) ⊎ (f ≡ ready) ⊎ (f ≡ dispatching)
is_late-cases ready = inr (inl refl)
is_late-cases dispatching = inr (inr refl)
is_late-cases dispatched = inl refl
is_late-cases dispatch_failed = inl refl
is_late-cases abandoned = inl refl
is_late-cases finished = inl refl

-- While the write is still in the queue, a closed request has a late phase.
queued-late : (p : Prepared) → IsClosed p → p.write ≡ queued → is_late p.phase ≡ true
queued-late p v h = ground (arith, v.shut, ap is_over h)

late-is_dispatching : (f : Phase) → is_late f ≡ true → is_dispatching f ≡ false
late-is_dispatching ready h = absurd cc
late-is_dispatching dispatching h = absurd cc
late-is_dispatching dispatched h = refl
late-is_dispatching dispatch_failed h = refl
late-is_dispatching abandoned h = refl
late-is_dispatching finished h = refl

late-is_ready : (f : Phase) → is_late f ≡ true → is_ready f ≡ false
late-is_ready ready h = absurd cc
late-is_ready dispatching h = refl
late-is_ready dispatched h = refl
late-is_ready dispatch_failed h = refl
late-is_ready abandoned h = refl
late-is_ready finished h = refl

pub is_ready_iff : (f : Phase) → is_ready f ≡ true → f ≡ ready
is_ready_iff ready h = refl
is_ready_iff dispatching h = absurd cc
is_ready_iff dispatched h = absurd cc
is_ready_iff dispatch_failed h = absurd cc
is_ready_iff abandoned h = absurd cc
is_ready_iff finished h = absurd cc

pub is_not_started_iff : (s : SubmissionState) → is_not_started s ≡ true → s ≡ not_started
is_not_started_iff not_started h = refl
is_not_started_iff possible h = absurd cc
is_not_started_iff pending h = absurd cc

-- The three fields that matter stay, or the phase becomes a late one.
pub closes :
    (p q : Prepared)
    → IsClosed p
    → q.submission ≡ p.submission
    → q.write ≡ p.write
    → (q.phase ≡ p.phase) ⊎ (is_late q.phase ≡ true)
    → IsClosed q
closes p q v s w (inl f) = record {
  untouched = s ∙ v.untouched;
  shut = ground (arith, v.shut, ap is_late f, ap is_over w);
  silent = λ h. v.silent (sym w ∙ h);
}
closes p q v s w (inr l) = record {
  untouched = s ∙ v.untouched;
  shut = ground arith;
  silent = λ h. v.silent (sym w ∙ h);
}

take_write-IsClosed :
    (p : Prepared) (a b : Option Err) → IsClosed p → p.write ≡ queued → IsClosed (take_write p a b)
unfolding take_write begin_write
take_write-IsClosed p (some e) b v h = record {
  untouched = v.untouched;
  shut = ground arith;
  silent = λ k. cc;
}
take_write-IsClosed p none b v h =
    rw (late-is_dispatching p.phase (queued-late p v h))
      (record { untouched = v.untouched; shut = ground arith; silent = λ k. cc })

-- Only the pending requests, and whether they were released, differ.
abbrev pub Aside : Prepared → Prepared → Type 0
Aside p q = q ≡ record p { requests = q.requests; released = q.released }

release_body-Aside :
    (p : Prepared) (m : Requests × Bool) {q : Prepared} → release_body p m ≡ some q → Aside p q
unfolding release_body
release_body-Aside p (r, true) h = subst (Aside p) (some-injective h) refl
release_body-Aside p (r, false) {q} h = split (finish_pending r p.slot) refl
  where
    split : (m : Option Requests) → finish_pending r p.slot ≡ m → Aside p q
    split none e = absurd (ground arith)
    split (some r') e =
        subst (Aside p) {x = record p { requests = r'; released = true }}
          (some-injective (ground arith)) refl

pub release_pending-Aside :
    (p : Prepared) (e : Err) {q : Prepared} → release_pending p e ≡ some q → Aside p q
unfolding release_pending
release_pending-Aside p e {q} h = elim (Bool-cases p.released) [
  | inl old ↦ subst (Aside p) {x = p} (some-injective (ground arith)) refl
  | inr new ↦ release_body-Aside p (abandon_pending p.requests p.slot (as_cause e)) (ground arith)
]

pub abandon_rest-Aside : (p : Prepared) {q : Prepared} → abandon_rest p ≡ some q → Aside p q
unfolding abandon_rest
abandon_rest-Aside p {q} h = elim (Bool-cases p.resolving) [
  | inl busy ↦
      subst (Aside p) {x = record p { requests = detach_pending p.requests p.slot }}
        (some-injective (ground arith)) refl
  | inr quiet ↦ release_pending-Aside p abandoned_request (ground arith)
]

pub Aside-IsClosed : (p : Prepared) {q : Prepared} → Aside p q → IsClosed p → IsClosed q
Aside-IsClosed p {q} e v =
    closes p q v (ap (λ x. x.submission) e) (ap (λ x. x.write) e) (inl (ap (λ x. x.phase) e))

-- Ends: whatever phase is asked for is late, or the request stays abandoned.
pub complete_dispatch-IsClosed :
    (p : Prepared) (e : Option Err) (f : Phase)
    → is_late f ≡ true
    → IsClosed p
    → IsClosed (complete_dispatch p e f)
unfolding complete_dispatch
complete_dispatch-IsClosed p e f l v = elim (Bool-cases p.dispatch_done) [
  | inl old ↦
      rw old (closes p (record p { stage = ended; dispatch_done = true }) v refl refl (inl refl))
  | inr new ↦ elim (Bool-cases (not (is_abandoned p.phase) || is_abandoned f)) [
    | inl moves ↦
        rw (new, moves)
          (closes p (record p { phase = f; dispatch_err = e; dispatch_done = true; stage = ended })
            v refl refl (inr l))
    | inr stays ↦
        rw (new, stays)
          (closes p (record p { dispatch_err = e; dispatch_done = true; stage = ended }) v refl refl
            (inl refl))
  ]
]

pub complete_abandoned_dispatch-IsClosed :
    (p : Prepared) → IsClosed p → IsClosed (complete_abandoned_dispatch p)
unfolding complete_abandoned_dispatch
complete_abandoned_dispatch-IsClosed p v =
    closes p (complete_abandoned_dispatch p) v refl refl (inl refl)

pub fail_dispatch-IsClosed :
    (p : Prepared) (opts : Option (Err → Option Err)) (cause : Err)
    → IsClosed p
    → IsClosed (fail_dispatch p opts cause)
unfolding fail_dispatch complete_abandoned_dispatch
fail_dispatch-IsClosed p opts cause v = elim (Bool-cases (is_abandoned p.phase)) [
  | inl gone ↦ rw gone (closes p (complete_abandoned_dispatch p) v refl refl (inl refl))
  | inr live ↦
      rw (live, v.untouched)
        (closes p
          (record p {
            phase = dispatch_failed;
            submission = not_started;
            stage = failing not_started (aborted_cause not_started opts cause);
          })
          v (sym v.untouched) refl (inr refl))
]

pub complete_write-IsClosed :
    (p : Prepared) (opts : Option (Err → Option Err)) (e : Option Err)
    → IsClosed p
    → IsClosed (complete_write p opts e)
unfolding complete_write
complete_write-IsClosed p opts none v =
    closes p (complete_write p opts none) v (ground arith) (ground arith) (inl (ground arith))
complete_write-IsClosed p opts (some cause) v =
    closes p (complete_write p opts (some cause)) v (ground arith) (ground arith)
      (inl (ground arith))

unqueued-late : (p : Prepared) → IsClosed p → p.write ≡ unqueued → is_late p.phase ≡ true
unqueued-late p v h = ground (arith, v.shut, ap is_over h)

pub closed-is_ready : (p : Prepared) → IsSound p → IsClosed p → is_ready p.phase ≡ false
closed-is_ready p w v = elim (Bool-cases (is_ready p.phase)) [
  | inr other ↦ other
  | inl r ↦
      late-is_ready p.phase
        (unqueued-late p v (w.idle_unqueued (w.ready_idle (is_ready_iff p.phase r))))
]

begin_dispatch-IsClosed : (p : Prepared) → IsSound p → IsClosed p → IsClosed (begin_dispatch p).0
unfolding begin_dispatch
begin_dispatch-IsClosed p w v = rw (closed-is_ready p w v) v

enqueue_write-IsClosed :
    (p : Prepared) → IsSound p → p.stage ≡ entering → IsClosed p → IsClosed (enqueue_write p)
enqueue_write-IsClosed p w h v = record {
  untouched = v.untouched;
  shut = rw (unqueued-late p v (w.entering_unqueued h)) refl;
  silent = λ k. cc;
}

observe_response-IsClosed : (p : Prepared) → IsClosed p → IsClosed (observe_response p).0
unfolding observe_response
observe_response-IsClosed p v =
    closes p (observe_response p).0 v (ground arith) (ground arith) (inl (ground arith))

abandon_section-IsClosed : (p : Prepared) → IsClosed p → IsClosed (abandon_section p).0
abandon_section-IsClosed p v = elim (Bool-cases (p.resolved || is_finished p.phase)) [
  | inl late ↦ rw late v
  | inr early ↦ rw early (closes p (record p { phase = abandoned }) v refl refl (inr refl))
]

finish_ready-IsClosed : (p : Prepared) → IsClosed p → IsClosed (finish_ready p)
unfolding finish_ready
finish_ready-IsClosed p v = elim (Bool-cases (is_ready p.phase)) [
  | inl r ↦ rw r (closes p (record p { phase = finished }) v refl refl (inr refl))
  | inr other ↦ rw other v
]

begin_resolve-IsClosed : (p : Prepared) → IsClosed p → IsClosed (begin_resolve p)
unfolding begin_resolve
begin_resolve-IsClosed p v =
    closes p (begin_resolve p) v (ground arith) (ground arith) (inl (ground arith))

retry_resolve-IsClosed : (p : Prepared) → IsClosed p → IsClosed (retry_resolve p)
unfolding retry_resolve
retry_resolve-IsClosed p v =
    closes p (retry_resolve p) v (ground arith) (ground arith) (inl (ground arith))

-- No step of anyone opens a closed request again.
pub Step-IsClosed : {p q : Prepared} → IsSound p → Step p q → IsClosed p → IsClosed q
Step-IsClosed {p} w observes v = observe_response-IsClosed p v
Step-IsClosed {p} w dispatches v = begin_dispatch-IsClosed p w v
Step-IsClosed {p} w (enqueues h) v = enqueue_write-IsClosed p w h v
Step-IsClosed {p} w (takes a b h) v = take_write-IsClosed p a b v h
Step-IsClosed {p} w (writes e h) v = absurd (v.silent h)
Step-IsClosed {p} w (fails opts cause h) v = fail_dispatch-IsClosed p opts cause v
Step-IsClosed {p} w (completes opts e h k) v = complete_write-IsClosed p opts e v
Step-IsClosed {p} w (gives_up h k) v = complete_abandoned_dispatch-IsClosed p v
Step-IsClosed {p} w (releases c e q h k) v =
    closes q (record q { stage = ending (some e) dispatch_failed })
      (Aside-IsClosed p (release_pending-Aside p c k) v) refl refl (inl refl)
Step-IsClosed {p} w (ends e f h) v = complete_dispatch-IsClosed p e f (w.ending_late e f h) v
Step-IsClosed {p} w abandons v = abandon_section-IsClosed p v
Step-IsClosed {p} w (lets_go q h) v = Aside-IsClosed p (abandon_rest-Aside p h) v
Step-IsClosed {p} w finishes_ready v = finish_ready-IsClosed p v
Step-IsClosed {p} w (waited h) v = closes p (finish_wait p) v refl refl (inr refl)
Step-IsClosed {p} w (attempts h) v = begin_resolve-IsClosed p v
Step-IsClosed {p} w (retries h) v = retry_resolve-IsClosed p v
Step-IsClosed {p} w (resolves h) v = closes p (end_resolve p) v refl refl (inr refl)
Step-IsClosed {p} w (elsewhere r) v = closes p (record p { requests = r }) v refl refl (inl refl)
