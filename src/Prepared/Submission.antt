-- ===== src/Prepared/Submission.antt =====
-- prepared_request.go: what the reported submission state is worth, for every interleaving of the
-- request's callers, the writer and the connection.
use acp_go_sdk.Base.{
  ◌⊎◌, ℕ, true, false, ◌≡◌, ◌≢◌, refl, ap, ◌∙◌, Option, none, some, inl, inr, Bool-cases, arith,
}
use acp_go_sdk.Bytes.{Bytes}
use acp_go_sdk.Connection.Requests.State.{Requests}
use acp_go_sdk.Prepared.{
  already_dispatched, abandoned_request, Phase, ready, dispatch_failed, is_ready, is_dispatching,
  is_abandoned, writing, releasing, ending, ended, Prepared, prepare, submission_state,
  abandon_section,
}
use acp_go_sdk.Prepared.Dispatch.{begin_dispatch, complete_dispatch}
use acp_go_sdk.Prepared.Steps.{
  end_resolve, Step, Reach, here, next, observes, dispatches, enqueues, takes, writes, fails,
  completes, gives_up, releases, ends, abandons, lets_go, finishes_ready, waited, attempts, retries,
  resolves, elsewhere,
}
use acp_go_sdk.Prepared.Errors.{not_started, possible, Err, request_may_have_been_submitted}
use acp_go_sdk.Prepared.Closed.{
  may_have-dispatch_error, is_not_started_iff, complete_dispatch-IsClosed, is_late, IsClosed,
  IsHonest, IsSound, is_late-cases, Aside, release_pending-Aside, abandon_rest-Aside, Step-IsClosed,
  closes, Aside-IsClosed,
}
use acp_go_sdk.Prepared.Shape.{
  Shape, calm, alike, answered-Shape, take_write-Shape, observe_response-Shape, begin_resolve-Shape,
  retry_resolve-Shape, abandon_section-Shape, finish_wait-Shape, finish_ready-Shape, Aside-Shape,
}
use acp_go_sdk.Prepared.Promise.{
  Shift, shifted, promised, begin_dispatch-IsSound, enqueue_write-IsSound, state_not_started,
  complete_abandoned_dispatch-IsSound, fail_dispatch-IsSound, complete_write-IsSound,
}

prepare-IsSound : (key : Bytes) (slot : ℕ) (r : Requests) → IsSound (prepare key slot r)
prepare-IsSound key slot r = record {
  decided = inl refl;
  ready_idle = λ h. refl;
  idle_unqueued = λ h. refl;
  entering_unqueued = λ h. refl;
  writing_possible = λ h. absurd cc;
  written_possible = λ h. absurd cc;
  ending_late = λ e f h. absurd cc;
  ending_ok = λ f h. absurd cc;
  releasing_honest = λ c e h. absurd cc;
  ending_honest = λ e f h. absurd cc;
  done_ok = λ h. absurd cc;
  done_honest = λ e h. absurd cc;
}

-- The end of Dispatch: what the stage held is what the caller gets.
module _ (p : Prepared) (e : Option Err) (f : Phase) (w : IsSound p)
    (h : p.stage ≡ ending e f) where
  ending-not_ready : p.phase ≢ ready
  ending-not_ready r = ground (arith, w.ready_idle r, h)

  late-not_ready : f ≢ ready
  late-not_ready r = ground (arith, w.ending_late e f h, ap is_late r)

  complete_dispatch-kept : IsClosed p → IsClosed (complete_dispatch p e f)
  complete_dispatch-kept = complete_dispatch-IsClosed p e f (w.ending_late e f h)

  ok_handed : e ≡ none → p.submission ≡ possible
  ok_handed n = w.ending_ok f (h ∙ ap (λ x. ending x f) n)

  error_handed : (x : Err) → e ≡ some x → IsHonest p x
  error_handed x n = w.ending_honest x f (h ∙ ap (λ y. ending y f) n)

  handed_over : p.dispatch_done ≡ false → Shift p (complete_dispatch p e f)
  unfolding complete_dispatch
  handed_over new = record {
    write_same = ground arith;
    submission_same = ground arith;
    not_ready = λ r. ground (arith, ending-not_ready, late-not_ready);
    not_idle = λ k. ground arith;
    not_entering = λ k. ground arith;
    ending_late = λ e g k. absurd (ground arith);
    ending_ok = λ g k. absurd (ground arith);
    releasing_honest = λ c e k. absurd (ground arith);
    ending_honest = λ e g k. absurd (ground arith);
    done_ok = λ k l. ground (arith, ok_handed);
    done_honest = λ x k l. complete_dispatch-kept (error_handed x (ground arith) l);
  }

  complete_dispatch-IsSound : IsSound (complete_dispatch p e f)
  unfolding complete_dispatch
  complete_dispatch-IsSound = elim (Bool-cases p.dispatch_done) [
    | inr new ↦ shifted p (complete_dispatch p e f) w (handed_over new)
    | inl old ↦
        promised p (complete_dispatch p e f) ended w complete_dispatch-kept (ground arith)
          (ground arith) (λ r. ending-not_ready (ground arith)) (ground arith) (ground arith)
          (rw old refl) tt
  ]

calmly : (p : Prepared) {q : Prepared} → IsSound p → Step p q → Shape p q → IsSound q
calmly p {q} w s shape = calm p q w shape (Step-IsClosed w s)

-- The phase stays, since a request whose dispatch is under way is not ready.
released-IsSound :
    (p : Prepared) (c e : Err) {q : Prepared}
    → IsSound p
    → p.stage ≡ releasing c e
    → Aside p q
    → IsSound (record q { stage = ending (some e) dispatch_failed })
released-IsSound p c e {q} w h aside =
    let v = calm p q w (Aside-Shape p w aside) (Aside-IsClosed p aside) in
    let st = ap (λ x. x.stage) aside ∙ h in
    let q' : Prepared = record q { stage = ending (some e) dispatch_failed } in
    let keeps : (IsClosed q → IsClosed q') = λ c. closes q q' c refl refl (inl refl) in
    promised q q' (ending (some e) dispatch_failed) v keeps refl refl
      (λ r. ground (arith, v.ready_idle r, st)) refl refl refl
      (refl, λ k. keeps (v.releasing_honest c e st k))

Step-IsSound : {p q : Prepared} → Step p q → IsSound p → IsSound q
Step-IsSound {p} observes w = calmly p w observes (observe_response-Shape p w)
Step-IsSound {p} dispatches w = begin_dispatch-IsSound p w
Step-IsSound {p} (enqueues h) w = enqueue_write-IsSound p w h
Step-IsSound {p} (takes a b h) w = calmly p w (takes a b h) (take_write-Shape p w h a b)
Step-IsSound {p} (writes e h) w = calmly p w (writes e h) (answered-Shape p e w h)
Step-IsSound {p} (fails opts cause h) w = fail_dispatch-IsSound p opts cause w h
Step-IsSound {p} (completes opts e h k) w = complete_write-IsSound p opts w h e k
Step-IsSound {p} (gives_up h k) w = complete_abandoned_dispatch-IsSound p w h (ap is_abandoned k)
Step-IsSound {p} (releases c e q h k) w = released-IsSound p c e w h (release_pending-Aside p c k)
Step-IsSound {p} (ends e f h) w = complete_dispatch-IsSound p e f w h
Step-IsSound {p} abandons w = calmly p w abandons (abandon_section-Shape p w)
Step-IsSound {p} (lets_go q h) w =
    calmly p w (lets_go q h) (Aside-Shape p w (abandon_rest-Aside p h))
Step-IsSound {p} finishes_ready w = calmly p w finishes_ready (finish_ready-Shape p w)
Step-IsSound {p} (waited h) w = calmly p w (waited h) (finish_wait-Shape p w)
Step-IsSound {p} (attempts h) w = calmly p w (attempts h) (begin_resolve-Shape p w)
Step-IsSound {p} (retries h) w = calmly p w (retries h) (retry_resolve-Shape p w)
Step-IsSound {p} (resolves h) w =
    calmly p w (resolves h) (alike p (end_resolve p) w (inr (λ k. cc)) refl refl refl refl refl)
Step-IsSound {p} (elsewhere r) w =
    calmly p w (elsewhere r)
      (alike p (record p { requests = r }) w (inl refl) refl refl refl refl refl)

Reach-IsSound :
    (key : Bytes) (slot : ℕ) (r : Requests) {p : Prepared}
    → Reach (prepare key slot r) p
    → IsSound p
Reach-IsSound key slot r here = prepare-IsSound key slot r
Reach-IsSound key slot r (next h s) = Step-IsSound s (Reach-IsSound key slot r h)

Reach-IsClosed : {p q : Prepared} → IsSound p → Reach p q → IsSound q × (IsClosed p → IsClosed q)
Reach-IsClosed w here = (w, λ v. v)
Reach-IsClosed w (next h s) =
    let (u, keeps) = Reach-IsClosed w h in (Step-IsSound s u, λ v. Step-IsClosed u s (keeps v))

-- A request that is not submitted, and whose phase is late, is closed.
late-IsClosed :
    (p : Prepared) → IsSound p → p.submission ≡ not_started → is_late p.phase ≡ true → IsClosed p
late-IsClosed p w n l = record {
  untouched = n;
  shut = rw l refl;
  silent = λ k. ground (arith, w.writing_possible k, n);
}

state_late : (p : Prepared) → submission_state p ≡ not_started → is_late p.phase ≡ true
unfolding submission_state
state_late p h = elim (is_late-cases p.phase) [
  | inl l ↦ l
  | inr (inl r) ↦ absurd (ground (arith, ap is_ready r))
  | inr (inr r) ↦ absurd (ground (arith, ap is_dispatching r))
]

-- What a call of Dispatch returns: the error that completeDispatch has stored, or the error of its
-- first critical section, for a request that is not ready.
abbrev pub Returns : Prepared → Err → Type 0
Returns p e = (p.dispatch_err ≡ some e) ⊎ ((begin_dispatch p).1 ≡ some e)

begin_dispatch-state :
    (p : Prepared) {e : Err}
    → (begin_dispatch p).1 ≡ some e
    → request_may_have_been_submitted (some e) ≡ false
    → submission_state p ≡ not_started
unfolding begin_dispatch
begin_dispatch-state p h m = is_not_started_iff (submission_state p) (
    ground (
      arith,
      may_have-dispatch_error (submission_state p) abandoned_request,
      may_have-dispatch_error (submission_state p) already_dispatched,
    ))

Returns-IsClosed :
    (p : Prepared) {e : Err}
    → IsSound p
    → Returns p e
    → request_may_have_been_submitted (some e) ≡ false
    → IsClosed p
Returns-IsClosed p {e} w (inl d) m = w.done_honest e d m
Returns-IsClosed p w (inr d) m =
    let n = begin_dispatch-state p d m in
    late-IsClosed p w (state_not_started p w.decided n) (state_late p n)

-- Once a call of Dispatch returns an error that RequestMayHaveBeenSubmitted does not call possibly
-- submitted, be it the first call's or the one of a call for a request that is already dispatched
-- or abandoned, the request is not submitted, and it is never given to the transport's Write from
-- then on, in whatever order its callers, the writer and the connection go on.
pub not_submitted_final :
    (key : Bytes) (slot : ℕ) (r : Requests) {p q : Prepared} {e : Err}
    → Reach (prepare key slot r) p
    → Returns p e
    → request_may_have_been_submitted (some e) ≡ false
    → Reach p q
    → (q.write ≢ writing) × (q.submission ≡ not_started)
not_submitted_final key slot r {p} {q} {e} h d m g =
    let w = Reach-IsSound key slot r h in
    let v = (Reach-IsClosed w g).1 (Returns-IsClosed p w d m) in (v.silent, v.untouched)

-- Once a caller has been told, by submissionState, that a request is not submitted, the request is
-- never given to the transport's Write, in whatever order the others go on.
pub submission_state_final :
    (key : Bytes) (slot : ℕ) (r : Requests) {p q : Prepared}
    → Reach (prepare key slot r) p
    → submission_state p ≡ not_started
    → Reach p q
    → (q.write ≢ writing) × (q.submission ≡ not_started)
submission_state_final key slot r {p} {q} h m g =
    let w = Reach-IsSound key slot r h in
    let closed = late-IsClosed p w (state_not_started p w.decided m) (state_late p m) in
    let v = (Reach-IsClosed w g).1 closed in (v.silent, v.untouched)

abandon_section-late :
    (p : Prepared) → (abandon_section p).2 ≡ true → is_late (abandon_section p).0.phase ≡ true
abandon_section-late p h = ground arith

abandon_section-state : (p : Prepared) → (abandon_section p).0.submission ≡ (abandon_section p).1
abandon_section-state p = ground arith

-- Where Abandon takes a request that is neither resolved nor finished and answers that nothing was
-- submitted, the request is never given to the transport's Write, in whatever order the others go
-- on.
pub abandon_final :
    (key : Bytes) (slot : ℕ) (r : Requests) {p q : Prepared}
    → Reach (prepare key slot r) p
    → (abandon_section p).2 ≡ true
    → (abandon_section p).1 ≡ not_started
    → Reach (abandon_section p).0 q
    → (q.write ≢ writing) × (q.submission ≡ not_started)
abandon_final key slot r {p} {q} h on m g =
    let w = Step-IsSound abandons (Reach-IsSound key slot r h) in
    let closed =
      late-IsClosed (abandon_section p).0 w (abandon_section-state p ∙ m)
        (abandon_section-late p on) in
    let v = (Reach-IsClosed w g).1 closed in (v.silent, v.untouched)

-- Dispatch returns without an error only where the transport's Write was called.
pub dispatch_ok-possible :
    (key : Bytes) (slot : ℕ) (r : Requests) {p : Prepared}
    → Reach (prepare key slot r) p
    → p.dispatch_done ≡ true
    → p.dispatch_err ≡ none
    → p.submission ≡ possible
dispatch_ok-possible key slot r h = (Reach-IsSound key slot r h).done_ok
