-- ===== src/Prepared/Shape.antt =====
-- prepared_request.go: the steps that leave the dispatch where it is.
use acp_go_sdk.Base.{
  ◌||◌, ◌≡◌, ◌≢◌, refl, sym, ap, ◌∙◌, Option, none, some, ◌⊎◌, inl, inr, Bool-cases, arith, subst,
  if◌then◌else◌,
}
use acp_go_sdk.Result.{Result, ok, err}
use acp_go_sdk.Connection.Requests.State.{Requests}
use acp_go_sdk.Prepared.{
  write_not_started, ready, abandoned, is_ready, is_dispatching, is_finished, is_abandoned,
  unqueued, queued, writing, written, idle, entering, Prepared, observe_response, abandon_section,
}
use acp_go_sdk.Prepared.Dispatch.{start_write, admit, begin_write, after_begin, take_write}
use acp_go_sdk.Prepared.Steps.{finish_ready, begin_resolve, retry_resolve, finish_wait}
use acp_go_sdk.Prepared.Errors.{possible, Err, abandoned_request}
use acp_go_sdk.Prepared.Closed.{IsClosed, IsSound, IsDecided, Aside}

-- What is left to show of a step, once closed requests stay closed.
pub record Shape (p q : Prepared) : Type 0 where
  decided : IsDecided q.submission
  ready_idle : q.phase ≡ ready → q.stage ≡ idle
  idle_unqueued : q.stage ≡ idle → q.write ≡ unqueued
  entering_unqueued : q.stage ≡ entering → q.write ≡ unqueued
  writing_possible : q.write ≡ writing → q.submission ≡ possible
  written_possible : q.write ≡ written none → q.submission ≡ possible
  stage_same :
      (q.stage ≡ p.stage) × (q.dispatch_err ≡ p.dispatch_err) × (q.dispatch_done ≡ p.dispatch_done)
  stays : p.submission ≡ possible → q.submission ≡ possible

-- A step that leaves the dispatch where it is.
pub calm : (p q : Prepared) → IsSound p → Shape p q → (IsClosed p → IsClosed q) → IsSound q
calm p q w s keeps = record {
  decided = s.decided;
  ready_idle = s.ready_idle;
  idle_unqueued = s.idle_unqueued;
  entering_unqueued = s.entering_unqueued;
  writing_possible = s.writing_possible;
  written_possible = s.written_possible;
  ending_late = λ e f h. w.ending_late e f (sym s.stage_same.0 ∙ h);
  ending_ok = λ f h. s.stays (w.ending_ok f (sym s.stage_same.0 ∙ h));
  releasing_honest =
      λ c e h no_chance. keeps (w.releasing_honest c e (sym s.stage_same.0 ∙ h) no_chance);
  ending_honest = λ e f h no_chance. keeps (w.ending_honest e f (sym s.stage_same.0 ∙ h) no_chance);
  done_ok = λ h k. s.stays (w.done_ok (sym s.stage_same.2 ∙ h) (sym s.stage_same.1 ∙ k));
  done_honest = λ e h no_chance. keeps (w.done_honest e (sym s.stage_same.1 ∙ h) no_chance);
}

-- The phase stays, or is not `ready`; nothing else of the dispatch changes.
pub alike :
    (p q : Prepared)
    → IsSound p
    → (q.phase ≡ p.phase) ⊎ (q.phase ≢ ready)
    → q.stage ≡ p.stage
    → q.write ≡ p.write
    → q.submission ≡ p.submission
    → q.dispatch_err ≡ p.dispatch_err
    → q.dispatch_done ≡ p.dispatch_done
    → Shape p q
alike p q w f st wr su er dn = record {
  decided = subst IsDecided (sym su) w.decided;
  ready_idle = elim f [
    | inl same ↦ λ h. st ∙ w.ready_idle (sym same ∙ h)
    | inr k ↦ λ h. absurd (k h)
  ];
  idle_unqueued = λ h. wr ∙ w.idle_unqueued (sym st ∙ h);
  entering_unqueued = λ h. wr ∙ w.entering_unqueued (sym st ∙ h);
  writing_possible = λ h. su ∙ w.writing_possible (sym wr ∙ h);
  written_possible = λ h. su ∙ w.written_possible (sym wr ∙ h);
  stage_same = (st, er, dn);
  stays = λ h. su ∙ h;
}

module _ (p : Prepared) (w : IsSound p) (h : p.write ≡ queued) where
  not_idle : p.stage ≢ idle
  not_idle k = ground (arith, w.idle_unqueued k, h)

  not_entering : p.stage ≢ entering
  not_entering k = ground (arith, w.entering_unqueued k, h)

  refused : (r : Requests) (e : Err) → Shape p (record p { requests = r; write = written (some e) })
  refused r e = record {
    decided = w.decided;
    ready_idle = w.ready_idle;
    idle_unqueued = λ k. absurd (not_idle k);
    entering_unqueued = λ k. absurd (not_entering k);
    writing_possible = λ k. absurd cc;
    written_possible = λ k. absurd (ground arith);
    stage_same = (refl, refl, refl);
    stays = λ k. k;
  }

  started :
      (r : Requests) → Shape p (record p { requests = r; submission = possible; write = writing })
  started r = record {
    decided = inr refl;
    ready_idle = w.ready_idle;
    idle_unqueued = λ k. absurd (not_idle k);
    entering_unqueued = λ k. absurd (not_entering k);
    writing_possible = λ k. refl;
    written_possible = λ k. refl;
    stage_same = (refl, refl, refl);
    stays = λ k. refl;
  }

  begun : (m : Requests × Result Err (Unit {0})) → Shape p (after_begin (start_write p m))
  begun (r, ok u) = started r
  begun (r, err e) = refused r e

  pub take_write-Shape : (a b : Option Err) → Shape p (take_write p a b)
  unfolding take_write begin_write
  take_write-Shape (some e) b = refused p.requests e
  take_write-Shape none b = elim (Bool-cases (is_dispatching p.phase)) [
    | inr other ↦
        rw other (
          refused p.requests
            (if is_abandoned p.phase then abandoned_request else write_not_started))
    | inl on ↦ rw on (by_context b)
  ]
    where
      by_context :
          (b : Option Err)
          → Shape p (after_begin (elim b [ some e ↦ (p, some e) | none ↦ start_write p (admit p) ]))
      by_context (some e) = refused p.requests e
      by_context none = begun (admit p)

pub observe_response-Shape : (p : Prepared) → IsSound p → Shape p (observe_response p).0
unfolding observe_response
observe_response-Shape p w =
    alike p (observe_response p).0 w (inl (ground arith)) (ground arith) (ground arith)
      (ground arith) (ground arith) (ground arith)

pub begin_resolve-Shape : (p : Prepared) → IsSound p → Shape p (begin_resolve p)
unfolding begin_resolve
begin_resolve-Shape p w =
    alike p (begin_resolve p) w (inl (ground arith)) (ground arith) (ground arith) (ground arith)
      (ground arith) (ground arith)

pub retry_resolve-Shape : (p : Prepared) → IsSound p → Shape p (retry_resolve p)
unfolding retry_resolve
retry_resolve-Shape p w =
    alike p (retry_resolve p) w (inl (ground arith)) (ground arith) (ground arith) (ground arith)
      (ground arith) (ground arith)

pub abandon_section-Shape : (p : Prepared) → IsSound p → Shape p (abandon_section p).0
abandon_section-Shape p w = elim (Bool-cases (p.resolved || is_finished p.phase)) [
  | inl late ↦ rw late (alike p p w (inl refl) refl refl refl refl refl)
  | inr early ↦
      rw early (alike p (record p { phase = abandoned }) w (inr (λ k. cc)) refl refl refl refl refl)
]

pub finish_wait-Shape : (p : Prepared) → IsSound p → Shape p (finish_wait p)
finish_wait-Shape p w = alike p (finish_wait p) w (inr (λ k. cc)) refl refl refl refl refl

pub finish_ready-Shape : (p : Prepared) → IsSound p → Shape p (finish_ready p)
unfolding finish_ready
finish_ready-Shape p w = elim (Bool-cases (is_ready p.phase)) [
  | inl r ↦ rw r (finish_wait-Shape p w)
  | inr other ↦ rw other (alike p p w (inl refl) refl refl refl refl refl)
]

pub Aside-Shape : (p : Prepared) {q : Prepared} → IsSound p → Aside p q → Shape p q
Aside-Shape p {q} w e =
    alike p q w (inl (ap (λ x. x.phase) e)) (ap (λ x. x.stage) e) (ap (λ x. x.write) e)
      (ap (λ x. x.submission) e) (ap (λ x. x.dispatch_err) e) (ap (λ x. x.dispatch_done) e)

-- The writer's answer, after the transport's Write was called.
pub answered-Shape :
    (p : Prepared) (e : Option Err)
    → IsSound p
    → p.write ≡ writing
    → Shape p (record p { write = written e })
answered-Shape p e w h = record {
  decided = w.decided;
  ready_idle = w.ready_idle;
  idle_unqueued = λ k. absurd (ground (arith, w.idle_unqueued k, h));
  entering_unqueued = λ k. absurd (ground (arith, w.entering_unqueued k, h));
  writing_possible = λ k. absurd cc;
  written_possible = λ k. w.writing_possible h;
  stage_same = (refl, refl, refl);
  stays = λ k. k;
}
