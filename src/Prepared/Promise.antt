-- ===== src/Prepared/Promise.antt =====
-- prepared_request.go: the steps of Dispatch keep what they promise to its caller.
use acp_go_sdk.Base.{
  true, false, ◌≡◌, ◌≢◌, refl, sym, ap, ◌∙◌, Option, none, some, ◌⊎◌, inl, inr, Bool-cases, arith,
  subst,
}
use acp_go_sdk.Prepared.{
  Phase, ready, dispatched, abandoned, is_ready, is_abandoned, written, Stage, idle, entering,
  waiting, releasing, ending, ended, Prepared, submission_state,
}
use acp_go_sdk.Prepared.Dispatch.{
  failing, dispatch_error, begin_dispatch, enqueue_write, complete_abandoned_dispatch,
  aborted_cause, fail_dispatch, complete_write,
}
use acp_go_sdk.Prepared.Steps.{enqueues}
use acp_go_sdk.Prepared.Errors.{SubmissionState, not_started, possible, Err, abandoned_request}
use acp_go_sdk.Prepared.Closed.{
  IsDecided, complete_abandoned_dispatch-IsClosed, complete_write-IsClosed, fail_dispatch-IsClosed,
  is_late, is_over, IsClosed, IsHonest, IsSound, may_have-dispatch_error, is_not_started_iff,
  is_ready_iff, is_late-cases, Step-IsClosed, closed-is_ready,
}

-- A step of Dispatch, past the queue: the write and the submission stay.
pub record Shift (p q : Prepared) : Type 0 where
  pub write_same : q.write ≡ p.write
  pub submission_same : q.submission ≡ p.submission
  pub not_ready : q.phase ≢ ready
  pub not_idle : q.stage ≢ idle
  pub not_entering : q.stage ≢ entering
  pub ending_late : (e : Option Err) (f : Phase) → q.stage ≡ ending e f → is_late f ≡ true
  pub ending_ok : (f : Phase) → q.stage ≡ ending none f → q.submission ≡ possible
  pub releasing_honest : (c e : Err) → q.stage ≡ releasing c e → IsHonest q e
  pub ending_honest : (e : Err) (f : Phase) → q.stage ≡ ending (some e) f → IsHonest q e
  pub done_ok : q.dispatch_done ≡ true → q.dispatch_err ≡ none → q.submission ≡ possible
  pub done_honest : (e : Err) → q.dispatch_err ≡ some e → IsHonest q e

pub shifted : (p q : Prepared) → IsSound p → Shift p q → IsSound q
shifted p q w s = record {
  decided = subst IsDecided (sym s.submission_same) w.decided;
  ready_idle = λ h. absurd (s.not_ready h);
  idle_unqueued = λ h. absurd (s.not_idle h);
  entering_unqueued = λ h. absurd (s.not_entering h);
  writing_possible = λ h. s.submission_same ∙ w.writing_possible (sym s.write_same ∙ h);
  written_possible = λ h. s.submission_same ∙ w.written_possible (sym s.write_same ∙ h);
  ending_late = s.ending_late;
  ending_ok = s.ending_ok;
  releasing_honest = s.releasing_honest;
  ending_honest = s.ending_honest;
  done_ok = s.done_ok;
  done_honest = s.done_honest;
}

-- A dispatch error says that nothing was submitted only of a request that was not.
pub dispatch_error-IsHonest :
    (q : Prepared) (s : SubmissionState) (cause : Err)
    → (s ≡ not_started → IsClosed q)
    → IsHonest q (dispatch_error s cause)
dispatch_error-IsHonest q s cause k h =
    k (is_not_started_iff s (ground (arith, may_have-dispatch_error s cause)))

pub begin_dispatch-IsSound : (p : Prepared) → IsSound p → IsSound (begin_dispatch p).0
unfolding begin_dispatch
begin_dispatch-IsSound p w = elim (Bool-cases (is_ready p.phase)) [
  | inr other ↦ rw other w
  | inl r ↦
      let st = w.ready_idle (is_ready_iff p.phase r) in
      rw r (record {
        decided = w.decided;
        ready_idle = λ h. absurd cc;
        idle_unqueued = λ h. absurd cc;
        entering_unqueued = λ h. w.idle_unqueued st;
        writing_possible = w.writing_possible;
        written_possible = w.written_possible;
        ending_late = λ e f h. absurd cc;
        ending_ok = λ f h. absurd cc;
        releasing_honest = λ c e h. absurd cc;
        ending_honest = λ e f h. absurd cc;
        done_ok = w.done_ok;
        done_honest =
            λ e h k. absurd (ground (arith, closed-is_ready p w (w.done_honest e h k), r));
      })
]

pub enqueue_write-IsSound :
    (p : Prepared) → IsSound p → p.stage ≡ entering → IsSound (enqueue_write p)
enqueue_write-IsSound p w st = record {
  decided = w.decided;
  ready_idle = λ h. absurd (ground (arith, w.ready_idle h, st));
  idle_unqueued = λ h. absurd cc;
  entering_unqueued = λ h. absurd cc;
  writing_possible = λ h. absurd cc;
  written_possible = λ h. absurd cc;
  ending_late = λ e f h. absurd cc;
  ending_ok = λ f h. absurd cc;
  releasing_honest = λ c e h. absurd cc;
  ending_honest = λ e f h. absurd cc;
  done_ok = w.done_ok;
  done_honest = λ e h k. Step-IsClosed w (enqueues st) (w.done_honest e h k);
}

-- What the stages after the queue hold: the error, if any, is honest, and the phase is late.
abbrev pub IsPromise : Prepared → Stage → Type 0
IsPromise q (releasing c e) = IsHonest q e
IsPromise q (ending none f) = (is_late f ≡ true) × (q.submission ≡ possible)
IsPromise q (ending (some e) f) = (is_late f ≡ true) × IsHonest q e
IsPromise q ended = Unit {0}
IsPromise q idle = ⊥
IsPromise q entering = ⊥
IsPromise q waiting = ⊥

-- A step of Dispatch to a stage that keeps its promise.
pub promised :
    (p q : Prepared) (s : Stage)
    → IsSound p
    → (IsClosed p → IsClosed q)
    → q.write ≡ p.write
    → q.submission ≡ p.submission
    → q.phase ≢ ready
    → q.dispatch_err ≡ p.dispatch_err
    → q.dispatch_done ≡ p.dispatch_done
    → q.stage ≡ s
    → IsPromise q s
    → IsSound q
promised p q s w keeps wr su f er dn st m = shifted p q w (record {
  write_same = wr;
  submission_same = su;
  not_ready = f;
  not_idle = λ h. subst (IsPromise q) (sym st ∙ h) m;
  not_entering = λ h. subst (IsPromise q) (sym st ∙ h) m;
  ending_late = λ e g h. late e g (subst (IsPromise q) (sym st ∙ h) m);
  ending_ok = λ g h. (subst (IsPromise q) (sym st ∙ h) m).1;
  releasing_honest = λ c e h. subst (IsPromise q) (sym st ∙ h) m;
  ending_honest = λ e g h. (subst (IsPromise q) (sym st ∙ h) m).1;
  done_ok = λ h k. su ∙ w.done_ok (sym dn ∙ h) (sym er ∙ k);
  done_honest = λ e h k. keeps (w.done_honest e (sym er ∙ h) k);
})
  where
    late : (e : Option Err) (g : Phase) → IsPromise q (ending e g) → is_late g ≡ true
    late none g a = a.0
    late (some e) g a = a.0

pub state_not_started :
    (p : Prepared)
    → IsDecided p.submission
    → submission_state p ≡ not_started
    → p.submission ≡ not_started
unfolding submission_state
state_not_started p (inl n) h = n
state_not_started p (inr y) h = absurd (ground arith)

-- The stages in which Dispatch still waits.
abbrev pub IsWaiting : Prepared → Type 0
IsWaiting p = (p.stage ≡ entering) ⊎ (p.stage ≡ waiting)

pub waiting-not_ready : (p : Prepared) → IsSound p → IsWaiting p → p.phase ≢ ready
waiting-not_ready p w (inl h) r = ground (arith, w.ready_idle r)
waiting-not_ready p w (inr h) r = ground (arith, w.ready_idle r)

abandoned-late : (f : Phase) → is_abandoned f ≡ true → is_late f ≡ true
abandoned-late f h = elim (is_late-cases f) [
  | inl l ↦ l
  | inr (inl r) ↦ absurd (ground (arith, ap is_abandoned r))
  | inr (inr r) ↦ absurd (ground (arith, ap is_abandoned r))
]

module _ (p : Prepared) (w : IsSound p) (h : IsWaiting p) (gone : is_abandoned p.phase ≡ true) where
  -- An abandoned request with nothing submitted is closed, unless it were being written.
  abandoned-IsClosed : p.submission ≡ not_started → IsClosed p
  abandoned-IsClosed n = record {
    untouched = n;
    shut = rw (abandoned-late p.phase gone) refl;
    silent = λ k. ground (arith, w.writing_possible k, n);
  }

  pub complete_abandoned_dispatch-IsSound : IsSound (complete_abandoned_dispatch p)
  unfolding complete_abandoned_dispatch
  complete_abandoned_dispatch-IsSound =
      promised p (complete_abandoned_dispatch p)
        (ending (some (dispatch_error (submission_state p) abandoned_request)) abandoned) w
        (complete_abandoned_dispatch-IsClosed p) refl refl (waiting-not_ready p w h) refl refl refl
        (
          refl,
          dispatch_error-IsHonest (complete_abandoned_dispatch p) (submission_state p)
              abandoned_request
              (λ n.
                complete_abandoned_dispatch-IsClosed p
                  (abandoned-IsClosed (state_not_started p w.decided n))),
        )

-- A failed dispatch of a request that was not submitted is closed: its phase is late.
fail_dispatch-closes :
    (p : Prepared) (opts : Option (Err → Option Err)) (cause : Err)
    → IsSound p
    → is_abandoned p.phase ≡ false
    → p.submission ≡ not_started
    → IsClosed (fail_dispatch p opts cause)
unfolding fail_dispatch
fail_dispatch-closes p opts cause w live n = record {
  untouched = rw (live, n) refl;
  shut = rw (live, n) refl;
  silent = λ k. ground (arith, w.writing_possible);
}

pub fail_dispatch-IsSound :
    (p : Prepared) (opts : Option (Err → Option Err)) (cause : Err)
    → IsSound p
    → IsWaiting p
    → IsSound (fail_dispatch p opts cause)
unfolding fail_dispatch
fail_dispatch-IsSound p opts cause w h = elim (Bool-cases (is_abandoned p.phase)) [
  | inl gone ↦ rw gone (complete_abandoned_dispatch-IsSound p w h gone)
  | inr live ↦
      promised p (fail_dispatch p opts cause)
        (failing p.submission (aborted_cause p.submission opts cause)) w
        (fail_dispatch-IsClosed p opts cause) (ground arith) (ground arith)
        (λ r. waiting-not_ready p w h (ground arith)) (ground arith) (ground arith) (rw live refl)
        (dispatch_error-IsHonest (fail_dispatch p opts cause) p.submission
          (aborted_cause p.submission opts cause) (fail_dispatch-closes p opts cause w live))
]

module _ (p : Prepared) (opts : Option (Err → Option Err)) (w : IsSound p)
    (h : p.stage ≡ waiting) where
  -- The writer has given its answer, so it starts nothing any more.
  written-IsClosed :
      (e : Option Err) → p.write ≡ written e → p.submission ≡ not_started → IsClosed p
  written-IsClosed e k n = record {
    untouched = n;
    shut = ground (arith, ap is_over k);
    silent = λ l. ground (arith, w.writing_possible l, n);
  }

  complete_write-promise :
      (e : Option Err)
      → p.write ≡ written e
      → (s : Stage) → (complete_write p opts e).stage ≡ s
      → IsPromise (complete_write p opts e) s
      → IsSound (complete_write p opts e)
  unfolding complete_write
  complete_write-promise none k s st m =
      promised p (complete_write p opts none) s w (complete_write-IsClosed p opts none)
        (ground arith) (ground arith) (λ r. waiting-not_ready p w (inr h) (ground arith))
        (ground arith) (ground arith) st m
  complete_write-promise (some c) k s st m =
      promised p (complete_write p opts (some c)) s w (complete_write-IsClosed p opts (some c))
        (ground arith) (ground arith) (λ r. waiting-not_ready p w (inr h) (ground arith))
        (ground arith) (ground arith) st m

  complete_write-IsHonest :
      (e : Option Err) (cause : Err)
      → p.write ≡ written e
      → IsHonest (complete_write p opts e) (dispatch_error p.submission cause)
  complete_write-IsHonest e cause k =
      dispatch_error-IsHonest (complete_write p opts e) p.submission cause
        (λ n. complete_write-IsClosed p opts e (written-IsClosed e k n))

  pub complete_write-IsSound :
      (e : Option Err) → p.write ≡ written e → IsSound (complete_write p opts e)
  unfolding complete_write
  complete_write-IsSound e k = elim (Bool-cases (is_abandoned p.phase)) [
    | inl gone ↦
        complete_write-promise e k
          (ending (some (dispatch_error p.submission abandoned_request)) abandoned) (rw gone refl)
          (refl, complete_write-IsHonest e abandoned_request k)
    | inr live ↦ by_result live e k
  ]
    where
      by_result :
          is_abandoned p.phase ≡ false
          → (e : Option Err) → p.write ≡ written e
          → IsSound (complete_write p opts e)
      by_result live none k =
          complete_write-promise none k (ending none dispatched) (rw live refl)
            (refl, rw live (w.written_possible k))
      by_result live (some c) k =
          complete_write-promise (some c) k
            (failing p.submission (aborted_cause p.submission opts c)) (rw live refl)
            (complete_write-IsHonest (some c) (aborted_cause p.submission opts c) k)
