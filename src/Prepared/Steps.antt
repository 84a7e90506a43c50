-- ===== src/Prepared/Steps.antt =====
-- prepared_request.go: the interleavings of a prepared request's callers with the writer and the
-- connection.
use acp_go_sdk.Base.{true, false, ◌≡◌, Option, some, ◌⊎◌, if◌then◌else◌}
use acp_go_sdk.Connection.Requests.State.{Requests}
use acp_go_sdk.Prepared.{
  is_abandoned, Phase, dispatch_failed, abandoned, finished, is_ready, queued, writing, written,
  entering, waiting, releasing, ending, Prepared, observe_response, release_pending,
  abandon_section, abandon_rest,
}
use acp_go_sdk.Prepared.Dispatch.{
  begin_dispatch, enqueue_write, take_write, complete_abandoned_dispatch, fail_dispatch,
  complete_write, complete_dispatch,
}
use acp_go_sdk.Prepared.Errors.{Err}

-- Wait, for a request that was never dispatched and whose pending request has failed: the second
-- critical section.
unfoldable pub finish_ready : Prepared → Prepared
finish_ready p = if is_ready p.phase then record p { phase = finished } else p

-- waitResponse, for a pending request that has failed.
abbrev pub finish_wait : Prepared → Prepared
finish_wait p = record p { phase = finished }

-- resolveResponse: the section that starts an attempt, and the one that ends it.
unfoldable pub begin_resolve : Prepared → Prepared
begin_resolve p =
    if p.resolved
    then p
    else if is_abandoned p.phase
    then p
    else if p.resolving
    then p
    else record p { resolving = true }

unfoldable pub retry_resolve : Prepared → Prepared
retry_resolve p =
    if is_abandoned p.phase
    then record p { resolving = false; resolved = true }
    else record p { resolving = false }

abbrev pub end_resolve : Prepared → Prepared
end_resolve p = record p { resolving = false; resolved = true; phase = finished }

-- One atomic step of a caller, of the writer or of the connection. `resolves` and `waited` are the
-- steps of a Wait that saw a dispatched or a finished request.
pub data Step (p : Prepared) : Prepared → Type 0 where
  observes : Step p (observe_response p).0
  dispatches : Step p (begin_dispatch p).0
  enqueues : p.stage ≡ entering → Step p (enqueue_write p)
  takes :
      (write_ctx_err ctx_err : Option Err)
      → p.write ≡ queued
      → Step p (take_write p write_ctx_err ctx_err)
  writes : (e : Option Err) → p.write ≡ writing → Step p (record p { write = written e })
  fails :
      (opts : Option (Err → Option Err)) (cause : Err)
      → (p.stage ≡ entering) ⊎ (p.stage ≡ waiting)
      → Step p (fail_dispatch p opts cause)
  completes :
      (opts : Option (Err → Option Err)) (e : Option Err)
      → p.stage ≡ waiting
      → p.write ≡ written e
      → Step p (complete_write p opts e)
  gives_up :
      (p.stage ≡ entering) ⊎ (p.stage ≡ waiting)
      → p.phase ≡ abandoned
      → Step p (complete_abandoned_dispatch p)
  releases :
      (cause e : Err) (q : Prepared)
      → p.stage ≡ releasing cause e
      → release_pending p cause ≡ some q
      → Step p (record q { stage = ending (some e) dispatch_failed })
  ends :
      (e : Option Err) (phase : Phase)
      → p.stage ≡ ending e phase
      → Step p (complete_dispatch p e phase)
  abandons : Step p (abandon_section p).0
  lets_go : (q : Prepared) → abandon_rest p ≡ some q → Step p q
  finishes_ready : Step p (finish_ready p)
  waited : (p.dispatch_done ≡ true) ⊎ (p.phase ≡ finished) → Step p (finish_wait p)
  attempts : (p.dispatch_done ≡ true) ⊎ (p.phase ≡ finished) → Step p (begin_resolve p)
  retries : p.resolving ≡ true → Step p (retry_resolve p)
  resolves : p.resolving ≡ true → Step p (end_resolve p)
  elsewhere : (r : Requests) → Step p (record p { requests = r })

pub data Reach (s : Prepared) : Prepared → Type 0 where
  here : Reach s s
  next : {t u : Prepared} → Reach s t → Step t u → Reach s u
