-- ===== src/Connection/Notifications.antt =====
-- connection.go: inbound notifications. One worker runs them in order of arrival; a handler that
-- waits for a response may run later ones inside itself. `completed` with `done_early` is the
-- watermark. Sequence numbers are uint64 in the source and do not wrap here.
pub mod Watermark
pub mod Ordering
pub mod Preserve
pub mod Barrier
use acp_go_sdk.Base.{
  ℕ, zero, suc, ◌+◌, ◌-◌, Bool, true, false, not, ◌&&◌, ◌||◌, List, [], ◌∷◌, ◌++◌, Option, none,
  some, length, ltb, leb, ◌==◌, if◌then◌else◌,
}
use acp_go_sdk.Bytes.{Bytes}
use acp_go_sdk.Message.{AnyMessage}

-- `delivery` names the response delivery that has to finish first.
pub record QueuedNotification : Type 0 where
  pub seq : ℕ
  pub delivery : Option ℕ
  pub msg : AnyMessage

-- `running` are the notifications in processNotification, innermost first; `leaving` are those
-- marked complete whose bytes are not yet given back.
pub record Notifications : Type 0 where
  pub bytes : ℕ
  pub last_enqueued : ℕ
  pub completed : ℕ
  pub done_early : List ℕ
  pub queue : List QueuedNotification
  pub running : List QueuedNotification
  pub leaving : List QueuedNotification

abbrev pub no_notifications : Notifications
no_notifications = record {
  bytes = 0;
  last_enqueued = 0;
  completed = 0;
  done_early = [];
  queue = [];
  running = [];
  leaving = [];
}

-- MaxQueuedNotifications, MaxNotificationBytes and AcceptNotification, the last by a test that
-- accepts all where it is nil.
pub record Limits : Type 0 where
  pub max_queued : ℕ
  pub max_bytes : ℕ
  pub accepts : Bytes → Bool

abbrev pub size : AnyMessage → ℕ
size m = length m.method + length m.params

-- enqueueNotification; false shuts the connection down. A limit less what is taken is moved to the
-- other side of the test.
unfoldable pub enqueue_notification :
    Limits → Notifications → AnyMessage → Option ℕ → Notifications × Bool
enqueue_notification limits n msg delivery =
    let seq = n.last_enqueued + 1 in
    let queued : QueuedNotification = record { seq = seq; delivery = delivery; msg = msg } in
    if not (limits.accepts msg.method)
    then (n, true)
    else if ltb limits.max_bytes (size msg + n.bytes)
    then (n, false)
    else if ltb (length n.queue) limits.max_queued
    then (
      record n { queue = n.queue ++ queued ∷ []; bytes = n.bytes + size msg; last_enqueued = seq },
      true,
    )
    else (n, false)

-- The set completedNotifications.
unfoldable pub mem : ℕ → List ℕ → Bool
mem n [] = false
mem n (m ∷ ms) = n == m || mem n ms

unfoldable pub delete : ℕ → List ℕ → List ℕ
delete n [] = []
delete n (m ∷ ms) = if n == m then delete n ms else m ∷ delete n ms

-- The loop of markNotificationComplete, with the size of the set for fuel.
unfoldable pub advance : ℕ → ℕ → List ℕ → ℕ × List ℕ
advance zero completed done = (completed, done)
advance (suc fuel) completed done =
    let rest = advance fuel (completed + 1) (delete (completed + 1) done) in
    if mem (completed + 1) done then rest else (completed, done)

-- markNotificationComplete.
unfoldable pub mark_notification_complete : Notifications → ℕ → Notifications
mark_notification_complete n seq =
    let done = seq ∷ n.done_early in
    let (c, d) = advance (length done) n.completed done in
    record n { completed = c; done_early = d }

-- notificationAlreadyProcessed.
unfoldable pub notification_already_processed : Notifications → ℕ → Bool
notification_already_processed n seq = leb seq n.completed || mem seq n.done_early

-- A receive from the queue by the worker, or by a handler that waits: processNotification begins.
-- It gives the notification too, for the check of its number.
unfoldable pub receive_notification : Notifications → Option (QueuedNotification × Notifications)
receive_notification n = elim n.queue [
  | [] ↦ none
  | q ∷ qs ↦ some (q, record n { queue = qs; running = q ∷ n.running })
]

-- The end of the innermost processNotification: it is marked complete, after its handler or, if
-- the connection is closed, without it.
unfoldable pub finish_notification : Notifications → Notifications
finish_notification n = elim n.running [
  | [] ↦ n
  | q ∷ rest ↦
      mark_notification_complete (record n { running = rest; leaving = q ∷ n.leaving }) q.seq
]

-- The deferred function: the bytes of the payload are given back.
unfoldable pub release_notification : Notifications → Notifications
release_notification n = elim n.leaving [
  | [] ↦ n
  | q ∷ rest ↦ record n { leaving = rest; bytes = n.bytes - size q.msg }
]

-- waitNotificationsUpTo: the test of its loop, which runs where the wait is not left to
-- waitNotificationsReentrant.
abbrev pub barrier_reached : Notifications → ℕ → Bool
barrier_reached n target = leb target n.completed

-- The loop of waitNotificationsReentrant up to its next receive, over `rounds` numbers from `next`:
-- the number that it has to receive, or none if all are processed.
unfoldable pub reentrant_next : ℕ → Notifications → ℕ → Option ℕ
reentrant_next zero n next = none
reentrant_next (suc rounds) n next =
    let rest = reentrant_next rounds n (next + 1) in
    if notification_already_processed n next then rest else some next
