-- ===== src/Connection/Notifications/Ordering.antt =====
-- The order in which notifications run, for every interleaving of arrivals, receives, ends and
-- waits that the code allows.
use acp_go_sdk.Base.{
  ℕ, ◌+◌, ◌≤◌, ◌<◌, ◌≡◌, Bool, true, false, ◌||◌, List, [], ◌∷◌, Option, some, length, ◌==◌,
}
use acp_go_sdk.Message.{AnyMessage}
use acp_go_sdk.Connection.Notifications.{
  QueuedNotification, Notifications, Limits, size, enqueue_notification, mem,
  notification_already_processed, receive_notification, finish_notification, release_notification,
  reentrant_next,
}

-- The queue holds the numbers after `lo` up to `hi`, in order.
abbrev pub Consecutive : ℕ → List QueuedNotification → ℕ → Type 0
Consecutive lo [] hi = lo ≡ hi
Consecutive lo (q ∷ qs) hi = (q.seq ≡ lo + 1) × Consecutive (lo + 1) qs hi

-- Numbers fall along the list, below `n`; none of them is processed by `done`.
abbrev pub Nested : (ℕ → Bool) → ℕ → List QueuedNotification → Type 0
Nested done n [] = Unit {0}
Nested done n (q ∷ qs) = (q.seq < n) × (done q.seq ≡ false) × Nested done q.seq qs

unfoldable pub is_running : ℕ → List QueuedNotification → Bool
is_running n [] = false
is_running n (q ∷ qs) = n == q.seq || is_running n qs

abbrev pub total : List QueuedNotification → ℕ
total [] = 0
total (q ∷ qs) = size q.msg + total qs

-- `started` is the last number that was received.
pub record IsOrdered (limits : Limits) (n : Notifications) : Type 0 where
  pub started : ℕ
  pub consecutive : Consecutive started n.queue n.last_enqueued
  pub nested : Nested (notification_already_processed n) (started + 1) n.running
  pub accounted :
      (k : ℕ) → k ≤ started → (notification_already_processed n k || is_running k n.running) ≡ true
  pub only_started : (k : ℕ) → notification_already_processed n k ≡ true → k ≤ started
  pub advanced : mem (n.completed + 1) n.done_early ≡ false
  pub bytes_exact : n.bytes ≡ total n.queue + total n.running + total n.leaving
  pub bytes_bounded : n.bytes ≤ limits.max_bytes
  pub queue_bounded : length n.queue ≤ limits.max_queued

-- The ways in which the state changes. The worker receives when nothing runs; the innermost handler
-- may receive while it waits, and then only the number that its loop is at.
pub data Step (limits : Limits) : Notifications → Notifications → Type 0 where
  arrives :
      (n : Notifications) (msg : AnyMessage) (delivery : Option ℕ)
      → Step limits n (enqueue_notification limits n msg delivery).0
  worker_receives :
      (n n' : Notifications) (q : QueuedNotification)
      → n.running ≡ []
      → receive_notification n ≡ some (q, n')
      → Step limits n n'
  handler_receives :
      (n n' : Notifications) (f q : QueuedNotification) (outer : List QueuedNotification)
      (rounds next : ℕ)
      → n.running ≡ f ∷ outer
      → f.seq + rounds ≤ n.last_enqueued
      → reentrant_next rounds n (f.seq + 1) ≡ some next
      → receive_notification n ≡ some (q, n')
      → Step limits n n'
  finishes : (n : Notifications) → Step limits n (finish_notification n)
  releases : (n : Notifications) → Step limits n (release_notification n)

pub data Reach (limits : Limits) (s : Notifications) : Notifications → Type 0 where
  here : Reach limits s s
  next : {t u : Notifications} → Reach limits s t → Step limits t u → Reach limits s u
