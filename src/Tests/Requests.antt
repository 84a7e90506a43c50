-- ===== src/Tests/Requests.antt =====
-- Pending requests and notifications at concrete inputs.
use acp_go_sdk.Base.{◌≢◌, ◌≡◌, refl, true, false, [], ◌∷◌, none, some, arith}
use acp_go_sdk.Bytes.{codes, equal}
use acp_go_sdk.Message.{AnyMessage, no_message, lookup}
use acp_go_sdk.Connection.Notifications.{
  advance, mark_notification_complete, finish_notification, QueuedNotification, Notifications,
  no_notifications, Limits, enqueue_notification, receive_notification,
  notification_already_processed, reentrant_next, mem,
}
use acp_go_sdk.Connection.Notifications.Ordering.{
  finishes, handler_receives, IsOrdered, arrives, worker_receives, Reach, here, next,
}
use acp_go_sdk.Connection.Notifications.Preserve.{Reach-IsOrdered}
use acp_go_sdk.Connection.Notifications.Barrier.{wait-IsSettled, IsSettled, reentrant_next-receive}
use acp_go_sdk.Connection.Requests.{
  deliver_object, add_pending, register_unless, register_open, admit_pending, claim_response,
  claim_object, fresh,
}
use acp_go_sdk.Connection.Requests.State.{
  ResponseEnvelope, Requests, no_requests, modify, prune, prune_from, is_registered, remove_key,
}
use acp_go_sdk.Connection.Requests.Accounting
use acp_go_sdk.Connection.Requests.Lifetime
use acp_go_sdk.Connection.Requests.Responses.{claim_response-IsClaim, IsClaim}
use acp_go_sdk.Connection.Requests.Claimed.{claim_response_once}

abbrev limits : Limits
limits = record { max_queued = 4; max_bytes = 100; accepts = λ m. true }

abbrev update : AnyMessage
update = record no_message { method = codes "session/update" }

abbrev one_queued : Notifications
one_queued = record no_notifications {
  bytes = 14;
  last_enqueued = 1;
  queue = record { seq = 1; delivery = none; msg = update } ∷ [];
}

abbrev two_queued : Notifications
two_queued = record one_queued {
  bytes = 28;
  last_enqueued = 2;
  queue =
      record { seq = 1; delivery = none; msg = update }
      ∷ record { seq = 2; delivery = none; msg = update }
      ∷ [];
}

abbrev first : QueuedNotification
first = record { seq = 1; delivery = none; msg = update }

abbrev second : QueuedNotification
second = record { seq = 2; delivery = none; msg = update }

-- The first is running, the second waits in the queue.
abbrev one_running : Notifications
one_running = record two_queued { queue = second ∷ []; running = first ∷ [] }

two_arrive : Reach limits no_notifications two_queued
unfolding enqueue_notification
two_arrive =
    next (next here (arrives no_notifications update none)) (arrives one_queued update none)

one_starts : Reach limits no_notifications one_running
unfolding receive_notification
one_starts = next two_arrive (worker_receives two_queued one_running first refl refl)

Reach-IsOrdered_example : IsOrdered limits one_running
Reach-IsOrdered_example = Reach-IsOrdered limits one_starts

-- The handler of the first has received the second inside itself, and that is over.
abbrev both_running : Notifications
both_running = record two_queued { queue = []; running = second ∷ first ∷ [] }

abbrev one_inside : Notifications
one_inside = record two_queued {
  queue = [];
  running = first ∷ [];
  leaving = second ∷ [];
  done_early = 2 ∷ [];
}

inside : Reach limits no_notifications one_inside
unfolding receive_notification reentrant_next notification_already_processed mem finish_notification
    mark_notification_complete advance
inside =
    next
      (next one_starts (
        handler_receives one_running both_running first second [] 1 2 refl (omega arith) refl refl))
      (finishes both_running)

wait-IsSettled_example : IsSettled (some first) one_inside 2
unfolding reentrant_next notification_already_processed mem
wait-IsSettled_example =
    wait-IsSettled limits (some first) one_inside 2 2 (Reach-IsOrdered limits inside)
      (omega arith, ([], refl), refl) (omega arith)

reentrant_next-receive_example :
    (q : QueuedNotification) × (n' : Notifications) × (receive_notification one_running
      ≡ some (q, n'))
    × (q.seq ≡ 2)
unfolding reentrant_next notification_already_processed mem
reentrant_next-receive_example =
    reentrant_next-receive limits one_running first [] 1 Reach-IsOrdered_example refl (omega arith)
      refl

abbrev waiting : Requests
waiting = record (no_requests 2) {
  pending = (codes "1", 0) ∷ [];
  objects = record (fresh (codes "1") true) { admitted = true } ∷ [];
  slots = 1;
}

one_added : Lifetime.Reach (no_requests 2) waiting
unfolding add_pending register_unless register_open prune prune_from admit_pending is_registered
    modify lookup equal remove_key
one_added =
    Lifetime.next (Lifetime.next Lifetime.here (Lifetime.adds (codes "1") true))
      (Lifetime.admits 0 (codes "1"))

Reach-IsAccounted_example : Accounting.IsAccounted waiting
Reach-IsAccounted_example = Lifetime.Reach-IsAccounted 2 one_added

abbrev claimed : Requests
claimed = record waiting {
  objects = record (fresh (codes "1") true) { admitted = true; responded = true } ∷ [];
}

claim_response-IsClaim_example : IsClaim waiting (codes "1") (claimed, some 0)
unfolding claim_response claim_object modify lookup equal
claim_response-IsClaim_example = claim_response-IsClaim waiting (codes "1")

-- The response is delivered and the request finished, after which the next one gets the same id.
abbrev envelope : ResponseEnvelope
envelope = record { msg = no_message; watermark = 0 }

later_Reach : Lifetime.Reach (claim_response waiting (codes "1")).0 (
    (add_pending
      (deliver_object claimed 0 envelope
        (record (fresh (codes "1") true) { admitted = true; responded = true }))
      (codes "1")
      false).0)
unfolding claim_response claim_object modify lookup equal
later_Reach =
    Lifetime.next
      (Lifetime.next Lifetime.here (
        Lifetime.delivers 0 envelope
          (record (fresh (codes "1") true) { admitted = true; responded = true }) refl refl refl))
      (Lifetime.adds (codes "1") false)

claim_response_once_example :
    (claim_response
      (add_pending
        (deliver_object claimed 0 envelope
          (record (fresh (codes "1") true) { admitted = true; responded = true }))
        (codes "1")
        false).0
      (codes "1")).1
    ≢ some 0
unfolding claim_response claim_object modify lookup equal
claim_response_once_example = claim_response_once waiting (codes "1") (codes "1") refl later_Reach
