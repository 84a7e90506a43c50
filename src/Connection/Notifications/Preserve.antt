-- ===== src/Connection/Notifications/Preserve.antt =====
-- Each way in which the notifications change keeps the invariant of Ordering.
use acp_go_sdk.Base.{
  subst, ltb→lt, ℕ, ◌+◌, ◌-◌, ◌≤◌, ◌<◌, ◌≡◌, refl, sym, ap, ◌∙◌, inl, inr, Bool, true, ◌||◌, List,
  [], ◌∷◌, ◌++◌, Option, some, length, ltb, ◌==◌, arith, Bool-cases, ==_iff, length-append,
}
use acp_go_sdk.Message.{AnyMessage}
use acp_go_sdk.Connection.Notifications.{
  QueuedNotification, Notifications, no_notifications, Limits, size, enqueue_notification, mem,
  mark_notification_complete, notification_already_processed, receive_notification,
  finish_notification, release_notification,
}
use acp_go_sdk.Connection.Notifications.Watermark.{
  already_processed-mark, mark_notification_complete-stops,
}
use acp_go_sdk.Connection.Notifications.Ordering.{
  Consecutive, Nested, is_running, total, IsOrdered, Step, arrives, worker_receives,
  handler_receives, finishes, releases, Reach, here, next,
}

no_notifications-IsOrdered : (limits : Limits) → IsOrdered limits no_notifications
unfolding notification_already_processed mem is_running
no_notifications-IsOrdered limits = record {
  started = 0;
  consecutive = refl;
  nested = tt;
  accounted = λ k h. ground arith;
  only_started = λ k h. ground arith;
  advanced = refl;
  bytes_exact = refl;
  bytes_bounded = omega arith;
  queue_bounded = omega arith;
}

Consecutive-concat :
    (lo hi : ℕ) (qs : List QueuedNotification) (q : QueuedNotification)
    → Consecutive lo qs hi
    → q.seq ≡ hi + 1
    → Consecutive lo (qs ++ q ∷ []) (hi + 1)
Consecutive-concat lo hi [] q c h = (rw c h, rw c)
Consecutive-concat lo hi (x ∷ qs) q c h = (c.0, Consecutive-concat (lo + 1) hi qs q c.1 h)

total-concat :
    (qs : List QueuedNotification) (q : QueuedNotification)
    → total (qs ++ q ∷ []) ≡ total qs + size q.msg
total-concat [] q = omega arith
total-concat (x ∷ qs) q = omega (arith, total-concat qs q)

Consecutive-le : (lo hi : ℕ) (qs : List QueuedNotification) → Consecutive lo qs hi → lo ≤ hi
Consecutive-le lo hi [] c = omega arith
Consecutive-le lo hi (q ∷ qs) c = omega (arith, Consecutive-le (lo + 1) hi qs c.1)

enqueued-IsOrdered :
    (limits : Limits) (n : Notifications) (q : QueuedNotification)
    → q.seq ≡ n.last_enqueued + 1
    → size q.msg + n.bytes ≤ limits.max_bytes
    → length n.queue < limits.max_queued
    → IsOrdered limits n
    → IsOrdered limits (record n {
      queue = n.queue ++ q ∷ [];
      bytes = n.bytes + size q.msg;
      last_enqueued = n.last_enqueued + 1;
    })
unfolding notification_already_processed
enqueued-IsOrdered limits n q s b l v = record {
  started = v.started;
  consecutive = Consecutive-concat v.started n.last_enqueued n.queue q v.consecutive s;
  nested = v.nested;
  accounted = v.accounted;
  only_started = v.only_started;
  advanced = v.advanced;
  bytes_exact = omega (arith, total-concat n.queue q, v.bytes_exact);
  bytes_bounded = omega arith;
  queue_bounded = omega (arith, length-append n.queue (q ∷ []));
}

enqueue_notification-IsOrdered :
    (limits : Limits) (n : Notifications) (msg : AnyMessage) (delivery : Option ℕ)
    → IsOrdered limits n
    → IsOrdered limits (enqueue_notification limits n msg delivery).0
unfolding enqueue_notification
enqueue_notification-IsOrdered limits n msg delivery v =
    let q : QueuedNotification = record {
      seq = n.last_enqueued + 1;
      delivery = delivery;
      msg = msg;
    } in
    elim (Bool-cases (limits.accepts msg.method)) [
      | inr refused ↦ rw refused v
      | inl accepted ↦ rw accepted (elim (Bool-cases (ltb limits.max_bytes (size msg + n.bytes))) [
        | inl heavy ↦ rw heavy v
        | inr light ↦ rw light (elim (Bool-cases (ltb (length n.queue) limits.max_queued)) [
          | inr full ↦ rw full v
          | inl room ↦ rw room (
              enqueued-IsOrdered limits n q refl (ground arith)
                (ltb→lt (length n.queue) limits.max_queued room) v)
        ])
      ])
    ]

receive_notification-split :
    (n n' : Notifications) (q : QueuedNotification)
    → receive_notification n ≡ some (q, n')
    → (qs : List QueuedNotification) × (n.queue ≡ q ∷ qs)
      × (n' ≡ record n { queue = qs; running = q ∷ n.running })
unfolding receive_notification
receive_notification-split n n' q h = ground arith

received-IsOrdered :
    (limits : Limits) (n : Notifications) (q : QueuedNotification) (qs : List QueuedNotification)
    → n.queue ≡ q ∷ qs
    → IsOrdered limits n
    → IsOrdered limits (record n { queue = qs; running = q ∷ n.running })
unfolding notification_already_processed is_running
received-IsOrdered limits n q qs e v =
    let c = subst (λ x. Consecutive v.started x n.last_enqueued) e v.consecutive in
    record {
      started = v.started + 1;
      consecutive = c.1;
      nested = (
        omega arith,
        ground (arith, v.only_started q.seq),
        subst (λ x. Nested (notification_already_processed n) x n.running) (sym c.0) v.nested,
      );
      accounted = λ k h. elim (Bool-cases (k == q.seq)) [
        | inl same ↦ ground arith
        | inr other ↦ ground (arith, v.accounted k)
      ];
      only_started = λ k h. omega (arith, v.only_started k h);
      advanced = v.advanced;
      bytes_exact = omega (arith, ap total e, v.bytes_exact);
      bytes_bounded = v.bytes_bounded;
      queue_bounded = omega (arith, ap length e, v.queue_bounded);
    }

Nested-mono :
    (done : ℕ → Bool) (m n : ℕ) (qs : List QueuedNotification)
    → m ≤ n
    → Nested done m qs
    → Nested done n qs
Nested-mono done m n [] h v = tt
Nested-mono done m n (q ∷ qs) h v = (omega arith, v.1, v.2)

-- A number above all that run may become processed.
Nested-done :
    (done done' : ℕ → Bool) (s n : ℕ) (qs : List QueuedNotification)
    → ((m : ℕ) → done' m ≡ (m == s || done m))
    → n ≤ s
    → Nested done n qs
    → Nested done' n qs
Nested-done done done' s n [] h le v = tt
Nested-done done done' s n (q ∷ qs) h le v =
    (v.0, ground (arith, h q.seq), Nested-done done done' s q.seq qs h (omega arith) v.2)

already_processed-leave :
    (n : Notifications) (rest : List QueuedNotification) (q : QueuedNotification) (m : ℕ)
    → notification_already_processed (record n { running = rest; leaving = q ∷ n.leaving }) m
      ≡ notification_already_processed n m
unfolding notification_already_processed
already_processed-leave n rest q m = refl

finished-IsOrdered :
    (limits : Limits) (n : Notifications) (q : QueuedNotification) (rest : List QueuedNotification)
    → n.running ≡ q ∷ rest
    → IsOrdered limits n
    → IsOrdered limits
        (mark_notification_complete (record n { running = rest; leaving = q ∷ n.leaving }) q.seq)
unfolding mark_notification_complete is_running
finished-IsOrdered limits n q rest e v =
    let n1 : Notifications = record n { running = rest; leaving = q ∷ n.leaving } in
    let n2 = mark_notification_complete n1 q.seq in
    let done = notification_already_processed n in
    let done' = notification_already_processed n2 in
    let marks : ((m : ℕ) → done' m ≡ (m == q.seq || done m)) = λ m.
      already_processed-mark n1 q.seq m
      ∙ ap (λ b. m == q.seq || b) (already_processed-leave n rest q m) in
    let inner = subst (Nested done (v.started + 1)) e v.nested in
    record {
      started = v.started;
      consecutive = v.consecutive;
      nested =
          Nested-mono done' q.seq (v.started + 1) rest (omega arith)
            (Nested-done done done' q.seq q.seq rest marks (omega arith) inner.2);
      accounted = λ k h.
          let before = subst (λ x. (done k || is_running k x) ≡ true) e (v.accounted k h) in
          ground (arith, marks k, before);
      only_started = λ k h. ground (arith, marks k, v.only_started k, ==_iff k q.seq);
      advanced = mark_notification_complete-stops n1 q.seq;
      bytes_exact = omega (arith, ap total e, v.bytes_exact);
      bytes_bounded = v.bytes_bounded;
      queue_bounded = v.queue_bounded;
    }

finish_notification-IsOrdered :
    (limits : Limits) (n : Notifications)
    → IsOrdered limits n
    → IsOrdered limits (finish_notification n)
finish_notification-IsOrdered limits n v = split n.running refl
  where
    split :
        (rs : List QueuedNotification) → n.running ≡ rs → IsOrdered limits (finish_notification n)
    split [] e = unfold finish_notification in rw (e, finish_notification) v
    split (q ∷ rest) e =
        unfold finish_notification in
        rw (e, finish_notification) (finished-IsOrdered limits n q rest e v)

released-IsOrdered :
    (limits : Limits) (n : Notifications) (q : QueuedNotification) (rest : List QueuedNotification)
    → n.leaving ≡ q ∷ rest
    → IsOrdered limits n
    → IsOrdered limits (record n { leaving = rest; bytes = n.bytes - size q.msg })
unfolding notification_already_processed
released-IsOrdered limits n q rest e v = record {
  started = v.started;
  consecutive = v.consecutive;
  nested = v.nested;
  accounted = v.accounted;
  only_started = v.only_started;
  advanced = v.advanced;
  bytes_exact = omega (arith, ap total e, v.bytes_exact);
  bytes_bounded = omega (arith, v.bytes_bounded);
  queue_bounded = v.queue_bounded;
}

release_notification-IsOrdered :
    (limits : Limits) (n : Notifications)
    → IsOrdered limits n
    → IsOrdered limits (release_notification n)
release_notification-IsOrdered limits n v = split n.leaving refl
  where
    split :
        (rs : List QueuedNotification) → n.leaving ≡ rs → IsOrdered limits (release_notification n)
    split [] e = unfold release_notification in rw (e, release_notification) v
    split (q ∷ rest) e =
        unfold release_notification in
        rw (e, release_notification) (released-IsOrdered limits n q rest e v)

received_as-IsOrdered :
    (limits : Limits) (n n' : Notifications) (q : QueuedNotification)
    → receive_notification n ≡ some (q, n')
    → IsOrdered limits n
    → IsOrdered limits n'
received_as-IsOrdered limits n n' q h v =
    let (qs, e, same) = receive_notification-split n n' q h in
    subst (IsOrdered limits) (sym same) (received-IsOrdered limits n q qs e v)

Step-IsOrdered :
    {limits : Limits} {n n' : Notifications}
    → Step limits n n'
    → IsOrdered limits n
    → IsOrdered limits n'
Step-IsOrdered {limits} (arrives n msg delivery) v =
    enqueue_notification-IsOrdered limits n msg delivery v
Step-IsOrdered {limits} (worker_receives n n' q idle h) v = received_as-IsOrdered limits n n' q h v
Step-IsOrdered {limits} (handler_receives n n' f q outer rounds k e le at h) v =
    received_as-IsOrdered limits n n' q h v
Step-IsOrdered {limits} (finishes n) v = finish_notification-IsOrdered limits n v
Step-IsOrdered {limits} (releases n) v = release_notification-IsOrdered limits n v

-- Whatever has happened on a connection since it was built, arrivals, receives, waits and ends in
-- any order: the queue is in order and within its limit, what runs is nested by number, every
-- number received runs or is processed, and the bytes counted are those held, within the limit.
pub Reach-IsOrdered :
    (limits : Limits) {n : Notifications} → Reach limits no_notifications n → IsOrdered limits n
Reach-IsOrdered limits here = no_notifications-IsOrdered limits
Reach-IsOrdered limits (next r s) = Step-IsOrdered s (Reach-IsOrdered limits r)
