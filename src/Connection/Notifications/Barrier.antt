-- ===== src/Connection/Notifications/Barrier.antt =====
-- What a response waits for: the watermark, and the loop by which a handler runs later
-- notifications itself.
use acp_go_sdk.Base.{
  ◌⊎◌, Option, none, leb→le, subst, ltb→lt, ℕ, zero, suc, ◌+◌, ◌-◌, ◌≤◌, ◌<◌, ◌≡◌, refl, sym, ap,
  ◌∙◌, inl, inr, Bool, true, false, ◌||◌, List, [], ◌∷◌, some, ltb, leb, ◌==◌, arith, Bool-cases,
  ==_iff,
}
use acp_go_sdk.Connection.Notifications.{
  QueuedNotification, Notifications, Limits, notification_already_processed, receive_notification,
  barrier_reached, reentrant_next,
}
use acp_go_sdk.Connection.Notifications.Ordering.{Consecutive, Nested, is_running, IsOrdered}

-- Some notification in the queue has this number.
unfoldable pub is_queued : ℕ → List QueuedNotification → Bool
is_queued n [] = false
is_queued n (q ∷ qs) = n == q.seq || is_queued n qs

Nested-not_running :
    (done : ℕ → Bool) (b k : ℕ) (qs : List QueuedNotification)
    → done k ≡ true
    → Nested done b qs
    → is_running k qs ≡ false
unfolding is_running
Nested-not_running done b k [] h v = refl
Nested-not_running done b k (q ∷ qs) h v =
    ground (arith, Nested-not_running done q.seq k qs h v.2, ==_iff k q.seq, ap done)

Consecutive-not_queued :
    (lo hi k : ℕ) (qs : List QueuedNotification)
    → k ≤ lo
    → Consecutive lo qs hi
    → is_queued k qs ≡ false
unfolding is_queued
Consecutive-not_queued lo hi k [] h c = refl
Consecutive-not_queued lo hi k (q ∷ qs) h c =
    ground (arith, Consecutive-not_queued (lo + 1) hi k qs (omega arith) c.1)

-- Once the loop of waitNotificationsUpTo is over, no notification up to the watermark is in the queue
-- or running.
barrier_reached_done :
    (limits : Limits) (n : Notifications) (target k : ℕ)
    → IsOrdered limits n
    → barrier_reached n target ≡ true
    → k ≤ target
    → (notification_already_processed n k ≡ true)
      × (is_running k n.running ≡ false)
      × (is_queued k n.queue ≡ false)
unfolding notification_already_processed
barrier_reached_done limits n target k v h le =
    let done : notification_already_processed n k ≡ true = ground arith in
    (
      done,
      Nested-not_running (notification_already_processed n) (v.started + 1) k n.running done
          v.nested,
      Consecutive-not_queued v.started n.last_enqueued k n.queue (v.only_started k done)
          v.consecutive,
    )

-- And it is over as soon as all notifications up to the watermark are processed.
pub all_done-barrier_reached :
    (limits : Limits) (n : Notifications) (target : ℕ)
    → IsOrdered limits n
    → ((k : ℕ) → k ≤ target → notification_already_processed n k ≡ true)
    → barrier_reached n target ≡ true
unfolding notification_already_processed
all_done-barrier_reached limits n target v all = ground (arith, v.advanced, all (n.completed + 1))

Nested-below :
    (done : ℕ → Bool) (b k : ℕ) (qs : List QueuedNotification)
    → Nested done b qs
    → b ≤ k
    → is_running k qs ≡ false
unfolding is_running
Nested-below done b k [] v h = refl
Nested-below done b k (q ∷ qs) v h = ground (arith, Nested-below done q.seq k qs v.2 (omega arith))

-- The loop stops at the first number that is not processed.
reentrant_next-first :
    (rounds k : ℕ) (n : Notifications) {m : ℕ}
    → reentrant_next rounds n k ≡ some m
    → (k ≤ m)
      × (m < k + rounds)
      × (notification_already_processed n m ≡ false)
      × ((j : ℕ) → k ≤ j → j < m → notification_already_processed n j ≡ true)
unfolding reentrant_next
reentrant_next-first zero k n h = absurd (cc)
reentrant_next-first (suc rounds) k n {m} h =
    elim (Bool-cases (notification_already_processed n k)) [
      | inl done ↦
          let inner : reentrant_next rounds n (k + 1) ≡ some m = ground arith in
          let (lo, hi, at, before) = reentrant_next-first rounds (k + 1) n inner in
          (
            omega arith,
            omega arith,
            at,
            λ j a b. elim (Bool-cases (j == k)) [
              | inl same ↦ ap (notification_already_processed n) ((==_iff j k).0 same) ∙ done
              | inr other ↦ before j (ground arith) b
            ],
          )
      | inr open_ ↦
          let e : k ≡ m = ground arith in
          (omega arith, omega arith, rw (← e) open_, λ j a b. absurd (omega arith))
    ]

-- The loop is over where all its numbers are processed.
reentrant_next-over :
    (rounds k j : ℕ) (n : Notifications)
    → reentrant_next rounds n k ≡ none
    → k ≤ j
    → j < k + rounds
    → notification_already_processed n j ≡ true
unfolding reentrant_next
reentrant_next-over zero k j n h lo hi = absurd (omega arith)
reentrant_next-over (suc rounds) k j n h lo hi =
    elim (Bool-cases (notification_already_processed n k)) [
      | inr open_ ↦ absurd (ground arith)
      | inl processed ↦ elim (Bool-cases (j == k)) [
        | inl same ↦ ap (notification_already_processed n) ((==_iff j k).0 same) ∙ processed
        | inr other ↦
            reentrant_next-over rounds (k + 1) j n (ground arith) (ground arith) (omega arith)
      ]
    ]

-- A wait for a watermark is over: by the loop of waitNotificationsUpTo or, for a wait inside the
-- handler of the notification `f`, by the loop of waitNotificationsReentrant.
abbrev pub IsOver : Option QueuedNotification → Notifications → ℕ → Type 0
IsOver none n target = barrier_reached n target ≡ true
IsOver (some f) n target =
    (f.seq ≤ target)
    × ((outer : List QueuedNotification) × (n.running ≡ f ∷ outer))
    × (reentrant_next (target - f.seq) n (f.seq + 1) ≡ none)

abbrev pub Settled : Notifications → ℕ → Type 0
Settled n k =
    (notification_already_processed n k ≡ true)
    × (is_running k n.running ≡ false)
    × (is_queued k n.queue ≡ false)

-- What the end of a wait says of a notification: it is processed, and neither queued nor running;
-- but a wait inside a handler leaves that notification, and those around it, running.
abbrev pub IsSettled : Option QueuedNotification → Notifications → ℕ → Type 0
IsSettled none n k = Settled n k
IsSettled (some f) n k =
    Settled n k ⊎ ((k ≤ f.seq) × (is_running k n.running ≡ true) × (is_queued k n.queue ≡ false))

processed-Settled :
    (limits : Limits) (n : Notifications) (k : ℕ)
    → IsOrdered limits n
    → notification_already_processed n k ≡ true
    → Settled n k
processed-Settled limits n k v processed = (
  processed,
  Nested-not_running (notification_already_processed n) (v.started + 1) k n.running processed
      v.nested,
  Consecutive-not_queued v.started n.last_enqueued k n.queue (v.only_started k processed)
      v.consecutive,
)

-- Where the notifications are in order and a wait for a watermark is over, every notification up to
-- it is processed and neither queued nor running. Only a wait inside the handler of a notification,
-- which is over when all later ones up to the watermark are processed, can leave some running: that
-- one and those before it.
pub wait-IsSettled :
    (limits : Limits) (waiter : Option QueuedNotification) (n : Notifications) (target k : ℕ)
    → IsOrdered limits n
    → IsOver waiter n target
    → k ≤ target
    → IsSettled waiter n k
wait-IsSettled limits none n target k v h le = barrier_reached_done limits n target k v h le
wait-IsSettled limits (some f) n target k v (lo, (outer, e), over) le =
    let inner = subst (Nested (notification_already_processed n) (v.started + 1)) e v.nested in
    elim (Bool-cases (notification_already_processed n k)) [
      | inl processed ↦ inl (processed-Settled limits n k v processed)
      | inr open_ ↦ elim (Bool-cases (leb k f.seq)) [
        | inl early ↦
            let started : k ≤ v.started = omega (arith, inner.0, leb→le k f.seq early) in
            inr (
              leb→le k f.seq early,
              ground (arith, v.accounted k started, open_),
              Consecutive-not_queued v.started n.last_enqueued k n.queue started v.consecutive,
            )
        | inr late ↦ absurd (
            ground (
              arith,
              open_,
              reentrant_next-over (target - f.seq) (f.seq + 1) k n over (ground (arith, late))
                  (ground (arith, late)),
            ))
      ]
    ]

receive-head :
    (n : Notifications) (lo : ℕ)
    → Consecutive lo n.queue n.last_enqueued
    → lo < n.last_enqueued
    → (q : QueuedNotification) × (n' : Notifications) × (receive_notification n ≡ some (q, n'))
      × (q.seq ≡ lo + 1)
receive-head n lo c h = split n.queue refl
  where
    split :
        (qs : List QueuedNotification)
        → n.queue ≡ qs
        → (q : QueuedNotification) × (n' : Notifications) × (receive_notification n ≡ some (q, n'))
          × (q.seq ≡ lo + 1)
    split [] e = absurd (omega (arith, subst (λ x. Consecutive lo x n.last_enqueued) e c))
    split (q ∷ qs) e = (
      q,
      record n { queue = qs; running = q ∷ n.running },
      unfold receive_notification in rw (e, receive_notification),
      (subst (λ x. Consecutive lo x n.last_enqueued) e c).0,
    )

-- A number above the innermost one is processed, if it was received at all.
not_accounted :
    (done : ℕ → Bool) (b m : ℕ) (f : QueuedNotification) (outer : List QueuedNotification)
    → Nested done b (f ∷ outer)
    → f.seq + 1 ≤ m
    → done m ≡ false
    → (done m || is_running m (f ∷ outer)) ≡ true
    → ⊥
unfolding is_running
not_accounted done b m f outer v le fresh h =
    ground (arith, Nested-below done f.seq m outer v.2 (omega arith))

-- While the handler of a notification waits for a response up to a watermark that was enqueued, the
-- number that its loop is at is the next in the queue: the receive does not block, and the check of
-- the sequence number, which would shut the connection down, never fails.
pub reentrant_next-receive :
    (limits : Limits) (n : Notifications) (f : QueuedNotification) (outer : List QueuedNotification)
    (rounds : ℕ) {m : ℕ}
    → IsOrdered limits n
    → n.running ≡ f ∷ outer
    → f.seq + rounds ≤ n.last_enqueued
    → reentrant_next rounds n (f.seq + 1) ≡ some m
    → (q : QueuedNotification) × (n' : Notifications) × (receive_notification n ≡ some (q, n'))
      × (q.seq ≡ m)
reentrant_next-receive limits n f outer rounds {m} v e le h =
    let done = notification_already_processed n in
    let (lo, hi, at, before) = reentrant_next-first rounds (f.seq + 1) n h in
    let inner = subst (Nested done (v.started + 1)) e v.nested in
    let late : v.started < m = elim (Bool-cases (leb m v.started)) [
      | inl early ↦ absurd (
          not_accounted done (v.started + 1) m f outer inner (omega arith) at (
            subst (λ x. (done m || is_running m x) ≡ true) e
              (v.accounted m (leb→le m v.started early))))
      | inr not_early ↦ ground arith
    ] in
    let next : m ≡ v.started + 1 = elim (Bool-cases (ltb (v.started + 1) m)) [
      | inl beyond ↦ absurd (
          omega (
            arith,
            v.only_started (v.started + 1)
                (before (v.started + 1) (omega (arith, inner.0)) (ltb→lt (v.started + 1) m beyond)),
          ))
      | inr not_beyond ↦ ground arith
    ] in
    let (q, n', r, s) = receive-head n v.started v.consecutive (omega arith) in
    (q, n', r, s ∙ sym next)
