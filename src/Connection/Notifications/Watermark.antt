-- ===== src/Connection/Notifications/Watermark.antt =====
-- The loop that advances the watermark: it forgets nothing, and stops at the first number that is
-- not yet processed.
use acp_go_sdk.Base.{
  ℕ, zero, suc, ◌+◌, ◌≤◌, ◌<◌, ◌≡◌, refl, ◌∙◌, Bool, true, false, ◌||◌, List, [], ◌∷◌, length, leb,
  ◌==◌, if◌then◌else◌, arith, inl, inr, Bool-cases, ==_iff,
}
use acp_go_sdk.Connection.Notifications.{
  mem, delete, advance, Notifications, mark_notification_complete, notification_already_processed,
}

mem-delete : (n m : ℕ) (ms : List ℕ) → mem n (delete m ms) ≡ (if n == m then false else mem n ms)
unfolding mem delete
mem-delete n m [] = ground arith
mem-delete n m (k ∷ ms) = ground (arith, mem-delete n m ms)

length-delete-le : (m : ℕ) (ms : List ℕ) → length (delete m ms) ≤ length ms
unfolding delete
length-delete-le m [] = omega arith
length-delete-le m (k ∷ ms) = ground (arith, length-delete-le m ms)

length-delete : (m : ℕ) (ms : List ℕ) → mem m ms ≡ true → length (delete m ms) < length ms
unfolding mem delete
length-delete m [] h = absurd (cc)
length-delete m (k ∷ ms) h = ground (arith, length-delete m ms, length-delete-le m ms)

-- Numbers up to the watermark, or early.
abbrev pub covered : ℕ → List ℕ → ℕ → Bool
covered completed done n = leb n completed || mem n done

step-covered :
    (c : ℕ) (d : List ℕ) (n : ℕ)
    → mem (c + 1) d ≡ true
    → covered (c + 1) (delete (c + 1) d) n ≡ covered c d n
step-covered c d n h = elim (Bool-cases (n == c + 1)) [
  | inl same ↦ ground (arith, mem-delete n (c + 1) d, (==_iff n (c + 1)).0 same)
  | inr other ↦ ground (arith, mem-delete n (c + 1) d)
]

pub advance-covered :
    (fuel c : ℕ) (d : List ℕ) (n : ℕ)
    → covered (advance fuel c d).0 (advance fuel c d).1 n ≡ covered c d n
unfolding advance
advance-covered zero c d n = refl
advance-covered (suc fuel) c d n = elim (Bool-cases (mem (c + 1) d)) [
  | inl next ↦ rw next (advance-covered fuel (c + 1) (delete (c + 1) d) n ∙ step-covered c d n next)
  | inr stop ↦ rw stop
]

-- With the size of the set as fuel the loop ends by its own test.
pub advance-stops :
    (fuel c : ℕ) (d : List ℕ)
    → length d ≤ fuel
    → mem ((advance fuel c d).0 + 1) (advance fuel c d).1 ≡ false
unfolding advance
advance-stops zero c [] h = unfold mem in refl
advance-stops zero c (m ∷ d) h = absurd (omega arith)
advance-stops (suc fuel) c d h = elim (Bool-cases (mem (c + 1) d)) [
  | inl next ↦
      rw next (
        advance-stops fuel (c + 1) (delete (c + 1) d) (omega (arith, length-delete (c + 1) d next)))
  | inr stop ↦ rw stop stop
]

-- Marking a notification complete makes exactly that one processed.
pub already_processed-mark :
    (n : Notifications) (seq m : ℕ)
    → notification_already_processed (mark_notification_complete n seq) m
      ≡ (m == seq || notification_already_processed n m)
unfolding notification_already_processed mark_notification_complete mem
already_processed-mark n seq m =
    advance-covered (suc (length n.done_early)) n.completed (seq ∷ n.done_early) m ∙ reorder
  where
    reorder :
        covered n.completed (seq ∷ n.done_early) m
        ≡ (m == seq || covered n.completed n.done_early m)
    reorder = ground arith

-- The watermark is not left below a number that is processed already.
pub mark_notification_complete-stops :
    (n : Notifications) (seq : ℕ)
    → let n' = mark_notification_complete n seq in mem (n'.completed + 1) n'.done_early ≡ false
unfolding mark_notification_complete
mark_notification_complete-stops n seq =
    advance-stops (suc (length n.done_early)) n.completed (seq ∷ n.done_early) (omega arith)
