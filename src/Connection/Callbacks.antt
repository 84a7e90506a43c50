-- ===== src/Connection/Callbacks.antt =====
-- connection.go: the callbacks that run after a batch was written, and the slots that are reserved
-- for them.
use acp_go_sdk.Base.{
  inl, inr, ℕ, suc, ◌+◌, ◌-◌, ◌≤◌, ◌<◌, ◌≡◌, refl, ap, Bool, true, false, List, [], ◌∷◌, ◌++◌,
  Option, none, some, length, ltb, if◌then◌else◌, arith, Bool-cases,
}

-- The channels batchCallbackSlots, by its length, and batchCallbackQueue, of one capacity; and what
-- the goroutines hold: the callbacks that handlers have registered and not yet handed over, those in
-- the completions of collectors, and those that the worker runs.
pub record Callbacks (C : Type 0) : Type 0 where
  pub capacity : ℕ
  pub slots : ℕ
  pub queue : List C
  pub registered : ℕ
  pub collected : ℕ
  pub running : ℕ

abbrev pub no_callbacks : {C : Type 0} → ℕ → Callbacks C
no_callbacks capacity = record {
  capacity = capacity;
  slots = 0;
  queue = [];
  registered = 0;
  collected = 0;
  running = 0;
}

pub data ReserveError (E : Type 0) : Type 0 where
  connection_ended : E → ReserveError E
  queue_full : ReserveError E

module _ {C : Type 0} where
  -- reserveBatchCallback, called by `add`, which then keeps the callback; the cause is that of a
  -- connection that has ended.
  unfoldable pub reserve_batch_callback :
      {E : Type 0} → Callbacks C → Option E → Callbacks C × Option (ReserveError E)
  reserve_batch_callback s (some cause) = (s, some (connection_ended cause))
  reserve_batch_callback s none =
      if ltb s.slots s.capacity
      then (record s { slots = s.slots + 1; registered = s.registered + 1 }, none)
      else (s, some queue_full)

  -- handleInbound, where the handler failed: its callback is dropped, the slot received.
  abbrev pub drop_callback : Callbacks C → Callbacks C
  drop_callback s = record s { slots = s.slots - 1; registered = s.registered - 1 }

  -- batchReply.complete, its completions.
  abbrev pub collect_callback : Callbacks C → Callbacks C
  collect_callback s = record s { registered = s.registered - 1; collected = s.collected + 1 }

  -- batchReply.complete, one turn of its last loop: `written` says that the batch was written.
  unfoldable pub release_callback : Callbacks C → C → Bool → Callbacks C
  release_callback s callback true = record s {
    queue = s.queue ++ callback ∷ [];
    collected = s.collected - 1;
  }
  release_callback s callback false = record s { slots = s.slots - 1; collected = s.collected - 1 }

  -- The worker receives a callback, and receives its slot once it has run.
  unfoldable pub take_callback : Callbacks C → List C → Callbacks C
  take_callback s rest = record s { queue = rest; running = s.running + 1 }

  abbrev pub end_callback : Callbacks C → Callbacks C
  end_callback s = record s { slots = s.slots - 1; running = s.running - 1 }

  -- Steps of handlers, collectors and the worker. Each but the first is of a goroutine that holds
  -- the callback.
  pub data Reach (capacity : ℕ) : Callbacks C → Type 1 where
    empty : Reach capacity (no_callbacks capacity)
    reserves :
        {E : Type 0} {s : Callbacks C} (cause : Option E)
        → Reach capacity s
        → Reach capacity (reserve_batch_callback s cause).0
    drops :
        {s : Callbacks C} → 1 ≤ s.registered → Reach capacity s → Reach capacity (drop_callback s)
    collects :
        {s : Callbacks C}
        → 1 ≤ s.registered
        → Reach capacity s
        → Reach capacity (collect_callback s)
    releases :
        {s : Callbacks C} (callback : C) (written : Bool)
        → 1 ≤ s.collected
        → Reach capacity s
        → Reach capacity (release_callback s callback written)
    takes :
        {s : Callbacks C} {callback : C} {rest : List C}
        → s.queue ≡ callback ∷ rest
        → Reach capacity s
        → Reach capacity (take_callback s rest)
    ends : {s : Callbacks C} → 1 ≤ s.running → Reach capacity s → Reach capacity (end_callback s)

  -- Every slot taken belongs to one callback.
  pub record IsBalanced (capacity : ℕ) (s : Callbacks C) : Type 0 where
    pub same_capacity : s.capacity ≡ capacity
    pub is_within : s.slots ≤ capacity
    pub is_sum : s.slots ≡ s.registered + s.collected + length s.queue + s.running

  length-append_callback : (xs : List C) (x : C) → length (xs ++ x ∷ []) ≡ suc (length xs)
  length-append_callback [] x = refl
  length-append_callback (y ∷ xs) x = ap suc (length-append_callback xs x)

  Reach-IsBalanced : {capacity : ℕ} {s : Callbacks C} → Reach capacity s → IsBalanced capacity s
  unfolding reserve_batch_callback release_callback take_callback
  Reach-IsBalanced empty = record {
    same_capacity = refl;
    is_within = omega arith;
    is_sum = omega arith;
  }
  Reach-IsBalanced (reserves (some cause) r) = Reach-IsBalanced r
  Reach-IsBalanced (reserves {s = s} none r) =
      let b = Reach-IsBalanced r in
      elim (Bool-cases (ltb s.slots s.capacity)) [
        | inr full ↦ rw full b
        | inl free ↦ rw free (record {
          same_capacity = b.same_capacity;
          is_within = ground (arith, free, b.same_capacity);
          is_sum = omega (arith, b.is_sum);
        })
      ]
  Reach-IsBalanced (drops held r) =
      let b = Reach-IsBalanced r in
      record {
        same_capacity = b.same_capacity;
        is_within = omega (arith, b.is_within);
        is_sum = omega (arith, b.is_sum, held);
      }
  Reach-IsBalanced (collects held r) =
      let b = Reach-IsBalanced r in
      record {
        same_capacity = b.same_capacity;
        is_within = b.is_within;
        is_sum = omega (arith, b.is_sum, held);
      }
  Reach-IsBalanced (releases {s = s} callback true held r) =
      let b = Reach-IsBalanced r in
      record {
        same_capacity = b.same_capacity;
        is_within = b.is_within;
        is_sum = omega (arith, b.is_sum, held, length-append_callback s.queue callback);
      }
  Reach-IsBalanced (releases callback false held r) =
      let b = Reach-IsBalanced r in
      record {
        same_capacity = b.same_capacity;
        is_within = omega (arith, b.is_within);
        is_sum = omega (arith, b.is_sum, held);
      }
  Reach-IsBalanced (takes first r) =
      let b = Reach-IsBalanced r in
      record {
        same_capacity = b.same_capacity;
        is_within = b.is_within;
        is_sum = omega (arith, b.is_sum, ap length first);
      }
  Reach-IsBalanced (ends held r) =
      let b = Reach-IsBalanced r in
      record {
        same_capacity = b.same_capacity;
        is_within = omega (arith, b.is_within);
        is_sum = omega (arith, b.is_sum, held);
      }

  -- While a collector holds a callback, its channel operations do not block: the queue has room for
  -- the callback, and a slot is there to be received.
  pub collected-ready :
      {capacity : ℕ} {s : Callbacks C}
      → Reach capacity s
      → 1 ≤ s.collected
      → (length s.queue < s.capacity) × (1 ≤ s.slots)
  collected-ready r held =
      let b = Reach-IsBalanced r in
      (omega (arith, b.is_sum, b.is_within, b.same_capacity, held), omega (arith, b.is_sum, held))
