-- ===== src/Connection/Batch/Slots.antt =====
-- connection.go, batchReply: a batch is written once, with one reply for each entry that needs one.
use acp_go_sdk.Base.{
  ℕ, zero, suc, ◌+◌, ◌-◌, ◌≤◌, ◌<◌, ◌≡◌, refl, sym, ap, ◌∙◌, ◌⊎◌, inl, inr, Bool, true, false, ◌||◌,
  List, [], ◌∷◌, length, leb, ◌==◌, set, get_or, replicate, arith, Bool-cases, length-set,
  length-replicate, subst,
}
use acp_go_sdk.Message.{AnyMessage, no_message}
use acp_go_sdk.Connection.Batch.{BatchReply, collector, complete_reply, one_if, complete_all}

unfoldable pub count_open : List Bool → ℕ
count_open [] = 0
count_open (true ∷ ps) = count_open ps
count_open (false ∷ ps) = count_open ps + 1

pub record IsBatch (b : BatchReply) : Type 0 where
  pub counted : b.remaining ≡ count_open b.present
  pub same_length : length b.present ≡ length b.replies

count_open-set :
    (ps : List Bool) (i : ℕ)
    → get_or ps i true ≡ false
    → count_open (set ps i true) + 1 ≡ count_open ps
unfolding count_open
count_open-set [] i h = absurd cc
count_open-set (true ∷ ps) zero h = absurd cc
count_open-set (false ∷ ps) zero h = refl
count_open-set (true ∷ ps) (suc i) h = count_open-set ps i h
count_open-set (false ∷ ps) (suc i) h = omega (arith, count_open-set ps i h)

get_or-set_self : (ps : List Bool) (i : ℕ) → get_or (set ps i true) i true ≡ true
get_or-set_self [] i = refl
get_or-set_self (p ∷ ps) zero = refl
get_or-set_self (p ∷ ps) (suc i) = get_or-set_self ps i

get_or-set_kept :
    (ps : List Bool) (i j : ℕ) → get_or ps j true ≡ true → get_or (set ps i true) j true ≡ true
get_or-set_kept [] i j h = refl
get_or-set_kept (p ∷ ps) zero zero h = refl
get_or-set_kept (p ∷ ps) zero (suc j) h = h
get_or-set_kept (p ∷ ps) (suc i) zero h = h
get_or-set_kept (p ∷ ps) (suc i) (suc j) h = get_or-set_kept ps i j h

get_or-beyond : (ps : List Bool) (i : ℕ) → length ps ≤ i → get_or ps i true ≡ true
get_or-beyond [] i h = refl
get_or-beyond (p ∷ ps) zero h = absurd (omega arith)
get_or-beyond (p ∷ ps) (suc i) h = get_or-beyond ps i (omega arith)

open_none : (ps : List Bool) → ((j : ℕ) → get_or ps j true ≡ true) → count_open ps ≡ 0
unfolding count_open
open_none [] h = refl
open_none (true ∷ ps) h = open_none ps (λ j. h (suc j))
open_none (false ∷ ps) h = absurd (ground (arith, h 0))

-- The calls that change nothing, and those that fill a slot.
pub record Filled (b : BatchReply) (i : ℕ) (msg : AnyMessage) : Type 0 where
  pub was_open : get_or b.present i true ≡ false
  pub in_range : i < length b.replies
  pub result : complete_reply b i msg ≡ (
    record {
      remaining = b.remaining - 1;
      replies = set b.replies i msg;
      present = set b.present i true;
    },
    b.remaining - 1 == 0,
  )

pub complete_reply-cases :
    (b : BatchReply) (i : ℕ) (msg : AnyMessage)
    → (complete_reply b i msg ≡ (b, false)) ⊎ Filled b i msg
unfolding complete_reply
complete_reply-cases b i msg =
    elim (Bool-cases (leb (length b.replies) i || get_or b.present i true)) [
      | inl full ↦ inl (rw full refl)
      | inr free ↦ inr (record {
        was_open = ground (arith, free);
        in_range = ground (arith, free);
        result = rw free refl;
      })
    ]

pub complete_reply-IsBatch :
    (b : BatchReply) (i : ℕ) (msg : AnyMessage) → IsBatch b → IsBatch (complete_reply b i msg).0
complete_reply-IsBatch b i msg v = elim (complete_reply-cases b i msg) [
  | inl same ↦ subst IsBatch {x = b} (sym (ap (λ x. x.0) same)) v
  | inr filled ↦ rw filled.result (record {
    counted = omega (arith, v.counted, count_open-set b.present i filled.was_open);
    same_length = length-set b.present i true ∙ v.same_length ∙ sym (length-set b.replies i msg);
  })
]

-- One call writes the batch exactly if it brings the number of open slots to 0.
complete_reply-flush :
    (b : BatchReply) (i : ℕ) (msg : AnyMessage)
    → IsBatch b
    → one_if (complete_reply b i msg).1 + one_if (b.remaining == 0)
      ≡ one_if ((complete_reply b i msg).0.remaining == 0)
complete_reply-flush b i msg v = elim (complete_reply-cases b i msg) [
  | inl same ↦ rw same (omega arith)
  | inr filled ↦
      let some_open : 0 < b.remaining =
        omega (arith, v.counted, count_open-set b.present i filled.was_open) in
      rw filled.result (ground (arith, some_open))
]

-- In any order of calls, the batch is written as often as the number of open slots comes to 0.
pub complete_all-flushes :
    (b : BatchReply) (calls : List (ℕ × AnyMessage))
    → IsBatch b
    → (complete_all b calls).1 + one_if (b.remaining == 0)
      ≡ one_if ((complete_all b calls).0.remaining == 0)
unfolding complete_all
complete_all-flushes b [] v = omega arith
complete_all-flushes b ((i, msg) ∷ calls) v =
    let b1 = (complete_reply b i msg).0 in
    omega (
      arith,
      complete_reply-flush b i msg v,
      complete_all-flushes b1 calls (complete_reply-IsBatch b i msg v),
    )

pub complete_all-IsBatch :
    (b : BatchReply) (calls : List (ℕ × AnyMessage)) → IsBatch b → IsBatch (complete_all b calls).0
unfolding complete_all
complete_all-IsBatch b [] v = v
complete_all-IsBatch b ((i, msg) ∷ calls) v =
    complete_all-IsBatch (complete_reply b i msg).0 calls (complete_reply-IsBatch b i msg v)

-- A slot that has a reply.
abbrev pub has_reply : BatchReply → ℕ → Bool
has_reply b j = get_or b.present j true

pub complete_reply-kept :
    (b : BatchReply) (i j : ℕ) (msg : AnyMessage)
    → has_reply b j ≡ true
    → has_reply (complete_reply b i msg).0 j ≡ true
complete_reply-kept b i j msg h = elim (complete_reply-cases b i msg) [
  | inl same ↦ rw same h
  | inr filled ↦ rw filled.result (get_or-set_kept b.present i j h)
]

pub complete_reply-fills :
    (b : BatchReply) (i : ℕ) (msg : AnyMessage)
    → IsBatch b
    → has_reply (complete_reply b i msg).0 i ≡ true
unfolding complete_reply
complete_reply-fills b i msg v = elim (Bool-cases (get_or b.present i true)) [
  | inl old ↦ complete_reply-kept b i i msg old
  | inr free ↦ elim (Bool-cases (leb (length b.replies) i)) [
    | inl out ↦
        absurd
          (ground (arith, get_or-beyond b.present i (ground (arith, out, v.same_length)), free))
    | inr slot ↦ rw (slot, free) (get_or-set_self b.present i)
  ]
]

complete_all-kept :
    (b : BatchReply) (j : ℕ) (calls : List (ℕ × AnyMessage))
    → has_reply b j ≡ true
    → has_reply (complete_all b calls).0 j ≡ true
unfolding complete_all
complete_all-kept b j [] h = h
complete_all-kept b j ((i, msg) ∷ calls) h =
    complete_all-kept (complete_reply b i msg).0 j calls (complete_reply-kept b i j msg h)

unfoldable pub answers : ℕ → List (ℕ × AnyMessage) → Bool
answers j [] = false
answers j ((i, msg) ∷ calls) = i == j || answers j calls

complete_all-answered :
    (b : BatchReply) (j : ℕ) (calls : List (ℕ × AnyMessage))
    → IsBatch b
    → answers j calls ≡ true
    → has_reply (complete_all b calls).0 j ≡ true
unfolding complete_all answers
complete_all-answered b j [] v h = absurd cc
complete_all-answered b j ((i, msg) ∷ calls) v h = elim (Bool-cases (i == j)) [
  | inl here ↦ complete_all-kept (complete_reply b i msg).0 j calls (
      subst (λ k. has_reply (complete_reply b i msg).0 k ≡ true) (ground (arith, here))
        (complete_reply-fills b i msg v))
  | inr later ↦
      complete_all-answered (complete_reply b i msg).0 j calls (complete_reply-IsBatch b i msg v)
        (ground arith)
]

beyond : (n j : ℕ) → n ≤ j → has_reply (collector n) j ≡ true
beyond n j h = get_or-beyond (replicate n false) j (omega (arith, length-replicate n false))

count_open-replicate : (n : ℕ) → count_open (replicate n false) ≡ n
unfolding count_open
count_open-replicate zero = refl
count_open-replicate (suc n) = omega (arith, count_open-replicate n)

pub collector-IsBatch : (n : ℕ) → IsBatch (collector n)
collector-IsBatch n = record {
  counted = sym (count_open-replicate n);
  same_length = length-replicate n false ∙ sym (length-replicate n no_message);
}

-- If every slot of a batch is answered, in any order and however often, then the batch is written
-- exactly once.
pub complete_all_once :
    (n : ℕ) (calls : List (ℕ × AnyMessage))
    → 0 < n
    → ((j : ℕ) → j < n → answers j calls ≡ true)
    → (complete_all (collector n) calls).1 ≡ 1
complete_all_once n calls some_slot all =
    let v = collector-IsBatch n in
    let full : ((j : ℕ) → has_reply (complete_all (collector n) calls).0 j ≡ true) = λ j.
      elim (Bool-cases (leb n j)) [
        | inl out ↦ complete_all-kept (collector n) j calls (beyond n j (ground (arith, out)))
        | inr slot ↦ complete_all-answered (collector n) j calls v (all j (ground (arith, slot)))
      ] in
    let closed : (complete_all (collector n) calls).0.remaining ≡ 0 =
      (complete_all-IsBatch (collector n) calls v).counted ∙ open_none _ full in
    ground (arith, complete_all-flushes (collector n) calls v, closed, some_slot)
