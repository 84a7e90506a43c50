-- ===== src/Connection/Batch/Replies.antt =====
-- connection.go, batchReply: which reply each entry of a batch gets.
use acp_go_sdk.Base.{
  leb, ◌⊎◌, ◌≤◌, ℕ, zero, suc, ◌+◌, ◌<◌, ◌≡◌, ◌≢◌, refl, sym, ap, ◌∙◌, inl, inr, Bool, true, false,
  List, [], ◌∷◌, Option, none, some, get_elem?, ◌==◌, if◌then◌else◌, set, get_or, arith, Bool-cases,
  subst, get_elem?-set_self, get_elem?-set_ne,
}
use acp_go_sdk.Message.{AnyMessage}
use acp_go_sdk.Connection.Batch.{
  BatchReply, reply_indexes, reply_count, collector, complete_reply, complete_all,
}
use acp_go_sdk.Connection.Batch.Slots.{
  complete_all-IsBatch, count_open, complete_all-flushes, IsBatch, has_reply, complete_reply-cases,
  complete_reply-IsBatch, complete_reply-fills, complete_reply-kept, collector-IsBatch,
}

-- The first call that answers the slot `j`.
unfoldable pub first_call : ℕ → List (ℕ × AnyMessage) → Option AnyMessage
first_call j [] = none
first_call j ((i, msg) ∷ calls) = if i == j then some msg else first_call j calls

get_or-set_ne :
    (ps : List Bool) {i j : ℕ} → i ≢ j → get_or (set ps i true) j true ≡ get_or ps j true
get_or-set_ne [] h = refl
get_or-set_ne (p ∷ ps) {i = zero} {j = zero} h = absurd (h refl)
get_or-set_ne (p ∷ ps) {i = zero} {j = suc j} h = refl
get_or-set_ne (p ∷ ps) {i = suc i} {j = zero} h = refl
get_or-set_ne (p ∷ ps) {i = suc i} {j = suc j} h = get_or-set_ne ps (λ e. h (ap suc e))

-- A reply that is there is not overwritten.
complete_reply-reply_kept :
    (b : BatchReply) (i j : ℕ) (msg : AnyMessage)
    → has_reply b j ≡ true
    → get_elem? (complete_reply b i msg).0.replies j ≡ get_elem? b.replies j
complete_reply-reply_kept b i j msg h = elim (complete_reply-cases b i msg) [
  | inl same ↦ rw same refl
  | inr filled ↦
      let other : i ≢ j = λ e. ground (arith, ap (has_reply b) e, filled.was_open, h) in
      rw filled.result (get_elem?-set_ne b.replies msg other)
]

complete_all-reply_kept :
    (b : BatchReply) (j : ℕ) (calls : List (ℕ × AnyMessage))
    → has_reply b j ≡ true
    → get_elem? (complete_all b calls).0.replies j ≡ get_elem? b.replies j
unfolding complete_all
complete_all-reply_kept b j [] h = refl
complete_all-reply_kept b j ((i, msg) ∷ calls) h =
    complete_all-reply_kept (complete_reply b i msg).0 j calls (complete_reply-kept b i j msg h)
    ∙ complete_reply-reply_kept b i j msg h

complete_reply-other :
    (b : BatchReply) {i j : ℕ} (msg : AnyMessage)
    → i ≢ j
    → has_reply b j ≡ false
    → has_reply (complete_reply b i msg).0 j ≡ false
complete_reply-other b {i} {j} msg ne h = elim (complete_reply-cases b i msg) [
  | inl same ↦ rw same h
  | inr filled ↦ rw filled.result (get_or-set_ne b.present ne ∙ h)
]

complete_reply-written :
    (b : BatchReply) (i : ℕ) (msg : AnyMessage)
    → IsBatch b
    → has_reply b i ≡ false
    → get_elem? (complete_reply b i msg).0.replies i ≡ some msg
complete_reply-written b i msg v h = elim (complete_reply-cases b i msg) [
  | inl same ↦
      absurd (ground (arith, complete_reply-fills b i msg v, ap (λ x. has_reply x.0 i) same, h))
  | inr filled ↦ rw filled.result (get_elem?-set_self b.replies i msg filled.in_range)
]

complete_all-first :
    (b : BatchReply) (j : ℕ) (calls : List (ℕ × AnyMessage)) {m : AnyMessage}
    → IsBatch b
    → has_reply b j ≡ false
    → first_call j calls ≡ some m
    → get_elem? (complete_all b calls).0.replies j ≡ some m
unfolding complete_all first_call
complete_all-first b j [] v h f = cc
complete_all-first b j ((i, msg) ∷ calls) {m} v h f = elim (Bool-cases (i == j)) [
  | inr other ↦
      complete_all-first (complete_reply b i msg).0 j calls (complete_reply-IsBatch b i msg v)
        (complete_reply-other b msg (λ e. ground (arith, other)) h) (ground arith)
  | inl this ↦
      let e : i ≡ j = ground (arith, this) in
      let open_i : has_reply b i ≡ false = subst (λ k. has_reply b k ≡ false) (sym e) h in
      subst (λ k. get_elem? (complete_all (complete_reply b i msg).0 calls).0.replies k ≡ some m) e
        (complete_all-reply_kept (complete_reply b i msg).0 i calls (complete_reply-fills b i msg v)
          ∙ complete_reply-written b i msg v open_i
          ∙ ground arith)
]

collector-open : (n j : ℕ) → j < n → has_reply (collector n) j ≡ false
collector-open zero j h = absurd (omega arith)
collector-open (suc n) zero h = refl
collector-open (suc n) (suc j) h = collector-open n j (omega arith)

-- Each slot of a batch keeps the first reply that is given for it, whatever is given later.
pub complete_all-replies :
    (n : ℕ) (calls : List (ℕ × AnyMessage)) (j : ℕ) {m : AnyMessage}
    → j < n
    → first_call j calls ≡ some m
    → get_elem? (complete_all (collector n) calls).0.replies j ≡ some m
complete_all-replies n calls j h f =
    complete_all-first (collector n) j calls (collector-IsBatch n) (collector-open n j h) f

-- A batch without an open slot has a reply in each.
closed-has_reply : (ps : List Bool) (j : ℕ) → count_open ps ≡ 0 → get_or ps j true ≡ true
unfolding count_open
closed-has_reply [] j h = refl
closed-has_reply (true ∷ ps) zero h = refl
closed-has_reply (true ∷ ps) (suc j) h = closed-has_reply ps j h
closed-has_reply (false ∷ ps) j h = absurd (omega arith)

-- A slot that no call answers stays open.
complete_all-unanswered :
    (b : BatchReply) (j : ℕ) (calls : List (ℕ × AnyMessage))
    → has_reply b j ≡ false
    → first_call j calls ≡ none
    → has_reply (complete_all b calls).0 j ≡ false
unfolding complete_all first_call
complete_all-unanswered b j [] h f = h
complete_all-unanswered b j ((i, msg) ∷ calls) h f = elim (Bool-cases (i == j)) [
  | inl this ↦ absurd (ground arith)
  | inr other ↦
      complete_all-unanswered (complete_reply b i msg).0 j calls
        (complete_reply-other b msg (λ e. ground (arith, other)) h) (ground arith)
]

-- A slot beyond the batch, or one that holds the first reply that was given for it.
abbrev pub HasFirst : ℕ → List (ℕ × AnyMessage) → List AnyMessage → ℕ → Type 0
HasFirst n calls replies j =
    (n ≤ j) ⊎ ((m : AnyMessage) × (first_call j calls ≡ some m) × (get_elem? replies j ≡ some m))

-- The batch is not written, or it is written once and every slot has its reply.
abbrev pub IsWritten : ℕ → List (ℕ × AnyMessage) → BatchReply × ℕ → Type 0
IsWritten n calls (b, flushes) =
    (flushes ≡ 0) ⊎ ((flushes ≡ 1) × ((j : ℕ) → HasFirst n calls b.replies j))

closed-HasFirst :
    (n : ℕ) (calls : List (ℕ × AnyMessage))
    → (complete_all (collector n) calls).0.remaining ≡ 0
    → (j : ℕ) → HasFirst n calls (complete_all (collector n) calls).0.replies j
closed-HasFirst n calls h j = elim (Bool-cases (leb n j)) [
  | inl out ↦ inl (ground (arith, out))
  | inr slot ↦ inr (by_first (first_call j calls) refl (ground (arith, slot)))
]
  where
    by_first :
        (found : Option AnyMessage)
        → first_call j calls ≡ found
        → j < n
        → (m : AnyMessage) × (first_call j calls ≡ some m)
          × (get_elem? (complete_all (collector n) calls).0.replies j ≡ some m)
    by_first (some m) e k = (m, e, complete_all-replies n calls j k e)
    by_first none e k =
        let b = (complete_all (collector n) calls).0 in
        let v = complete_all-IsBatch (collector n) calls (collector-IsBatch n) in
        absurd (
          ground (
            arith,
            complete_all-unanswered (collector n) j calls (collector-open n j k) e,
            closed-has_reply b.present j (sym v.counted ∙ h),
          ))

-- However often and in whatever order the slots are answered, the batch is written at most once,
-- and only when every slot has a reply, which is the first that was given for it.
pub complete_all-IsWritten :
    (n : ℕ) (calls : List (ℕ × AnyMessage)) → IsWritten n calls (complete_all (collector n) calls)
complete_all-IsWritten n calls =
    let e = complete_all-flushes (collector n) calls (collector-IsBatch n) in
    elim (Bool-cases ((complete_all (collector n) calls).1 == 0)) [
      | inl unwritten ↦ inl (ground (arith, unwritten))
      | inr written ↦
          inr (ground (arith, e, written), closed-HasFirst n calls (ground (arith, e, written)))
    ]

-- The slots that were given out, and the numbers from `lo` on.
abbrev pub given : List (Option ℕ) → List ℕ
given [] = []
given (none ∷ os) = given os
given (some i ∷ os) = i ∷ given os

abbrev pub numbers : ℕ → ℕ → List ℕ
numbers lo zero = []
numbers lo (suc n) = lo ∷ numbers (lo + 1) n

-- The entries of a batch that need a reply get the slots in order, each its own, as many as there
-- are slots.
pub reply_indexes-given :
    (count : ℕ) (es : List Bool) → given (reply_indexes count es) ≡ numbers count (reply_count es)
unfolding reply_indexes reply_count
reply_indexes-given count [] = refl
reply_indexes-given count (false ∷ es) = reply_indexes-given count es
reply_indexes-given count (true ∷ es) = ap (λ l. count ∷ l) (reply_indexes-given (count + 1) es)
