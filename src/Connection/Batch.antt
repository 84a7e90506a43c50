-- ===== src/Connection/Batch.antt =====
-- connection.go, batchReply: the replies of a batch, which are written together once the last one
-- is there.
pub mod Slots
pub mod Replies
use acp_go_sdk.Base.{
  ℕ, suc, ◌+◌, ◌-◌, Bool, true, false, ◌||◌, List, [], ◌∷◌, Option, none, some, length, leb, ◌==◌,
  if◌then◌else◌, set, get_or, replicate,
}
use acp_go_sdk.Message.{AnyMessage, no_message}

pub record BatchReply : Type 0 where
  pub remaining : ℕ
  pub replies : List AnyMessage
  pub present : List Bool

-- dispatchBatch, its first loop: the slot of each entry that needs a reply, from `count` on.
unfoldable pub reply_indexes : ℕ → List Bool → List (Option ℕ)
reply_indexes count [] = []
reply_indexes count (true ∷ es) = some count ∷ reply_indexes (count + 1) es
reply_indexes count (false ∷ es) = none ∷ reply_indexes count es

unfoldable pub reply_count : List Bool → ℕ
reply_count [] = 0
reply_count (true ∷ es) = suc (reply_count es)
reply_count (false ∷ es) = reply_count es

-- The collector that dispatchBatch makes.
abbrev pub collector : ℕ → BatchReply
collector count = record {
  remaining = count;
  replies = replicate count no_message;
  present = replicate count false;
}

-- complete, its critical section; the flag says that the batch is to be written.
unfoldable pub complete_reply : BatchReply → ℕ → AnyMessage → BatchReply × Bool
complete_reply b index msg =
    if leb (length b.replies) index || get_or b.present index true then (b, false) else (
      record {
        remaining = b.remaining - 1;
        replies = set b.replies index msg;
        present = set b.present index true;
      },
      b.remaining - 1 == 0,
    )

abbrev pub one_if : Bool → ℕ
one_if true = 1
one_if false = 0

-- The calls of `complete` in the order in which they get the mutex, and how many of them write the
-- batch.
unfoldable pub complete_all : BatchReply → List (ℕ × AnyMessage) → BatchReply × ℕ
complete_all b [] = (b, 0)
complete_all b ((i, msg) ∷ calls) =
    let (b1, flush) = complete_reply b i msg in
    let (b2, flushes) = complete_all b1 calls in (b2, one_if flush + flushes)
