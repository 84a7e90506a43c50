-- ===== src/Tests/Batch.antt =====
-- A batch of three entries, two of which need a reply.
use acp_go_sdk.Base.{
  none, Option, length, ℕ, zero, suc, ◌<◌, ◌≤◌, ◌≡◌, refl, true, List, [], ◌∷◌, some, get_elem?,
  arith,
}
use acp_go_sdk.Bytes.{codes}
use acp_go_sdk.Message.{AnyMessage, no_message}
use acp_go_sdk.Connection.Callbacks.{
  Callbacks, Reach, empty, reserves, collects, reserve_batch_callback, collected-ready,
}
use acp_go_sdk.Connection.Batch.{collector, complete_all}
use acp_go_sdk.Connection.Batch.Slots.{answers, complete_all_once}
use acp_go_sdk.Connection.Batch.Replies.{
  first_call, complete_all-replies, IsWritten, complete_all-IsWritten,
}

abbrev early_reply : AnyMessage
early_reply = record no_message { id = some (codes "1"); result = codes "true" }

abbrev late_reply : AnyMessage
late_reply = record no_message { id = some (codes "2"); result = codes "null" }

-- The second slot first, and once more.
abbrev calls : List (ℕ × AnyMessage)
calls = (1, late_reply) ∷ (0, early_reply) ∷ (1, early_reply) ∷ []

calls-answers : (j : ℕ) → j < 2 → answers j calls ≡ true
unfolding answers
calls-answers zero h = refl
calls-answers (suc zero) h = refl
calls-answers (suc (suc j)) h = absurd (omega arith)

complete_all_once_example : (complete_all (collector 2) calls).1 ≡ 1
complete_all_once_example = complete_all_once 2 calls (omega arith) calls-answers

complete_all-IsWritten_example : IsWritten 2 calls (complete_all (collector 2) calls)
complete_all-IsWritten_example = complete_all-IsWritten 2 calls

complete_all-replies_example :
    get_elem? (complete_all (collector 2) calls).0.replies 1 ≡ some late_reply
unfolding first_call
complete_all-replies_example = complete_all-replies 2 calls 1 (omega arith) refl

-- A handler registers a callback, and its response goes to the collector.
abbrev one_collected : Callbacks ℕ
one_collected = record {
  capacity = 1;
  slots = 1;
  queue = [];
  registered = 0;
  collected = 1;
  running = 0;
}

abbrev not_ended : Option ℕ
not_ended = none

one_collected-Reach : Reach 1 one_collected
unfolding reserve_batch_callback
one_collected-Reach = collects (omega arith) (reserves not_ended empty)

collected-ready_example :
    (length one_collected.queue < one_collected.capacity) × (1 ≤ one_collected.slots)
collected-ready_example = collected-ready one_collected-Reach (omega arith)
