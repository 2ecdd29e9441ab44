-- ===== src/Strategy/Tests.antt =====
-- A strategy on short runs of messages.
use message_router.Base.{◌≡◌, ◌↔◌, refl, List, [], ◌∷◌, arith, add64, iterate}
use message_router.Base.Assoc.{find, insert}
use message_router.Message.{Message}
use message_router.Queue.Fifo
use message_router.Strategy.{new_strategy, process_message, popping, loop_step}
use message_router.Strategy.History.{
  process, Records, onto, process_counts, Consecutive, no_violations_iff, spurious_violation,
}
use message_router.Samples.{msg, small_queue}
use message_router.Strategy.Drain.{drain, Drained}

-- Producer 0 sends types 0, 1, 0, with one counter.
abbrev alternating : List Message
alternating = msg 0 0 1 ∷ msg 1 0 2 ∷ msg 0 0 3 ∷ []

alternating_violations : (process (new_strategy 0) alternating).ordering_violations ≡ 1
unfolding process_message new_strategy find insert
alternating_violations = refl

-- One type, in order, from two producers.
abbrev orderly : List Message
orderly = msg 0 0 1 ∷ msg 0 1 1 ∷ msg 0 0 2 ∷ msg 0 1 2 ∷ []

process_counts_example : Records (onto [] alternating) (process (new_strategy 0) alternating)
process_counts_example = process_counts 0 alternating

no_violations_iff_example :
    ((process (new_strategy 0) orderly).ordering_violations ≡ 0) ↔ Consecutive (onto [] orderly)
no_violations_iff_example = no_violations_iff 0 orderly (omega arith)

spurious_violation_example :
    (process (new_strategy 0) alternating).ordering_violations
    ≡ add64 (process (new_strategy 0) (msg 0 0 1 ∷ msg 1 0 2 ∷ [])).ordering_violations 1
spurious_violation_example =
    spurious_violation (new_strategy 0) (msg 0 0 1) (msg 0 0 3) (msg 1 0 2 ∷ []) refl
      ((λ e. cc), tt) (omega arith) refl (omega arith)

-- A queue that holds `alternating`.
abbrev filled : small_queue.Q
filled =
    (small_queue.push
      (small_queue.push (small_queue.push small_queue.new (msg 0 0 1)).1 (msg 1 0 2)).1
      (msg 0 0 3)).1

drain_example :
    Drained small_queue
      (new_strategy 0)
      alternating
      (iterate 4 (loop_step small_queue) (new_strategy 0, popping, filled))
unfolding Fifo.push
drain_example = drain small_queue alternating (new_strategy 0) filled refl
