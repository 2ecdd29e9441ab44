-- ===== src/Processor/Tests.antt =====
-- A processor that takes a message and sends it.
use message_router.Base.{ℕ, [], ◌∷◌, iterate, true}
use message_router.Message.{Message, new_message}
use message_router.Lifecycle.{Life, joinable}
use message_router.Samples.{small_queue}
use message_router.Queue.Defs
use message_router.Queue.Fifo
use message_router.Processor.{new_processor, simulate_processing, checking, State, loop_step}
use message_router.Processor.Handling.{Run, begin, own, others, Accounted, each_processed}
use message_router.Base.{◌<◌, ◌≤◌, ◌++◌, length, suc}
use message_router.Processor.{sending, max_retries, count_processed}
use message_router.Processor.Retry.{Popping, send_or_drop}

abbrev first : Message
first = new_message 0 0 1 0

abbrev filled : small_queue.Q
filled = (small_queue.push small_queue.new first).1

abbrev on : Life
on = record { running = true; thread = joinable }

abbrev before : State small_queue
before = (record (new_processor 7) { life = on }, checking, filled, small_queue.new)

-- The clock stands at 50.
abbrev after : ℕ → State small_queue
after n = iterate n (loop_step small_queue 50) before

abbrev sent_one : Message
sent_one = simulate_processing 7 50 first

ran : Run small_queue 7 (first ∷ []) (sent_one ∷ []) (after 3)
unfolding loop_step Fifo.push Fifo.pop new_processor simulate_processing Defs.try_push Defs.try_pop
    Defs.init
ran = own 50 (own 50 (own 50 (others (begin filled small_queue.new) on filled small_queue.new)))

each_processed_example : Accounted small_queue 7 (first ∷ []) (sent_one ∷ []) (after 3)
each_processed_example = each_processed small_queue 7 (first ∷ []) (sent_one ∷ []) (after 3) ran

send_or_drop_example :
    ((length (small_queue.contents small_queue.new) < small_queue.room)
      → Popping small_queue
          (count_processed (new_processor 7))
          filled
          (small_queue.contents small_queue.new ++ (first ∷ []))
          (loop_step small_queue 50 (new_processor 7, sending first 0, filled, small_queue.new)))
    × ((small_queue.room ≤ length (small_queue.contents small_queue.new))
        → Popping small_queue (new_processor 7) filled (small_queue.contents small_queue.new) (
            iterate
              (suc max_retries)
              (loop_step small_queue 50)
              (new_processor 7, sending first 0, filled, small_queue.new)))
send_or_drop_example = send_or_drop small_queue 50 (new_processor 7) first filled small_queue.new
