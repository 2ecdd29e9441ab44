-- ===== src/Producer/Tests.antt =====
-- A producer that makes a message and sends it.
use message_router.Base.{ℕ, ◌≡◌, refl, [], ◌∷◌, some, arith, iterate, true}
use message_router.Base.Int.{pos}
use message_router.Message.{Message, new_message}
use message_router.Lifecycle.{Life, joinable}
use message_router.Samples.{small_queue}
use message_router.Queue.Defs
use message_router.Queue.Fifo
use message_router.Producer.{new_producer, interval_of, checking, State, loop_step}
use message_router.Producer.Handling.{Run, begin, own, others, Accounted, each_made}

-- 3000 messages per second.
interval_3000 : interval_of (pos 3000) ≡ some 333333
unfolding interval_of
interval_3000 = refl

abbrev on : Life
on = record { running = true; thread = joinable }

abbrev before : State small_queue
before = (record (new_producer 5) { life = on }, checking, 100, small_queue.new)

-- The clock stands at 110, and the type drawn is 2.
abbrev after : ℕ → State small_queue
after n = iterate n (loop_step small_queue 333333 110 2) before

abbrev sent_one : Message
sent_one = new_message 2 5 1 110

ran : Run small_queue 5 333333 100 (sent_one ∷ []) (sent_one ∷ []) (after 3)
unfolding loop_step Fifo.push new_producer Defs.try_push Defs.init
ran = own 110 2 (omega arith) (
    own 110 2 (omega arith)
      (own 110 2 (omega arith) (others (begin small_queue.new) on small_queue.new)))

each_made_example : Accounted small_queue 5 333333 100 (sent_one ∷ []) (sent_one ∷ []) (after 3)
each_made_example = each_made small_queue 5 333333 100 (sent_one ∷ []) (sent_one ∷ []) (after 3) ran
