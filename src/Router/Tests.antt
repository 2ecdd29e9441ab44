-- ===== src/Router/Tests.antt =====
-- A router with one input queue and one output queue.
use message_router.Base.{ℕ, ◌<◌, ◌≤◌, refl, [], ◌∷◌, suc, iterate, length, true}
use message_router.Message.{Message, MessageType, new_message}
use message_router.Lifecycle.{Life, joinable}
use message_router.Samples.{small_queue}
use message_router.Queue.Defs
use message_router.Queue.Fifo
use message_router.Router.{
  new_router, checking, sending, pop_at, push_at, max_retries, State, loop_step,
}
use message_router.Router.Handling.{Run, begin, own, others, Accounted, each_handled}
use message_router.Router.Retry.{Sent, GaveUp, send_or_give_up}
use message_router.Base.{replicate, List}
use message_router.Config.{validate, get_processor_for_message, get_strategy_for_message}
use message_router.Samples.{baseline, baseline-InRange}
use message_router.Router.{stage1_step, stage2_step}
use message_router.Router.Targets.{Forwards, takes_to_target}

abbrev first : Message
first = new_message 0 0 1 0

abbrev second : Message
second = new_message 1 0 2 0

abbrev filled : small_queue.Q
filled = (small_queue.push (small_queue.push small_queue.new first).1 second).1

-- Types 0 and 1 go to the queues 0 and 1, of which the second does not exist.
abbrev choose : MessageType → ℕ
choose t = t

abbrev on : Life
on = record { running = true; thread = joinable }

-- The first message is popped and sent; the second is popped and is an error.
abbrev before : State small_queue
before = (record new_router { life = on }, checking, filled ∷ [], small_queue.new ∷ [])

begun : Run small_queue choose [] [] before
begun = others (begin (filled ∷ []) (small_queue.new ∷ [])) on (filled ∷ []) (small_queue.new ∷ [])

abbrev after : ℕ → State small_queue
after n = iterate n (loop_step small_queue choose) before

ran : Run small_queue choose (second ∷ first ∷ []) ((0, first) ∷ []) (after 4)
unfolding loop_step pop_at push_at Fifo.push Fifo.pop new_router Defs.try_push Defs.try_pop
    Defs.init
ran = own (own (own (own begun)))

each_handled_example :
    Accounted small_queue choose (second ∷ first ∷ []) ((0, first) ∷ []) (after 4)
each_handled_example =
    each_handled small_queue choose (second ∷ first ∷ []) ((0, first) ∷ []) (after 4) ran

send_or_give_up_example :
    ((length (small_queue.contents small_queue.new) < small_queue.room)
      → Sent small_queue new_router 0 0 first [] (filled ∷ []) (small_queue.new ∷ []) (
          loop_step small_queue choose
            (new_router, sending 0 first 0 0, filled ∷ [], small_queue.new ∷ [])))
    × ((small_queue.room ≤ length (small_queue.contents small_queue.new))
        → GaveUp small_queue new_router 0 (filled ∷ []) (small_queue.new ∷ []) (
            iterate
              (suc max_retries)
              (loop_step small_queue choose)
              (new_router, sending 0 first 0 0, filled ∷ [], small_queue.new ∷ [])))
send_or_give_up_example =
    send_or_give_up small_queue choose new_router 0 0 first (filled ∷ []) (small_queue.new ∷ [])
      small_queue.new refl

abbrev eight : List small_queue.Q
eight = replicate 8 small_queue.new

takes_to_target_example :
    Forwards small_queue
      (stage1_step small_queue baseline)
      (get_processor_for_message baseline 0)
      new_router
      0
      first
      (second ∷ [])
      (filled ∷ [])
      eight
    × Forwards small_queue
        (stage2_step small_queue baseline)
        (get_strategy_for_message baseline 0)
        new_router
        0
        first
        (second ∷ [])
        (filled ∷ [])
        eight
unfolding validate Fifo.push Defs.try_push Defs.init
takes_to_target_example =
    takes_to_target small_queue baseline new_router 0 first (second ∷ []) filled (filled ∷ []) eight
      eight refl baseline-InRange refl refl refl refl
