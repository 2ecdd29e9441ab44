-- ===== src/Pipeline/Shared/Tests.antt =====
-- A run of one producer, one processor and one strategy in which two calls overlap.
use native.Mathlib.Decide.{ℕ_discrete}
use message_router.Base.{ℕ, true, ◌≡◌, refl, ◌++◌, arith}
use message_router.Message.{Message}
use message_router.Producer
use message_router.Router
use message_router.Queue.Defs.{init}
use message_router.Queue.Threads
use message_router.Queue.Threads.{System, push_call, push_room, pop_call, pop_empty}
use message_router.Queue.Network.{SharedSteps, here, alone, at_queue}
use message_router.Pipeline.{started, Steps}
use message_router.Samples.{tiny}
use message_router.Lifecycle.{Life, joinable}
use message_router.Pipeline.Shared.{
  Thread, producer_thread, stage1_thread, QueueName, producer_queue, Place, list_api, threads,
  discrete_thread, discrete_queue,
}
use message_router.Pipeline.Shared.Views.{State, place, queue}
use message_router.Pipeline.Shared.Refines.{places_begun, SharedSteps-Pipeline}

abbrev on : Life
on = record { running = true; thread = joinable }

abbrev begun : ℕ → ℕ
begun i = 0

abbrev clocks : ℕ → ℕ → ℕ
clocks i n = n

abbrev blank : Message
blank = Producer.make (Producer.new_producer 0) 0 0

abbrev Reached : Type 0
Reached =
    (cs : Thread → Place) × (qs : QueueName → System Message) × SharedSteps (threads tiny 100) 2
      (places_begun tiny 2 100 begun clocks) (λ j. Threads.started 2 blank) cs qs

-- The producer makes a message and begins to push it, and the router looks at the queue meanwhile.
abbrev overlapped : Reached
unfolding Producer.new_producer Router.new_router init ℕ_discrete discrete_thread discrete_queue
overlapped = (
  _,
  _,
  at_queue (producer_queue 0) _
      (at_queue (producer_queue 0) _
        (at_queue (producer_queue 0) _
          (alone stage1_thread _
            (at_queue (producer_queue 0) _
              (alone (producer_thread 0) _
                (alone (producer_thread 0) _ here refl (on, 5, 0, omega arith, refl)) refl
                (on, 5, 0, omega arith, refl))
              (push_call _ refl) refl)
            refl (on, refl))
          (pop_call refl) refl)
        (push_room _ 0 refl (λ e. absurd (omega arith))) tt)
      (pop_empty 0 refl refl) tt,
)

SharedSteps-Pipeline_example :
    (s : State) × (clocks' : ℕ → ℕ → ℕ) × Steps
      (list_api 2)
      tiny
      100
      (started (list_api 2) tiny begun)
      s
    × ((t : Thread) → overlapped.0 t ≡ place clocks' s t)
    × ((j : QueueName) → (overlapped.1 j).sent ≡ (overlapped.1 j).received ++ queue s j)
SharedSteps-Pipeline_example =
    SharedSteps-Pipeline tiny 2 100 begun blank clocks (omega arith) (overlapped.2)
