-- ===== src/Pipeline/Shared/Refines.antt =====
-- A run of the threads whose calls overlap reaches a state of `Pipeline`.
use message_router.Base.{
  ℕ, zero, suc, ◌<◌, ◌≡◌, refl, sym, ap, ◌∙◌, List, [], ◌++◌, get_elem?, replicate,
  length-replicate,
}
use message_router.Base.Int.{rounds}
use message_router.Config.{SystemConfig}
use message_router.Manager.Laws.{length-made}
use message_router.Message.{Message}
use message_router.Queue.Defs.{capacity}
use message_router.Queue.Threads
use message_router.Queue.Threads.{System}
use message_router.Queue.Network.{SharedSteps, AtomicSteps}
use message_router.Queue.Network.Atomic.{SharedSteps-AtomicSteps}
use message_router.Pipeline.{started, Steps, here}
use message_router.Pipeline.Shared.{
  Thread, QueueName, producer_queue, stage1_queue, processor_queue, stage2_queue, Place, list_api,
  threads,
}
use message_router.Pipeline.Shared.Views.{State, place, list_of, queue}
use message_router.Pipeline.Shared.Seen.{Seen}
use message_router.Pipeline.Shared.Cases.{alone_lem, pushes_lem, pops_lem}

all_empty : (n j : ℕ) → list_of (get_elem? (replicate n []) j) ≡ []
all_empty zero j = refl
all_empty (suc n) zero = refl
all_empty (suc n) (suc j) = all_empty n j

module _ {Double : Type 0} (config : SystemConfig Double) (k interval : ℕ) (begun : ℕ → ℕ) where
  -- Where the threads stand when start() has begun them.
  abbrev pub places_begun : (ℕ → ℕ → ℕ) → Thread → Place
  places_begun clocks = place clocks (started (list_api k) config begun)

  begun-Seen : (clocks : ℕ → ℕ → ℕ) → Seen config k interval begun (places_begun clocks) (λ j. [])
  begun-Seen clocks = record {
    state = started (list_api k) config begun;
    clocks = clocks;
    run = here;
    sizes = record {
      of_producers = length-made _ (rounds config.producers.count) 0;
      of_producer_queues = length-replicate (rounds config.producers.count) [];
      of_stage1_queues = length-replicate (rounds config.processors.count) [];
      of_processors = length-made _ (rounds config.processors.count) 0;
      of_processor_queues = length-replicate (rounds config.processors.count) [];
      of_stage2_queues = length-replicate (rounds config.strategies.count) [];
      of_strategies = length-made _ (rounds config.strategies.count) 0;
    };
    places = λ t. refl;
    queues = no_queue;
  }
    where
      no_queue : (j : QueueName) → [] ≡ queue (started (list_api k) config begun) j
      no_queue (producer_queue j) = sym (all_empty (rounds config.producers.count) j)
      no_queue (stage1_queue j) = sym (all_empty (rounds config.processors.count) j)
      no_queue (processor_queue j) = sym (all_empty (rounds config.processors.count) j)
      no_queue (stage2_queue j) = sym (all_empty (rounds config.strategies.count) j)

  AtomicSteps-Seen :
      (clocks : ℕ → ℕ → ℕ) {cs : Thread → Place} {ls : QueueName → List Message}
      → AtomicSteps (threads config interval) k (capacity k) (places_begun clocks) (λ j. []) cs ls
      → Seen config k interval begun cs ls
  AtomicSteps-Seen clocks AtomicSteps.here = begun-Seen clocks
  AtomicSteps-Seen clocks (AtomicSteps.alone i c run w m) =
      alone_lem config k interval begun (AtomicSteps-Seen clocks run) i c w m
  AtomicSteps-Seen clocks (AtomicSteps.pushes j x run w) =
      pushes_lem config k interval begun (AtomicSteps-Seen clocks run) j x w
  AtomicSteps-Seen clocks (AtomicSteps.pops j run w) =
      pops_lem config k interval begun (AtomicSteps-Seen clocks run) j w

  -- With queues of at most 2 ^ 63 slots that begin empty, and the readings of the clock that the
  -- processors get given in advance: whatever the threads of the router reach when the accesses to
  -- the shared variables of all their calls interleave in any way is also reached by steps of the
  -- pipeline in which every call takes place at once. Each thread stands where it stands there, and
  -- each queue there holds what was sent through it and is not received.
  pub SharedSteps-Pipeline :
      (blank : Message) (clocks : ℕ → ℕ → ℕ)
      → k < 64
      → {cs : Thread → Place} {qs : QueueName → System Message}
      → SharedSteps
          (threads config interval)
          k
          (places_begun clocks)
          (λ j. Threads.started k blank)
          cs
          qs
      → (s : State) × (clocks' : ℕ → ℕ → ℕ) × Steps
          (list_api k)
          config
          interval
          (started (list_api k) config begun)
          s
        × ((t : Thread) → cs t ≡ place clocks' s t)
        × ((j : QueueName) → (qs j).sent ≡ (qs j).received ++ queue s j)
  SharedSteps-Pipeline blank clocks small {qs = qs} run =
      let (ls, steps, split) =
        SharedSteps-AtomicSteps (threads config interval) k (places_begun clocks) blank small run in
      let v = AtomicSteps-Seen clocks steps in
      (
        v.state,
        v.clocks,
        v.run,
        v.places,
        λ j. split j ∙ ap (λ l. (qs j).received ++ l) (v.queues j),
      )
