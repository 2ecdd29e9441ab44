-- ===== src/Main.antt =====
-- src/main.cpp: the queues and components of a run, their start and shutdown, and the exit status.
-- What the threads do between the start and the shutdown is an argument; of the output there are
-- the values of the summary (Main.Summary) only.
pub mod Shutdown
pub mod Waiting
pub mod Signals
pub mod Summary
pub mod Exit
mod Tests
use message_router.Base.{
  ℕ, zero, suc, ◌+◌, ◌*◌, ◌^◌, Bool, true, false, List, [], ◌∷◌, Option, none, some, add64, ltb,
  ◌==◌, if◌then◌else◌, replicate,
}
use message_router.Base.Int.{rounds}
use message_router.Config.{SystemConfig, validate}
use message_router.Lifecycle.{Fate, returns, ◌>>=◌}
use message_router.Manager.{for_each}
use message_router.Message.{Message}
use message_router.Queue.Client.{QueueApi}
use message_router.Producer.{Producer}
use message_router.Producer
use message_router.Producer.Manager as Producers
use message_router.Processor.{Processor}
use message_router.Processor
use message_router.Processor.Manager as Processors
use message_router.Strategy.{Strategy}
use message_router.Strategy
use message_router.Strategy.Manager as Strategies
use message_router.Router.{Stage1Router, Stage2Router, new_router, new_stage2_router}
use message_router.Router

-- The five `g_` pointers; a manager is the list of what it owns.
pub record System : Type 0 where
  pub producers : Producers.ProducerManager
  pub stage1 : Stage1Router
  pub processors : Processors.ProcessorManager
  pub stage2 : Stage2Router
  pub strategies : Strategies.StrategyManager

pub record Queues (Q : Type 0) : Type 0 where
  pub producer_queues : List Q
  pub stage1_queues : List Q
  pub processor_queues : List Q
  pub stage2_queues : List Q

-- The five objects, if each constructor has read only queues that exist.
abbrev pub assemble :
    Option (List Producer) → Option (List Processor) → Option (List Strategy) → Option System
assemble (some ps) (some rs) (some ss) = some (record {
  producers = ps;
  stage1 = new_router;
  processors = rs;
  stage2 = new_stage2_router;
  strategies = ss;
})
assemble _ _ _ = none

module _ (F : QueueApi Message) {Double : Type 0} where
  open F use {Q, new}

  -- One queue for each producer and each strategy, two for each processor.
  unfoldable pub make_queues : SystemConfig Double → Queues Q
  make_queues config = record {
    producer_queues = replicate (rounds config.producers.count) new;
    stage1_queues = replicate (rounds config.processors.count) new;
    processor_queues = replicate (rounds config.processors.count) new;
    stage2_queues = replicate (rounds config.strategies.count) new;
  }

  -- The components; `none` is a read beyond a vector of queues.
  unfoldable pub make_system : SystemConfig Double → Option System
  unfolding make_queues
  make_system config =
      let queues = make_queues config in
      assemble (Producers.new_manager config queues.producer_queues)
        (Processors.new_manager config queues.stage1_queues queues.processor_queues)
        (Strategies.new_manager config queues.stage2_queues)

unfoldable pub start_system : System → Fate System
start_system s = do
  stage1 ← Router.start s.stage1
  processors ← Processors.start_all s.processors
  stage2 ← Router.start s.stage2
  strategies ← Strategies.start_all s.strategies
  producers ← Producers.start_all s.producers
  returns (record {
    producers = producers;
    stage1 = stage1;
    processors = processors;
    stage2 = stage2;
    strategies = strategies;
  })

unfoldable pub stop_system : System → Fate System
stop_system s = do
  producers ← Producers.stop_all s.producers
  stage1 ← Router.stop s.stage1
  processors ← Processors.stop_all s.processors
  stage2 ← Router.stop s.stage2
  strategies ← Strategies.stop_all s.strategies
  returns (record {
    producers = producers;
    stage1 = stage1;
    processors = processors;
    stage2 = stage2;
    strategies = strategies;
  })

unfoldable pub wait_system : System → Fate System
wait_system s = do
  producers ← Producers.wait_for_completion s.producers
  processors ← Processors.wait_for_completion s.processors
  strategies ← Strategies.wait_for_completion s.strategies
  returns (record s { producers = producers; processors = processors; strategies = strategies })

unfoldable pub delete_system : System → Fate (Unit {0})
delete_system s = do
  no_strategies ← Strategies.destroy s.strategies
  no_stage2 ← Router.destroy s.stage2
  no_processors ← Processors.destroy s.processors
  no_stage1 ← Router.destroy s.stage1
  Producers.destroy s.producers

-- From the start to the last `delete`; `threads` is what the threads do before the shutdown.
unfoldable pub serve : (System → System) → System → Fate ℕ
unfolding start_system stop_system wait_system delete_system
serve threads s = do
  started ← start_system s
  stopped ← stop_system (threads started)
  waited ← wait_system stopped
  deleted ← delete_system waited
  returns 0

-- `Messages Lost` and whether the `Test Result` is PASSED.
unfoldable pub messages_lost : System → ℕ
messages_lost s = add64 s.stage1.routing_errors s.stage2.routing_errors

unfoldable pub test_passed : System → Bool
unfolding messages_lost
test_passed s = messages_lost s == 0

module _ (F : QueueApi Message) {Double : Type 0} where
  -- With the number of arguments and what `load_from_file` gives (`none` is an exception): the exit
  -- status, where every read of a vector is within its bounds.
  unfoldable pub main : ℕ → Option (SystemConfig Double) → (System → System) → Option (Fate ℕ)
  unfolding make_system serve
  main argc loaded threads =
      if argc == 2
      then elim loaded [
        | none ↦ some (returns 1)
        | some config ↦
            if validate config
            then elim (make_system F config) [ none ↦ none | some s ↦ some (serve threads s) ]
            else some (returns 1)
      ]
      else some (returns 1)

-- The loop that waits: `is_running` and `elapsed` are `g_running` and the time since the start, in
-- nanoseconds, at each turn. The result is the turn at which it ends, if it does within the fuel.
unfoldable pub wait_loop : (ℕ → Bool) → (ℕ → ℕ) → ℕ → ℕ → ℕ → Option ℕ
wait_loop is_running elapsed duration zero turn = none
wait_loop is_running elapsed duration (suc fuel) turn =
    let rest = wait_loop is_running elapsed duration fuel (turn + 1) in
    if is_running turn
    then (if ltb (elapsed turn) (duration * 10 ^ 9) then rest else some turn)
    else some turn
