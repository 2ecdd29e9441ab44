-- ===== src/Processor.antt =====
-- include/processor.h and src/processor.cpp. A loop step is one test of `running_`, one `try_pop`
-- with the processing of its message, or one `try_push`; the clock's reading is an argument, and
-- yield() has no effect on the state.
pub mod Handling
pub mod Retry
pub mod Manager
mod Tests
use message_router.Base.{
  ℕ, ◌+◌, Bool, true, false, Option, none, some, u64, add64, ltb, if◌then◌else◌,
}
use message_router.Message.{Message, ProcessorId}
use message_router.Lifecycle
use message_router.Lifecycle.{Life, Fate, returns, ◌>>=◌}
use message_router.Queue.Client.{QueueApi}

pub record Processor : Type 0 where
  pub processor_id : ProcessorId
  pub life : Life
  pub messages_processed : ℕ

unfoldable pub new_processor : ProcessorId → Processor
new_processor id = record { processor_id = id; life = Lifecycle.fresh; messages_processed = 0 }

abbrev pub get_messages_processed : Processor → ℕ
get_messages_processed p = p.messages_processed

abbrev with_life : Processor → Fate Life → Fate Processor
with_life p f = do l ← f; returns (record p { life = l })

unfoldable pub start : Processor → Fate Processor
start p = with_life p (Lifecycle.start p.life)

unfoldable pub stop : Processor → Fate Processor
stop p = with_life p (Lifecycle.stop p.life)

-- The destructor.
unfoldable pub destroy : Processor → Fate (Unit {0})
destroy p = Lifecycle.destroy p.life

unfoldable pub simulate_processing : ProcessorId → ℕ → Message → Message
simulate_processing id now m = record m { processor_id = id; processing_timestamp = u64 now }

-- Where the thread stands: at the test of `running_`, at the test of the inner loop, at the test of
-- the retry loop, or behind all loops.
pub data Pc : Type 0 where
  checking : Pc
  popping : Pc
  sending : Message → ℕ → Pc
  ended : Pc

-- `retry < 1000`
abbrev pub max_retries : ℕ
max_retries = 1000

abbrev pub count_processed : Processor → Processor
count_processed p = record p { messages_processed = add64 p.messages_processed 1 }

module _ (F : QueueApi Message) where
  open F use {Q, push, pop}

  -- The processor with its input queue and its output queue.
  abbrev pub State : Type 0
  State = Processor × Pc × Q × Q

  abbrev pub popped : ℕ → Processor → Q → Option Message × Q → State
  popped now p output (none, input) = (p, checking, input, output)
  popped now p output (some m, input) =
      (p, sending (simulate_processing p.processor_id now m) 0, input, output)

  abbrev pub tried : Processor → Message → ℕ → Q → Bool × Q → State
  tried p m retry input (true, output) = (count_processed p, popping, input, output)
  tried p m retry input (false, output) = (p, sending m (retry + 1), input, output)

  unfoldable pub loop_step : ℕ → State → State
  loop_step now (p, checking, input, output) =
      if p.life.running then (p, popping, input, output) else (p, ended, input, output)
  loop_step now (p, popping, input, output) = popped now p output (pop input)
  loop_step now (p, sending m retry, input, output) =
      if ltb retry max_retries
      then tried p m retry input (push output m)
      else (p, popping, input, output)
  loop_step now (p, ended, input, output) = (p, ended, input, output)
