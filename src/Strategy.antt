-- ===== src/Strategy.antt =====
-- include/strategy.h and src/strategy.cpp: the last stage, which checks the order of what it gets.
-- `running_` and the thread are in `life` (Lifecycle). A loop step is one test of `running_` or one
-- call of `try_pop` with the processing of its message; yield() has no effect on the state.
pub mod History
pub mod Drain
pub mod Manager
mod Tests
use message_router.Base.{
  ℕ, Bool, true, false, List, [], ◌∷◌, Option, none, some, add64, ◌==◌, if◌then◌else◌, not,
}
use message_router.Base.Assoc.{find, insert}
use message_router.Message.{Message, Key, key_of, key_eq, StrategyId, SequenceNumber}
use message_router.Lifecycle
use message_router.Lifecycle.{Life, Fate, returns, terminates, blocks, ◌>>=◌}
use message_router.Queue.Client.{QueueApi}

pub record Strategy : Type 0 where
  pub strategy_id : StrategyId
  pub life : Life
  pub messages_delivered : ℕ
  pub ordering_violations : ℕ
  pub expected_sequence : List (Key × SequenceNumber)

unfoldable pub new_strategy : StrategyId → Strategy
new_strategy id = record {
  strategy_id = id;
  life = Lifecycle.fresh;
  messages_delivered = 0;
  ordering_violations = 0;
  expected_sequence = [];
}

abbrev pub get_messages_delivered : Strategy → ℕ
get_messages_delivered s = s.messages_delivered

abbrev pub get_ordering_violations : Strategy → ℕ
get_ordering_violations s = s.ordering_violations

abbrev with_life : Strategy → Fate Life → Fate Strategy
with_life s f = do l ← f; returns (record s { life = l })

unfoldable pub start : Strategy → Fate Strategy
start s = with_life s (Lifecycle.start s.life)

unfoldable pub stop : Strategy → Fate Strategy
stop s = with_life s (Lifecycle.stop s.life)

-- The destructor.
unfoldable pub destroy : Strategy → Fate (Unit {0})
destroy s = Lifecycle.destroy s.life

-- What the check finds at the key's entry: whether to count a violation.
abbrev pub violates : Message → Option SequenceNumber → Bool
violates m none = false
violates m (some expected) = not (m.sequence_number == expected)

-- The check of the order; either branch leaves `sequence_number + 1` at the key.
abbrev pub check_order : Strategy → Message → Strategy
check_order s m = record s {
  ordering_violations =
      if violates m (find (key_of m) s.expected_sequence)
      then add64 s.ordering_violations 1
      else s.ordering_violations;
  expected_sequence = insert (key_of m) (add64 m.sequence_number 1) s.expected_sequence;
}

-- Its body is empty.
abbrev pub simulate_strategy_processing : Strategy → Strategy
simulate_strategy_processing s = s

abbrev pub count_delivered : Strategy → Strategy
count_delivered s = record s { messages_delivered = add64 s.messages_delivered 1 }

unfoldable pub process_message : Strategy → Message → Strategy
process_message s m = count_delivered (simulate_strategy_processing (check_order s m))

-- Where the thread of `strategy_loop` stands: at the test of `running_`, at the test of the inner
-- loop, or behind both.
pub data Pc : Type 0 where
  checking popping ended : Pc

module _ (F : QueueApi Message) where
  open F use {Q, pop}

  abbrev pub popped : Strategy → Option Message × Q → Strategy × Pc × Q
  popped s (none, q) = (s, checking, q)
  popped s (some m, q) = (process_message s m, popping, q)

  unfoldable pub loop_step : Strategy × Pc × Q → Strategy × Pc × Q
  loop_step (s, checking, q) = if s.life.running then (s, popping, q) else (s, ended, q)
  loop_step (s, popping, q) = popped s (pop q)
  loop_step (s, ended, q) = (s, ended, q)
