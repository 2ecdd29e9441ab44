-- ===== src/Samples.antt =====
-- Data that the tests share: the rules and counts of configs/baseline.json, a ring buffer of four
-- slots, and short names for messages.
use message_router.Base.{ℕ, true, [], ◌∷◌, arith}
use message_router.Base.Int.{pos}
use message_router.Config.{SystemConfig, Stage1Rule, Stage2Rule}
use message_router.Config.Lookup.{InRange}
use message_router.Message.{Message, new_message}
use message_router.Queue.Client.{QueueApi, ring_api}

abbrev pub stage1 : ℕ → ℕ → Stage1Rule
stage1 t p = record { msg_type = t; processors = p ∷ [] }

abbrev pub stage2 : ℕ → ℕ → Stage2Rule
stage2 t s = record { msg_type = t; strategy = s; ordering_required = true }

abbrev pub baseline : SystemConfig (Unit {0})
baseline = record {
  scenario = "baseline";
  duration_secs = pos 10;
  producers = record { count = pos 4; messages_per_sec = pos 10_000_000; distribution = [] };
  processors = record { count = pos 8; processing_times_ns = [] };
  strategies = record { count = pos 8; processing_times_ns = [] };
  stage1_rules = stage1 0 0 ∷ stage1 1 1 ∷ stage1 2 2 ∷ stage1 3 3 ∷ [];
  stage2_rules = stage2 0 0 ∷ stage2 1 1 ∷ stage2 2 2 ∷ stage2 3 0 ∷ [];
}

-- Type, producer and number.
abbrev pub msg : ℕ → ℕ → ℕ → Message
msg t p n = new_message t p n 0

abbrev pub small_queue : QueueApi Message
small_queue = ring_api Message 2 (msg 0 0 0) (omega arith)

pub baseline-InRange : InRange baseline
baseline-InRange = omega arith

-- One thread of each kind.
abbrev pub tiny : SystemConfig (Unit {0})
tiny = record baseline {
  producers = record (baseline.producers) { count = pos 1 };
  processors = record (baseline.processors) { count = pos 1 };
  strategies = record (baseline.strategies) { count = pos 1 };
  stage1_rules = stage1 0 0 ∷ [];
  stage2_rules = stage2 0 0 ∷ [];
}
