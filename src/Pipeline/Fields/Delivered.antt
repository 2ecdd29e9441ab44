-- ===== src/Pipeline/Fields/Delivered.antt =====
-- The messages come out with the right fields, at the right place.
use message_router.Base.{ℕ, ◌<◌, ◌^◌, ◌≡◌, All, All-map}
use message_router.Base.Int.{rounds}
use message_router.Config.{SystemConfig, get_processor_for_message, get_strategy_for_message}
use message_router.Message.{Message}
use message_router.Queue.Client.{QueueApi}
use message_router.Pipeline.{Pipeline, started, Steps, here, next}
use message_router.Pipeline.Fields.{Filled, started-Filled}
use message_router.Pipeline.Fields.Keeping.{Step-Filled}

module _ (F : QueueApi Message) {Double : Type 0} (config : SystemConfig Double) where
  open F use {Q}

  module _ (interval : ℕ) (begun : ℕ → ℕ) where
    Steps-Filled :
        (s : Pipeline Q) → Steps F config interval (started F config begun) s → Filled F config s
    Steps-Filled s here = started-Filled F config begun
    Steps-Filled s (next {t} run step) = Step-Filled F config t (Steps-Filled t run) interval s step

    -- However the threads interleave, every message that a strategy has processed bears the number
    -- of the processor that the rules name for its type, and the strategy is the one that the rules
    -- name.
    pub right_way :
        (s : Pipeline Q)
        → Steps F config interval (started F config begun) s
        → All
            (λ d.
              (d.0 ≡ get_strategy_for_message config d.1.msg_type)
              × (d.1.processor_id ≡ get_processor_for_message config d.1.msg_type))
            s.delivered
    right_way s run = All-map (λ d h. (h.0, h.1.1)) s.delivered (Steps-Filled s run).delivered

    -- However the threads interleave, the fields of every message that a strategy has processed
    -- are in their ranges: a type that producers make, the number of a producer and of a processor
    -- that the configuration has, and a sequence number and a time of 64 bits.
    pub delivered-Marked :
        (s : Pipeline Q)
        → Steps F config interval (started F config begun) s
        → All
            (λ d.
              (d.1.msg_type < 4)
              × (d.1.producer_id < rounds config.producers.count)
              × (d.1.sequence_number < 2 ^ 64)
              × (d.1.timestamp < 2 ^ 64)
              × (d.1.processor_id < rounds config.processors.count))
            s.delivered
    delivered-Marked s run =
        All-map
          (λ d h.
            let (type, producer, number, time) = h.1.0 in (type, producer, number, time, h.1.2))
          s.delivered (Steps-Filled s run).delivered
