-- ===== src/Pipeline/Fields.antt =====
-- The fields of the messages that come through the pipeline: what every thread and queue on the way
-- holds.
pub mod Keeping
pub mod Delivered
use native.Mathlib.Decide.{ℕ_discrete}
use native.Mathlib.Nat.{mod-lt}
use message_router.Base.{
  ℕ, zero, suc, ◌+◌, ◌<◌, ◌^◌, ◌≡◌, ◌⊎◌, refl, sym, ap, subst, ◌∙◌, List, [], ◌∷◌, ◌++◌, some, inl,
  inr, arith, add64, get_elem?, set, get_elem?-set_ne, get_elem?-set_inj, All, All-append, All-map,
  Bool, ltb, if◌then◌else◌, true, false,
}
use message_router.Base.Int.{rounds}
use message_router.Config.{SystemConfig, get_processor_for_message, get_strategy_for_message}
use message_router.Lifecycle.{Life}
use message_router.Manager.Laws.{made}
use message_router.Message.{Message, MessageType, StrategyId}
use message_router.Queue.Client.{QueueApi}
use message_router.Producer
use message_router.Producer.{Producer, new_producer}
use message_router.Processor
use message_router.Processor.{Processor, new_processor, simulate_processing}
use message_router.Router.{stage1_step, stage2_step}
use message_router.Strategy
use message_router.Pipeline.{
  Pipeline, started, makes, delivers, after_producer, after_processor, Step, producer_moves,
  stage1_moves, processor_moves, stage2_moves, strategy_moves, Steps, here, next,
}
use message_router.Pipeline.Cargo.{
  Loaded, new-Loaded, get-Loaded, set-Loaded, Routed, RouterHolds, router-Cargo,
}
use message_router.Pipeline.Cargo.Ends.{
  ProducerHolds, producer-Cargo, ProcessorHolds, processor-Cargo, strategy-Cargo,
}
use message_router.Pipeline.Makers.{same_id}
use message_router.Pipeline.Numbers.{counts}
use message_router.Pipeline.Order.{made_get}
use message_router.Pipeline.Each.{Each, set-Each, made-Each}

module _ (F : QueueApi Message) {Double : Type 0} (config : SystemConfig Double) where
  open F use {Q}

  -- What a producer fills in, and what a processor adds.
  abbrev pub Made : Message → Type 0
  Made m =
      (m.msg_type < 4)
      × (m.producer_id < rounds config.producers.count)
      × (m.sequence_number < 2 ^ 64)
      × (m.timestamp < 2 ^ 64)

  abbrev pub Marked : Message → Type 0
  Marked m =
      Made m
      × (m.processor_id ≡ get_processor_for_message config m.msg_type)
      × (m.processor_id < rounds config.processors.count)

  abbrev pub ForProcessor : ℕ → Message → Type 0
  ForProcessor = Routed F (get_processor_for_message config) Made

  abbrev pub ForStrategy : ℕ → Message → Type 0
  ForStrategy = Routed F (get_strategy_for_message config) Marked

  abbrev pub ProducerAt : ℕ → Producer × Producer.Pc × ℕ → Type 0
  ProducerAt i (p, pc, upcoming) =
      (p.producer_id < rounds config.producers.count)
      × (p.next_sequence < 2 ^ 64)
      × ProducerHolds F Made pc

  abbrev pub ProcessorAt : ℕ → Processor × Processor.Pc → Type 0
  ProcessorAt i (p, pc) =
      (p.processor_id ≡ i)
      × (p.processor_id < rounds config.processors.count)
      × ProcessorHolds F (ForProcessor i) Marked pc

  abbrev pub Right : StrategyId × Message → Type 0
  Right d = (d.0 ≡ get_strategy_for_message config d.1.msg_type) × Marked d.1

  pub record Filled (s : Pipeline Q) : Type 0 where
    pub producers : Each ProducerAt s.producers
    pub producer_queues : Loaded F (λ j. Made) s.producer_queues
    pub stage1 : RouterHolds F (get_processor_for_message config) Made s.stage1.1
    pub stage1_queues : Loaded F ForProcessor s.stage1_queues
    pub processors : Each ProcessorAt s.processors
    pub processor_queues : Loaded F (λ j. Marked) s.processor_queues
    pub stage2 : RouterHolds F (get_strategy_for_message config) Marked s.stage2.1
    pub stage2_queues : Loaded F ForStrategy s.stage2_queues
    pub made : All Made s.made
    pub delivered : All Right s.delivered

  pub started-Filled : (begun : ℕ → ℕ) → Filled (started F config begun)
  unfolding new_producer new_processor
  started-Filled begun = record {
    producers = made-Each ProducerAt _ _ (λ i lt. (lt, omega arith, tt));
    producer_queues = new-Loaded F (λ j. Made) _;
    stage1 = tt;
    stage1_queues = new-Loaded F ForProcessor _;
    processors = made-Each ProcessorAt _ _ (λ i lt. (refl, lt, tt));
    processor_queues = new-Loaded F (λ j. Marked) _;
    stage2 = tt;
    stage2_queues = new-Loaded F ForStrategy _;
    made = tt;
    delivered = tt;
  }
