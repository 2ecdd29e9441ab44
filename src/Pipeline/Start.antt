-- ===== src/Pipeline/Start.antt =====
-- The pipeline starts as main() sets it up.
use message_router.Base.{ℕ, zero, suc, ◌+◌, ◌≡◌, refl, ap, ◌∙◌, ◌∷◌, map, some}
use message_router.Config.{SystemConfig}
use message_router.Main.{System, Queues, make_queues, make_system}
use message_router.Main.Exit.{make_system_lem}
use message_router.Manager.Laws.{made}
use message_router.Message.{Message}
use message_router.Queue.Client.{QueueApi}
use message_router.Producer
use message_router.Producer.{Producer, new_producer}
use message_router.Processor
use message_router.Processor.{Processor, new_processor}
use message_router.Strategy
use message_router.Strategy.{Strategy, new_strategy}
use message_router.Pipeline.{Pipeline, started}

map-made :
    {C D : Type 0} (f : C → D) (built : ℕ → C) (n first : ℕ)
    → map f (made built n first) ≡ made (λ i. f (built i)) n first
map-made f built zero first = refl
map-made f built (suc n) first = ap (λ l. f (built first) ∷ l) (map-made f built n (first + 1))

module _ {Q : Type 0} where
  -- The objects and the queues of a pipeline, without the program counters.
  abbrev pub objects : Pipeline Q → System
  objects s = record {
    producers = map (λ c. c.0) s.producers;
    stage1 = s.stage1.0;
    processors = map (λ c. c.0) s.processors;
    stage2 = s.stage2.0;
    strategies = map (λ c. c.0) s.strategies;
  }

  abbrev pub queues : Pipeline Q → Queues Q
  queues s = record {
    producer_queues = s.producer_queues;
    stage1_queues = s.stage1_queues;
    processor_queues = s.processor_queues;
    stage2_queues = s.stage2_queues;
  }

-- The pipeline starts with exactly the queues and the objects that main() makes, whatever the
-- configuration is.
pub started-make_system :
    (F : QueueApi Message) {Double : Type 0} (config : SystemConfig Double) (begun : ℕ → ℕ)
    → (make_queues F config ≡ queues (started F config begun))
      × (make_system F config ≡ some (objects (started F config begun)))
unfolding make_queues
started-make_system F config begun = (
  refl,
  make_system_lem F config
      ∙ rw
          (
            map-made (λ (c : Producer × Producer.Pc × ℕ). c.0)
                (λ i. (new_producer i, Producer.checking, begun i)),
            map-made (λ (c : Processor × Processor.Pc). c.0)
                (λ i. (new_processor i, Processor.checking)),
            map-made (λ (c : Strategy × Strategy.Pc). c.0)
                (λ i. (new_strategy i, Strategy.checking)),
          )
          refl,
)
