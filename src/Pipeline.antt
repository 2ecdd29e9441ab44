-- ===== src/Pipeline.antt =====
-- All threads of a run at once: the state that they share, and their steps in any order. A step of
-- a thread is a step of its loop; a call of `try_push` or `try_pop` takes place at once, and calls
-- that overlap are in `Shared`. The flag and the handle that a step finds are arbitrary: main()
-- changes them between any two steps.
pub mod Pick
pub mod Hops
pub mod Queues
pub mod Cargo
pub mod Passing
pub mod Routers
pub mod Lanes
pub mod Moves
pub mod Ends
pub mod Makers
pub mod Ascending
pub mod Numbers
pub mod Each
pub mod Fields
pub mod Start
pub mod Counts
pub mod Order
pub mod Shared
mod Tests
use message_router.Base.{
  Bool, false, not, length, ℕ, ◌<◌, ◌≡◌, List, [], ◌∷◌, ◌++◌, Option, none, some, get_elem?, set,
  replicate, ltb, if◌then◌else◌,
}
use message_router.Base.Int.{rounds}
use message_router.Config.{SystemConfig, get_processor_for_message, get_strategy_for_message}
use message_router.Lifecycle.{Life}
use message_router.Manager.Laws.{made}
use message_router.Message.{Message, MessageType, StrategyId}
use message_router.Queue.Client.{QueueApi}
use message_router.Producer
use message_router.Producer.{Producer, new_producer}
use message_router.Router
use message_router.Router.{
  pop_at, Stage1Router, Stage2Router, new_router, new_stage2_router, stage1_step, stage2_step,
}
use message_router.Processor
use message_router.Processor.{Processor, new_processor}
use message_router.Strategy
use message_router.Strategy.{Strategy, new_strategy}

-- The threads, each with its program counter (a producer also with `next_message_time`), and the
-- queues between them; and what has happened, oldest first: the messages made, and those delivered,
-- each with the index of its strategy.
pub record Pipeline (Q : Type 0) : Type 0 where
  pub producers : List (Producer × Producer.Pc × ℕ)
  pub producer_queues : List Q
  pub stage1 : Stage1Router × Router.Pc
  pub stage1_queues : List Q
  pub processors : List (Processor × Processor.Pc)
  pub processor_queues : List Q
  pub stage2 : Stage2Router × Router.Pc
  pub stage2_queues : List Q
  pub strategies : List (Strategy × Strategy.Pc)
  pub made : List Message
  pub delivered : List (StrategyId × Message)

-- The message that a producer's next step makes.
abbrev pub makes : ℕ → MessageType → Producer → Producer.Pc → ℕ → List Message
makes now t p Producer.reading next = if ltb now next then [] else Producer.make p t now ∷ []
makes now t p _ next = []

-- Whether the next step of a producer, of a processor or of a router gives its message up: the
-- retry loop has come to its end, or the rules name a queue that does not exist.
abbrev pub producer_gives_up : Producer.Pc → Bool
producer_gives_up (Producer.sending m made retry) = not (ltb retry Producer.max_retries)
producer_gives_up _ = false

abbrev pub processor_gives_up : Processor.Pc → Bool
processor_gives_up (Processor.sending m retry) = not (ltb retry Processor.max_retries)
processor_gives_up _ = false

abbrev pub misses {ℓ} :
    {Q : Type ℓ} → (MessageType → ℕ) → List Q → Option (Option Message × List Q) → Bool
misses choose outs (some (some m, ins)) = not (ltb (choose m.msg_type) (length outs))
misses choose outs _ = false

module _ (F : QueueApi Message) where
  open F use {Q, new, pop}

  abbrev pub router_gives_up : (MessageType → ℕ) → List Q → List Q → Router.Pc → Bool
  router_gives_up choose ins outs (Router.scanning i) = misses choose outs (pop_at F ins i)
  router_gives_up choose ins outs (Router.sending i m p retry) = not (ltb retry Router.max_retries)
  router_gives_up choose ins outs _ = false

  -- The message that a strategy's next step processes.
  abbrev pub delivered_by : StrategyId → Option Message × Q → List (StrategyId × Message)
  delivered_by i (none, q) = []
  delivered_by i (some m, q) = (i, m) ∷ []

  abbrev pub delivers : StrategyId → Strategy.Pc → Q → List (StrategyId × Message)
  delivers i Strategy.popping q = delivered_by i (pop q)
  delivers i _ q = []

  -- What main() sets up; the clock may stand differently at the start of each producer's loop.
  abbrev pub started : {Double : Type 0} → SystemConfig Double → (ℕ → ℕ) → Pipeline Q
  started config begun = record {
    producers =
        made (λ i. (new_producer i, Producer.checking, begun i)) (rounds config.producers.count) 0;
    producer_queues = replicate (rounds config.producers.count) new;
    stage1 = (new_router, Router.checking);
    stage1_queues = replicate (rounds config.processors.count) new;
    processors =
        made (λ i. (new_processor i, Processor.checking)) (rounds config.processors.count) 0;
    processor_queues = replicate (rounds config.processors.count) new;
    stage2 = (new_stage2_router, Router.checking);
    stage2_queues = replicate (rounds config.strategies.count) new;
    strategies = made (λ i. (new_strategy i, Strategy.checking)) (rounds config.strategies.count) 0;
    made = [];
    delivered = [];
  }

  -- The threads' steps put back what they work on.
  abbrev pub after_producer : Pipeline Q → ℕ → List Message → Producer.State F → Pipeline Q
  after_producer s i ms t = record s {
    producers = set s.producers i (t.0, t.1, t.2);
    producer_queues = set s.producer_queues i t.3;
    made = s.made ++ ms;
  }

  abbrev pub after_stage1 : Pipeline Q → Router.State F → Pipeline Q
  after_stage1 s t = record s { stage1 = (t.0, t.1); producer_queues = t.2; stage1_queues = t.3 }

  abbrev pub after_processor : Pipeline Q → ℕ → Processor.State F → Pipeline Q
  after_processor s i t = record s {
    processors = set s.processors i (t.0, t.1);
    stage1_queues = set s.stage1_queues i t.2;
    processor_queues = set s.processor_queues i t.3;
  }

  abbrev pub after_stage2 : Pipeline Q → Router.State F → Pipeline Q
  after_stage2 s t = record s { stage2 = (t.0, t.1); processor_queues = t.2; stage2_queues = t.3 }

  abbrev pub after_strategy :
      Pipeline Q → ℕ → List (StrategyId × Message) → Strategy × Strategy.Pc × Q → Pipeline Q
  after_strategy s i ms t = record s {
    strategies = set s.strategies i (t.0, t.1);
    stage2_queues = set s.stage2_queues i t.2;
    delivered = s.delivered ++ ms;
  }

  module _ {Double : Type 0} (config : SystemConfig Double) (interval : ℕ) where
    pub data Step (s : Pipeline Q) : Pipeline Q → Type 0 where
      producer_moves :
          (i : ℕ) (p : Producer) (pc : Producer.Pc) (next : ℕ) (q : Q) (life : Life) (now : ℕ)
          (t : MessageType)
          → get_elem? s.producers i ≡ some (p, pc, next)
          → get_elem? s.producer_queues i ≡ some q
          → t < 4
          → Step s (
              after_producer s i
                (makes now t (record p { life = life }) pc next)
                (Producer.loop_step F interval now t (record p { life = life }, pc, next, q)))
      stage1_moves :
          (life : Life)
          → Step s (
              after_stage1 s (
                stage1_step F config (
                  record (s.stage1.0) { life = life },
                  s.stage1.1,
                  s.producer_queues,
                  s.stage1_queues,
                )))
      processor_moves :
          (i : ℕ) (p : Processor) (pc : Processor.Pc) (input output : Q) (life : Life) (now : ℕ)
          → get_elem? s.processors i ≡ some (p, pc)
          → get_elem? s.stage1_queues i ≡ some input
          → get_elem? s.processor_queues i ≡ some output
          → Step s (
              after_processor s i
                (Processor.loop_step F now (record p { life = life }, pc, input, output)))
      stage2_moves :
          (life : Life)
          → Step s (
              after_stage2 s (
                stage2_step F config (
                  record (s.stage2.0) { life = life },
                  s.stage2.1,
                  s.processor_queues,
                  s.stage2_queues,
                )))
      strategy_moves :
          (i : ℕ) (t : Strategy) (pc : Strategy.Pc) (q : Q) (life : Life)
          → get_elem? s.strategies i ≡ some (t, pc)
          → get_elem? s.stage2_queues i ≡ some q
          → Step s (
              after_strategy s i
                (delivers i pc q)
                (Strategy.loop_step F (record t { life = life }, pc, q)))

    -- The states that some interleaving leads to.
    pub data Steps (s : Pipeline Q) : Pipeline Q → Type 0 where
      here : Steps s s
      next : {t u : Pipeline Q} → Steps s t → Step t u → Steps s u

    -- Whether a step gives a message up, and whether the steps of a run may.
    abbrev pub gives_up : {s t : Pipeline Q} → Step s t → Bool
    gives_up (producer_moves i p pc upcoming q life now t e f lt) = producer_gives_up pc
    gives_up {s} (stage1_moves life) =
        router_gives_up (get_processor_for_message config) s.producer_queues s.stage1_queues
          s.stage1.1
    gives_up (processor_moves i p pc input output life now e f g) = processor_gives_up pc
    gives_up {s} (stage2_moves life) =
        router_gives_up (get_strategy_for_message config) s.processor_queues s.stage2_queues
          s.stage2.1
    gives_up (strategy_moves i t pc q life e f) = false

    abbrev pub Lossless : {s t : Pipeline Q} → Steps s t → Type 0
    Lossless here = Unit
    Lossless (next run step) = Lossless run × (gives_up step ≡ false)
