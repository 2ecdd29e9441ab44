-- ===== src/Pipeline/Shared/Seen.antt =====
-- Threads and queues whose calls take place at once, beside a state of `Pipeline` that looks alike.
use native.Mathlib.Decide.{ℕ_discrete}
use message_router.Base.{
  ℕ, ◌≡◌, ◌≢◌, refl, sym, ap, ◌∙◌, List, get_elem?, get_elem?-set_ne, set, length,
}
use message_router.Base.Int.{rounds}
use message_router.Config.{SystemConfig}
use message_router.Message.{Message, StrategyId}
use message_router.Producer
use message_router.Router
use message_router.Processor
use message_router.Strategy
use message_router.Strategy.{Strategy}
use message_router.Queue.Network.{update}
use message_router.Queue.Network.Calls.{update_all}
use message_router.Pipeline.{
  started, after_producer, after_stage1, after_processor, after_stage2, after_strategy, Steps,
}
use message_router.Pipeline.Shared.{
  Thread, producer_thread, stage1_thread, processor_thread, stage2_thread, strategy_thread,
  QueueName, Place, list_api, discrete_thread, discrete_queue,
}
use message_router.Pipeline.Shared.Views.{
  State, producer_place, processor_place, strategy_place, place, queue,
}

module _ {Double : Type 0} (config : SystemConfig Double) where
  pub record Sizes (s : State) : Type 0 where
    pub of_producers : length s.producers ≡ rounds config.producers.count
    pub of_producer_queues : length s.producer_queues ≡ rounds config.producers.count
    pub of_stage1_queues : length s.stage1_queues ≡ rounds config.processors.count
    pub of_processors : length s.processors ≡ rounds config.processors.count
    pub of_processor_queues : length s.processor_queues ≡ rounds config.processors.count
    pub of_stage2_queues : length s.stage2_queues ≡ rounds config.strategies.count
    pub of_strategies : length s.strategies ≡ rounds config.strategies.count

  module _ (k interval : ℕ) (begun : ℕ → ℕ) where
    abbrev pub Runs : State → Type 0
    Runs s = Steps (list_api k) config interval (started (list_api k) config begun) s

    pub record Seen (cs : Thread → Place) (ls : QueueName → List Message) : Type 0 where
      pub state : State
      pub clocks : ℕ → ℕ → ℕ
      pub run : Runs state
      pub sizes : Sizes state
      pub places : (t : Thread) → cs t ≡ place clocks state t
      pub queues : (j : QueueName) → ls j ≡ queue state j

    -- One thread goes on, and the queues may change.
    pub Seen-at :
        {cs : Thread → Place} {ls : QueueName → List Message} (v : Seen cs ls) (t₀ : Thread)
        (c : Place) (s : State) (clocks : ℕ → ℕ → ℕ) (ls' : QueueName → List Message)
        → Runs s
        → Sizes s
        → c ≡ place clocks s t₀
        → ((t : Thread) → t₀ ≢ t → place clocks s t ≡ place v.clocks v.state t)
        → ((j : QueueName) → ls' j ≡ queue s j)
        → Seen (update discrete_thread cs t₀ c) ls'
    Seen-at {cs} v t₀ c s clocks ls' run sizes new old queues = record {
      state = s;
      clocks = clocks;
      run = run;
      sizes = sizes;
      places =
          update_all discrete_thread (λ t d. d ≡ place clocks s t) cs t₀ c new
            (λ t ne. v.places t ∙ sym (old t ne));
      queues = queues;
    }

    -- The queues do not change, or one does.
    pub same_queues :
        {cs : Thread → Place} {ls : QueueName → List Message} (v : Seen cs ls) (s : State)
        → ((j : QueueName) → queue s j ≡ queue v.state j)
        → (j : QueueName) → ls j ≡ queue s j
    same_queues v s same j = v.queues j ∙ sym (same j)

    pub one_queue :
        {cs : Thread → Place} {ls : QueueName → List Message} (v : Seen cs ls) (s : State)
        (j₀ : QueueName) (l : List Message)
        → l ≡ queue s j₀
        → ((j : QueueName) → j₀ ≢ j → queue s j ≡ queue v.state j)
        → (j : QueueName) → update discrete_queue ls j₀ l j ≡ queue s j
    one_queue {ls = ls} v s j₀ l new old =
        update_all discrete_queue (λ j d. d ≡ queue s j) ls j₀ l new
          (λ j ne. v.queues j ∙ sym (old j ne))

-- A router's step keeps the sizes if it keeps those of its queues.
module _ {Double : Type 0} (config : SystemConfig Double) (k : ℕ) (s : State)
    (u : Router.State (list_api k)) (v : Sizes config s) where
  pub stage1_sizes :
      length u.2 ≡ length s.producer_queues
      → length u.3 ≡ length s.stage1_queues
      → Sizes config (after_stage1 (list_api k) s u)
  stage1_sizes a b = record {
    of_producers = v.of_producers;
    of_producer_queues = a ∙ v.of_producer_queues;
    of_stage1_queues = b ∙ v.of_stage1_queues;
    of_processors = v.of_processors;
    of_processor_queues = v.of_processor_queues;
    of_stage2_queues = v.of_stage2_queues;
    of_strategies = v.of_strategies;
  }

  pub stage2_sizes :
      length u.2 ≡ length s.processor_queues
      → length u.3 ≡ length s.stage2_queues
      → Sizes config (after_stage2 (list_api k) s u)
  stage2_sizes a b = record {
    of_producers = v.of_producers;
    of_producer_queues = v.of_producer_queues;
    of_stage1_queues = v.of_stage1_queues;
    of_processors = v.of_processors;
    of_processor_queues = a ∙ v.of_processor_queues;
    of_stage2_queues = b ∙ v.of_stage2_queues;
    of_strategies = v.of_strategies;
  }

-- A step of a thread leaves the places of the others.
module _ (k : ℕ) (clocks : ℕ → ℕ → ℕ) (s : State) where
  pub producer_others :
      (i : ℕ) (ms : List Message) (u : Producer.State (list_api k)) (t : Thread)
      → producer_thread i ≢ t
      → place clocks (after_producer (list_api k) s i ms u) t ≡ place clocks s t
  producer_others i ms u (producer_thread j) ne =
      ap producer_place (get_elem?-set_ne s.producers i j _ (λ e. ne (ap producer_thread e)))
  producer_others i ms u stage1_thread ne = refl
  producer_others i ms u (processor_thread j) ne = refl
  producer_others i ms u stage2_thread ne = refl
  producer_others i ms u (strategy_thread j) ne = refl

  pub stage1_others :
      (u : Router.State (list_api k)) (t : Thread)
      → stage1_thread ≢ t
      → place clocks (after_stage1 (list_api k) s u) t ≡ place clocks s t
  stage1_others u (producer_thread j) ne = refl
  stage1_others u stage1_thread ne = absurd (ne refl)
  stage1_others u (processor_thread j) ne = refl
  stage1_others u stage2_thread ne = refl
  stage1_others u (strategy_thread j) ne = refl

  -- The clock of the processor may have been read.
  pub processor_others :
      (i : ℕ) (clock : ℕ → ℕ) (u : Processor.State (list_api k)) (t : Thread)
      → processor_thread i ≢ t
      → place (update ℕ_discrete clocks i clock) (after_processor (list_api k) s i u) t
        ≡ place clocks s t
  processor_others i clock u (producer_thread j) ne = refl
  processor_others i clock u stage1_thread ne = refl
  processor_others i clock u (processor_thread j) ne =
      let away : i ≢ j = λ e. ne (ap processor_thread e) in
      update_all ℕ_discrete
        (λ h c.
          i ≢ h
          → processor_place c (get_elem? (set s.processors i (u.0, u.1)) h)
            ≡ processor_place (clocks h) (get_elem? s.processors h))
        clocks i clock (λ ne. absurd (ne refl))
        (λ h ne away.
          ap (processor_place (clocks h)) (get_elem?-set_ne s.processors i h (u.0, u.1) away))
        j away
  processor_others i clock u stage2_thread ne = refl
  processor_others i clock u (strategy_thread j) ne = refl

  pub stage2_others :
      (u : Router.State (list_api k)) (t : Thread)
      → stage2_thread ≢ t
      → place clocks (after_stage2 (list_api k) s u) t ≡ place clocks s t
  stage2_others u (producer_thread j) ne = refl
  stage2_others u stage1_thread ne = refl
  stage2_others u (processor_thread j) ne = refl
  stage2_others u stage2_thread ne = absurd (ne refl)
  stage2_others u (strategy_thread j) ne = refl

  pub strategy_others :
      (i : ℕ) (ms : List (StrategyId × Message)) (u : Strategy × Strategy.Pc × List Message)
      (t : Thread)
      → strategy_thread i ≢ t
      → place clocks (after_strategy (list_api k) s i ms u) t ≡ place clocks s t
  strategy_others i ms u (producer_thread j) ne = refl
  strategy_others i ms u stage1_thread ne = refl
  strategy_others i ms u (processor_thread j) ne = refl
  strategy_others i ms u stage2_thread ne = refl
  strategy_others i ms u (strategy_thread j) ne =
      ap strategy_place (get_elem?-set_ne s.strategies i j _ (λ e. ne (ap strategy_thread e)))
