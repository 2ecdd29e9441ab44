-- ===== src/Main/Exit.antt =====
-- The exit status of main().
use message_router.Base.{
  ℕ, ◌≡◌, ◌≤◌, refl, ap, ◌∙◌, Bool, false, List, [], ◌∷◌, Option, none, some, inl, inr, All, length,
  replicate, length-replicate, arith, ◌==◌, ◌&&◌, if◌then◌else◌, Bool-cases,
}
use message_router.Base.Int.{ℤ, rounds}
use message_router.Config.{SystemConfig, validate}
use message_router.Lifecycle.{Fate, returns, ◌>>=◌, Life, fresh}
use message_router.Lifecycle
use message_router.Manager.Laws.{All-made, made}
use message_router.Message.{Message}
use message_router.Queue.Client.{QueueApi}
use message_router.Producer.{Producer, new_producer}
use message_router.Producer
use message_router.Producer.Manager as Producers
use message_router.Processor.{Processor, new_processor}
use message_router.Processor
use message_router.Processor.Manager as Processors
use message_router.Strategy.{Strategy, new_strategy}
use message_router.Strategy
use message_router.Strategy.Manager as Strategies
use message_router.Router.{new_router}
use message_router.Router
use message_router.Manager.{delete_all}
use message_router.Main.{System, make_queues, make_system, delete_system, serve, main}
use message_router.Main.Shutdown.{
  Lives, running_life, ended_life, stops_again, producers_lem, processors_lem, strategies_lem,
  start_system-Lives, stop_system-Lives, wait_system-Lives,
}

next_lem :
    {A B : Type 0} {P : A → Type 0} {b : B} (f : Fate A) (g : A → Fate B)
    → ((a : A) × (f ≡ returns a) × P a)
    → ((a : A) → P a → g a ≡ returns b)
    → f >>= g ≡ returns b
next_lem f g (a, e, p) k = ap (λ t. t >>= g) e ∙ k a p

delete_all_lem :
    {C : Type 0} (life : C → Life) (destroy : C → Fate (Unit {0})) (cs : List C)
    → ((c : C) → life c ≡ ended_life → destroy c ≡ returns tt)
    → All (λ c. life c ≡ ended_life) cs
    → delete_all destroy cs ≡ returns tt
unfolding delete_all
delete_all_lem life destroy [] each h = refl
delete_all_lem life destroy (c ∷ cs) each (h, hs) =
    rw (each c h) (delete_all_lem life destroy cs each hs)

destroys : (l : Life) → l ≡ ended_life → Lifecycle.destroy l ≡ returns tt
unfolding Lifecycle.destroy
destroys l e = rw e refl

producers_gone :
    (cs : List Producer)
    → All (λ (c : Producer). c.life ≡ ended_life) cs
    → Producers.destroy cs ≡ returns tt
unfolding Producers.destroy Producers.stop_all Producer.destroy
producers_gone cs v =
    next_lem _ _ (producers_lem Lifecycle.stop stops_again cs v)
      λ rest l. delete_all_lem (λ c. c.life) Producer.destroy rest (λ c e. destroys c.life e) l

processors_gone :
    (cs : List Processor)
    → All (λ (c : Processor). c.life ≡ ended_life) cs
    → Processors.destroy cs ≡ returns tt
unfolding Processors.destroy Processors.stop_all Processor.destroy
processors_gone cs v =
    next_lem _ _ (processors_lem Lifecycle.stop stops_again cs v)
      λ rest l. delete_all_lem (λ c. c.life) Processor.destroy rest (λ c e. destroys c.life e) l

strategies_gone :
    (cs : List Strategy)
    → All (λ (c : Strategy). c.life ≡ ended_life) cs
    → Strategies.destroy cs ≡ returns tt
unfolding Strategies.destroy Strategies.stop_all Strategy.destroy
strategies_gone cs v =
    next_lem _ _ (strategies_lem Lifecycle.stop stops_again cs v)
      λ rest l. delete_all_lem (λ c. c.life) Strategy.destroy rest (λ c e. destroys c.life e) l

delete_system_lem : (s : System) → Lives ended_life s → delete_system s ≡ returns tt
unfolding delete_system Router.destroy
delete_system_lem s v =
    rw
      (
        strategies_gone s.strategies v.of_strategies,
        destroys s.stage2.life v.of_stage2,
        processors_gone s.processors v.of_processors,
        destroys s.stage1.life v.of_stage1,
      )
      (producers_gone s.producers v.of_producers)

-- The threads may change everything but the flags and the threads' handles.
abbrev pub KeepsLives : (System → System) → Type 0
KeepsLives threads = (s : System) → Lives running_life s → Lives running_life (threads s)

serve_lem :
    (threads : System → System) (s : System)
    → KeepsLives threads
    → Lives fresh s
    → serve threads s ≡ returns 0
unfolding serve
serve_lem threads s keeps v = next_lem _ _ (start_system-Lives s v) λ s1 v1.
    next_lem _ _ (stop_system-Lives (threads s1) (keeps s1 v1)) λ s2 v2.
      next_lem _ _ (wait_system-Lives s2 v2)
        λ s3 v3. next_lem {P = λ _. Unit} _ _ (tt, delete_system_lem s3 v3, tt) λ _ _. refl

module _ (F : QueueApi Message) {Double : Type 0} (config : SystemConfig Double) where
  -- The system that main() constructs.
  abbrev pub built : System
  built = record {
    producers = made new_producer (rounds config.producers.count) 0;
    stage1 = new_router;
    processors = made new_processor (rounds config.processors.count) 0;
    stage2 = new_router;
    strategies = made new_strategy (rounds config.strategies.count) 0;
  }

  abbrev queues : ℤ → List F.Q
  queues n = replicate (rounds n) F.new

  enough : (n : ℤ) → rounds n ≤ length (queues n)
  enough n = omega (arith, length-replicate (rounds n) F.new)

  -- main() makes enough queues for its components, whatever the counts are: it constructs as many
  -- producers, processors and strategies as are configured, numbered from 0, and reads no queue
  -- that does not exist.
  pub make_system_lem : make_system F config ≡ some built
  unfolding make_system make_queues
  make_system_lem =
      rw
        (
          Producers.new_producers_lem config (queues config.producers.count)
              (enough config.producers.count),
          Processors.new_processors_lem config (queues config.processors.count)
              (queues config.processors.count) (enough config.processors.count)
              (enough config.processors.count),
          (Strategies.new_manager_lem config (queues config.strategies.count)).0
              (enough config.strategies.count),
        )
        refl

  built-Lives : Lives fresh built
  unfolding new_producer new_router new_processor new_strategy
  built-Lives = record {
    of_producers = All-made _ new_producer _ 0 (λ i. refl);
    of_stage1 = refl;
    of_processors = All-made _ new_processor _ 0 (λ i. refl);
    of_stage2 = refl;
    of_strategies = All-made _ new_strategy _ 0 (λ i. refl);
  }

-- Whether there is one argument, and the file that it names holds a valid configuration.
unfoldable pub accepts : {Double : Type 0} → ℕ → Option (SystemConfig Double) → Bool
accepts argc none = false
accepts argc (some config) = (argc == 2) && validate config

-- If the running threads leave the flags and the threads' handles alone, main() ends with status 0
-- exactly if it is given one argument and that names a valid configuration, and else with status 1:
-- it reads no queue that does not exist, no start, stop, join or delete ends the process, and none
-- waits for ever.
pub main_lem :
    (F : QueueApi Message) {Double : Type 0} (argc : ℕ) (loaded : Option (SystemConfig Double))
    (threads : System → System)
    → KeepsLives threads
    → main F argc loaded threads ≡ some (returns (if accepts argc loaded then 0 else 1))
unfolding main accepts
main_lem F argc none threads keeps = elim (Bool-cases (argc == 2)) [
  | inl e ↦ rw e refl
  | inr e ↦ rw e refl
]
main_lem F argc (some config) threads keeps = elim (Bool-cases (argc == 2)) [
  | inr e ↦ rw e refl
  | inl e ↦ rw e (elim (Bool-cases (validate config)) [
    | inr bad ↦ rw bad refl
    | inl good ↦
        rw
          (
            good,
            make_system_lem F config,
            serve_lem threads (built F config) keeps (built-Lives F config),
          )
          refl
  ])
]
