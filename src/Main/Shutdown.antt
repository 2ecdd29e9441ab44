-- ===== src/Main/Shutdown.antt =====
-- The start and the shutdown of a run.
use message_router.Base.{◌≡◌, refl, ap, sym, subst, ◌∙◌, true, false, List, All}
use message_router.Lifecycle.{Fate, returns, ◌>>=◌, Life, fresh, joinable, joined}
use message_router.Lifecycle
use message_router.Manager.{for_each}
use message_router.Manager.Laws.{for_each_life}
use message_router.Producer.{Producer}
use message_router.Producer.Manager as Producers
use message_router.Processor.{Processor}
use message_router.Processor.Manager as Processors
use message_router.Strategy.{Strategy}
use message_router.Strategy.Manager as Strategies
use message_router.Router.{Router}
use message_router.Router
use message_router.Main.{System, start_system, stop_system, wait_system}

abbrev pub running_life : Life
running_life = record { running = true; thread = joinable }

abbrev pub ended_life : Life
ended_life = record { running = false; thread = joined }

-- The flag and the thread of every component.
pub record Lives (l : Life) (s : System) : Type 0 where
  pub of_producers : All (λ (c : Producer). c.life ≡ l) s.producers
  pub of_stage1 : s.stage1.life ≡ l
  pub of_processors : All (λ (c : Processor). c.life ≡ l) s.processors
  pub of_stage2 : s.stage2.life ≡ l
  pub of_strategies : All (λ (c : Strategy). c.life ≡ l) s.strategies

-- The call returns a system of which every component has the life.
abbrev pub Returns : Fate System → Life → Type 0
Returns f l = (s : System) × (f ≡ returns s) × Lives l s

-- A call that changes only the flag and the thread, which have become `l` where it returns.
abbrev With : {C : Type 0} → (C → Life) → Fate C → Life → Type 0
With {C = C} life f l = (c : C) × (f ≡ returns c) × (life c ≡ l)

abbrev WithAll : {C : Type 0} → (C → Life) → Fate (List C) → Life → Type 0
WithAll {C = C} life f l = (cs : List C) × (f ≡ returns cs) × All (λ c. life c ≡ l) cs

then_lem :
    {A : Type 0} {P : A → Type 0} {l : Life} (f : Fate A) (g : A → Fate System)
    → ((a : A) × (f ≡ returns a) × P a)
    → ((a : A) → P a → Returns (g a) l)
    → Returns (f >>= g) l
then_lem {l = l} f g (a, e, p) k = subst (λ t. Returns (t >>= g) l) (sym e) (k a p)

module _ {a : Life} {b : Life} (op : Life → Fate Life) (h : op a ≡ returns b) where
  router_lem :
      (r : Router)
      → r.life ≡ a
      → With (λ (r : Router). r.life) (op r.life >>= (λ l. returns (record r { life = l }))) b
  router_lem r e = (
    record r { life = b },
    ap (λ f. f >>= (λ l. returns (record r { life = l }))) (ap op e ∙ h),
    refl,
  )

  pub producers_lem :
      (cs : List Producer)
      → All (λ (c : Producer). c.life ≡ a) cs
      → WithAll
          (λ (c : Producer). c.life)
          (for_each (λ (c : Producer). op c.life >>= (λ l. returns (record c { life = l }))) cs)
          b
  producers_lem cs all =
      for_each_life (λ c. c.life) (λ c l. record c { life = l }) _ a b cs
        (λ c e. ap (λ f. f >>= (λ l. returns (record c { life = l }))) (ap op e ∙ h)) (λ c. refl)
        all

  pub processors_lem :
      (cs : List Processor)
      → All (λ (c : Processor). c.life ≡ a) cs
      → WithAll
          (λ (c : Processor). c.life)
          (for_each (λ (c : Processor). op c.life >>= (λ l. returns (record c { life = l }))) cs)
          b
  processors_lem cs all =
      for_each_life (λ c. c.life) (λ c l. record c { life = l }) _ a b cs
        (λ c e. ap (λ f. f >>= (λ l. returns (record c { life = l }))) (ap op e ∙ h)) (λ c. refl)
        all

  pub strategies_lem :
      (cs : List Strategy)
      → All (λ (c : Strategy). c.life ≡ a) cs
      → WithAll
          (λ (c : Strategy). c.life)
          (for_each (λ (c : Strategy). op c.life >>= (λ l. returns (record c { life = l }))) cs)
          b
  strategies_lem cs all =
      for_each_life (λ c. c.life) (λ c l. record c { life = l }) _ a b cs
        (λ c e. ap (λ f. f >>= (λ l. returns (record c { life = l }))) (ap op e ∙ h)) (λ c. refl)
        all

starts : Lifecycle.start fresh ≡ returns running_life
unfolding Lifecycle.start
starts = refl

stops : Lifecycle.stop running_life ≡ returns ended_life
unfolding Lifecycle.stop
stops = refl

pub stops_again : Lifecycle.stop ended_life ≡ returns ended_life
unfolding Lifecycle.stop
stops_again = refl

joins : Lifecycle.join ended_life ≡ returns ended_life
unfolding Lifecycle.join
joins = refl

pub start_system-Lives : (s : System) → Lives fresh s → Returns (start_system s) running_life
unfolding start_system Producers.start_all Processors.start_all Strategies.start_all Router.start
start_system-Lives s v =
    then_lem _ _ (router_lem Lifecycle.start starts s.stage1 v.of_stage1) λ r1 l1.
      then_lem _ _ (processors_lem Lifecycle.start starts s.processors v.of_processors) λ rs l2.
        then_lem _ _ (router_lem Lifecycle.start starts s.stage2 v.of_stage2) λ r2 l3.
          then_lem _ _ (strategies_lem Lifecycle.start starts s.strategies v.of_strategies) λ ss l4.
            then_lem _ _ (producers_lem Lifecycle.start starts s.producers v.of_producers) λ ps l5.
              (
                _,
                refl,
                record {
                  of_producers = l5;
                  of_stage1 = l1;
                  of_processors = l2;
                  of_stage2 = l3;
                  of_strategies = l4;
                },
              )

pub stop_system-Lives : (s : System) → Lives running_life s → Returns (stop_system s) ended_life
unfolding stop_system Producers.stop_all Processors.stop_all Strategies.stop_all Router.stop
stop_system-Lives s v =
    then_lem _ _ (producers_lem Lifecycle.stop stops s.producers v.of_producers) λ ps l5.
      then_lem _ _ (router_lem Lifecycle.stop stops s.stage1 v.of_stage1) λ r1 l1.
        then_lem _ _ (processors_lem Lifecycle.stop stops s.processors v.of_processors) λ rs l2.
          then_lem _ _ (router_lem Lifecycle.stop stops s.stage2 v.of_stage2) λ r2 l3.
            then_lem _ _ (strategies_lem Lifecycle.stop stops s.strategies v.of_strategies) λ ss l4.
              (
                _,
                refl,
                record {
                  of_producers = l5;
                  of_stage1 = l1;
                  of_processors = l2;
                  of_stage2 = l3;
                  of_strategies = l4;
                },
              )

pub wait_system-Lives : (s : System) → Lives ended_life s → Returns (wait_system s) ended_life
unfolding wait_system Producers.wait_for_completion Processors.wait_for_completion
    Strategies.wait_for_completion
wait_system-Lives s v =
    then_lem _ _ (producers_lem Lifecycle.join joins s.producers v.of_producers) λ ps l5.
      then_lem _ _ (processors_lem Lifecycle.join joins s.processors v.of_processors) λ rs l2.
        then_lem _ _ (strategies_lem Lifecycle.join joins s.strategies v.of_strategies) λ ss l4. (
          _,
          refl,
          record {
            of_producers = l5;
            of_stage1 = v.of_stage1;
            of_processors = l2;
            of_stage2 = v.of_stage2;
            of_strategies = l4;
          },
        )
