-- ===== src/Pipeline/Shared/StrategySteps.antt =====
-- What a strategy does with calls that take place at once, it does in `Pipeline`.
use message_router.Base.{
  ℕ, ◌≡◌, refl, sym, ap, ◌∙◌, List, [], ◌∷◌, some, get_elem?, get_elem?-set_hit, length-set,
  Bool-cases, inl, inr,
}
use message_router.Base.Int.{rounds}
use message_router.Config.{SystemConfig}
use message_router.Lifecycle.{Life}
use message_router.Message.{Message}
use message_router.Queue.Fifo
use message_router.Queue.Network.{silent, calls_pop, update}
use message_router.Strategy
use message_router.Strategy.{Strategy}
use message_router.Pipeline.{after_strategy, strategy_moves, delivers, next}
use message_router.Pipeline.Shared.{
  Thread, strategy_thread, QueueName, stage2_queue, Place, at_strategy, list_api, discrete_thread,
  discrete_queue, strategy_alone, popped, wants,
}
use message_router.Pipeline.Shared.Routing.{pop_not_silent}
use message_router.Pipeline.Shared.Views.{
  list_of, set-Away, set-Same, beside, queues-Same, stage2_queue-Away, strategy_place,
}
use message_router.Pipeline.Shared.Seen.{
  Seen, Sizes, Seen-at, same_queues, one_queue, strategy_others,
}

module _ {Double : Type 0} (config : SystemConfig Double) (k interval : ℕ) where
  abbrev at_state : Strategy × Strategy.Pc × List Message → Place
  at_state u = at_strategy u.0 u.1

  steps_alone :
      (i : ℕ) (t : Strategy) (pc : Strategy.Pc) (q : List Message)
      → wants config interval (strategy_thread i) (at_strategy t pc) ≡ silent
      → (at_state (Strategy.loop_step (list_api k) (t, pc, q))
          ≡ strategy_alone config interval t pc)
        × ((Strategy.loop_step (list_api k) (t, pc, q)).2 ≡ q)
  unfolding Strategy.loop_step
  steps_alone i t Strategy.checking q w = elim (Bool-cases t.life.running) [
    | inl e ↦ rw e (refl, refl)
    | inr e ↦ rw e (refl, refl)
  ]
  steps_alone i t Strategy.popping q w = absurd (pop_not_silent (stage2_queue i) w)
  steps_alone i t Strategy.ended q w = (refl, refl)

  steps_popping :
      (i : ℕ) (t : Strategy) (pc : Strategy.Pc) (q : List Message)
      → wants config interval (strategy_thread i) (at_strategy t pc) ≡ calls_pop (stage2_queue i)
      → (at_state (Strategy.loop_step (list_api k) (t, pc, q))
          ≡ popped config interval (strategy_thread i) (at_strategy t pc) (Fifo.pop q).0)
        × ((Strategy.loop_step (list_api k) (t, pc, q)).2 ≡ (Fifo.pop q).1)
  unfolding Strategy.loop_step Fifo.pop
  steps_popping i t Strategy.checking q w = absurd (pop_not_silent (stage2_queue i) (sym w))
  steps_popping i t Strategy.popping [] w = (refl, refl)
  steps_popping i t Strategy.popping (x ∷ q) w = (refl, refl)
  steps_popping i t Strategy.ended q w = absurd (pop_not_silent (stage2_queue i) (sym w))

  module _ (begun : ℕ → ℕ) {cs : Thread → Place} {ls : QueueName → List Message}
      (v : Seen config k interval begun cs ls) (i : ℕ) (t : Strategy) (pc : Strategy.Pc)
      (e : get_elem? v.state.strategies i ≡ some (t, pc)) where
    strategy_sizes :
        (ms : List (ℕ × Message)) (u : Strategy × Strategy.Pc × List Message)
        → Sizes config (after_strategy (list_api k) v.state i ms u)
    strategy_sizes ms u = record {
      of_producers = v.sizes.of_producers;
      of_producer_queues = v.sizes.of_producer_queues;
      of_stage1_queues = v.sizes.of_stage1_queues;
      of_processors = v.sizes.of_processors;
      of_processor_queues = v.sizes.of_processor_queues;
      of_stage2_queues = length-set v.state.stage2_queues i u.2 ∙ v.sizes.of_stage2_queues;
      of_strategies = length-set v.state.strategies i _ ∙ v.sizes.of_strategies;
    }

    input_there : (q : List Message) × (get_elem? v.state.stage2_queues i ≡ some q)
    input_there =
        beside (rounds config.strategies.count) v.state.strategies v.state.stage2_queues i (t, pc)
          v.sizes.of_strategies v.sizes.of_stage2_queues e

    pub strategy_goes :
        (life : Life)
        → wants config interval (strategy_thread i) (at_strategy t pc) ≡ silent
        → Seen config k interval begun
            (update discrete_thread cs
              (strategy_thread i)
              (strategy_alone config interval (record t { life = life }) pc))
            ls
    strategy_goes life w =
        let s = v.state in
        let (q, f) = input_there in
        let t' : Strategy = record t { life = life } in
        let u : Strategy × Strategy.Pc × List Message =
          Strategy.loop_step (list_api k) (t', pc, q) in
        let ms = delivers (list_api k) i pc q in
        let (goes, same) = steps_alone i t' pc q (alike life t pc w) in
        let s' = after_strategy (list_api k) s i ms u in
        Seen-at config k interval begun v (strategy_thread i) _ s' v.clocks ls
          (next v.run (strategy_moves i t pc q life e f)) (strategy_sizes ms u)
          (sym goes ∙ sym (ap strategy_place (get_elem?-set_hit s.strategies i (u.0, u.1) e)))
          (strategy_others k v.clocks s i ms u)
          (same_queues config k interval begun v s' (
            queues-Same s s' (λ j. refl) (λ j. refl) (λ j. refl)
              (set-Same s.stage2_queues i u.2 q f same)))
      where
        alike :
            (life : Life) (t : Strategy) (pc : Strategy.Pc)
            → wants config interval (strategy_thread i) (at_strategy t pc) ≡ silent
            → wants config interval (strategy_thread i) (at_strategy (record t { life = life }) pc)
              ≡ silent
        alike life t Strategy.checking w = refl
        alike life t Strategy.popping w = w
        alike life t Strategy.ended w = refl

    pub strategy_pops :
        wants config interval (strategy_thread i) (cs (strategy_thread i))
          ≡ calls_pop (stage2_queue i)
        → Seen config k interval begun
            (update discrete_thread cs (strategy_thread i) (
              popped config interval
                (strategy_thread i)
                (cs (strategy_thread i))
                (Fifo.pop (ls (stage2_queue i))).0))
            (update discrete_queue ls (stage2_queue i) (Fifo.pop (ls (stage2_queue i))).1)
    strategy_pops w =
        let s = v.state in
        let (q, f) = input_there in
        let here : cs (strategy_thread i) ≡ at_strategy t pc =
          v.places (strategy_thread i) ∙ ap strategy_place e in
        let holds : ls (stage2_queue i) ≡ q = v.queues (stage2_queue i) ∙ ap list_of f in
        let u : Strategy × Strategy.Pc × List Message =
          Strategy.loop_step (list_api k) (t, pc, q) in
        let ms = delivers (list_api k) i pc q in
        let (goes, left) =
          steps_popping i t pc q (sym (ap (wants config interval (strategy_thread i)) here) ∙ w) in
        let s' = after_strategy (list_api k) s i ms u in
        Seen-at config k interval begun v (strategy_thread i) _ s' v.clocks _
          (next v.run (strategy_moves i t pc q t.life e f)) (strategy_sizes ms u)
          ((λ h. popped config interval (strategy_thread i) (here h) (Fifo.pop (holds h)).0)
            ∙ sym goes
            ∙ sym (ap strategy_place (get_elem?-set_hit s.strategies i (u.0, u.1) e)))
          (strategy_others k v.clocks s i ms u)
          (one_queue config k interval begun v s' (stage2_queue i) _
            (ap (λ m. (Fifo.pop m).1) holds
              ∙ sym left
              ∙ sym (ap list_of (get_elem?-set_hit s.stage2_queues i u.2 f)))
            (stage2_queue-Away s s' i (λ j. refl) (λ j. refl) (λ j. refl)
              (set-Away s.stage2_queues i u.2)))
