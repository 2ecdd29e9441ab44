-- ===== src/Pipeline/Shared/ProcessorSteps.antt =====
-- What a processor does with calls that take place at once, it does in `Pipeline`.
use native.Mathlib.Decide.{ℕ_discrete}
use message_router.Base.{
  ℕ, ◌≡◌, refl, sym, ap, ◌∙◌, List, some, get_elem?, get_elem?-set_hit, set, length-set,
}
use message_router.Base.Int.{rounds}
use message_router.Config.{SystemConfig}
use message_router.Lifecycle.{Life}
use message_router.Message.{Message}
use message_router.Queue.Defs.{capacity}
use message_router.Queue.Fifo
use message_router.Queue.Network.{silent, calls_push, calls_pop, update}
use message_router.Queue.Network.Calls.{update_all}
use message_router.Processor
use message_router.Processor.{Processor}
use message_router.Pipeline.{after_processor, processor_moves, next}
use message_router.Pipeline.Shared.{
  Thread, processor_thread, QueueName, stage1_queue, processor_queue, Place, at_processor, list_api,
  discrete_thread, discrete_queue, processor_alone, pushed, popped, wants,
}
use message_router.Pipeline.Shared.Views.{
  list_of, set-Away, set-Same, beside, queues-Same, stage1_queue-Away, processor_queue-Away,
  processor_place,
}
use message_router.Pipeline.Shared.Seen.{
  Seen, Sizes, Seen-at, same_queues, one_queue, processor_others,
}
use message_router.Pipeline.Shared.ProcessorLoop.{
  at_state, ticked, steps_alone, steps_popping, steps_pushing,
}

-- What is put at an index is there.
update_here : {B : Type 0} (f : ℕ → B) (i : ℕ) (b : B) → update ℕ_discrete f i b i ≡ b
update_here f i b =
    update_all ℕ_discrete (λ h c. h ≡ i → c ≡ b) f i b (λ e. refl) (λ h ne e. absurd (ne (sym e))) i
      refl

module _ {Double : Type 0} (config : SystemConfig Double) (k interval : ℕ) where
  module _ (begun : ℕ → ℕ) {cs : Thread → Place} {ls : QueueName → List Message}
      (v : Seen config k interval begun cs ls) (i : ℕ) (p : Processor) (pc : Processor.Pc)
      (e : get_elem? v.state.processors i ≡ some (p, pc)) where
    processor_sizes :
        (u : Processor.State (list_api k)) → Sizes config (after_processor (list_api k) v.state i u)
    processor_sizes u = record {
      of_producers = v.sizes.of_producers;
      of_producer_queues = v.sizes.of_producer_queues;
      of_stage1_queues = length-set v.state.stage1_queues i u.2 ∙ v.sizes.of_stage1_queues;
      of_processors = length-set v.state.processors i _ ∙ v.sizes.of_processors;
      of_processor_queues = length-set v.state.processor_queues i u.3 ∙ v.sizes.of_processor_queues;
      of_stage2_queues = v.sizes.of_stage2_queues;
      of_strategies = v.sizes.of_strategies;
    }

    input_there : (q : List Message) × (get_elem? v.state.stage1_queues i ≡ some q)
    input_there =
        beside (rounds config.processors.count) v.state.processors v.state.stage1_queues i (p, pc)
          v.sizes.of_processors v.sizes.of_stage1_queues e

    output_there : (q : List Message) × (get_elem? v.state.processor_queues i ≡ some q)
    output_there =
        beside (rounds config.processors.count) v.state.processors v.state.processor_queues i
          (p, pc) v.sizes.of_processors v.sizes.of_processor_queues e

    -- The processor is at its place after a step.
    place_after :
        (u : Processor.State (list_api k)) (clock : ℕ → ℕ)
        → processor_place
            (update ℕ_discrete v.clocks i clock i)
            (get_elem? (set v.state.processors i (u.0, u.1)) i)
          ≡ at_state config k interval u clock
    place_after u clock = (λ h.
        processor_place (update_here v.clocks i clock h)
          (get_elem?-set_hit v.state.processors i (u.0, u.1) e h))

    here_at : cs (processor_thread i) ≡ at_processor p pc (v.clocks i)
    here_at = v.places (processor_thread i) ∙ ap (processor_place (v.clocks i)) e

    pub processor_goes :
        (life : Life)
        → wants config interval (processor_thread i) (at_processor p pc (v.clocks i)) ≡ silent
        → Seen config k interval begun
            (update discrete_thread cs
              (processor_thread i)
              (processor_alone config interval (record p { life = life }) pc (v.clocks i)))
            ls
    processor_goes life w =
        let s = v.state in
        let (input, f) = input_there in
        let (output, g) = output_there in
        let p' : Processor = record p { life = life } in
        let u : Processor.State (list_api k) =
          Processor.loop_step (list_api k) 0 (p', pc, input, output) in
        let (goes, same, same') =
          steps_alone config k interval i 0 p' pc (v.clocks i) input output (alike life p pc w) in
        let s' = after_processor (list_api k) s i u in
        Seen-at config k interval begun v (processor_thread i) _ s'
          (update ℕ_discrete v.clocks i (v.clocks i)) ls
          (next v.run (processor_moves i p pc input output life 0 e f g)) (processor_sizes u)
          (sym goes ∙ sym (place_after u (v.clocks i)))
          (processor_others k v.clocks s i (v.clocks i) u)
          (same_queues config k interval begun v s' (
            queues-Same s s' (λ j. refl) (set-Same s.stage1_queues i u.2 input f same)
              (set-Same s.processor_queues i u.3 output g same') (λ j. refl)))
      where
        alike :
            (life : Life) (p : Processor) (pc : Processor.Pc)
            → wants config interval (processor_thread i) (at_processor p pc (v.clocks i)) ≡ silent
            → wants config interval
                (processor_thread i)
                (at_processor (record p { life = life }) pc (v.clocks i))
              ≡ silent
        alike life p Processor.checking w = refl
        alike life p Processor.popping w = w
        alike life p (Processor.sending x retry) w = w
        alike life p Processor.ended w = refl

    pub processor_pops :
        wants config interval (processor_thread i) (cs (processor_thread i))
          ≡ calls_pop (stage1_queue i)
        → Seen config k interval begun
            (update discrete_thread cs (processor_thread i) (
              popped config interval
                (processor_thread i)
                (cs (processor_thread i))
                (Fifo.pop (ls (stage1_queue i))).0))
            (update discrete_queue ls (stage1_queue i) (Fifo.pop (ls (stage1_queue i))).1)
    processor_pops w =
        let s = v.state in
        let (input, f) = input_there in
        let (output, g) = output_there in
        let holds : ls (stage1_queue i) ≡ input = v.queues (stage1_queue i) ∙ ap list_of f in
        let u : Processor.State (list_api k) =
          Processor.loop_step (list_api k) (v.clocks i 0) (p, pc, input, output) in
        let clock : ℕ → ℕ = ticked config k interval (v.clocks i) (Fifo.pop input).0 in
        let (goes, left, same) =
          steps_popping config k interval i p pc (v.clocks i) input output
            (sym (ap (wants config interval (processor_thread i)) here_at) ∙ w) in
        let s' = after_processor (list_api k) s i u in
        Seen-at config k interval begun v (processor_thread i) _ s'
          (update ℕ_discrete v.clocks i clock) _
          (next v.run (processor_moves i p pc input output p.life (v.clocks i 0) e f g))
          (processor_sizes u)
          ((λ h. popped config interval (processor_thread i) (here_at h) (Fifo.pop (holds h)).0)
            ∙ sym goes
            ∙ sym (place_after u clock))
          (processor_others k v.clocks s i clock u)
          (one_queue config k interval begun v s' (stage1_queue i) _
            (ap (λ m. (Fifo.pop m).1) holds
              ∙ sym left
              ∙ sym (ap list_of (get_elem?-set_hit s.stage1_queues i u.2 f)))
            (stage1_queue-Away s s' i (λ j. refl) (set-Away s.stage1_queues i u.2)
              (set-Same s.processor_queues i u.3 output g same) (λ j. refl)))

    pub processor_pushes :
        (x : Message)
        → wants config interval (processor_thread i) (cs (processor_thread i))
          ≡ calls_push (processor_queue i) x
        → Seen config k interval begun
            (update discrete_thread cs (processor_thread i) (
              pushed config interval
                (processor_thread i)
                (cs (processor_thread i))
                (Fifo.push (capacity k) (ls (processor_queue i)) x).0))
            (update discrete_queue ls
              (processor_queue i)
              (Fifo.push (capacity k) (ls (processor_queue i)) x).1)
    processor_pushes x w =
        let s = v.state in
        let (input, f) = input_there in
        let (output, g) = output_there in
        let holds : ls (processor_queue i) ≡ output = v.queues (processor_queue i) ∙ ap list_of g in
        let u : Processor.State (list_api k) =
          Processor.loop_step (list_api k) 0 (p, pc, input, output) in
        let (goes, same, left) =
          steps_pushing config k interval i 0 p pc (v.clocks i) input output x
            (sym (ap (wants config interval (processor_thread i)) here_at) ∙ w) in
        let s' = after_processor (list_api k) s i u in
        Seen-at config k interval begun v (processor_thread i) _ s'
          (update ℕ_discrete v.clocks i (v.clocks i)) _
          (next v.run (processor_moves i p pc input output p.life 0 e f g)) (processor_sizes u)
          ((λ h.
              pushed config interval (processor_thread i) (here_at h)
                (Fifo.push (capacity k) (holds h) x).0)
            ∙ sym goes
            ∙ sym (place_after u (v.clocks i)))
          (processor_others k v.clocks s i (v.clocks i) u)
          (one_queue config k interval begun v s' (processor_queue i) _
            (ap (λ m. (Fifo.push (capacity k) m x).1) holds
              ∙ sym left
              ∙ sym (ap list_of (get_elem?-set_hit s.processor_queues i u.3 g)))
            (processor_queue-Away s s' i (λ j. refl) (set-Same s.stage1_queues i u.2 input f same)
              (set-Away s.processor_queues i u.3) (λ j. refl)))
