-- ===== src/Pipeline/Shared/Stage2Steps.antt =====
-- What the second router does with calls that take place at once, it does in `Pipeline`.
use message_router.Base.{
  ℕ, ◌≡◌, refl, sym, ap, subst, ◌∙◌, List, get_elem?-set_hit, get_elem?_lt, set, length-set, arith,
}
use message_router.Base.Int.{rounds}
use message_router.Config.{SystemConfig, get_strategy_for_message}
use message_router.Lifecycle.{Life}
use message_router.Message.{Message}
use message_router.Queue.Defs.{capacity}
use message_router.Queue.Fifo
use message_router.Queue.Network.{silent, calls_push, calls_pop, update}
use message_router.Router
use message_router.Router.{Router, stage1_step, stage2_step}
use message_router.Pipeline.{after_stage2, stage2_moves, next}
use message_router.Pipeline.Shared.{
  Thread, stage2_thread, QueueName, processor_queue, stage2_queue, Place, at_router, list_api,
  discrete_thread, discrete_queue, router_place, router_alone, router_popped, router_pushed,
  stage2_wants, pushed, popped, wants,
}
use message_router.Pipeline.Shared.Views.{
  list_of, set-Away, queues-Same, processor_queue-Away, stage2_queue-Away,
}
use message_router.Pipeline.Shared.Routing.{
  wants_pop, wants_push, routes_alone, routes_popped, routes_pushed,
}
use message_router.Pipeline.Shared.Seen.{
  stage2_sizes, Runs, Seen, Seen-at, same_queues, one_queue, stage2_others,
}

module _ {Double : Type 0} (config : SystemConfig Double) (k interval : ℕ) (begun : ℕ → ℕ)
    {cs : Thread → Place} {ls : QueueName → List Message}
    (v : Seen config k interval begun cs ls) where
  pub stage2_alone :
      (life : Life)
      → stage2_wants config interval v.state.stage2.1 ≡ silent
      → Seen config k interval begun
          (update discrete_thread cs stage2_thread (
            router_place
              (router_alone (record (v.state.stage2.0) { life = life }) v.state.stage2.1)))
          ls
  unfolding stage2_step
  stage2_alone life w =
      let s = v.state in
      let r : Router = record (s.stage2.0) { life = life } in
      let step =
        routes_alone k (rounds config.processors.count) (rounds config.strategies.count)
          processor_queue stage2_queue (get_strategy_for_message config) s.processor_queues
          s.stage2_queues r v.sizes.of_processor_queues v.sizes.of_stage2_queues s.stage2.1 w in
      let u : Router.State (list_api k) = (
        (router_alone r s.stage2.1).0,
        (router_alone r s.stage2.1).1,
        s.processor_queues,
        s.stage2_queues,
      ) in
      let s' = after_stage2 (list_api k) s u in
      Seen-at config k interval begun v stage2_thread _ s' v.clocks ls
        (subst (λ t. Runs config k interval begun (after_stage2 (list_api k) s t)) step
          (next v.run (stage2_moves life)))
        (stage2_sizes config k s u v.sizes refl refl) refl (stage2_others k v.clocks s u)
        (same_queues config k interval begun v s'
          (queues-Same s s' (λ j. refl) (λ j. refl) (λ j. refl) (λ j. refl)))

  pub stage2_pops :
      (i : ℕ)
      → wants config interval stage2_thread (cs stage2_thread) ≡ calls_pop (processor_queue i)
      → Seen config k interval begun
          (update discrete_thread cs stage2_thread (
            popped config interval stage2_thread
              (cs stage2_thread)
              (Fifo.pop (ls (processor_queue i))).0))
          (update discrete_queue ls (processor_queue i) (Fifo.pop (ls (processor_queue i))).1)
  unfolding stage2_step
  stage2_pops i w =
      let s = v.state in
      let r : Router = s.stage2.0 in
      let (i', at, name, lt) =
        wants_pop k (rounds config.processors.count) (rounds config.strategies.count)
          processor_queue stage2_queue s.stage2.1 (processor_queue i)
          (sym (ap (wants config interval stage2_thread) (v.places stage2_thread)) ∙ w) in
      let same : i' ≡ i = cc in
      let at_i : s.stage2.1 ≡ Router.scanning i = at ∙ ap Router.scanning same in
      let (q, there) =
        get_elem?_lt s.processor_queues i (omega (arith, lt, same, v.sizes.of_processor_queues)) in
      let holds : ls (processor_queue i) ≡ q = v.queues (processor_queue i) ∙ ap list_of there in
      let step =
        ap
          (λ pc.
            Router.loop_step (list_api k) (get_strategy_for_message config)
              (r, pc, s.processor_queues, s.stage2_queues))
          at_i
        ∙ routes_popped k (rounds config.processors.count) (rounds config.strategies.count)
            processor_queue stage2_queue (get_strategy_for_message config) s.processor_queues
            s.stage2_queues r v.sizes.of_processor_queues v.sizes.of_stage2_queues i q there in
      let x : Router × Router.Pc =
        router_popped (get_strategy_for_message config) (rounds config.strategies.count) r
          (Router.scanning i) (Fifo.pop q).0 in
      let u : Router.State (list_api k) =
        (x.0, x.1, set s.processor_queues i (Fifo.pop q).1, s.stage2_queues) in
      let s' = after_stage2 (list_api k) s u in
      Seen-at config k interval begun v stage2_thread _ s' v.clocks _
        (subst (λ t. Runs config k interval begun (after_stage2 (list_api k) s t)) step
          (next v.run (stage2_moves r.life)))
        (stage2_sizes config k s u v.sizes (length-set s.processor_queues i (Fifo.pop q).1) refl)
        (λ h.
          popped config interval stage2_thread ((v.places stage2_thread ∙ ap (at_router r) at_i) h)
            (Fifo.pop (holds h)).0)
        (stage2_others k v.clocks s u)
        (one_queue config k interval begun v s' (processor_queue i) _
          (ap (λ l. (Fifo.pop l).1) holds
            ∙ sym (ap list_of (get_elem?-set_hit s.processor_queues i (Fifo.pop q).1 there)))
          (processor_queue-Away s s' i (λ j. refl) (λ j. refl)
            (set-Away s.processor_queues i (Fifo.pop q).1) (λ j. refl)))

  pub stage2_pushes :
      (p : ℕ) (x : Message)
      → wants config interval stage2_thread (cs stage2_thread) ≡ calls_push (stage2_queue p) x
      → Seen config k interval begun
          (update discrete_thread cs stage2_thread (
            pushed config interval stage2_thread
              (cs stage2_thread)
              (Fifo.push (capacity k) (ls (stage2_queue p)) x).0))
          (update discrete_queue ls
            (stage2_queue p)
            (Fifo.push (capacity k) (ls (stage2_queue p)) x).1)
  unfolding stage2_step
  stage2_pushes p x w =
      let s = v.state in
      let r : Router = s.stage2.0 in
      let (i, p', retry, at, name, early, lt) =
        wants_push k (rounds config.processors.count) (rounds config.strategies.count)
          processor_queue stage2_queue s.stage2.1 (stage2_queue p) x
          (sym (ap (wants config interval stage2_thread) (v.places stage2_thread)) ∙ w) in
      let same : p' ≡ p = cc in
      let at_p : s.stage2.1 ≡ Router.sending i x p retry =
        at ∙ ap (λ h. Router.sending i x h retry) same in
      let (q, there) =
        get_elem?_lt s.stage2_queues p (omega (arith, lt, same, v.sizes.of_stage2_queues)) in
      let holds : ls (stage2_queue p) ≡ q = v.queues (stage2_queue p) ∙ ap list_of there in
      let l : List Message = (Fifo.push (capacity k) q x).1 in
      let step =
        ap
          (λ pc.
            Router.loop_step (list_api k) (get_strategy_for_message config)
              (r, pc, s.processor_queues, s.stage2_queues))
          at_p
        ∙ routes_pushed k (rounds config.processors.count) (rounds config.strategies.count)
            processor_queue stage2_queue (get_strategy_for_message config) s.processor_queues
            s.stage2_queues r v.sizes.of_processor_queues v.sizes.of_stage2_queues i x p retry q
            there early in
      let y : Router × Router.Pc =
        router_pushed r (Router.sending i x p retry) (Fifo.push (capacity k) q x).0 in
      let u : Router.State (list_api k) = (y.0, y.1, s.processor_queues, set s.stage2_queues p l) in
      let s' = after_stage2 (list_api k) s u in
      Seen-at config k interval begun v stage2_thread _ s' v.clocks _
        (subst (λ t. Runs config k interval begun (after_stage2 (list_api k) s t)) step
          (next v.run (stage2_moves r.life)))
        (stage2_sizes config k s u v.sizes refl (length-set s.stage2_queues p l))
        (λ h.
          pushed config interval stage2_thread ((v.places stage2_thread ∙ ap (at_router r) at_p) h)
            (Fifo.push (capacity k) (holds h) x).0)
        (stage2_others k v.clocks s u)
        (one_queue config k interval begun v s' (stage2_queue p) _
          (ap (λ m. (Fifo.push (capacity k) m x).1) holds
            ∙ sym (ap list_of (get_elem?-set_hit s.stage2_queues p l there)))
          (stage2_queue-Away s s' p (λ j. refl) (λ j. refl) (λ j. refl)
            (set-Away s.stage2_queues p l)))
