-- ===== src/Pipeline/Shared/Cases.antt =====
-- A thread's step without a call, and each call of a queue, keeps what `Seen` says.
use message_router.Base.{ℕ, ◌≡◌, sym, ap, subst, ◌∙◌, List, get_elem?, Option-cases, inl, inr}
use message_router.Config.{SystemConfig}
use message_router.Message.{Message}
use message_router.Queue.Defs.{capacity}
use message_router.Queue.Fifo
use message_router.Queue.Network.{Call, silent, calls_push, calls_pop, update}
use message_router.Pipeline.Shared.{
  Thread, producer_thread, stage1_thread, processor_thread, stage2_thread, strategy_thread,
  QueueName, producer_queue, stage1_queue, processor_queue, stage2_queue, Place, absent,
  discrete_thread, discrete_queue, wants, Moves, pushed, popped, pusher, popper,
}
use message_router.Pipeline.Shared.Views.{producer_place, processor_place, strategy_place}
use message_router.Pipeline.Shared.Seen.{Seen}
use message_router.Pipeline.Shared.Routing.{push_not_silent, pop_not_silent}
use message_router.Pipeline.Shared.Stage1Steps.{stage1_alone, stage1_pops, stage1_pushes}
use message_router.Pipeline.Shared.Stage2Steps.{stage2_alone, stage2_pops, stage2_pushes}
use message_router.Pipeline.Shared.ProducerSteps.{producer_goes, producer_pushes}
use message_router.Pipeline.Shared.ProcessorSteps.{processor_goes, processor_pops, processor_pushes}
use message_router.Pipeline.Shared.StrategySteps.{strategy_goes, strategy_pops}

module _ {Double : Type 0} (config : SystemConfig Double) (k interval : ℕ) (begun : ℕ → ℕ) where
  module _ {cs : Thread → Place} {ls : QueueName → List Message}
      (v : Seen config k interval begun cs ls) where
    -- What a step asks of a thread's place, at the place that is seen.
    wanted :
        (i : Thread) (d : Place) (call : Call QueueName Message)
        → cs i ≡ d
        → wants config interval i (cs i) ≡ call
        → wants config interval i d ≡ call
    wanted i d call e w = subst (λ h. wants config interval i h ≡ call) e w

    moved :
        (i : Thread) (d c : Place)
        → cs i ≡ d
        → Moves config interval i (cs i) c
        → Moves config interval i d c
    moved i d c e m = subst (λ h. Moves config interval i h c) e m

    pub alone_lem :
        (i : Thread) (c : Place)
        → wants config interval i (cs i) ≡ silent
        → Moves config interval i (cs i) c
        → Seen config k interval begun (update discrete_thread cs i c) ls
    alone_lem (producer_thread i) c w m = elim (Option-cases (get_elem? v.state.producers i)) [
      | inl e ↦ absurd (
          moved (producer_thread i) absent c (v.places (producer_thread i) ∙ ap producer_place e) m)
      | inr ((p, pc, upcoming), e) ↦
          let seen = v.places (producer_thread i) ∙ ap producer_place e in
          let (life, now, t, lt, f) = moved (producer_thread i) _ c seen m in
          subst
            (λ d. Seen config k interval begun (update discrete_thread cs (producer_thread i) d) ls)
            (sym f)
            (producer_goes config k interval begun v i life now t p pc upcoming lt e
              (wanted (producer_thread i) _ silent seen w))
    ]
    alone_lem stage1_thread c w m =
        let seen = v.places stage1_thread in
        let (life, f) = moved stage1_thread _ c seen m in
        subst (λ d. Seen config k interval begun (update discrete_thread cs stage1_thread d) ls)
          (sym f)
          (stage1_alone config k interval begun v life (wanted stage1_thread _ silent seen w))
    alone_lem (processor_thread i) c w m = elim (Option-cases (get_elem? v.state.processors i)) [
      | inl e ↦ absurd (
          moved (processor_thread i) absent c
            (v.places (processor_thread i) ∙ ap (processor_place (v.clocks i)) e) m)
      | inr ((p, pc), e) ↦
          let seen = v.places (processor_thread i) ∙ ap (processor_place (v.clocks i)) e in
          let (life, f) = moved (processor_thread i) _ c seen m in
          subst
            (λ d.
              Seen config k interval begun (update discrete_thread cs (processor_thread i) d) ls)
            (sym f)
            (processor_goes config k interval begun v i p pc e life
              (wanted (processor_thread i) _ silent seen w))
    ]
    alone_lem stage2_thread c w m =
        let seen = v.places stage2_thread in
        let (life, f) = moved stage2_thread _ c seen m in
        subst (λ d. Seen config k interval begun (update discrete_thread cs stage2_thread d) ls)
          (sym f)
          (stage2_alone config k interval begun v life (wanted stage2_thread _ silent seen w))
    alone_lem (strategy_thread i) c w m = elim (Option-cases (get_elem? v.state.strategies i)) [
      | inl e ↦ absurd (
          moved (strategy_thread i) absent c (v.places (strategy_thread i) ∙ ap strategy_place e) m)
      | inr ((t, pc), e) ↦
          let seen = v.places (strategy_thread i) ∙ ap strategy_place e in
          let (life, f) = moved (strategy_thread i) _ c seen m in
          subst
            (λ d. Seen config k interval begun (update discrete_thread cs (strategy_thread i) d) ls)
            (sym f)
            (strategy_goes config k interval begun v i t pc e life
              (wanted (strategy_thread i) _ silent seen w))
    ]

    pub pushes_lem :
        (j : QueueName) (x : Message)
        → wants config interval (pusher config interval j) (cs (pusher config interval j))
          ≡ calls_push j x
        → Seen config k interval begun
            (update discrete_thread cs (pusher config interval j) (
              pushed config interval
                (pusher config interval j)
                (cs (pusher config interval j))
                (Fifo.push (capacity k) (ls j) x).0))
            (update discrete_queue ls j (Fifo.push (capacity k) (ls j) x).1)
    pushes_lem (producer_queue i) x w = elim (Option-cases (get_elem? v.state.producers i)) [
      | inl e ↦ absurd (
          push_not_silent (producer_queue i) x (
            sym (
              wanted (producer_thread i) absent _
                (v.places (producer_thread i) ∙ ap producer_place e) w)))
      | inr ((p, pc, upcoming), e) ↦ producer_pushes config k interval begun v i x p pc upcoming e w
    ]
    pushes_lem (stage1_queue p) x w = stage1_pushes config k interval begun v p x w
    pushes_lem (processor_queue i) x w = elim (Option-cases (get_elem? v.state.processors i)) [
      | inl e ↦ absurd (
          push_not_silent (processor_queue i) x (
            sym (
              wanted (processor_thread i) absent _
                (v.places (processor_thread i) ∙ ap (processor_place (v.clocks i)) e) w)))
      | inr ((p, pc), e) ↦ processor_pushes config k interval begun v i p pc e x w
    ]
    pushes_lem (stage2_queue p) x w = stage2_pushes config k interval begun v p x w

    pub pops_lem :
        (j : QueueName)
        → wants config interval (popper config interval j) (cs (popper config interval j))
          ≡ calls_pop j
        → Seen config k interval begun
            (update discrete_thread cs (popper config interval j) (
              popped config interval
                (popper config interval j)
                (cs (popper config interval j))
                (Fifo.pop (ls j)).0))
            (update discrete_queue ls j (Fifo.pop (ls j)).1)
    pops_lem (producer_queue i) w = stage1_pops config k interval begun v i w
    pops_lem (stage1_queue i) w = elim (Option-cases (get_elem? v.state.processors i)) [
      | inl e ↦ absurd (
          pop_not_silent (stage1_queue i) (
            sym (
              wanted (processor_thread i) absent _
                (v.places (processor_thread i) ∙ ap (processor_place (v.clocks i)) e) w)))
      | inr ((p, pc), e) ↦ processor_pops config k interval begun v i p pc e w
    ]
    pops_lem (processor_queue i) w = stage2_pops config k interval begun v i w
    pops_lem (stage2_queue i) w = elim (Option-cases (get_elem? v.state.strategies i)) [
      | inl e ↦ absurd (
          pop_not_silent (stage2_queue i) (
            sym (
              wanted (strategy_thread i) absent _
                (v.places (strategy_thread i) ∙ ap strategy_place e) w)))
      | inr ((t, pc), e) ↦ strategy_pops config k interval begun v i t pc e w
    ]
