-- ===== src/Pipeline/Shared/ProducerSteps.antt =====
-- What a producer does with calls that take place at once, it does in `Pipeline`.
use message_router.Base.{
  ℕ, ◌<◌, ◌≡◌, refl, sym, ap, ◌∙◌, Bool, true, false, List, some, get_elem?, get_elem?-set_hit,
  length-set, arith, ltb, Bool-cases, inl, inr,
}
use message_router.Base.Int.{rounds}
use message_router.Config.{SystemConfig}
use message_router.Lifecycle.{Life}
use message_router.Message.{Message, MessageType}
use message_router.Queue.Defs.{capacity}
use message_router.Queue.Fifo
use message_router.Queue.Network.{silent, calls_push, update}
use message_router.Producer
use message_router.Producer.{Producer}
use message_router.Pipeline.{after_producer, producer_moves, makes, next}
use message_router.Pipeline.Shared.{
  Thread, producer_thread, QueueName, producer_queue, Place, at_producer, list_api, discrete_thread,
  discrete_queue, producer_alone, pushed, wants,
}
use message_router.Pipeline.Shared.Routing.{push_not_silent, push_inj}
use message_router.Pipeline.Shared.Views.{
  list_of, set-Away, set-Same, beside, queues-Same, producer_queue-Away, producer_place,
}
use message_router.Pipeline.Shared.Seen.{
  Seen, Sizes, Seen-at, same_queues, one_queue, producer_others,
}

module _ {Double : Type 0} (config : SystemConfig Double) (k interval : ℕ) where
  abbrev at_state : Producer.State (list_api k) → Place
  at_state u = at_producer u.0 u.1 u.2

  -- A step without a call leaves the queue alone.
  steps_alone :
      (i now : ℕ) (t : MessageType) (p : Producer) (pc : Producer.Pc) (upcoming : ℕ)
      (q : List Message)
      → wants config interval (producer_thread i) (at_producer p pc upcoming) ≡ silent
      → (at_state (Producer.loop_step (list_api k) interval now t (p, pc, upcoming, q))
          ≡ producer_alone config interval now t p pc upcoming)
        × ((Producer.loop_step (list_api k) interval now t (p, pc, upcoming, q)).3 ≡ q)
  unfolding Producer.loop_step
  steps_alone i now t p Producer.checking upcoming q w = elim (Bool-cases p.life.running) [
    | inl e ↦ rw e (refl, refl)
    | inr e ↦ rw e (refl, refl)
  ]
  steps_alone i now t p Producer.reading upcoming q w = elim (Bool-cases (ltb now upcoming)) [
    | inl e ↦ rw e (refl, refl)
    | inr e ↦ rw e (refl, refl)
  ]
  steps_alone i now t p (Producer.sending x made retry) upcoming q w =
      elim (Bool-cases (ltb retry Producer.max_retries)) [
        | inl e ↦ absurd (push_not_silent (producer_queue i) x (rw e at w))
        | inr e ↦ rw e (refl, refl)
      ]
  steps_alone i now t p Producer.ended upcoming q w = (refl, refl)

  -- A step with a call does what the call returns.
  steps_pushing :
      (i now : ℕ) (t : MessageType) (p : Producer) (pc : Producer.Pc) (upcoming : ℕ)
      (q : List Message) (x : Message)
      → wants config interval (producer_thread i) (at_producer p pc upcoming)
        ≡ calls_push (producer_queue i) x
      → (at_state (Producer.loop_step (list_api k) interval now t (p, pc, upcoming, q))
          ≡ pushed config interval
              (producer_thread i)
              (at_producer p pc upcoming)
              (Fifo.push (capacity k) q x).0)
        × ((Producer.loop_step (list_api k) interval now t (p, pc, upcoming, q)).3
            ≡ (Fifo.push (capacity k) q x).1)
  unfolding Producer.loop_step
  steps_pushing i now t p Producer.checking upcoming q x w =
      absurd (push_not_silent (producer_queue i) x (sym w))
  steps_pushing i now t p Producer.reading upcoming q x w =
      absurd (push_not_silent (producer_queue i) x (sym w))
  steps_pushing i now t p Producer.ended upcoming q x w =
      absurd (push_not_silent (producer_queue i) x (sym w))
  steps_pushing i now t p (Producer.sending y made retry) upcoming q x w =
      elim (Bool-cases (ltb retry Producer.max_retries)) [
        | inr e ↦ absurd (push_not_silent (producer_queue i) x (sym (rw e at w)))
        | inl e ↦
            let same : y ≡ x = (push_inj (producer_queue i) (producer_queue i) y x (rw e at w)).1 in
            rw (e, same) (tried (Fifo.push (capacity k) q x).0 (Fifo.push (capacity k) q x).1)
      ]
    where
      tried :
          (b : Bool) (l : List Message)
          → (at_state (Producer.tried (list_api k) interval p x made retry upcoming (b, l))
              ≡ pushed config interval
                  (producer_thread i)
                  (at_producer p (Producer.sending x made retry) upcoming)
                  b)
            × ((Producer.tried (list_api k) interval p x made retry upcoming (b, l)).3 ≡ l)
      tried true l = (refl, refl)
      tried false l = (refl, refl)

  module _ (begun : ℕ → ℕ) {cs : Thread → Place} {ls : QueueName → List Message}
      (v : Seen config k interval begun cs ls) (i : ℕ) where
    producer_sizes :
        (ms : List Message) (u : Producer.State (list_api k))
        → Sizes config (after_producer (list_api k) v.state i ms u)
    producer_sizes ms u = record {
      of_producers = length-set v.state.producers i _ ∙ v.sizes.of_producers;
      of_producer_queues = length-set v.state.producer_queues i u.3 ∙ v.sizes.of_producer_queues;
      of_stage1_queues = v.sizes.of_stage1_queues;
      of_processors = v.sizes.of_processors;
      of_processor_queues = v.sizes.of_processor_queues;
      of_stage2_queues = v.sizes.of_stage2_queues;
      of_strategies = v.sizes.of_strategies;
    }

    pub producer_goes :
        (life : Life) (now : ℕ) (t : MessageType) (p : Producer) (pc : Producer.Pc) (upcoming : ℕ)
        → t < 4
        → get_elem? v.state.producers i ≡ some (p, pc, upcoming)
        → wants config interval (producer_thread i) (at_producer p pc upcoming) ≡ silent
        → Seen config k interval begun
            (update discrete_thread cs
              (producer_thread i)
              (producer_alone config interval now t (record p { life = life }) pc upcoming))
            ls
    producer_goes life now t p pc upcoming lt e w =
        let s = v.state in
        let (q, there) =
          beside (rounds config.producers.count) s.producers s.producer_queues i (p, pc, upcoming)
            v.sizes.of_producers v.sizes.of_producer_queues e in
        let p' : Producer = record p { life = life } in
        let u : Producer.State (list_api k) =
          Producer.loop_step (list_api k) interval now t (p', pc, upcoming, q) in
        let ms = makes now t p' pc upcoming in
        let (goes, same) = steps_alone i now t p' pc upcoming q (alike life p pc upcoming w) in
        let s' = after_producer (list_api k) s i ms u in
        Seen-at config k interval begun v (producer_thread i) _ s' v.clocks ls
          (next v.run (producer_moves i p pc upcoming q life now t e there lt))
          (producer_sizes ms u)
          (sym goes ∙ sym (ap producer_place (get_elem?-set_hit s.producers i (u.0, u.1, u.2) e)))
          (producer_others k v.clocks s i ms u)
          (same_queues config k interval begun v s' (
            queues-Same s s' (set-Same s.producer_queues i u.3 q there same) (λ j. refl) (λ j. refl)
              (λ j. refl)))
      where
        alike :
            (life : Life) (p : Producer) (pc : Producer.Pc) (upcoming : ℕ)
            → wants config interval (producer_thread i) (at_producer p pc upcoming) ≡ silent
            → wants config interval
                (producer_thread i)
                (at_producer (record p { life = life }) pc upcoming)
              ≡ silent
        alike life p Producer.checking upcoming w = refl
        alike life p Producer.reading upcoming w = refl
        alike life p (Producer.sending x made retry) upcoming w = w
        alike life p Producer.ended upcoming w = refl

    pub producer_pushes :
        (x : Message) (p : Producer) (pc : Producer.Pc) (upcoming : ℕ)
        → get_elem? v.state.producers i ≡ some (p, pc, upcoming)
        → wants config interval (producer_thread i) (cs (producer_thread i))
          ≡ calls_push (producer_queue i) x
        → Seen config k interval begun
            (update discrete_thread cs (producer_thread i) (
              pushed config interval
                (producer_thread i)
                (cs (producer_thread i))
                (Fifo.push (capacity k) (ls (producer_queue i)) x).0))
            (update discrete_queue ls
              (producer_queue i)
              (Fifo.push (capacity k) (ls (producer_queue i)) x).1)
    producer_pushes x p pc upcoming e w =
        let s = v.state in
        let (q, there) =
          beside (rounds config.producers.count) s.producers s.producer_queues i (p, pc, upcoming)
            v.sizes.of_producers v.sizes.of_producer_queues e in
        let here : cs (producer_thread i) ≡ at_producer p pc upcoming =
          v.places (producer_thread i) ∙ ap producer_place e in
        let holds : ls (producer_queue i) ≡ q = v.queues (producer_queue i) ∙ ap list_of there in
        let u : Producer.State (list_api k) =
          Producer.loop_step (list_api k) interval 0 0 (p, pc, upcoming, q) in
        let ms = makes 0 0 p pc upcoming in
        let (goes, left) =
          steps_pushing i 0 0 p pc upcoming q x
            (sym (ap (wants config interval (producer_thread i)) here) ∙ w) in
        let s' = after_producer (list_api k) s i ms u in
        Seen-at config k interval begun v (producer_thread i) _ s' v.clocks _
          (next v.run (producer_moves i p pc upcoming q p.life 0 0 e there (omega arith)))
          (producer_sizes ms u)
          ((λ h.
              pushed config interval (producer_thread i) (here h)
                (Fifo.push (capacity k) (holds h) x).0)
            ∙ sym goes
            ∙ sym (ap producer_place (get_elem?-set_hit s.producers i (u.0, u.1, u.2) e)))
          (producer_others k v.clocks s i ms u)
          (one_queue config k interval begun v s' (producer_queue i) _
            (ap (λ m. (Fifo.push (capacity k) m x).1) holds
              ∙ sym left
              ∙ sym (ap list_of (get_elem?-set_hit s.producer_queues i u.3 there)))
            (producer_queue-Away s s' i (set-Away s.producer_queues i u.3) (λ j. refl) (λ j. refl)
              (λ j. refl)))
