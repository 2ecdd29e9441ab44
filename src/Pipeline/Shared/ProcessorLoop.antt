-- ===== src/Pipeline/Shared/ProcessorLoop.antt =====
-- A processor's step without a call, with `try_pop` and with `try_push`, with calls that take place at once.
use message_router.Base.{
  ℕ, suc, ◌≡◌, refl, sym, Bool, true, false, List, [], ◌∷◌, Option, none, some, ltb, Bool-cases,
  inl, inr,
}
use message_router.Config.{SystemConfig}
use message_router.Message.{Message}
use message_router.Queue.Defs.{capacity}
use message_router.Queue.Fifo
use message_router.Queue.Network.{silent, calls_push, calls_pop}
use message_router.Processor
use message_router.Processor.{Processor}
use message_router.Pipeline.Shared.{
  processor_thread, stage1_queue, processor_queue, Place, at_processor, list_api, processor_alone,
  pushed, popped, wants,
}
use message_router.Pipeline.Shared.Routing.{push_not_silent, pop_not_silent, push_not_pop, push_inj}

module _ {Double : Type 0} (config : SystemConfig Double) (k interval : ℕ) where
  abbrev pub at_state : Processor.State (list_api k) → (ℕ → ℕ) → Place
  at_state u clock = at_processor u.0 u.1 clock

  pub steps_alone :
      (i now : ℕ) (p : Processor) (pc : Processor.Pc) (clock : ℕ → ℕ) (input output : List Message)
      → wants config interval (processor_thread i) (at_processor p pc clock) ≡ silent
      → (at_state (Processor.loop_step (list_api k) now (p, pc, input, output)) clock
          ≡ processor_alone config interval p pc clock)
        × ((Processor.loop_step (list_api k) now (p, pc, input, output)).2 ≡ input)
        × ((Processor.loop_step (list_api k) now (p, pc, input, output)).3 ≡ output)
  unfolding Processor.loop_step
  steps_alone i now p Processor.checking clock input output w = elim (Bool-cases p.life.running) [
    | inl e ↦ rw e (refl, refl, refl)
    | inr e ↦ rw e (refl, refl, refl)
  ]
  steps_alone i now p Processor.popping clock input output w =
      absurd (pop_not_silent (stage1_queue i) w)
  steps_alone i now p (Processor.sending x retry) clock input output w =
      elim (Bool-cases (ltb retry Processor.max_retries)) [
        | inl e ↦ absurd (push_not_silent (processor_queue i) x (rw e at w))
        | inr e ↦ rw e (refl, refl, refl)
      ]
  steps_alone i now p Processor.ended clock input output w = (refl, refl, refl)

  -- The clock after a call of `try_pop`.
  abbrev pub ticked : (ℕ → ℕ) → Option Message → ℕ → ℕ
  ticked clock none = clock
  ticked clock (some x) = λ n. clock (suc n)

  pub steps_popping :
      (i : ℕ) (p : Processor) (pc : Processor.Pc) (clock : ℕ → ℕ) (input output : List Message)
      → wants config interval (processor_thread i) (at_processor p pc clock)
        ≡ calls_pop (stage1_queue i)
      → (at_state
            (Processor.loop_step (list_api k) (clock 0) (p, pc, input, output))
            (ticked clock (Fifo.pop input).0)
          ≡ popped config interval
              (processor_thread i)
              (at_processor p pc clock)
              (Fifo.pop input).0)
        × ((Processor.loop_step (list_api k) (clock 0) (p, pc, input, output)).2
            ≡ (Fifo.pop input).1)
        × ((Processor.loop_step (list_api k) (clock 0) (p, pc, input, output)).3 ≡ output)
  unfolding Processor.loop_step Fifo.pop
  steps_popping i p Processor.checking clock input output w =
      absurd (pop_not_silent (stage1_queue i) (sym w))
  steps_popping i p Processor.popping clock [] output w = (refl, refl, refl)
  steps_popping i p Processor.popping clock (x ∷ input) output w = (refl, refl, refl)
  steps_popping i p (Processor.sending x retry) clock input output w =
      elim (Bool-cases (ltb retry Processor.max_retries)) [
        | inl e ↦ absurd (push_not_pop (processor_queue i) (stage1_queue i) x (rw e at w))
        | inr e ↦ absurd (pop_not_silent (stage1_queue i) (sym (rw e at w)))
      ]
  steps_popping i p Processor.ended clock input output w =
      absurd (pop_not_silent (stage1_queue i) (sym w))

  pub steps_pushing :
      (i now : ℕ) (p : Processor) (pc : Processor.Pc) (clock : ℕ → ℕ) (input output : List Message)
      (x : Message)
      → wants config interval (processor_thread i) (at_processor p pc clock)
        ≡ calls_push (processor_queue i) x
      → (at_state (Processor.loop_step (list_api k) now (p, pc, input, output)) clock
          ≡ pushed config interval
              (processor_thread i)
              (at_processor p pc clock)
              (Fifo.push (capacity k) output x).0)
        × ((Processor.loop_step (list_api k) now (p, pc, input, output)).2 ≡ input)
        × ((Processor.loop_step (list_api k) now (p, pc, input, output)).3
            ≡ (Fifo.push (capacity k) output x).1)
  unfolding Processor.loop_step
  steps_pushing i now p Processor.checking clock input output x w =
      absurd (push_not_silent (processor_queue i) x (sym w))
  steps_pushing i now p Processor.popping clock input output x w =
      absurd (push_not_pop (processor_queue i) (stage1_queue i) x (sym w))
  steps_pushing i now p Processor.ended clock input output x w =
      absurd (push_not_silent (processor_queue i) x (sym w))
  steps_pushing i now p (Processor.sending y retry) clock input output x w =
      elim (Bool-cases (ltb retry Processor.max_retries)) [
        | inr e ↦ absurd (push_not_silent (processor_queue i) x (sym (rw e at w)))
        | inl e ↦
            let same : y ≡ x =
              (push_inj (processor_queue i) (processor_queue i) y x (rw e at w)).1 in
            rw (e, same)
              (tried (Fifo.push (capacity k) output x).0 (Fifo.push (capacity k) output x).1)
      ]
    where
      tried :
          (b : Bool) (l : List Message)
          → (at_state (Processor.tried (list_api k) p x retry input (b, l)) clock
              ≡ pushed config interval
                  (processor_thread i)
                  (at_processor p (Processor.sending x retry) clock)
                  b)
            × ((Processor.tried (list_api k) p x retry input (b, l)).2 ≡ input)
            × ((Processor.tried (list_api k) p x retry input (b, l)).3 ≡ l)
      tried true l = (refl, refl, refl)
      tried false l = (refl, refl, refl)
