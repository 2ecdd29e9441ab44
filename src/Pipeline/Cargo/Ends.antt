-- ===== src/Pipeline/Cargo/Ends.antt =====
-- The steps of producers, processors and strategies, which work on one queue at each end.
use message_router.Base.{
  ℕ, ◌≡◌, ◌+◌, refl, sym, subst, [], ◌∷◌, Bool, true, false, Option, none, some, ltb, if◌then◌else◌,
  All,
}
use message_router.Message.{Message, MessageType, StrategyId}
use message_router.Queue.Client.{QueueApi, Popped, pop-Popped, push-Pushed, Popped-none}
use message_router.Producer
use message_router.Producer.{Producer}
use message_router.Processor
use message_router.Processor.{Processor, simulate_processing}
use message_router.Strategy
use message_router.Strategy.{Strategy}
use message_router.Pipeline.{makes, delivered_by, delivers}
use message_router.Pipeline.Cargo.{popped-All, pushed-All}

module _ (F : QueueApi Message) where
  open F use {Q}

  module _ (P : Message → Type 0) where
    abbrev pub ProducerHolds : Producer.Pc → Type 0
    ProducerHolds (Producer.sending m made retry) = P m
    ProducerHolds _ = Unit

    abbrev pub ProducerCargo : Producer.State F → Type 0
    ProducerCargo (p, pc, next, q) = ProducerHolds pc × All P (F.contents q)

    made_tried :
        (interval : ℕ) (p : Producer) (m : Message) (at retry next : ℕ) (res : Bool × Q)
        → P m
        → All P (F.contents res.1)
        → ProducerCargo (Producer.tried F interval p m at retry next res)
    made_tried interval p m at retry next (true, q) h a = (tt, a)
    made_tried interval p m at retry next (false, q) h a = (h, a)

    -- A producer, where what it makes has the property.
    pub producer-Cargo :
        (interval now : ℕ) (t : MessageType) (p : Producer) (pc : Producer.Pc) (next : ℕ) (q : Q)
        → P (Producer.make p t now)
        → ProducerCargo (p, pc, next, q)
        → ProducerCargo (Producer.loop_step F interval now t (p, pc, next, q))
          × All P (makes now t p pc next)
    unfolding Producer.loop_step
    producer-Cargo interval now t p Producer.checking next q new (h, a) = (
      elim p.life.running
          as (λ b.
            ProducerCargo
              (if b then (p, Producer.reading, next, q) else (p, Producer.ended, next, q))) [
                | true ↦ (tt, a)
                | false ↦ (tt, a)
              ],
      tt,
    )
    producer-Cargo interval now t p Producer.reading next q new (h, a) =
        elim (ltb now next)
          as (λ b.
            ProducerCargo (
              if b
              then (p, Producer.checking, next, q)
              else (Producer.count_made p, Producer.sending (Producer.make p t now) now 0, next, q))
            × All P (if b then [] else Producer.make p t now ∷ [])) [
              | true ↦ ((tt, a), tt)
              | false ↦ ((new, a), (new, tt))
            ]
    producer-Cargo interval now t p (Producer.sending m at retry) next q new (h, a) = (
      elim (ltb retry Producer.max_retries)
          as (λ b. ProducerCargo (
            if b
            then Producer.tried F interval p m at retry next (F.push q m)
            else (p, Producer.checking, at + interval, q))) [
              | true ↦
                  made_tried interval p m at retry next (F.push q m) h
                    (pushed-All F P (F.contents q) m (F.push q m) (push-Pushed F q m) h a)
              | false ↦ (tt, a)
            ],
      tt,
    )
    producer-Cargo interval now t p Producer.ended next q new c = (c, tt)

    -- A strategy.
    pub strategy-Cargo :
        (i : StrategyId) (s : Strategy) (pc : Strategy.Pc) (q : Q)
        → All P (F.contents q)
        → All P (F.contents (Strategy.loop_step F (s, pc, q)).2)
          × All (λ d. (d.0 ≡ i) × P d.1) (delivers F i pc q)
    unfolding Strategy.loop_step
    strategy-Cargo i s Strategy.checking q a = (
      elim s.life.running
          as (λ b. ends_with (if b then (s, Strategy.popping, q) else (s, Strategy.ended, q))) [
            | true ↦ a
            | false ↦ a
          ],
      tt,
    )
      where
        ends_with : Strategy × Strategy.Pc × Q → Type 0
        ends_with t = All P (F.contents t.2)
    strategy-Cargo i s Strategy.popping q a = taken (F.pop q) (pop-Popped F q)
      where
        taken :
            (res : Option Message × Q)
            → Popped F (F.contents q) res
            → All P (F.contents (Strategy.popped F s res).2)
              × All (λ d. (d.0 ≡ i) × P d.1) (delivered_by F i res)
        taken (none, q') e = (subst (All P) (sym (Popped-none F (F.contents q) q' e)) a, tt)
        taken (some m, q') e =
            let (p, rest) = popped-All F P (F.contents q) m q' e a in (rest, ((refl, p), tt))
    strategy-Cargo i s Strategy.ended q a = (a, tt)

  -- A processor, whose marks give what comes in with `P` the property `R`.
  module _ (P R : Message → Type 0) where
    abbrev pub ProcessorHolds : Processor.Pc → Type 0
    ProcessorHolds (Processor.sending m retry) = R m
    ProcessorHolds _ = Unit

    abbrev pub ProcessorCargo : Processor.State F → Type 0
    ProcessorCargo (p, pc, input, output) =
        ProcessorHolds pc × All P (F.contents input) × All R (F.contents output)

    processed_tried :
        (p : Processor) (m : Message) (retry : ℕ) (input : Q) (res : Bool × Q)
        → R m
        → All P (F.contents input)
        → All R (F.contents res.1)
        → ProcessorCargo (Processor.tried F p m retry input res)
    processed_tried p m retry input (true, q) h a b = (tt, a, b)
    processed_tried p m retry input (false, q) h a b = (h, a, b)

    pub processor-Cargo :
        (now : ℕ) (p : Processor) (pc : Processor.Pc) (input output : Q)
        → ((m : Message) → P m → R (simulate_processing p.processor_id now m))
        → ProcessorCargo (p, pc, input, output)
        → ProcessorCargo (Processor.loop_step F now (p, pc, input, output))
    unfolding Processor.loop_step
    processor-Cargo now p Processor.checking input output mark (h, a, b) =
        elim p.life.running
          as (λ c. ProcessorCargo (
            if c
            then (p, Processor.popping, input, output)
            else (p, Processor.ended, input, output))) [ true ↦ (tt, a, b) | false ↦ (tt, a, b) ]
    processor-Cargo now p Processor.popping input output mark (h, a, b) =
        taken (F.pop input) (pop-Popped F input)
      where
        taken :
            (res : Option Message × Q)
            → Popped F (F.contents input) res
            → ProcessorCargo (Processor.popped F now p output res)
        taken (none, q') e = (tt, subst (All P) (sym (Popped-none F (F.contents input) q' e)) a, b)
        taken (some m, q') e =
            let (p, rest) = popped-All F P (F.contents input) m q' e a in (mark m p, rest, b)
    processor-Cargo now p (Processor.sending m retry) input output mark (h, a, b) =
        elim (ltb retry Processor.max_retries)
          as (λ c. ProcessorCargo (
            if c
            then Processor.tried F p m retry input (F.push output m)
            else (p, Processor.popping, input, output))) [
              | true ↦ processed_tried p m retry input (F.push output m) h a (
                  pushed-All F R (F.contents output) m (F.push output m) (push-Pushed F output m) h
                    b)
              | false ↦ (tt, a, b)
            ]
    processor-Cargo now p Processor.ended input output mark c = c
