-- ===== src/Pipeline/Hops.antt =====
-- What a step of a processor, a strategy or a producer does to the messages of one producer and
-- type between its queues.
use mathlib.Core.List.{map-append, nil-sublist}
use mathlib.Core.List.Sublist
use message_router.Base.{
  not, ℕ, ◌+◌, ◌≡◌, refl, sym, ap, ◌∙◌, Bool, true, false, List, [], ◌∷◌, ◌++◌, Option, none, some,
  ltb, if◌then◌else◌, append-nil, map,
}
use message_router.Message.{Message, MessageType, Key, StrategyId}
use message_router.Queue.Client.{
  QueueApi, Popped, Pushed, pop-Popped, push-Pushed, Popped-none, Popped-some, Pushed-true,
  Pushed-false,
}
use message_router.Processor
use message_router.Processor.{Processor}
use message_router.Strategy
use message_router.Strategy.{Strategy}
use message_router.Producer
use message_router.Producer.{Producer}
use message_router.Pipeline.{delivers, delivered_by, makes, producer_gives_up, processor_gives_up}
use message_router.Pipeline.Pick.{
  Kept, kept_all, Kept-lost, Allowed, pick, pick-append, line, line-take, line-give, line-lose,
}

module _ (F : QueueApi Message) (k : Key) where
  open F use {Q, contents, push, pop}

  -- The message in a processor's hand.
  abbrev pub held : Processor.Pc → List Message
  held (Processor.sending m retry) = pick k (m ∷ [])
  held _ = []

  -- From a processor's output queue to its input queue.
  abbrev pub around_processor : List Message → Processor.State F → List Message
  around_processor t (p, pc, input, output) =
      line (pick k (contents output)) (held pc) (pick k (contents input)) t

  popped-around :
      (t ms : List Message) (now : ℕ) (p : Processor) (output : Q) (res : Option Message × Q)
      → Popped F ms res
      → around_processor t (Processor.popped F now p output res)
        ≡ line (pick k (contents output)) [] (pick k ms) t
  unfolding Processor.simulate_processing
  popped-around t ms now p output (none, input) e =
      ap (λ l. line (pick k (contents output)) [] (pick k l) t) (Popped-none F ms input e)
  popped-around t ms now p output (some m, input) e =
      line-take k (pick k (contents output)) m (contents input) t
      ∙ ap (λ l. line (pick k (contents output)) [] (pick k l) t) (sym (Popped-some F ms m input e))

  tried-around :
      (t os : List Message) (p : Processor) (m : Message) (retry : ℕ) (input : Q) (res : Bool × Q)
      → Pushed F os m res
      → around_processor t (Processor.tried F p m retry input res)
        ≡ line (pick k os) (pick k (m ∷ [])) (pick k (contents input)) t
  tried-around t os p m retry input (true, output) e =
      ap (λ l. line (pick k l) [] (pick k (contents input)) t) (Pushed-true F os m output e)
      ∙ line-give k os m (pick k (contents input)) t
  tried-around t os p m retry input (false, output) e =
      ap (λ l. line (pick k l) (pick k (m ∷ [])) (pick k (contents input)) t)
        (Pushed-false F os m output e)

  -- A step of a processor keeps the order; it loses the message in its hand where it gives up.
  pub processor-hop :
      (lossy : Bool) (t : List Message) (now : ℕ) (s : Processor.State F)
      → Allowed lossy (processor_gives_up s.1)
      → Kept lossy (around_processor t (Processor.loop_step F now s)) (around_processor t s)
  unfolding Processor.loop_step
  processor-hop lossy t now (p, Processor.checking, input, output) ok =
      elim p.life.running
        as (λ b.
          Kept lossy
            (around_processor t (
              if b
              then (p, Processor.popping, input, output)
              else (p, Processor.ended, input, output)))
            (around_processor t (p, Processor.checking, input, output))) [
              | true ↦ kept_all refl
              | false ↦ kept_all refl
            ]
  processor-hop lossy t now (p, Processor.popping, input, output) ok =
      kept_all (popped-around t (contents input) now p output (pop input) (pop-Popped F input))
  processor-hop lossy t now (p, Processor.ended, input, output) ok = kept_all refl
  processor-hop lossy t now (p, Processor.sending m retry, input, output) allowed =
      (elim (ltb retry Processor.max_retries)
          as (λ b.
            Allowed lossy (not b)
            → Kept lossy
                (around_processor t (
                  if b
                  then Processor.tried F p m retry input (push output m)
                  else (p, Processor.popping, input, output)))
                (around_processor t (p, Processor.sending m retry, input, output))) [
                  | true ↦ λ ok. kept_all (
                      tried-around t (contents output) p m retry input (push output m)
                        (push-Pushed F output m))
                  | false ↦ λ ok. Kept-lost lossy ok (
                      line-lose (pick k (contents output)) (pick k (m ∷ []))
                        (pick k (contents input)) t)
                ])
        allowed

  -- What was delivered, and a strategy's queue.
  abbrev pub around_strategy :
      List Message → List (StrategyId × Message) → Strategy × Strategy.Pc × Q → List Message
  around_strategy t ds (s, pc, q) = pick k (map (λ d. d.1) ds) ++ (pick k (contents q) ++ t)

  delivered-around :
      (t ms : List Message) (ds : List (StrategyId × Message)) (i : StrategyId) (s : Strategy)
      (res : Option Message × Q)
      → Popped F ms res
      → around_strategy t (ds ++ delivered_by F i res) (Strategy.popped F s res)
        ≡ pick k (map (λ d. d.1) ds) ++ (pick k ms ++ t)
  delivered-around t ms ds i s (none, q) e = rw append-nil (
      ap (λ l. pick k (map (λ (d : StrategyId × Message). d.1) ds) ++ (pick k l ++ t))
        (Popped-none F ms q e))
  delivered-around t ms ds i s (some m, q) e = rw (map-append) (
      line-give k (map (λ (d : StrategyId × Message). d.1) ds) m (pick k (contents q)) t
      ∙ line-take k (pick k (map (λ (d : StrategyId × Message). d.1) ds)) m (contents q) t
      ∙ ap (λ l. line (pick k (map (λ (d : StrategyId × Message). d.1) ds)) [] (pick k l) t)
          (sym (Popped-some F ms m q e)))

  -- A step of a strategy keeps the order, and loses nothing.
  pub strategy-hop :
      (t : List Message) (ds : List (StrategyId × Message)) (i : StrategyId) (s : Strategy)
      (pc : Strategy.Pc) (q : Q)
      → around_strategy t (ds ++ delivers F i pc q) (Strategy.loop_step F (s, pc, q))
        ≡ around_strategy t ds (s, pc, q)
  unfolding Strategy.loop_step
  strategy-hop t ds i s Strategy.checking q =
      rw append-nil
        (elim s.life.running
          as (λ b.
            around_strategy t ds (if b then (s, Strategy.popping, q) else (s, Strategy.ended, q))
            ≡ around_strategy t ds (s, Strategy.checking, q)) [ true ↦ refl | false ↦ refl ])
  strategy-hop t ds i s Strategy.popping q =
      delivered-around t (contents q) ds i s (pop q) (pop-Popped F q)
  strategy-hop t ds i s Strategy.ended q = rw append-nil refl

  -- The message in a producer's hand, behind those in its queue.
  abbrev pub in_hand : Producer.Pc → List Message
  in_hand (Producer.sending m now retry) = pick k (m ∷ [])
  in_hand _ = []

  abbrev pub around_producer : Producer.State F → List Message
  around_producer (p, pc, next, q) = pick k (contents q) ++ in_hand pc

  sent-around :
      (os : List Message) (interval : ℕ) (p : Producer) (m : Message) (now retry next : ℕ)
      (res : Bool × Q)
      → Pushed F os m res
      → around_producer (Producer.tried F interval p m now retry next res)
        ≡ pick k os ++ pick k (m ∷ [])
  sent-around os interval p m now retry next (true, q) e =
      append-nil (pick k (contents q))
      ∙ ap (pick k) (Pushed-true F os m q e)
      ∙ pick-append k os (m ∷ [])
  sent-around os interval p m now retry next (false, q) e =
      ap (λ l. pick k l ++ pick k (m ∷ [])) (Pushed-false F os m q e)

  -- A step of a producer adds what it makes at the end; it loses the message in its hand where it
  -- gives up.
  pub producer-hop :
      (lossy : Bool) (interval now : ℕ) (t : MessageType) (p : Producer) (pc : Producer.Pc)
      (next : ℕ) (q : Q)
      → Allowed lossy (producer_gives_up pc)
      → Kept lossy
          (around_producer (Producer.loop_step F interval now t (p, pc, next, q)))
          (around_producer (p, pc, next, q) ++ pick k (makes now t p pc next))
  unfolding Producer.loop_step
  producer-hop lossy interval now t p Producer.checking next q ok =
      rw append-nil
        (elim p.life.running
          as (λ b.
            Kept lossy
              (around_producer
                (if b then (p, Producer.reading, next, q) else (p, Producer.ended, next, q)))
              (around_producer (p, Producer.checking, next, q))) [
                | true ↦ kept_all refl
                | false ↦ kept_all refl
              ])
  producer-hop lossy interval now t p Producer.reading next q ok =
      elim (ltb now next)
        as (λ b.
          Kept lossy
            (around_producer (
              if b then (p, Producer.checking, next, q) else (
                Producer.count_made p,
                Producer.sending (Producer.make p t now) now 0,
                next,
                q,
              )))
            (around_producer (p, Producer.reading, next, q)
              ++ pick k (if b then [] else Producer.make p t now ∷ []))) [
                | true ↦ kept_all (sym (append-nil (pick k (contents q) ++ [])))
                | false ↦ kept_all (
                    ap (λ l. l ++ pick k (Producer.make p t now ∷ []))
                      (sym (append-nil (pick k (contents q)))))
              ]
  producer-hop lossy interval now t p Producer.ended next q ok =
      kept_all (sym (append-nil (pick k (contents q) ++ [])))
  producer-hop lossy interval now t p (Producer.sending m at retry) next q allowed = rw append-nil (
      (elim (ltb retry Producer.max_retries)
          as (λ b.
            Allowed lossy (not b)
            → Kept lossy
                (around_producer (
                  if b
                  then Producer.tried F interval p m at retry next (push q m)
                  else (p, Producer.checking, at + interval, q)))
                (around_producer (p, Producer.sending m at retry, next, q))) [
                  | true ↦ λ ok. kept_all (
                      sent-around (contents q) interval p m at retry next (push q m)
                        (push-Pushed F q m))
                  | false ↦ λ ok. Kept-lost lossy ok (
                      Sublist.append (Sublist.refl (pick k (contents q)))
                        (nil-sublist (pick k (m ∷ []))))
                ])
        allowed)
