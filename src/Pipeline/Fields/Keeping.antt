-- ===== src/Pipeline/Fields/Keeping.antt =====
-- Every step keeps the fields of the messages and their places.
use native.Mathlib.Nat.{mod-lt}
use message_router.Base.{
  ℕ, ◌+◌, ◌<◌, ◌^◌, ◌≡◌, ◌⊎◌, refl, sym, subst, ◌∙◌, some, inl, inr, arith, add64, get_elem?,
  All-append, All-map, true,
}
use message_router.Base.Int.{rounds}
use message_router.Config.{SystemConfig, get_processor_for_message, get_strategy_for_message}
use message_router.Lifecycle.{Life}
use message_router.Message.{Message, MessageType}
use message_router.Queue.Client.{QueueApi}
use message_router.Producer
use message_router.Producer.{Producer, new_producer}
use message_router.Processor
use message_router.Processor.{Processor, new_processor, simulate_processing}
use message_router.Router.{stage1_step, stage2_step}
use message_router.Pipeline.{
  Pipeline, makes, delivers, after_producer, after_processor, Step, producer_moves, stage1_moves,
  processor_moves, stage2_moves, strategy_moves,
}
use message_router.Pipeline.Cargo.{get-Loaded, set-Loaded, router-Cargo}
use message_router.Pipeline.Cargo.Ends.{producer-Cargo, processor-Cargo, strategy-Cargo}
use message_router.Pipeline.Makers.{same_id}
use message_router.Pipeline.Numbers.{counts}
use message_router.Pipeline.Each.{set-Each}
use message_router.Pipeline.Fields.{
  Made, Marked, ForProcessor, ForStrategy, ProducerAt, ProcessorAt, Right, Filled,
}

module _ (F : QueueApi Message) {Double : Type 0} (config : SystemConfig Double) where
  open F use {Q}

  same_processor :
      (now : ℕ) (p : Processor) (pc : Processor.Pc) (input output : Q)
      → (Processor.loop_step F now (p, pc, input, output)).0.processor_id ≡ p.processor_id
  unfolding Processor.loop_step
  same_processor now p Processor.checking input output = ground arith
  same_processor now p Processor.popping input output = ground arith
  same_processor now p (Processor.sending m retry) input output = ground arith
  same_processor now p Processor.ended input output = refl

  module _ (s : Pipeline Q) (v : Filled F config s) where
    producer-Filled :
        (interval i : ℕ) (p : Producer) (pc : Producer.Pc) (upcoming : ℕ) (q : Q) (life : Life)
        (now : ℕ) (t : MessageType)
        → get_elem? s.producers i ≡ some (p, pc, upcoming)
        → get_elem? s.producer_queues i ≡ some q
        → t < 4
        → Filled F config (
            after_producer F s i
              (makes now t (record p { life = life }) pc upcoming)
              (Producer.loop_step F interval now t (record p { life = life }, pc, upcoming, q)))
    producer-Filled interval i p pc upcoming q life now t e f lt =
        let (id, number, holds) = v.producers i (p, pc, upcoming) e in
        let p' : Producer = record p { life = life } in
        let (cargo, new) =
          producer-Cargo F (Made F config) interval now t p' pc upcoming q
            (lt, id, number, mod-lt now (omega arith))
            (holds, get-Loaded F (λ j. Made F config) s.producer_queues i q f v.producer_queues) in
        record {
          producers =
              set-Each (ProducerAt F config) s.producers i _ _ e
                (
                  subst (λ n. n < rounds config.producers.count)
                      (sym (same_id F config (0, 0) true interval now t p' pc upcoming q)) id,
                  below (counts F config interval now t p' pc upcoming q) number,
                  cargo.0,
                )
                v.producers;
          producer_queues =
              set-Loaded F (λ j. Made F config) s.producer_queues i _ q f cargo.1 v.producer_queues;
          stage1 = v.stage1;
          stage1_queues = v.stage1_queues;
          processors = v.processors;
          processor_queues = v.processor_queues;
          stage2 = v.stage2;
          stage2_queues = v.stage2_queues;
          made = All-append (Made F config) s.made _ v.made new;
          delivered = v.delivered;
        }
      where
        below :
            {A B : Type 0} {n n' : ℕ}
            → ((A × (n' ≡ n)) ⊎ (B × (n' ≡ add64 n 1)))
            → n < 2 ^ 64
            → n' < 2 ^ 64
        below (inl (_, same)) h = omega arith
        below {n = n} (inr (_, up)) h = omega (arith, up, mod-lt (n + 1) {m = 2 ^ 64} (omega arith))

    processor-Filled :
        (i : ℕ) (p : Processor) (pc : Processor.Pc) (input output : Q) (life : Life) (now : ℕ)
        → get_elem? s.processors i ≡ some (p, pc)
        → get_elem? s.stage1_queues i ≡ some input
        → get_elem? s.processor_queues i ≡ some output
        → Filled F config (
            after_processor F s i
              (Processor.loop_step F now (record p { life = life }, pc, input, output)))
    unfolding simulate_processing
    processor-Filled i p pc input output life now e f g =
        let (id, lt, holds) = v.processors i (p, pc) e in
        let p' : Processor = record p { life = life } in
        let (holds', ins, outs) =
          processor-Cargo F (ForProcessor F config i) (Marked F config) now p' pc input output
            (λ m h. (h.0, id ∙ h.1, lt))
            (
              holds,
              get-Loaded F (ForProcessor F config) s.stage1_queues i input f v.stage1_queues,
              get-Loaded F (λ j. Marked F config) s.processor_queues i output g v.processor_queues,
            ) in
        let same = same_processor now p' pc input output in
        record {
          producers = v.producers;
          producer_queues = v.producer_queues;
          stage1 = v.stage1;
          stage1_queues =
              set-Loaded F (ForProcessor F config) s.stage1_queues i _ input f ins v.stage1_queues;
          processors =
              set-Each (ProcessorAt F config) s.processors i _ _ e
                (same ∙ id, subst (λ n. n < rounds config.processors.count) (sym same) lt, holds')
                v.processors;
          processor_queues =
              set-Loaded F (λ j. Marked F config) s.processor_queues i _ output g outs
                v.processor_queues;
          stage2 = v.stage2;
          stage2_queues = v.stage2_queues;
          made = v.made;
          delivered = v.delivered;
        }

    pub Step-Filled :
        (interval : ℕ) (s' : Pipeline Q) → Step F config interval s s' → Filled F config s'
    unfolding stage1_step stage2_step
    Step-Filled interval s' (producer_moves i p pc upcoming q life now t e f lt) =
        producer-Filled interval i p pc upcoming q life now t e f lt
    Step-Filled interval s' (stage1_moves life) =
        let (holds, ins, outs) =
          router-Cargo F (get_processor_for_message config) (Made F config)
            (record (s.stage1.0) { life = life }) s.stage1.1 s.producer_queues s.stage1_queues
            (v.stage1, v.producer_queues, v.stage1_queues) in
        record {
          producers = v.producers;
          producer_queues = ins;
          stage1 = holds;
          stage1_queues = outs;
          processors = v.processors;
          processor_queues = v.processor_queues;
          stage2 = v.stage2;
          stage2_queues = v.stage2_queues;
          made = v.made;
          delivered = v.delivered;
        }
    Step-Filled interval s' (processor_moves i p pc input output life now e f g) =
        processor-Filled i p pc input output life now e f g
    Step-Filled interval s' (stage2_moves life) =
        let (holds, ins, outs) =
          router-Cargo F (get_strategy_for_message config) (Marked F config)
            (record (s.stage2.0) { life = life }) s.stage2.1 s.processor_queues s.stage2_queues
            (v.stage2, v.processor_queues, v.stage2_queues) in
        record {
          producers = v.producers;
          producer_queues = v.producer_queues;
          stage1 = v.stage1;
          stage1_queues = v.stage1_queues;
          processors = v.processors;
          processor_queues = ins;
          stage2 = holds;
          stage2_queues = outs;
          made = v.made;
          delivered = v.delivered;
        }
    Step-Filled interval s' (strategy_moves i t pc q life e f) =
        let (rest, new) =
          strategy-Cargo F (ForStrategy F config i) i (record t { life = life }) pc q
            (get-Loaded F (ForStrategy F config) s.stage2_queues i q f v.stage2_queues) in
        record {
          producers = v.producers;
          producer_queues = v.producer_queues;
          stage1 = v.stage1;
          stage1_queues = v.stage1_queues;
          processors = v.processors;
          processor_queues = v.processor_queues;
          stage2 = v.stage2;
          stage2_queues =
              set-Loaded F (ForStrategy F config) s.stage2_queues i _ q f rest v.stage2_queues;
          made = v.made;
          delivered =
              All-append (Right F config) s.delivered (delivers F i pc q) v.delivered
                (All-map (λ d h. (h.0 ∙ h.1.1, h.1.0)) (delivers F i pc q) new);
        }
