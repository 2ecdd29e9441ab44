-- ===== src/Pipeline/Order.antt =====
-- The whole pipeline keeps the order of each producer and type.
use mathlib.Core.List.{Sublist}
use message_router.Base.{
  ℕ, zero, suc, ◌+◌, ◌≡◌, refl, sym, ap, ◌∙◌, List, [], ◌++◌, some, inl, inr, arith, Bool, true,
  false, get_elem?, replicate, Option-cases,
}
use message_router.Base.Int.{rounds}
use message_router.Config.{SystemConfig}
use message_router.Manager.Laws.{made}
use message_router.Message.{Message, Key}
use message_router.Queue.Client.{QueueApi}
use message_router.Producer
use message_router.Producer.{Producer, new_producer}
use message_router.Processor
use message_router.Processor.{Processor, new_processor}
use message_router.Pipeline.{
  gives_up, Lossless, Pipeline, started, Step, producer_moves, stage1_moves, processor_moves,
  stage2_moves, strategy_moves, Steps, here, next,
}
use message_router.Pipeline.Pick.{Kept, kept_all, kept_less, Allowed, pick, sublist_of_eq}
use message_router.Pipeline.Queues.{contents_at-replicate}
use message_router.Pipeline.Lanes.{
  processor, strategy, producer_hand, processor_hand, at, way, done, under_way, Inv,
}
use message_router.Pipeline.Moves.{stage1-Inv, stage2-Inv, processor-Inv}
use message_router.Pipeline.Ends.{strategy-Inv}
use message_router.Pipeline.Makers.{producer-Inv}

pub made_get {ℓ} :
    {C : Type ℓ} (built : ℕ → C) (n first i : ℕ) (c : C)
    → get_elem? (made built n first) i ≡ some c
    → c ≡ built (first + i)
made_get built zero first i c e = cc
made_get built (suc n) first zero c e =
    let same : built first ≡ c = cc in sym same ∙ ap built (omega arith)
made_get built (suc n) first (suc i) c e =
    made_get built n (first + 1) i c e ∙ ap built (omega arith)

module _ (F : QueueApi Message) {Double : Type 0} (config : SystemConfig Double) where
  open F use {Q}

  module _ (k : Key) (lossy : Bool) (begun : ℕ → ℕ) where
    nothing_held :
        (i : ℕ) → producer_hand F config k (get_elem? (started F config begun).producers i) ≡ []
    nothing_held i = elim (Option-cases (get_elem? (started F config begun).producers i)) [
      | inl e ↦ rw e refl
      | inr (c, e) ↦
          rw (e, made_get (λ i. (new_producer i, Producer.checking, begun i)) _ 0 i c e) refl
    ]

    nothing_processed :
        (i : ℕ) → processor_hand F config k (get_elem? (started F config begun).processors i) ≡ []
    nothing_processed i = elim (Option-cases (get_elem? (started F config begun).processors i)) [
      | inl e ↦ rw e refl
      | inr (c, e) ↦ rw (e, made_get (λ i. (new_processor i, Processor.checking)) _ 0 i c e) refl
    ]

    nothing_queued : (n i : ℕ) → at F config k (replicate n F.new) i ≡ []
    nothing_queued n i = ap (pick k) (contents_at-replicate F n i)

    started-Inv : Inv F config k lossy (started F config begun)
    unfolding new_producer
    started-Inv = record {
      in_order = kept_all empty;
      ids = λ i p pc next e.
          let same : p.producer_id ≡ 0 + i =
            ap (λ (c : Producer × Producer.Pc × ℕ). c.0.producer_id)
              (made_get (λ i. (new_producer i, Producer.checking, begun i)) _ 0 i (p, pc, next)
                e) in
          same ∙ omega arith;
      producers_clear = λ i ne. nothing_held i;
      producer_queues_clear = λ i ne. nothing_queued (rounds config.producers.count) i;
      stage1_aimed = tt;
      stage1_queues_clear = λ i ne. nothing_queued (rounds config.processors.count) i;
      processors_clear = λ i ne. nothing_processed i;
      processor_queues_clear = λ i ne. nothing_queued (rounds config.processors.count) i;
      stage2_aimed = tt;
      stage2_queues_clear = λ i ne. nothing_queued (rounds config.strategies.count) i;
    }
      where
        empty : way F config k (started F config begun) ≡ []
        empty =
            rw
              (
                nothing_queued (rounds config.strategies.count) (strategy F config k),
                nothing_queued (rounds config.processors.count) (processor F config k),
                nothing_processed (processor F config k),
                nothing_queued (rounds config.producers.count) k.0,
                nothing_held k.0,
              )
              refl

  module _ (interval : ℕ) where
    -- A run without losses gives no message up.
    abbrev Spares : Bool → {s t : Pipeline Q} → Steps F config interval s t → Type 0
    Spares lossy run = lossy ≡ false → Lossless F config interval run

    Step-Inv :
        (k : Key) (lossy : Bool) (s s' : Pipeline Q) (step : Step F config interval s s')
        → Allowed lossy (gives_up F config interval step)
        → Inv F config k lossy s
        → Inv F config k lossy s'
    Step-Inv k lossy s s' (producer_moves i p pc upcoming q life now t e f lt) ok v =
        producer-Inv F config k lossy interval s i p pc upcoming q life now t e f ok v
    Step-Inv k lossy s s' (stage1_moves life) ok v = stage1-Inv F config k lossy s life v ok
    Step-Inv k lossy s s' (processor_moves i p pc input output life now e f g) ok v =
        processor-Inv F config k lossy s i p pc input output life now e f g ok v
    Step-Inv k lossy s s' (stage2_moves life) ok v = stage2-Inv F config k lossy s life v ok
    Step-Inv k lossy s s' (strategy_moves i t pc q life e f) ok v =
        strategy-Inv F config k lossy s i t pc q life f v

    pub Steps-Inv :
        (k : Key) (lossy : Bool) (begun : ℕ → ℕ) (s : Pipeline Q)
        (run : Steps F config interval (started F config begun) s)
        → Spares lossy run
        → Inv F config k lossy s
    Steps-Inv k lossy begun s here spares = started-Inv k lossy begun
    Steps-Inv k lossy begun s (next {t} run step) spares =
        Step-Inv k lossy t s step (λ e. (spares e).1)
          (Steps-Inv k lossy begun t run (λ e. (spares e).0))

    -- Any run may have losses.
    pub always_spares :
        {s t : Pipeline Q} (run : Steps F config interval s t)
        → true ≡ false
        → Lossless F config interval run
    always_spares run e = cc

    -- However the threads interleave, of the messages of one producer and type, those that the
    -- strategies have processed, followed by those under way, are a subsequence of those that the
    -- producer made, in the order of making and unchanged but for the processor's marks: none is
    -- doubled, overtaken or made up, whatever is lost.
    pub end_to_end :
        (k : Key) (begun : ℕ → ℕ) (s : Pipeline Q)
        → Steps F config interval (started F config begun) s
        → Sublist (done F config k s ++ under_way F config k s) (pick k s.made)
    end_to_end k begun s run =
        subsequence (Steps-Inv k true begun s run (always_spares run)).in_order
      where
        subsequence : {xs ys : List Message} → Kept true xs ys → Sublist xs ys
        subsequence (kept_all e) = sublist_of_eq e
        subsequence (kept_less b l) = l

    -- However the threads interleave, as long as no retry loop has come to its end without a send
    -- and no rule has named a queue that does not exist: of the messages of one producer and type,
    -- those that the strategies have processed, followed by those under way, are exactly those that
    -- the producer made, in the order of making. Nothing is lost in another way.
    pub no_other_loss :
        (k : Key) (begun : ℕ → ℕ) (s : Pipeline Q)
        (run : Steps F config interval (started F config begun) s)
        → Lossless F config interval run
        → done F config k s ++ under_way F config k s ≡ pick k s.made
    no_other_loss k begun s run lossless =
        whole (Steps-Inv k false begun s run (λ e. lossless)).in_order
      where
        whole : {xs ys : List Message} → Kept false xs ys → xs ≡ ys
        whole (kept_all e) = e
        whole (kept_less b l) = absurd (let no_way = b in cc)
