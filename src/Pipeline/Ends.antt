-- ===== src/Pipeline/Ends.antt =====
-- The steps of the strategies keep what `Lanes` says.
use mathlib.Core.List.{map-append}
use native.Mathlib.Decide.{ℕ_discrete}
use message_router.Base.{
  Bool, ℕ, ◌≡◌, ◌≢◌, sym, ap, subst, ◌∙◌, List, [], ◌++◌, some, map, get_elem?, append-nil,
}
use message_router.Config.{SystemConfig}
use message_router.Lifecycle.{Life}
use message_router.Message.{Message, Key, StrategyId}
use message_router.Queue.Client.{QueueApi}
use message_router.Strategy
use message_router.Strategy.{Strategy}
use message_router.Pipeline.{Pipeline, after_strategy, delivers}
use message_router.Pipeline.Pick.{Kept-trans, kept_all, pick, pick-append}
use message_router.Pipeline.Queues.{contents_at-get, contents_at-set_self, contents_at-set_ne}
use message_router.Pipeline.Hops
use message_router.Pipeline.Passing
use message_router.Pipeline.Passing.{nil_left}
use message_router.Pipeline.Lanes.{done, behind_stage2, processor, strategy, at, way, Inv}

module _ (F : QueueApi Message) {Double : Type 0} (config : SystemConfig Double) (k : Key)
    (lossy : Bool) where
  open F use {Q}

  module _ (s : Pipeline Q) (i : ℕ) (t : Strategy) (pc : Strategy.Pc) (q : Q) (life : Life)
      (f : get_elem? s.stage2_queues i ≡ some q) where
    abbrev turned : Strategy × Strategy.Pc × Q
    turned = Strategy.loop_step F (record t { life = life }, pc, q)

    abbrev after_turn : Pipeline Q
    after_turn = after_strategy F s i (delivers F i pc q) turned

    -- What was delivered, and the queue at an index.
    abbrev front : Pipeline Q → List Message → ℕ → List Message
    front s t j = done F config k s ++ (at F config k s.stage2_queues j ++ t)

    front_here : (t : List Message) → front after_turn t i ≡ front s t i
    front_here l =
        ap (λ x. done F config k after_turn ++ (pick k x ++ l))
          (contents_at-set_self F s.stage2_queues i turned.2 f)
        ∙ Hops.strategy-hop F k l s.delivered i (record t { life = life }) pc q
        ∙ ap (λ x. done F config k s ++ (pick k x ++ l))
            (sym (contents_at-get F s.stage2_queues i q f))

    -- At another index nothing of the key is delivered, and nothing of it stays.
    none_here :
        at F config k s.stage2_queues i ≡ []
        → (pick k (map (λ d. d.1) (delivers F i pc q)) ≡ [])
          × (at F config k after_turn.stage2_queues i ≡ [])
    none_here e =
        let hop = Hops.strategy-hop F k [] [] i (record t { life = life }) pc q in
        let empty : pick k (F.contents q) ++ [] ≡ [] =
          ap (λ x. pick k x ++ []) (sym (contents_at-get F s.stage2_queues i q f))
          ∙ append-nil (at F config k s.stage2_queues i)
          ∙ e in
        let (a, b) =
          nil_left (pick k (map (λ d. d.1) (delivers F i pc q)))
            (pick k (F.contents turned.2) ++ []) (hop ∙ empty) in
        (
          a,
          ap (pick k) (contents_at-set_self F s.stage2_queues i turned.2 f)
              ∙ (nil_left (pick k (F.contents turned.2)) [] b).0,
        )

    front_away :
        (l : List Message) (j : ℕ)
        → at F config k s.stage2_queues i ≡ []
        → j ≢ i
        → front after_turn l j ≡ front s l j
    front_away l j e ne =
        ap (λ x. x ++ (at F config k after_turn.stage2_queues j ++ l))
          (ap (pick k)
              (map-append (λ (d : StrategyId × Message). d.1) s.delivered (delivers F i pc q))
            ∙ pick-append k (map (λ d. d.1) s.delivered) (map (λ d. d.1) (delivers F i pc q))
            ∙ ap (λ x. done F config k s ++ x) (none_here e).0
            ∙ append-nil (done F config k s))
        ∙ ap (λ x. done F config k s ++ (pick k x ++ l))
            (contents_at-set_ne F s.stage2_queues i j turned.2 ne)

    pub strategy-Inv : Inv F config k lossy s → Inv F config k lossy after_turn
    strategy-Inv v = record {
      in_order = Kept-trans lossy (kept_all same) v.in_order;
      ids = v.ids;
      producers_clear = v.producers_clear;
      producer_queues_clear = v.producer_queues_clear;
      stage1_aimed = v.stage1_aimed;
      stage1_queues_clear = v.stage1_queues_clear;
      processors_clear = v.processors_clear;
      processor_queues_clear = v.processor_queues_clear;
      stage2_aimed = v.stage2_aimed;
      stage2_queues_clear = clear;
    }
      where
        rest : List Message
        rest =
            Passing.held k s.stage2.1
            ++ (at F config k s.processor_queues (processor F config k)
                ++ behind_stage2 F config k s)

        same : way F config k after_turn ≡ way F config k s
        same = elim (ℕ_discrete i (strategy F config k)) [
          | yes e ↦ subst (λ h. front after_turn rest h ≡ front s rest h) e (front_here rest)
          | no ne ↦
              front_away rest (strategy F config k) (v.stage2_queues_clear i ne) (λ e. ne (sym e))
        ]

        clear : (j : ℕ) → j ≢ strategy F config k → at F config k after_turn.stage2_queues j ≡ []
        clear j ne = elim (ℕ_discrete i j) [
          | yes e ↦
              subst (λ h. at F config k after_turn.stage2_queues h ≡ []) e
                (none_here (v.stage2_queues_clear i (λ e'. ne (sym e ∙ e')))).1
          | no away ↦
              ap (pick k) (contents_at-set_ne F s.stage2_queues i j turned.2 (λ e. away (sym e)))
              ∙ v.stage2_queues_clear j ne
        ]
