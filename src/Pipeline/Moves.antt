-- ===== src/Pipeline/Moves.antt =====
-- The steps of the routers, the processors and the strategies keep what `Lanes` says.
use native.Mathlib.Decide.{ℕ_discrete}
use message_router.Base.{
  Bool, refl, ℕ, ◌≡◌, ◌≢◌, sym, ap, subst, ◌∙◌, List, [], ◌++◌, some, get_elem?, get_elem?-set_hit,
  get_elem?-set_ne,
}
use message_router.Config.{SystemConfig, get_processor_for_message, get_strategy_for_message}
use message_router.Lifecycle.{Life}
use message_router.Message.{Message, Key}
use message_router.Queue.Client.{QueueApi}
use message_router.Processor
use message_router.Processor.{Processor}
use message_router.Router.{stage1_step, stage2_step}
use message_router.Pipeline.{
  router_gives_up, processor_gives_up, Pipeline, after_stage1, after_stage2, after_processor,
}
use message_router.Pipeline.Pick.{
  Kept, Kept-trans, Kept-append, Kept-nil, Allowed, kept_all, pick, line,
}
use message_router.Pipeline.Queues.{contents_at-get, contents_at-set_self, contents_at-set_ne}
use message_router.Pipeline.Hops
use message_router.Pipeline.Routers.{router-Hop}
use message_router.Pipeline.Passing.{nil_left}
use message_router.Pipeline.Lanes.{
  chain-Kept, ahead_of_processor, ahead_of_stage1, behind_stage1, behind_processor, behind_stage2,
  processor, processor_hand, at, Inv,
}

module _ (F : QueueApi Message) {Double : Type 0} (config : SystemConfig Double) (k : Key)
    (lossy : Bool) where
  open F use {Q}

  pub stage1-Inv :
      (s : Pipeline Q) (life : Life)
      → Inv F config k lossy s
      → Allowed lossy (
          router_gives_up F
            (get_processor_for_message config)
            s.producer_queues
            s.stage1_queues
            s.stage1.1)
      → Inv F config k lossy (
          after_stage1 F s (
            stage1_step F config (
              record (s.stage1.0) { life = life },
              s.stage1.1,
              s.producer_queues,
              s.stage1_queues,
            )))
  unfolding stage1_step
  stage1-Inv s life v ok =
      let hop =
        router-Hop F (get_processor_for_message config) k k.0 lossy (behind_stage1 F config k s)
          (record (s.stage1.0) { life = life }) s.stage1.1 s.producer_queues s.stage1_queues
          v.stage1_aimed v.producer_queues_clear ok in
      record {
        in_order =
            Kept-trans lossy (chain-Kept lossy (ahead_of_stage1 F config k s) hop.kept) v.in_order;
        ids = v.ids;
        producers_clear = v.producers_clear;
        producer_queues_clear = hop.ins_clear;
        stage1_aimed = hop.aimed;
        stage1_queues_clear = λ i ne. hop.outs_same i ne ∙ v.stage1_queues_clear i ne;
        processors_clear = v.processors_clear;
        processor_queues_clear = v.processor_queues_clear;
        stage2_aimed = v.stage2_aimed;
        stage2_queues_clear = v.stage2_queues_clear;
      }

  pub stage2-Inv :
      (s : Pipeline Q) (life : Life)
      → Inv F config k lossy s
      → Allowed lossy (
          router_gives_up F
            (get_strategy_for_message config)
            s.processor_queues
            s.stage2_queues
            s.stage2.1)
      → Inv F config k lossy (
          after_stage2 F s (
            stage2_step F config (
              record (s.stage2.0) { life = life },
              s.stage2.1,
              s.processor_queues,
              s.stage2_queues,
            )))
  unfolding stage2_step
  stage2-Inv s life v ok =
      let hop =
        router-Hop F (get_strategy_for_message config) k (processor F config k) lossy
          (behind_stage2 F config k s) (record (s.stage2.0) { life = life }) s.stage2.1
          s.processor_queues s.stage2_queues v.stage2_aimed v.processor_queues_clear ok in
      record {
        in_order = Kept-trans lossy (Kept-append lossy (kept_all refl) hop.kept) v.in_order;
        ids = v.ids;
        producers_clear = v.producers_clear;
        producer_queues_clear = v.producer_queues_clear;
        stage1_aimed = v.stage1_aimed;
        stage1_queues_clear = v.stage1_queues_clear;
        processors_clear = v.processors_clear;
        processor_queues_clear = hop.ins_clear;
        stage2_aimed = hop.aimed;
        stage2_queues_clear = λ i ne. hop.outs_same i ne ∙ v.stage2_queues_clear i ne;
      }

  -- The lists of a line, one by one.
  line_same :
      {o o' h h' i i' : List Message} (t : List Message)
      → o ≡ o'
      → h ≡ h'
      → i ≡ i'
      → line o h i t ≡ line o' h' i' t
  line_same t e f g = λ j. line (e j) (f j) (g j) t

  line_nil : (o h i : List Message) → line o h i [] ≡ [] → (o ≡ []) × (h ≡ []) × (i ≡ [])
  line_nil o h i e =
      let (a, b) = nil_left o (h ++ (i ++ [])) e in
      let (c, d) = nil_left h (i ++ []) b in (a, c, (nil_left i [] d).0)

  -- The lists around a processor.
  abbrev lane : Pipeline Q → List Message → ℕ → List Message
  lane s t i =
      line (at F config k s.processor_queues i)
        (processor_hand F config k (get_elem? s.processors i)) (at F config k s.stage1_queues i) t

  module _ (s : Pipeline Q) (i : ℕ) (p : Processor) (pc : Processor.Pc) (input output : Q)
      (life : Life) (now : ℕ) (e : get_elem? s.processors i ≡ some (p, pc))
      (f : get_elem? s.stage1_queues i ≡ some input)
      (g : get_elem? s.processor_queues i ≡ some output)
      (ok : Allowed lossy (processor_gives_up pc)) where
    abbrev u : Processor.State F
    u = Processor.loop_step F now (record p { life = life }, pc, input, output)

    abbrev s' : Pipeline Q
    s' = after_processor F s i u

    lane_here : (t : List Message) → Kept lossy (lane s' t i) (lane s t i)
    lane_here t =
        Kept-trans lossy
          (kept_all (
            line_same t (ap (pick k) (contents_at-set_self F s.processor_queues i u.3 g))
              (ap (processor_hand F config k) (get_elem?-set_hit s.processors i (u.0, u.1) e))
              (ap (pick k) (contents_at-set_self F s.stage1_queues i u.2 f))))
          (Kept-trans lossy
            (Hops.processor-hop F k lossy t now (record p { life = life }, pc, input, output) ok)
            (kept_all (
              sym (
                line_same t (ap (pick k) (contents_at-get F s.processor_queues i output g))
                  (ap (processor_hand F config k) e)
                  (ap (pick k) (contents_at-get F s.stage1_queues i input f))))))

    lane_away : (t : List Message) (j : ℕ) → j ≢ i → lane s' t j ≡ lane s t j
    lane_away t j ne =
        line_same t (ap (pick k) (contents_at-set_ne F s.processor_queues i j u.3 ne))
          (ap (processor_hand F config k)
            (get_elem?-set_ne s.processors i j (u.0, u.1) (λ e. ne (sym e))))
          (ap (pick k) (contents_at-set_ne F s.stage1_queues i j u.2 ne))

    lane-Kept : (t : List Message) (j : ℕ) → Kept lossy (lane s' t j) (lane s t j)
    lane-Kept t j = elim (ℕ_discrete i j) [
      | yes e ↦ subst (λ h. Kept lossy (lane s' t h) (lane s t h)) e (lane_here t)
      | no ne ↦ kept_all (lane_away t j (λ e. ne (sym e)))
    ]

    still_clear :
        (j : ℕ)
        → lane s [] j ≡ []
        → (at F config k s'.processor_queues j ≡ [])
          × (processor_hand F config k (get_elem? s'.processors j) ≡ [])
          × (at F config k s'.stage1_queues j ≡ [])
    still_clear j h =
        line_nil (at F config k s'.processor_queues j)
          (processor_hand F config k (get_elem? s'.processors j)) (at F config k s'.stage1_queues j)
          (Kept-nil lossy h (lane-Kept [] j))

    pub processor-Inv : Inv F config k lossy s → Inv F config k lossy s'
    processor-Inv v =
        let clear = λ (j : ℕ) (ne : j ≢ processor F config k). still_clear j (
          line_same [] (v.processor_queues_clear j ne) (v.processors_clear j ne)
            (v.stage1_queues_clear j ne)) in
        record {
          in_order =
              Kept-trans lossy
                (chain-Kept lossy (ahead_of_processor F config k s)
                  (lane-Kept (behind_processor F config k s) (processor F config k)))
                v.in_order;
          ids = v.ids;
          producers_clear = v.producers_clear;
          producer_queues_clear = v.producer_queues_clear;
          stage1_aimed = v.stage1_aimed;
          stage1_queues_clear = λ j ne. (clear j ne).2;
          processors_clear = λ j ne. (clear j ne).1;
          processor_queues_clear = λ j ne. (clear j ne).0;
          stage2_aimed = v.stage2_aimed;
          stage2_queues_clear = v.stage2_queues_clear;
        }
