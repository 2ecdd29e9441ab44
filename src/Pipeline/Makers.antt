-- ===== src/Pipeline/Makers.antt =====
-- The steps of the producers keep what `Lanes` says.
use native.Mathlib.Decide.{ℕ_discrete}
use message_router.Base.{
  append-nil, Bool, ℕ, ◌≡◌, ◌≢◌, refl, sym, ap, subst, ◌∙◌, true, false, List, [], ◌∷◌, ◌++◌,
  Option, some, arith, get_elem?, get_elem?-set_hit, get_elem?-set_ne, get_elem?-set_inj,
  append_assoc, ltb, if◌then◌else◌, inl, inr, Bool-cases,
}
use message_router.Config.{SystemConfig}
use message_router.Lifecycle.{Life}
use message_router.Message.{Message, MessageType, Key, key_beq, key_beq_iff}
use message_router.Queue.Client.{QueueApi}
use message_router.Producer
use message_router.Producer.{Producer}
use message_router.Pipeline.{producer_gives_up, Pipeline, after_producer, makes}
use message_router.Pipeline.Pick.{
  Kept, Kept-trans, Kept-append, Kept-nil, Allowed, kept_all, pick, pick-append,
}
use message_router.Pipeline.Queues.{contents_at-get, contents_at-set_self, contents_at-set_ne}
use message_router.Pipeline.Hops
use message_router.Pipeline.Passing.{nil_left}
use message_router.Pipeline.Lanes.{chain, chain-Kept, ahead_of_producer, producer_hand, at, Inv}

-- What a producer makes is not of another producer's key.
pub makes_elsewhere :
    (k : Key) (now : ℕ) (t : MessageType) (p : Producer) (pc : Producer.Pc) (next : ℕ)
    → p.producer_id ≢ k.0
    → pick k (makes now t p pc next) ≡ []
makes_elsewhere k now t p Producer.checking next ne = refl
makes_elsewhere k now t p Producer.ended next ne = refl
makes_elsewhere k now t p (Producer.sending m at retry) next ne = refl
makes_elsewhere k now t p Producer.reading next ne =
    elim (ltb now next) as (λ b. pick k (if b then [] else Producer.make p t now ∷ []) ≡ []) [
      | true ↦ refl
      | false ↦ elim (Bool-cases (key_beq (p.producer_id, t) k)) [
        | inl e ↦
            let same : (p.producer_id, t) ≡ k = (key_beq_iff (p.producer_id, t) k).0 e in
            absurd (ne (ap (λ (x : Key). x.0) same))
        | inr e ↦ rw e refl
      ]
    ]

chain-append : (xs : List (List Message)) (t u : List Message) → chain xs (t ++ u) ≡ chain xs t ++ u
chain-append [] t u = refl
chain-append (x ∷ xs) t u =
    ap (λ l. x ++ l) (chain-append xs t u) ∙ sym (append_assoc x (chain xs t) u)

module _ (F : QueueApi Message) {Double : Type 0} (config : SystemConfig Double) (k : Key)
    (lossy : Bool) where
  open F use {Q}

  pub same_id :
      (interval now : ℕ) (t : MessageType) (p : Producer) (pc : Producer.Pc) (next : ℕ) (q : Q)
      → (Producer.loop_step F interval now t (p, pc, next, q)).0.producer_id ≡ p.producer_id
  unfolding Producer.loop_step
  same_id interval now t p Producer.checking next q = ground arith
  same_id interval now t p Producer.reading next q = ground arith
  same_id interval now t p (Producer.sending m at retry) next q = ground arith
  same_id interval now t p Producer.ended next q = refl

  module _ (interval : ℕ) (s : Pipeline Q) (i : ℕ) (p : Producer) (pc : Producer.Pc) (next : ℕ)
      (q : Q) (life : Life) (now : ℕ) (t : MessageType)
      (e : get_elem? s.producers i ≡ some (p, pc, next))
      (f : get_elem? s.producer_queues i ≡ some q) (ok : Allowed lossy (producer_gives_up pc)) where
    abbrev moved : Producer.State F
    moved = Producer.loop_step F interval now t (record p { life = life }, pc, next, q)

    abbrev fresh : List Message
    fresh = makes now t (record p { life = life }) pc next

    abbrev after_move : Pipeline Q
    after_move = after_producer F s i fresh moved

    -- The queue and the hand of a producer.
    abbrev back : Pipeline Q → ℕ → List Message
    back s j =
        at F config k s.producer_queues j ++ producer_hand F config k (get_elem? s.producers j)

    back_here : Kept lossy (back after_move i) (back s i ++ pick k fresh)
    back_here =
        Kept-trans lossy
          (kept_all (
            same (contents_at-set_self F s.producer_queues i moved.3 f)
              (get_elem?-set_hit s.producers i (moved.0, moved.1, moved.2) e)))
          (Kept-trans lossy
            (Hops.producer-hop F k lossy interval now t (record p { life = life }) pc next q ok)
            (kept_all (
              ap (λ l. l ++ pick k fresh)
                (sym (same (contents_at-get F s.producer_queues i q f) e)))))
      where
        same :
            {a b : List Message} {o o' : Option (Producer × Producer.Pc × ℕ)}
            → a ≡ b
            → o ≡ o'
            → pick k a ++ producer_hand F config k o ≡ pick k b ++ producer_hand F config k o'
        same x y = λ j. pick k (x j) ++ producer_hand F config k (y j)

    back_away : (j : ℕ) → j ≢ i → back after_move j ≡ back s j
    back_away j ne =
        ap (λ l. pick k l ++ producer_hand F config k (get_elem? after_move.producers j))
          (contents_at-set_ne F s.producer_queues i j moved.3 ne)
        ∙ ap (λ o. at F config k s.producer_queues j ++ producer_hand F config k o)
            (get_elem?-set_ne s.producers i j (moved.0, moved.1, moved.2) (λ e. ne (sym e)))

    pub producer-Inv : Inv F config k lossy s → Inv F config k lossy after_move
    producer-Inv v = record {
      in_order = Kept-trans lossy (chain-Kept lossy (ahead_of_producer F config k s) at_home) (
          Kept-trans lossy
            (kept_all (chain-append (ahead_of_producer F config k s) (back s k.0) (pick k fresh)))
            (Kept-trans lossy (Kept-append lossy v.in_order (kept_all refl))
              (kept_all (sym (pick-append k s.made fresh)))));
      ids = ids;
      producers_clear = λ j ne. (clear j ne).1;
      producer_queues_clear = λ j ne. (clear j ne).0;
      stage1_aimed = v.stage1_aimed;
      stage1_queues_clear = v.stage1_queues_clear;
      processors_clear = v.processors_clear;
      processor_queues_clear = v.processor_queues_clear;
      stage2_aimed = v.stage2_aimed;
      stage2_queues_clear = v.stage2_queues_clear;
    }
      where
        none_made : i ≢ k.0 → pick k fresh ≡ []
        none_made ne =
            makes_elsewhere k now t (record p { life = life }) pc next
              (λ x. ne (sym (v.ids i p pc next e) ∙ x))

        at_home : Kept lossy (back after_move k.0) (back s k.0 ++ pick k fresh)
        at_home = elim (ℕ_discrete i k.0) [
          | yes e ↦
              subst (λ h. Kept lossy (back after_move h) (back s h ++ pick k fresh)) e back_here
          | no ne ↦ kept_all (
              back_away k.0 (λ e. ne (sym e))
              ∙ sym (append-nil (back s k.0))
              ∙ ap (λ l. back s k.0 ++ l) (sym (none_made ne)))
        ]

        none_there : (j : ℕ) → j ≢ k.0 → back s j ≡ []
        none_there j ne = rw (v.producer_queues_clear j ne) (v.producers_clear j ne)

        empty : (j : ℕ) → j ≢ k.0 → back after_move j ≡ []
        empty j ne = elim (ℕ_discrete i j) [
          | yes same ↦
              subst (λ h. back after_move h ≡ []) same
                (Kept-nil lossy
                  (ap (λ l. l ++ pick k fresh) (none_there i (λ x. ne (sym same ∙ x)))
                    ∙ none_made (λ x. ne (sym same ∙ x)))
                  back_here)
          | no away ↦ back_away j (λ x. away (sym x)) ∙ none_there j ne
        ]

        clear :
            (j : ℕ)
            → j ≢ k.0
            → (at F config k after_move.producer_queues j ≡ [])
              × (producer_hand F config k (get_elem? after_move.producers j) ≡ [])
        clear j ne =
            nil_left (at F config k after_move.producer_queues j)
              (producer_hand F config k (get_elem? after_move.producers j)) (empty j ne)

        ids :
            (j : ℕ) (p' : Producer) (pc' : Producer.Pc) (next' : ℕ)
            → get_elem? after_move.producers j ≡ some (p', pc', next')
            → p'.producer_id ≡ j
        ids j p' pc' next' h = elim (ℕ_discrete i j) [
          | yes same ↦
              let there : get_elem? after_move.producers i ≡ some (p', pc', next') =
                ap (get_elem? after_move.producers) same ∙ h in
              let who : (moved.0, moved.1, moved.2) ≡ (p', pc', next') =
                get_elem?-set_inj s.producers i (moved.0, moved.1, moved.2) e there in
              ap (λ (x : Producer × Producer.Pc × ℕ). x.0.producer_id) (sym who)
              ∙ same_id interval now t (record p { life = life }) pc next q
              ∙ v.ids i p pc next e
              ∙ same
          | no away ↦
              v.ids j p' pc' next'
                (sym (get_elem?-set_ne s.producers i j (moved.0, moved.1, moved.2) away) ∙ h)
        ]
