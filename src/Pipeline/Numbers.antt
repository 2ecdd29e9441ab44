-- ===== src/Pipeline/Numbers.antt =====
-- The numbers of the messages that come through the pipeline.
use mathlib.Core.List.{sublist-append_left, not-mem-nil, Pairwise}
use mathlib.Core.List.Pairwise
use mathlib.Core.List.Sublist
use native.Mathlib.Decide.{ℕ_discrete}
use message_router.Base.{
  true, ℕ, ◌<◌, ◌^◌, ◌≡◌, ◌⊎◌, refl, sym, ap, subst, ◌∙◌, List, [], ◌∷◌, ◌++◌, some, inl, inr,
  arith, get_elem?, set, get_elem?-set_ne, get_elem?-set_inj, Bool-cases, ltb, length, add64,
}
use message_router.Config.{SystemConfig}
use message_router.Lifecycle.{Life}
use message_router.Message.{Message, MessageType, Key}
use message_router.Queue.Client.{QueueApi}
use message_router.Producer
use message_router.Producer.{Producer, new_producer}
use message_router.Pipeline.{
  Pipeline, started, makes, after_producer, Step, producer_moves, stage1_moves, processor_moves,
  stage2_moves, strategy_moves, Steps, here, next,
}
use message_router.Pipeline.Ascending.{
  Older-prop, Ascending, Fits, Fits-same, Fits-next, Ordered, Ordered-same, Ordered-next,
}
use message_router.Pipeline.Pick.{pick}
use message_router.Pipeline.Lanes.{done, under_way, Inv}
use message_router.Pipeline.Makers.{makes_elsewhere}
use message_router.Pipeline.Order.{always_spares, made_get, Steps-Inv, end_to_end}

module _ (F : QueueApi Message) {Double : Type 0} (config : SystemConfig Double)
    (interval : ℕ) where
  open F use {Q}

  -- A step of a producer makes nothing and keeps its number, or makes a message of this number and
  -- takes the next one.
  pub counts :
      (now : ℕ) (t : MessageType) (p : Producer) (pc : Producer.Pc) (upcoming : ℕ) (q : Q)
      → ((makes now t p pc upcoming ≡ [])
          × ((Producer.loop_step F interval now t (p, pc, upcoming, q)).0.next_sequence
              ≡ p.next_sequence))
        ⊎ ((makes now t p pc upcoming ≡ Producer.make p t now ∷ [])
            × ((Producer.loop_step F interval now t (p, pc, upcoming, q)).0.next_sequence
                ≡ add64 p.next_sequence 1))
  unfolding Producer.loop_step
  counts now t p Producer.checking upcoming q = inl (refl, ground arith)
  counts now t p Producer.reading upcoming q = elim (Bool-cases (ltb now upcoming)) [
    | inl e ↦ inl (rw e refl, rw e refl)
    | inr e ↦ inr (rw e refl, rw e refl)
  ]
  counts now t p (Producer.sending m at retry) upcoming q = inl (refl, ground arith)
  counts now t p Producer.ended upcoming q = inl (refl, refl)

  module _ (k : Key) where
    record Numbered (s : Pipeline Q) : Type 0 where
      fits :
          (p : Producer) (pc : Producer.Pc) (upcoming : ℕ)
          → get_elem? s.producers k.0 ≡ some (p, pc, upcoming)
          → Fits k s.made p.next_sequence
      ordered : Ordered k s.made

    started-Numbered : (begun : ℕ → ℕ) → Numbered (started F config begun)
    unfolding new_producer
    started-Numbered begun = record {
      fits = λ p pc upcoming e few.
          let first : p.next_sequence ≡ 1 =
            ap (λ (c : Producer × Producer.Pc × ℕ). c.0.next_sequence)
              (made_get (λ i. (new_producer i, Producer.checking, begun i)) _ 0 k.0
                (p, pc, upcoming) e) in
          (omega arith, λ x h. absurd (not-mem-nil h));
      ordered = λ few. Pairwise.nil;
    }

    module _ (s : Pipeline Q) (i : ℕ) (p : Producer) (pc : Producer.Pc) (upcoming : ℕ) (q : Q)
        (life : Life) (now : ℕ) (t : MessageType)
        (e : get_elem? s.producers i ≡ some (p, pc, upcoming)) where
      abbrev moved : Producer.State F
      moved = Producer.loop_step F interval now t (record p { life = life }, pc, upcoming, q)

      abbrev fresh : List Message
      fresh = makes now t (record p { life = life }) pc upcoming

      own :
          (fit : Fits k s.made p.next_sequence)
          → Ordered k s.made
          → Fits k (s.made ++ fresh) moved.0.next_sequence × Ordered k (s.made ++ fresh)
      own fit ord = elim (counts now t (record p { life = life }) pc upcoming q) [
        | inl (nothing, same) ↦
            let none_here : pick k fresh ≡ [] = ap (pick k) nothing in
            (
              subst (Fits k (s.made ++ fresh)) (sym same)
                  (Fits-same k s.made p.next_sequence fresh none_here fit),
              Ordered-same k s.made p.next_sequence fresh none_here ord,
            )
        | inr (one, up) ↦
            let m : Message = Producer.make (record p { life = life }) t now in
            subst (λ l. Fits k (s.made ++ l) moved.0.next_sequence × Ordered k (s.made ++ l))
              (sym one)
              (
                subst (Fits k (s.made ++ (m ∷ []))) (sym up)
                    (Fits-next k s.made p.next_sequence m refl fit),
                Ordered-next k s.made p.next_sequence m refl fit ord,
              )
      ]

      producer-Numbered :
          Inv F config k true s → Numbered s → Numbered (after_producer F s i fresh moved)
      producer-Numbered v n = elim (ℕ_discrete i k.0) [
        | yes same ↦
            let there : get_elem? s.producers k.0 ≡ some (p, pc, upcoming) =
              subst (λ h. get_elem? s.producers h ≡ some (p, pc, upcoming)) same e in
            let (fit, ord) = own (n.fits p pc upcoming there) n.ordered in
            record {
              fits = λ p' pc' upcoming' h.
                  let who : (moved.0, moved.1, moved.2) ≡ (p', pc', upcoming') =
                    get_elem?-set_inj s.producers i (moved.0, moved.1, moved.2) e
                      (ap (get_elem? (set s.producers i (moved.0, moved.1, moved.2))) same ∙ h) in
                  subst
                    (λ (x : Producer × Producer.Pc × ℕ). Fits k (s.made ++ fresh) x.0.next_sequence)
                    who fit;
              ordered = ord;
            }
        | no ne ↦
            let none_here : pick k fresh ≡ [] =
              makes_elsewhere k now t (record p { life = life }) pc upcoming
                (λ x. ne (sym (v.ids i p pc upcoming e) ∙ x)) in
            record {
              fits = λ p' pc' upcoming' h. Fits-same k s.made p'.next_sequence fresh none_here (
                  n.fits p' pc' upcoming'
                    (sym (get_elem?-set_ne s.producers i k.0 (moved.0, moved.1, moved.2) ne) ∙ h));
              ordered = Ordered-same k s.made 0 fresh none_here n.ordered;
            }
      ]

    Step-Numbered :
        (s s' : Pipeline Q)
        → Step F config interval s s'
        → Inv F config k true s
        → Numbered s
        → Numbered s'
    Step-Numbered s s' (producer_moves i p pc upcoming q life now t e f lt) v n =
        producer-Numbered s i p pc upcoming q life now t e v n
    Step-Numbered s s' (stage1_moves life) v n = record { fits = n.fits; ordered = n.ordered }
    Step-Numbered s s' (processor_moves i p pc input output life now e f g) v n = record {
      fits = n.fits;
      ordered = n.ordered;
    }
    Step-Numbered s s' (stage2_moves life) v n = record { fits = n.fits; ordered = n.ordered }
    Step-Numbered s s' (strategy_moves i t pc q life e f) v n = record {
      fits = n.fits;
      ordered = n.ordered;
    }

    Steps-Numbered :
        (begun : ℕ → ℕ) (s : Pipeline Q)
        → Steps F config interval (started F config begun) s
        → Numbered s
    Steps-Numbered begun s here = started-Numbered begun
    Steps-Numbered begun s (next {t} run step) =
        Step-Numbered t s step
          (Steps-Inv F config interval k true begun t run (always_spares F config interval run))
          (Steps-Numbered begun t run)

  -- However the threads interleave, as long as fewer than 2 ^ 64 messages have been made: of the
  -- messages of one producer and type, each that the strategies process has a greater number than
  -- those processed before it.
  pub delivered-Ascending :
      (k : Key) (begun : ℕ → ℕ) (s : Pipeline Q)
      → Steps F config interval (started F config begun) s
      → length s.made < 2 ^ 64
      → Ascending (done F config k s)
  delivered-Ascending k begun s run few =
      Pairwise.sublist Older-prop
        (Sublist.trans (sublist-append_left (done F config k s) (under_way F config k s))
          (end_to_end F config interval k begun s run))
        ((Steps-Numbered k begun s run).ordered few)
