-- ===== src/Pipeline/Counts.antt =====
-- The strategies' counters and maps, in the whole pipeline.
use native.Mathlib.Decide.{ℕ_discrete}
use message_router.Base.{
  ℕ, ◌+◌, ◌≡◌, ◌≢◌, refl, ap, sym, subst, ◌∙◌, true, false, List, [], ◌∷◌, ◌++◌, Option, none, some,
  inl, inr, arith, get_elem?, set, get_elem?-set_ne, get_elem?-set_inj, ◌==◌, if◌then◌else◌,
  Bool-cases,
}
use message_router.Config.{SystemConfig}
use message_router.Lifecycle.{Life}
use message_router.Message.{Message, StrategyId}
use message_router.Queue.Client.{QueueApi}
use message_router.Strategy
use message_router.Strategy.{Strategy, new_strategy}
use message_router.Strategy.History.{Records, onto, new_strategy-Records, process_message-Records}
use message_router.Pipeline.{
  Pipeline, started, delivered_by, delivers, after_strategy, Step, producer_moves, stage1_moves,
  processor_moves, stage2_moves, strategy_moves, Steps, here, next,
}
use message_router.Pipeline.Order.{made_get}

-- The messages of a strategy, in the order of delivery.
abbrev pub given : StrategyId → List (StrategyId × Message) → List Message
given i [] = []
given i (d ∷ ds) = if d.0 == i then d.1 ∷ given i ds else given i ds

given-append :
    (i : StrategyId) (xs ys : List (StrategyId × Message))
    → given i (xs ++ ys) ≡ given i xs ++ given i ys
given-append i [] ys = refl
given-append i (d ∷ xs) ys = elim (Bool-cases (d.0 == i)) [
  | inl e ↦ rw e (ap (λ l. d.1 ∷ l) (given-append i xs ys))
  | inr e ↦ rw e (given-append i xs ys)
]

onto-append : (history xs ys : List Message) → onto history (xs ++ ys) ≡ onto (onto history xs) ys
onto-append history [] ys = refl
onto-append history (m ∷ xs) ys = onto-append (m ∷ history) xs ys

-- A strategy's messages, newest first.
abbrev pub history : StrategyId → List (StrategyId × Message) → List Message
history i ds = onto [] (given i ds)

history-append :
    (i : StrategyId) (ds es : List (StrategyId × Message))
    → history i (ds ++ es) ≡ onto (history i ds) (given i es)
history-append i ds es =
    ap (onto []) (given-append i ds es) ∙ onto-append [] (given i ds) (given i es)

module _ (F : QueueApi Message) where
  open F use {Q, pop}

  delivered_other :
      (i j : StrategyId) (res : Option Message × Q) → i ≢ j → given j (delivered_by F i res) ≡ []
  delivered_other i j (none, q) ne = refl
  delivered_other i j (some m, q) ne = elim (Bool-cases (i == j)) [
    | inl e ↦ absurd (ne (ground (arith, e)))
    | inr e ↦ rw e refl
  ]

  -- What is delivered to a strategy is not another one's.
  given_other :
      (i j : StrategyId) (pc : Strategy.Pc) (q : Q) → i ≢ j → given j (delivers F i pc q) ≡ []
  given_other i j Strategy.checking q ne = refl
  given_other i j Strategy.popping q ne = delivered_other i j (pop q) ne
  given_other i j Strategy.ended q ne = refl

  popped-Records :
      (i : StrategyId) (h : List Message) (t : Strategy) (res : Option Message × Q)
      → Records h t
      → Records (onto h (given i (delivered_by F i res))) (Strategy.popped F t res).0
  popped-Records i h t (none, q) r = r
  popped-Records i h t (some m, q) r = elim (Bool-cases (i == i)) [
    | inl e ↦ rw e (process_message-Records h t m r)
    | inr e ↦ absurd (ground (arith, e))
  ]

  abbrev strategy_of_state : Strategy × Strategy.Pc × Q → Strategy
  strategy_of_state s = s.0

  loop_step-Records :
      (i : StrategyId) (h : List Message) (t : Strategy) (pc : Strategy.Pc) (q : Q)
      → Records h t
      → Records (onto h (given i (delivers F i pc q))) (Strategy.loop_step F (t, pc, q)).0
  unfolding Strategy.loop_step
  loop_step-Records i h t Strategy.checking q r =
      elim t.life.running
        as (λ b.
          Records h
            (strategy_of_state (if b then (t, Strategy.popping, q) else (t, Strategy.ended, q)))) [
              | true ↦ r
              | false ↦ r
            ]
  loop_step-Records i h t Strategy.popping q r = popped-Records i h t (pop q) r
  loop_step-Records i h t Strategy.ended q r = r

  module _ {Double : Type 0} (config : SystemConfig Double) (interval : ℕ) where
    -- Every strategy has counted what was delivered to it.
    abbrev Counted : Pipeline Q → Type 0
    Counted s =
        (i : ℕ) (t : Strategy) (pc : Strategy.Pc)
        → get_elem? s.strategies i ≡ some (t, pc)
        → Records (history i s.delivered) t

    started-Counted : (begun : ℕ → ℕ) → Counted (started F config begun)
    started-Counted begun i t pc e =
        subst (λ (c : Strategy × Strategy.Pc). Records [] c.0)
          (sym (made_get (λ i. (new_strategy i, Strategy.checking)) _ 0 i (t, pc) e))
          (new_strategy-Records (0 + i))

    strategy-Counted :
        (s : Pipeline Q) (i : ℕ) (t : Strategy) (pc : Strategy.Pc) (q : Q) (life : Life)
        → get_elem? s.strategies i ≡ some (t, pc)
        → Counted s
        → Counted (
            after_strategy F s i
              (delivers F i pc q)
              (Strategy.loop_step F (record t { life = life }, pc, q)))
    strategy-Counted s i t pc q life e c j t' pc' e' = elim (ℕ_discrete i j) [
      | yes same ↦
          let there : get_elem? (set s.strategies i (turned.0, turned.1)) i ≡ some (t', pc') =
            ap (get_elem? (set s.strategies i (turned.0, turned.1))) same ∙ e' in
          let who : (turned.0, turned.1) ≡ (t', pc') =
            get_elem?-set_inj s.strategies i (turned.0, turned.1) e there in
          let was = c i t pc e in
          subst (λ k. Records (history k (s.delivered ++ delivers F i pc q)) t') same
            (subst
              (λ (x : Strategy × Strategy.Pc).
                Records (history i (s.delivered ++ delivers F i pc q)) x.0)
              who
              (subst (λ h. Records h turned.0)
                (sym (history-append i s.delivered (delivers F i pc q)))
                (loop_step-Records i (history i s.delivered) (record t { life = life }) pc q
                  (record {
                    delivered = was.delivered;
                    violations = was.violations;
                    expected = was.expected;
                  }))))
      | no ne ↦
          subst (λ h. Records h t')
            (sym (
              history-append j s.delivered (delivers F i pc q)
              ∙ ap (onto (history j s.delivered)) (given_other i j pc q ne)))
            (c j t' pc' (sym (get_elem?-set_ne s.strategies i j (turned.0, turned.1) ne) ∙ e'))
    ]
      where
        turned : Strategy × Strategy.Pc × Q
        turned = Strategy.loop_step F (record t { life = life }, pc, q)

    Step-Counted : (s s' : Pipeline Q) → Step F config interval s s' → Counted s → Counted s'
    Step-Counted s s' (producer_moves i p pc upcoming q life now t e f lt) c = c
    Step-Counted s s' (stage1_moves life) c = c
    Step-Counted s s' (processor_moves i p pc input output life now e f g) c = c
    Step-Counted s s' (stage2_moves life) c = c
    Step-Counted s s' (strategy_moves i t pc q life e f) c = strategy-Counted s i t pc q life e c

    -- However the threads interleave, each strategy has counted (modulo 2 ^ 64) the messages that it
    -- has processed, and as violations those whose number does not follow the number of the one
    -- before of the same producer and type; its map holds, for each producer and type, the number
    -- after that of the last such message.
    pub strategies_count :
        (begun : ℕ → ℕ) (s : Pipeline Q)
        → Steps F config interval (started F config begun) s
        → (i : ℕ) (t : Strategy) (pc : Strategy.Pc) → get_elem? s.strategies i ≡ some (t, pc)
        → Records (history i s.delivered) t
    strategies_count begun s here = started-Counted begun
    strategies_count begun s (next {t} run step) =
        Step-Counted t s step (strategies_count begun t run)
