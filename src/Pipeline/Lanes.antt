-- ===== src/Pipeline/Lanes.antt =====
-- The way of the messages of one producer and type through the whole pipeline, and what the threads
-- keep of it: they are in the queues and the hands of this way only, in the order of making.
use message_router.Base.{
  Bool, refl, ℕ, ◌≡◌, ◌≢◌, List, [], ◌∷◌, ◌++◌, Option, none, some, map, get_elem?,
}
use message_router.Config.{SystemConfig, get_processor_for_message, get_strategy_for_message}
use message_router.Message.{Message, Key, ProcessorId, StrategyId}
use message_router.Queue.Client.{QueueApi}
use message_router.Producer
use message_router.Producer.{Producer}
use message_router.Processor
use message_router.Processor.{Processor}
use message_router.Pipeline.{Pipeline}
use message_router.Pipeline.Pick.{pick, line, Kept, kept_all, Kept-append}
use message_router.Pipeline.Queues.{contents_at}
use message_router.Pipeline.Hops
use message_router.Pipeline.Passing
use message_router.Pipeline.Passing.{Aimed}

-- One list behind the other, and `t` at the end.
abbrev pub chain : List (List Message) → List Message → List Message
chain [] t = t
chain (x ∷ xs) t = x ++ chain xs t

pub chain-Kept :
    (lossy : Bool) (xs : List (List Message)) {t u : List Message}
    → Kept lossy t u
    → Kept lossy (chain xs t) (chain xs u)
chain-Kept lossy [] s = s
chain-Kept lossy (x ∷ xs) s = Kept-append lossy (kept_all refl) (chain-Kept lossy xs s)

module _ (F : QueueApi Message) {Double : Type 0} (config : SystemConfig Double) (k : Key) where
  open F use {Q}

  -- Where the rules send the key's messages.
  abbrev pub processor : ProcessorId
  processor = get_processor_for_message config k.1

  abbrev pub strategy : StrategyId
  strategy = get_strategy_for_message config k.1

  -- What a producer and a processor have in their hands.
  abbrev pub producer_hand : Option (Producer × Producer.Pc × ℕ) → List Message
  producer_hand none = []
  producer_hand (some (p, pc, next)) = Hops.in_hand F k pc

  abbrev pub processor_hand : Option (Processor × Processor.Pc) → List Message
  processor_hand none = []
  processor_hand (some (p, pc)) = Hops.held F k pc

  -- The messages of the key at an index of a list of queues.
  abbrev pub at : List Q → ℕ → List Message
  at qs i = pick k (contents_at F qs i)

  -- The way in parts: what is delivered; what is ahead of the first router, of a processor, of the
  -- second router; and what is behind them.
  abbrev pub done : Pipeline Q → List Message
  done s = pick k (map (λ d. d.1) s.delivered)

  abbrev pub ahead_of_processor : Pipeline Q → List (List Message)
  ahead_of_processor s = done s ∷ at s.stage2_queues strategy ∷ Passing.held k s.stage2.1 ∷ []

  abbrev pub ahead_of_stage1 : Pipeline Q → List (List Message)
  ahead_of_stage1 s =
      done s
      ∷ at s.stage2_queues strategy
      ∷ Passing.held k s.stage2.1
      ∷ at s.processor_queues processor
      ∷ processor_hand (get_elem? s.processors processor)
      ∷ []

  abbrev pub ahead_of_producer : Pipeline Q → List (List Message)
  ahead_of_producer s =
      done s
      ∷ at s.stage2_queues strategy
      ∷ Passing.held k s.stage2.1
      ∷ at s.processor_queues processor
      ∷ processor_hand (get_elem? s.processors processor)
      ∷ at s.stage1_queues processor
      ∷ Passing.held k s.stage1.1
      ∷ []

  abbrev pub behind_stage1 : Pipeline Q → List Message
  behind_stage1 s = producer_hand (get_elem? s.producers k.0)

  abbrev pub behind_processor : Pipeline Q → List Message
  behind_processor s = Passing.held k s.stage1.1 ++ (at s.producer_queues k.0 ++ behind_stage1 s)

  abbrev pub behind_stage2 : Pipeline Q → List Message
  behind_stage2 s =
      processor_hand (get_elem? s.processors processor)
      ++ (at s.stage1_queues processor ++ behind_processor s)

  abbrev pub under_way : Pipeline Q → List Message
  under_way s =
      line (at s.stage2_queues strategy) (Passing.held k s.stage2.1)
        (at s.processor_queues processor) (behind_stage2 s)

  -- Delivered messages of the key, then those under way, from the strategy's queue back to the
  -- producer's hand.
  abbrev pub way : Pipeline Q → List Message
  way s = done s ++ under_way s

  pub record Inv (lossy : Bool) (s : Pipeline Q) : Type 0 where
    pub in_order : Kept lossy (way s) (pick k s.made)
    pub ids :
        (i : ℕ) (p : Producer) (pc : Producer.Pc) (next : ℕ)
        → get_elem? s.producers i ≡ some (p, pc, next)
        → p.producer_id ≡ i
    pub producers_clear : (i : ℕ) → i ≢ k.0 → producer_hand (get_elem? s.producers i) ≡ []
    pub producer_queues_clear : (i : ℕ) → i ≢ k.0 → at s.producer_queues i ≡ []
    pub stage1_aimed : Aimed (get_processor_for_message config) s.stage1.1
    pub stage1_queues_clear : (i : ℕ) → i ≢ processor → at s.stage1_queues i ≡ []
    pub processors_clear : (i : ℕ) → i ≢ processor → processor_hand (get_elem? s.processors i) ≡ []
    pub processor_queues_clear : (i : ℕ) → i ≢ processor → at s.processor_queues i ≡ []
    pub stage2_aimed : Aimed (get_strategy_for_message config) s.stage2.1
    pub stage2_queues_clear : (i : ℕ) → i ≢ strategy → at s.stage2_queues i ≡ []
