-- ===== src/Pipeline/Shared/Views.antt =====
-- A state of `Pipeline`, whose calls take place at once, seen as the places of the threads and the
-- lists in the queues.
use native.Mathlib.Decide.{ℕ_discrete}
use message_router.Base.{
  subst, get_elem?_lt, ℕ, zero, suc, ◌<◌, ◌≡◌, ◌≢◌, refl, sym, ap, ◌∙◌, false, List, [], ◌∷◌,
  Option, none, some, get_elem?, set, length, arith, get_elem?-set_hit, get_elem?-set_ne,
}
use message_router.Message.{Message}
use message_router.Queue.Defs.{capacity}
use message_router.Queue.Fifo
use message_router.Producer
use message_router.Producer.{Producer}
use message_router.Router.{pop_at, push_at}
use message_router.Processor
use message_router.Processor.{Processor}
use message_router.Strategy
use message_router.Strategy.{Strategy}
use message_router.Pipeline.{Pipeline}
use message_router.Pipeline.Shared.{
  Thread, producer_thread, stage1_thread, processor_thread, stage2_thread, strategy_thread,
  QueueName, producer_queue, stage1_queue, processor_queue, stage2_queue, Place, absent,
  at_producer, at_router, at_processor, at_strategy, list_api,
}

abbrev pub State : Type 0
State = Pipeline (List Message)

abbrev pub producer_place : Option (Producer × Producer.Pc × ℕ) → Place
producer_place none = absent
producer_place (some (p, pc, next)) = at_producer p pc next

abbrev pub processor_place : (ℕ → ℕ) → Option (Processor × Processor.Pc) → Place
processor_place clock none = absent
processor_place clock (some (p, pc)) = at_processor p pc clock

abbrev pub strategy_place : Option (Strategy × Strategy.Pc) → Place
strategy_place none = absent
strategy_place (some (s, pc)) = at_strategy s pc

abbrev pub place : (ℕ → ℕ → ℕ) → State → Thread → Place
place clocks s (producer_thread i) = producer_place (get_elem? s.producers i)
place clocks s stage1_thread = at_router s.stage1.0 s.stage1.1
place clocks s (processor_thread i) = processor_place (clocks i) (get_elem? s.processors i)
place clocks s stage2_thread = at_router s.stage2.0 s.stage2.1
place clocks s (strategy_thread i) = strategy_place (get_elem? s.strategies i)

abbrev pub list_of : Option (List Message) → List Message
list_of none = []
list_of (some q) = q

abbrev pub queue : State → QueueName → List Message
queue s (producer_queue i) = list_of (get_elem? s.producer_queues i)
queue s (stage1_queue i) = list_of (get_elem? s.stage1_queues i)
queue s (processor_queue i) = list_of (get_elem? s.processor_queues i)
queue s (stage2_queue i) = list_of (get_elem? s.stage2_queues i)

-- `try_pop` and `try_push` at an index of a list of queues.
module _ (k : ℕ) where
  pub pop_at-some :
      (qs : List (List Message)) (i : ℕ) (q : List Message)
      → get_elem? qs i ≡ some q
      → pop_at (list_api k) qs i ≡ some ((Fifo.pop q).0, set qs i (Fifo.pop q).1)
  unfolding pop_at
  pop_at-some [] i q e = cc
  pop_at-some (x ∷ qs) zero q e =
      let same : x ≡ q = cc in ap (λ l. some ((Fifo.pop l).0, (Fifo.pop l).1 ∷ qs)) same
  pop_at-some (x ∷ qs) (suc i) q e = rw (pop_at-some qs i q e) refl

  pub pop_at-none :
      (qs : List (List Message)) (i : ℕ) → get_elem? qs i ≡ none → pop_at (list_api k) qs i ≡ none
  unfolding pop_at
  pop_at-none [] i e = refl
  pop_at-none (x ∷ qs) zero e = cc
  pop_at-none (x ∷ qs) (suc i) e = rw (pop_at-none qs i e) refl

  pub push_at-some :
      (qs : List (List Message)) (i : ℕ) (m : Message) (q : List Message)
      → get_elem? qs i ≡ some q
      → push_at (list_api k) qs i m
        ≡ ((Fifo.push (capacity k) q m).0, set qs i (Fifo.push (capacity k) q m).1)
  unfolding push_at
  push_at-some [] i m q e = cc
  push_at-some (x ∷ qs) zero m q e =
      let same : x ≡ q = cc in
      ap (λ l. ((Fifo.push (capacity k) l m).0, (Fifo.push (capacity k) l m).1 ∷ qs)) same
  push_at-some (x ∷ qs) (suc i) m q e = rw (push_at-some qs i m q e) refl

  pub push_at-none :
      (qs : List (List Message)) (i : ℕ) (m : Message)
      → get_elem? qs i ≡ none
      → push_at (list_api k) qs i m ≡ (false, qs)
  unfolding push_at
  push_at-none [] i m e = refl
  push_at-none (x ∷ qs) zero m e = cc
  push_at-none (x ∷ qs) (suc i) m e = rw (push_at-none qs i m e) refl

pub get_elem?-some :
    {A : Type 0} (xs : List A) (i : ℕ) (x : A) → get_elem? xs i ≡ some x → i < length xs
get_elem?-some [] i x e = cc
get_elem?-some (y ∷ xs) zero x e = omega arith
get_elem?-some (y ∷ xs) (suc i) x e = omega (arith, get_elem?-some xs i x e)

-- Two lists of one length: what is at an index of the one has its like in the other.
pub beside :
    {A B : Type 0} (n : ℕ) (xs : List A) (ys : List B) (i : ℕ) (x : A)
    → length xs ≡ n
    → length ys ≡ n
    → get_elem? xs i ≡ some x
    → (y : B) × (get_elem? ys i ≡ some y)
beside n xs ys i x e f g = get_elem?_lt ys i (omega (arith, get_elem?-some xs i x g))

-- Two vectors of queues that hold the same, and two that differ at an index at most.
abbrev pub Same : List (List Message) → List (List Message) → Type 0
Same qs qs' = (j : ℕ) → list_of (get_elem? qs' j) ≡ list_of (get_elem? qs j)

abbrev pub Away : ℕ → List (List Message) → List (List Message) → Type 0
Away i qs qs' = (j : ℕ) → i ≢ j → list_of (get_elem? qs' j) ≡ list_of (get_elem? qs j)

pub set-Away : (qs : List (List Message)) (i : ℕ) (l : List Message) → Away i qs (set qs i l)
set-Away qs i l j ne = ap list_of (get_elem?-set_ne qs i j l ne)

pub set-Same :
    (qs : List (List Message)) (i : ℕ) (l q : List Message)
    → get_elem? qs i ≡ some q
    → l ≡ q
    → Same qs (set qs i l)
set-Same qs i l q e same j = elim (ℕ_discrete i j) [
  | yes f ↦
      subst (λ h. list_of (get_elem? (set qs i l) h) ≡ list_of (get_elem? qs h)) f
        (ap list_of (get_elem?-set_hit qs i l e) ∙ same ∙ sym (ap list_of e))
  | no ne ↦ set-Away qs i l j ne
]

-- The queues of two states.
module _ (s s' : State) where
  pub queues-Same :
      Same s.producer_queues s'.producer_queues
      → Same s.stage1_queues s'.stage1_queues
      → Same s.processor_queues s'.processor_queues
      → Same s.stage2_queues s'.stage2_queues
      → (j : QueueName) → queue s' j ≡ queue s j
  queues-Same a b c d (producer_queue j) = a j
  queues-Same a b c d (stage1_queue j) = b j
  queues-Same a b c d (processor_queue j) = c j
  queues-Same a b c d (stage2_queue j) = d j

  pub producer_queue-Away :
      (i : ℕ)
      → Away i s.producer_queues s'.producer_queues
      → Same s.stage1_queues s'.stage1_queues
      → Same s.processor_queues s'.processor_queues
      → Same s.stage2_queues s'.stage2_queues
      → (j : QueueName) → producer_queue i ≢ j
      → queue s' j ≡ queue s j
  producer_queue-Away i a b c d (producer_queue j) ne = a j (λ e. ne (ap producer_queue e))
  producer_queue-Away i a b c d (stage1_queue j) ne = b j
  producer_queue-Away i a b c d (processor_queue j) ne = c j
  producer_queue-Away i a b c d (stage2_queue j) ne = d j

  pub stage1_queue-Away :
      (i : ℕ)
      → Same s.producer_queues s'.producer_queues
      → Away i s.stage1_queues s'.stage1_queues
      → Same s.processor_queues s'.processor_queues
      → Same s.stage2_queues s'.stage2_queues
      → (j : QueueName) → stage1_queue i ≢ j
      → queue s' j ≡ queue s j
  stage1_queue-Away i a b c d (producer_queue j) ne = a j
  stage1_queue-Away i a b c d (stage1_queue j) ne = b j (λ e. ne (ap stage1_queue e))
  stage1_queue-Away i a b c d (processor_queue j) ne = c j
  stage1_queue-Away i a b c d (stage2_queue j) ne = d j

  pub processor_queue-Away :
      (i : ℕ)
      → Same s.producer_queues s'.producer_queues
      → Same s.stage1_queues s'.stage1_queues
      → Away i s.processor_queues s'.processor_queues
      → Same s.stage2_queues s'.stage2_queues
      → (j : QueueName) → processor_queue i ≢ j
      → queue s' j ≡ queue s j
  processor_queue-Away i a b c d (producer_queue j) ne = a j
  processor_queue-Away i a b c d (stage1_queue j) ne = b j
  processor_queue-Away i a b c d (processor_queue j) ne = c j (λ e. ne (ap processor_queue e))
  processor_queue-Away i a b c d (stage2_queue j) ne = d j

  pub stage2_queue-Away :
      (i : ℕ)
      → Same s.producer_queues s'.producer_queues
      → Same s.stage1_queues s'.stage1_queues
      → Same s.processor_queues s'.processor_queues
      → Away i s.stage2_queues s'.stage2_queues
      → (j : QueueName) → stage2_queue i ≢ j
      → queue s' j ≡ queue s j
  stage2_queue-Away i a b c d (producer_queue j) ne = a j
  stage2_queue-Away i a b c d (stage1_queue j) ne = b j
  stage2_queue-Away i a b c d (processor_queue j) ne = c j
  stage2_queue-Away i a b c d (stage2_queue j) ne = d j (λ e. ne (ap stage2_queue e))
