-- ===== src/Manager/Totals.antt =====
-- The totals that the managers report.
use message_router.Base.{ℕ, ◌+◌, ◌≡◌, refl, List, [], ◌∷◌, arith, add64, u64}
use message_router.Manager.{add_up}
use message_router.Manager.Laws.{sum}
use message_router.Producer.{Producer}
use message_router.Producer.Manager.{get_total_messages_produced}
use message_router.Processor.{Processor}
use message_router.Processor.Manager.{get_total_messages_processed}
use message_router.Strategy.{Strategy}
use message_router.Strategy.Manager.{get_total_messages_delivered, get_total_ordering_violations}

add_up_from :
    {C : Type 0} (get : C → ℕ) (cs : List C) (total before : ℕ)
    → total ≡ u64 before
    → add_up get total cs ≡ u64 (before + sum get cs)
unfolding add_up
add_up_from get [] total before e = omega (arith, e)
add_up_from get (c ∷ cs) total before e =
    omega (arith, add_up_from get cs (add64 total (get c)) (before + get c) (omega (arith, e)))

add_up_zero : {C : Type 0} (get : C → ℕ) (cs : List C) → add_up get 0 cs ≡ u64 (sum get cs)
add_up_zero get cs = omega (arith, add_up_from get cs 0 0 refl)

-- The totals of the three managers are the sums of their components' counters, modulo 2 ^ 64.
pub totals_lem :
    (ps : List Producer) (rs : List Processor) (ss : List Strategy)
    → (get_total_messages_produced ps ≡ u64 (sum (λ (p : Producer). p.messages_produced) ps))
      × (get_total_messages_processed rs ≡ u64 (sum (λ (p : Processor). p.messages_processed) rs))
      × (get_total_messages_delivered ss ≡ u64 (sum (λ (s : Strategy). s.messages_delivered) ss))
      × (get_total_ordering_violations ss ≡ u64 (sum (λ (s : Strategy). s.ordering_violations) ss))
unfolding get_total_messages_produced get_total_messages_processed get_total_messages_delivered
    get_total_ordering_violations
totals_lem ps rs ss = (
  add_up_zero (λ (p : Producer). p.messages_produced) ps,
  add_up_zero (λ (p : Processor). p.messages_processed) rs,
  add_up_zero (λ (s : Strategy). s.messages_delivered) ss,
  add_up_zero (λ (s : Strategy). s.ordering_violations) ss,
)
