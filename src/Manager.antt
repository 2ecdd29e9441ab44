-- ===== src/Manager.antt =====
-- What the three managers (src/producer.cpp, src/processor.cpp, src/strategy.cpp) do alike to the
-- components that they own: the loop of the constructor, the loops over all components, the totals.
pub mod Laws
pub mod Totals
mod Tests
use message_router.Base.{ℕ, zero, suc, ◌+◌, List, [], ◌∷◌, Option, none, some, add64}
use message_router.Lifecycle.{Fate, returns, ◌>>=◌}

module _ {ℓ} {C : Type ℓ} where
  -- `for (i = first; i < first + n; ++i) components.push_back(make(i))`; `make` is `none` where it
  -- reads a queue beyond the last.
  unfoldable pub create : (ℕ → Option C) → ℕ → ℕ → Option (List C)
  create make zero first = some []
  create make (suc n) first = elim (make first) [
    | none ↦ none
    | some c ↦ elim (create make n (first + 1)) [ none ↦ none | some cs ↦ some (c ∷ cs) ]
  ]

  -- `for (auto& c : components) c->call()`
  unfoldable pub for_each : (C → Fate C) → List C → Fate (List C)
  for_each f [] = returns []
  for_each f (c ∷ cs) = do d ← f c; ds ← for_each f cs; returns (d ∷ ds)

  -- `for (const auto& c : components) total += c->get()`
  unfoldable pub add_up : (C → ℕ) → ℕ → List C → ℕ
  add_up get total [] = total
  add_up get total (c ∷ cs) = add_up get (add64 total (get c)) cs

  -- A manager's vector goes: the destructors of what it owns.
  unfoldable pub delete_all : (C → Fate (Unit {0})) → List C → Fate (Unit {0})
  delete_all destroy [] = returns tt
  delete_all destroy (c ∷ cs) = do gone ← destroy c; delete_all destroy cs
