-- ===== src/Manager/Laws.antt =====
-- The managers' loops, for any component.
use native.Mathlib.Decide.{ℕ_discrete}
use message_router.Base.{
  ℕ, zero, suc, ◌+◌, ◌<◌, ◌≤◌, ◌≡◌, refl, ap, List, [], ◌∷◌, map, Option, none, some, arith, length,
  All,
}
use message_router.Lifecycle.{Fate, returns}
use message_router.Manager.{create, for_each}

module _ {ℓ} {C : Type ℓ} where
  -- The sum of the components' counters.
  abbrev pub sum : (C → ℕ) → List C → ℕ
  sum get [] = 0
  sum get (c ∷ cs) = get c + sum get cs

  -- The components of the indices `first`, `first + 1` and so on.
  abbrev pub made : (ℕ → C) → ℕ → ℕ → List C
  made built zero first = []
  made built (suc n) first = built first ∷ made built n (first + 1)

  pub length-made : (built : ℕ → C) (n first : ℕ) → length (made built n first) ≡ n
  length-made built zero first = refl
  length-made built (suc n) first = ap suc (length-made built n (first + 1))

  -- The constructor's loop makes one component for each index.
  pub create-made :
      (make : ℕ → Option C) (built : ℕ → C) (n first : ℕ)
      → ((i : ℕ) → i < first + n → make i ≡ some (built i))
      → create make n first ≡ some (made built n first)
  unfolding create
  create-made make built zero first h = refl
  create-made make built (suc n) first h = ground (
    arith,
    h first (omega arith),
    create-made make built n (first + 1) (λ i lt. h i (omega arith)),
  )

  -- One index without its queue, and the constructor reads beyond the vector.
  pub create_beyond :
      (make : ℕ → Option C) (n first i : ℕ)
      → first ≤ i
      → i < first + n
      → make i ≡ none
      → create make n first ≡ none
  unfolding create
  create_beyond make zero first i lo hi h = absurd (omega arith)
  create_beyond make (suc n) first i lo hi h = elim (ℕ_discrete first i) [
    | yes e ↦ ground (arith, e, h)
    | no ne ↦ ground (arith, create_beyond make n (first + 1) i (omega arith) (omega arith) h)
  ]

  -- A loop of calls that all return.
  pub for_each_returns :
      (f : C → Fate C) (g : C → C) (cs : List C)
      → All (λ c. f c ≡ returns (g c)) cs
      → for_each f cs ≡ returns (map g cs)
  unfolding for_each
  for_each_returns f g [] h = refl
  for_each_returns f g (c ∷ cs) h = rw (h.0, for_each_returns f g cs h.1)

  -- A loop of calls that replace the part `life` of every component.
  pub for_each_life :
      {L : Type 0} (life : C → L) (set_life : C → L → C) (f : C → Fate C) (a b : L) (cs : List C)
      → ((c : C) → life c ≡ a → f c ≡ returns (set_life c b))
      → ((c : C) → life (set_life c b) ≡ b)
      → All (λ c. life c ≡ a) cs
      → (ds : List C) × (for_each f cs ≡ returns ds) × All (λ c. life c ≡ b) ds
  unfolding for_each
  for_each_life life set_life f a b [] each kept h = ([], refl, tt)
  for_each_life life set_life f a b (c ∷ cs) each kept (h, hs) =
      let (ds, e, all) = for_each_life life set_life f a b cs each kept hs in
      (set_life c b ∷ ds, rw (each c h, e) refl, (kept c, all))

  -- What holds of every component that is made.
  pub All-made :
      (P : C → Type 0) (built : ℕ → C) (n first : ℕ)
      → ((i : ℕ) → P (built i))
      → All P (made built n first)
  All-made P built zero first h = tt
  All-made P built (suc n) first h = (h first, All-made P built n (first + 1) h)
