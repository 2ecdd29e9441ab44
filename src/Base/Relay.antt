-- ===== src/Base/Relay.antt =====
-- The history of a thread that takes or makes items and passes them on, or loses them.
use Prim.Native.Nat.{ℕ, ◌+◌}
use mathlib.Core.Path.{◌≡◌}
use mathlib.Core.List.{List, [], ◌∷◌}
use native.Mathlib.Omega.{arith}
use message_router.Base.Lists.{length}
use message_router.Base.Words.{u64, add64}

module _ {A : Type 0} {B : Type 0} where
  -- What became of each item taken, newest first in both lists: it was passed on, as an item that
  -- `R` relates to it, or it was lost; with the number of those lost.
  pub data Relayed (R : A → B → Type 0) : List A → List B → ℕ → Type 0 where
    nothing : Relayed R [] [] 0
    passed :
        {taken : List A} {sent : List B} {lost : ℕ}
        → (a : A) (b : B) → R a b
        → Relayed R taken sent lost
        → Relayed R (a ∷ taken) (b ∷ sent) lost
    failed :
        {taken : List A} {sent : List B} {lost : ℕ}
        → (a : A) → Relayed R taken sent lost
        → Relayed R (a ∷ taken) sent (lost + 1)

  -- `n` counts the items passed on, modulo 2 ^ 64.
  pub record Settled (R : A → B → Type 0) (taken : List A) (sent : List B) (n : ℕ) : Type 0 where
    pub lost : ℕ
    pub relayed : Relayed R taken sent lost
    pub count : n ≡ u64 (length sent)

  module _ (R : A → B → Type 0) (taken : List A) (sent : List B) (n : ℕ) where
    pub passed-Settled :
        (a : A) (b : B)
        → R a b
        → Settled R taken sent n
        → Settled R (a ∷ taken) (b ∷ sent) (add64 n 1)
    passed-Settled a b r s = record {
      lost = s.lost;
      relayed = passed a b r s.relayed;
      count = omega (arith, s.count);
    }

    pub failed-Settled : (a : A) → Settled R taken sent n → Settled R (a ∷ taken) sent n
    failed-Settled a s = record { lost = s.lost + 1; relayed = failed a s.relayed; count = s.count }
