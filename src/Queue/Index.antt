-- ===== src/Queue/Index.antt =====
-- The slots of a ring buffer's items, and the arithmetic of its indices.
use native.Mathlib.Nat.{mod-add-mod, mod-eq_of_lt, mod-eq-sub-mod, pow-le-pow_right}
use native.Mathlib.Decide.{dec_lt}
use message_router.Base.{
  ℕ, suc, ◌+◌, ◌-◌, ◌%◌, ◌^◌, ◌≤◌, ◌<◌, ◌≡◌, ◌≢◌, ◌⊎◌, inl, inr, ap, ◌∙◌, arith, bit_and_mask,
  pow_pos, add64,
}
use message_router.Queue.Defs.{next_index}

-- The slot of the `i`-th item behind `head`.
abbrev pub slot : ℕ → ℕ → ℕ → ℕ
slot k head i = (head + i) % 2 ^ k

-- A sum of two indices wraps at most once.
pub wrap_cases :
    (m h i : ℕ)
    → h < m
    → i < m
    → (((h + i) % m ≡ h + i) × (h + i < m)) ⊎ (((h + i) % m ≡ h + i - m) × (m ≤ h + i))
wrap_cases m h i hh hi = elim (dec_lt (h + i) m) [
  | yes below ↦ inl (mod-eq_of_lt below, below)
  | no above ↦ inr (
    mod-eq-sub-mod {n = h + i} {m = m} (omega arith)
        ∙ mod-eq_of_lt {n = h + i - m} {m = m} (omega arith),
    omega arith,
  )
]

-- Different items stand in different slots.
pub slot-injective :
    (k head i j : ℕ) → head < 2 ^ k → i < 2 ^ k → j < 2 ^ k → i ≢ j → slot k head i ≢ slot k head j
slot-injective k head i j hh hi hj ne =
    omega (arith, wrap_cases (2 ^ k) head i hh hi, wrap_cases (2 ^ k) head j hh hj)

pub slot-suc : (k head i : ℕ) → slot k (slot k head 1) i ≡ slot k head (suc i)
slot-suc k head i = mod-add-mod (head + 1) (2 ^ k) i ∙ ap (λ t. t % 2 ^ k) (omega arith)

pub slot-zero : (k head : ℕ) → head < 2 ^ k → slot k head 0 ≡ head
slot-zero k head h = ap (λ t. t % 2 ^ k) (omega arith) ∙ mod-eq_of_lt h

pub slot-lt : (k head i : ℕ) → slot k head i < 2 ^ k
slot-lt k head i = omega (arith, pow_pos k)

-- An index below `Size` cannot wrap on `size_t`.
pub next_index_lem : (k i : ℕ) → k < 64 → i < 2 ^ k → next_index k i ≡ slot k i 1
next_index_lem k i small lt =
    bit_and_mask k (add64 i 1) ∙ ap (λ t. t % 2 ^ k) (mod-eq_of_lt (omega (arith, bound)))
  where
    bound : 2 ^ k ≤ 2 ^ 63
    bound = pow-le-pow_right (omega arith) {j = 63} (omega arith)
