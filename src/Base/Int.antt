-- ===== src/Base/Int.antt =====
-- `int`: the values that the program reads and compares. None of its `int` arithmetic can overflow,
-- so no range is kept.
use Prim.Native.Nat.{ℕ}
use mathlib.Core.Bool.{Bool, true, false}

-- `negsuc n` is -(n + 1).
pub data ℤ : Type 0 where
  pos : ℕ → ℤ
  negsuc : ℕ → ℤ

-- `i <= 0`
abbrev pub le_zero : ℤ → Bool
le_zero (pos ℕ.zero) = true
le_zero (pos (ℕ.suc n)) = false
le_zero (negsuc n) = true

-- The rounds of `for (int i = 0; i < count; ++i)`.
abbrev pub rounds : ℤ → ℕ
rounds (pos n) = n
rounds (negsuc n) = 0
