-- ===== src/Base/Words.antt =====
-- Unsigned machine words as native numbers: the wrap is written out, and a mask of low bits is a
-- remainder.
use Prim.Native.Nat.{
  ℕ, zero, suc, ◌+◌, ◌-◌, ◌*◌, ◌/◌, ◌%◌, ◌^◌, ◌≤◌, ◌<◌, min, bit_and, digits, bit_and-bitwise,
}
use mathlib.Core.Path.{◌≡◌, refl, sym, ap, ◌∙◌}
use native.Mathlib.Nat.{div-add-mod, mod-lt, mod-eq_of_lt, mul-add-mod_self_left, two-pow-succ}
use native.Mathlib.Decide.{dec_le}
use native.Mathlib.Omega.{arith}

-- `uint8_t`, `uint32_t`, and `uint64_t` or `size_t`.
abbrev pub u8 : ℕ → ℕ
u8 n = n % 2 ^ 8

abbrev pub u32 : ℕ → ℕ
u32 n = n % 2 ^ 32

abbrev pub u64 : ℕ → ℕ
u64 n = n % 2 ^ 64

-- `a + b` and `a - b` on 64 bits.
abbrev pub add64 : ℕ → ℕ → ℕ
add64 a b = u64 (a + b)

abbrev pub sub64 : ℕ → ℕ → ℕ
sub64 a b = u64 (a + 2 ^ 64 - b)

pub pow_pos : (k : ℕ) → 0 < 2 ^ k
pow_pos zero = omega arith
pow_pos (suc k) = omega (arith, two-pow-succ k, pow_pos k)

-- A remainder by an even number, from its last bit up.
mod_double : (m x : ℕ) → 0 < m → x / 2 % m * 2 + x % 2 ≡ x % (m + m)
mod_double m x pos =
    sym (split ∙ mul-add-mod_self_left (m + m) (x / 2 / m) low ∙ mod-eq_of_lt small)
  where
    low : ℕ
    low = x / 2 % m * 2 + x % 2

    small : low < m + m
    small = omega (arith, mod-lt (x / 2) pos)

    split : x % (m + m) ≡ ((m + m) * (x / 2 / m) + low) % (m + m)
    split = ap (λ t. t % (m + m)) (omega (arith, div-add-mod (x / 2) m))

-- `x & (2 ^ k - 1)` is `x % 2 ^ k`.
mask_digits : (n k x : ℕ) → x ≤ n → digits (λ b. zero) min n x (2 ^ k - 1) ≡ x % 2 ^ k
mask_digits zero k zero h = omega (arith, mod-eq_of_lt {n = 0} {m = 2 ^ k} (pow_pos k))
mask_digits zero k (suc x) h = absurd (omega arith)
mask_digits (suc n) k zero h = omega (arith, mod-eq_of_lt {n = 0} {m = 2 ^ k} (pow_pos k))
mask_digits (suc n) zero (suc x) h = omega (arith, mask_digits n zero (suc x / 2) (omega arith))
mask_digits (suc n) (suc k) (suc x) h =
    rw (two-pow-succ k, halved, odd)
      (omega
        (arith, mask_digits n k (suc x / 2) (omega arith), mod_double (2 ^ k) (suc x) (pow_pos k)))
  where
    halved : (2 ^ k + 2 ^ k - 1) / 2 ≡ 2 ^ k - 1
    halved = omega (arith, pow_pos k)

    odd : (2 ^ k + 2 ^ k - 1) % 2 ≡ 1
    odd = omega (arith, pow_pos k)

pub bit_and_mask : (k x : ℕ) → bit_and x (2 ^ k - 1) ≡ x % 2 ^ k
bit_and_mask k x = bit_and-bitwise x (2 ^ k - 1) ∙ mask_digits x k x (omega arith)

-- The smaller power divides the larger one.
pub pow_divides : (k n : ℕ) → k ≤ n → (d : ℕ) × (2 ^ k * d + 2 ^ k ≡ 2 ^ n)
pow_divides zero zero h = (0, refl)
pow_divides (suc k) zero h = absurd (omega arith)
pow_divides k (suc n) h = elim (dec_le k n) [
  | yes le ↦ let (d, e) = pow_divides k n le in (d + d + 1, omega (arith, two-pow-succ n))
  | no gt ↦ (0, let e : k ≡ suc n = omega arith in rw e (omega arith))
]
