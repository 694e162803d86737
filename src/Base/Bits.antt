-- ===== src/Base/Bits.antt =====
-- `bit_and` with the mask that `!(align - 1)` is, for the alignment 32 that the program uses.
use Prim.Native.Nat.{
  ℕ, zero, suc, ◌+◌, ◌-◌, ◌*◌, ◌/◌, ◌%◌, ◌^◌, ◌≤◌, ◌<◌, min, digits, bit_and-bitwise,
}
pub use Prim.Native.Nat.{bit_and}
use mathlib.Core.Path.{◌≡◌, refl}
use native.Mathlib.Omega.{arith}

-- The native operation goes digit by digit, with the word itself for fuel.
abbrev masked : (word mask fuel : ℕ) → ℕ
masked word mask fuel = digits (λ rest. zero) min fuel word mask

-- Two amounts of fuel that both suffice give the same.
masked_same :
    (word mask fuel₁ fuel₂ : ℕ)
    → (word ≤ fuel₁) × (word ≤ fuel₂)
    → masked word mask fuel₁ ≡ masked word mask fuel₂
masked_same (suc word) mask zero fuel₂ enough = absurd (omega (arith, enough.0))
masked_same (suc word) mask (suc fuel₁) zero enough = absurd (omega (arith, enough.1))
masked_same zero mask zero zero enough = refl
masked_same zero mask zero (suc fuel₂) enough = refl
masked_same zero mask (suc fuel₁) zero enough = refl
masked_same zero mask (suc fuel₁) (suc fuel₂) enough = refl
masked_same (suc word) mask (suc fuel₁) (suc fuel₂) enough =
    let half : (suc word / 2 ≤ fuel₁) × (suc word / 2 ≤ fuel₂) =
      (omega (arith, enough.0), omega (arith, enough.1)) in
    omega (arith, masked_same (suc word / 2) (mask / 2) fuel₁ fuel₂ half)

bit_and-masked : (word mask : ℕ) → bit_and word mask ≡ masked word mask word
bit_and-masked word mask = bit_and-bitwise word mask

-- The lowest digit apart.
pub bit_and_step :
    (word mask : ℕ)
    → bit_and word mask ≡ bit_and (word / 2) (mask / 2) * 2 + min (word % 2) (mask % 2)
bit_and_step zero mask = omega (arith, bit_and-masked zero mask, bit_and-masked zero (mask / 2))
bit_and_step (suc word) mask =
    let half =
      masked_same (suc word / 2) (mask / 2) word (suc word / 2) (omega arith, omega arith) in
    omega (arith, half, bit_and-masked (suc word) mask, bit_and-masked (suc word / 2) (mask / 2))

two_pow_pos : (k : ℕ) → 0 < 2 ^ k
two_pow_pos zero = omega arith
two_pow_pos (suc k) = omega (arith, two_pow_pos k)

half_mask : (k : ℕ) → (2 ^ suc k - 1) / 2 ≡ 2 ^ k - 1
half_mask k = omega (arith, two_pow_pos k)

-- A mask of `k` ones keeps the number that fits in `k` bits.
bit_and_ones : (k x : ℕ) → x < 2 ^ k → bit_and x (2 ^ k - 1) ≡ x
bit_and_ones zero x h = let e : x ≡ 0 = omega arith in rw e refl
bit_and_ones (suc k) x h = omega (
  arith,
  rw (half_mask k) at (bit_and_step x (2 ^ suc k - 1)),
  bit_and_ones k (x / 2) (omega arith),
  two_pow_pos k,
)

-- Clearing the five lowest bits of a 64-bit word.
pub bit_and_clear : (x : ℕ) → x < 2 ^ 64 → bit_and x (2 ^ 64 - 32) ≡ x / 32 * 32
bit_and_clear x h = omega (
  arith,
  bit_and_step x (2 ^ 64 - 32),
  bit_and_step (x / 2) (2 ^ 63 - 16),
  bit_and_step (x / 2 / 2) (2 ^ 62 - 8),
  bit_and_step (x / 2 / 2 / 2) (2 ^ 61 - 4),
  bit_and_step (x / 2 / 2 / 2 / 2) (2 ^ 60 - 2),
  bit_and_ones 59 (x / 2 / 2 / 2 / 2 / 2) (omega arith),
)
