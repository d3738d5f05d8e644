-- ===== src/Memory/Heap/Rounding.antt =====
-- `(size + 7) & ~7` rounds up to a multiple of eight.
use native.Mathlib.Nat.{pow-suc, one-le-pow}
use nova64_os.Base.{ℕ, zero, suc, ◌+◌, ◌-◌, ◌*◌, ◌/◌, ◌%◌, ◌^◌, ◌≤◌, ◌<◌, ◌≡◌, arith, ap, bit_and}
use nova64_os.Bits.Step.{bit_and_step}
use nova64_os.Bits.Xor.{bit_and-le}
use nova64_os.Memory.Heap.{align8}

-- A mask of `k` ones keeps every number below `2 ^ k`.
bit_and_ones : (k a : ℕ) → a < 2 ^ k → bit_and a (2 ^ k - 1) ≡ a
bit_and_ones zero zero h = omega (arith, bit_and-le 0 (2 ^ 0 - 1))
bit_and_ones zero (suc a) h = absurd (omega arith)
bit_and_ones (suc k) a h = omega (
  arith,
  pow-suc 2 k,
  one-le-pow k 2,
  bit_and_step a (2 ^ suc k - 1),
  ap (λ (t : ℕ). bit_and (a / 2) t) halved,
  bit_and_ones k (a / 2) (omega (arith, pow-suc 2 k)),
)
  where
    halved : (2 ^ suc k - 1) / 2 ≡ 2 ^ k - 1
    halved = omega (arith, pow-suc 2 k, one-le-pow k 2)

bit_and_clear8 : (a : ℕ) → a < 2 ^ 64 → bit_and a (2 ^ 64 - 8) ≡ a / 8 * 8
bit_and_clear8 a h = omega (
  arith,
  bit_and_step a (2 ^ 64 - 8),
  bit_and_step (a / 2) (2 ^ 63 - 4),
  bit_and_step (a / 2 / 2) (2 ^ 62 - 2),
  bit_and_ones 61 (a / 2 / 2 / 2) (omega arith),
)

-- The size is rounded up to the next multiple of eight.
pub align8_lem :
    (size : ℕ)
    → size < 2 ^ 64 - 8
    → (align8 size % 8 ≡ 0) × (size ≤ align8 size) × (align8 size < size + 8)
unfolding align8
align8_lem size h = omega (arith, bit_and_clear8 ((size + 7) % 2 ^ 64) (omega arith))
