-- ===== src/Bits/Xor.antt =====
-- `^` is undone by itself and stays within the width of its operands; `&` stays below its mask.
use native.Mathlib.Nat.{pow-suc}
use Prim.Native.Nat.{bit_or-bitwise}
use nova64_os.Base.{ℕ, zero, suc, ◌+◌, ◌*◌, ◌/◌, ◌%◌, ◌^◌, ◌≤◌, ◌<◌, ◌≡◌, refl, arith}
use nova64_os.Base.{bit_and, bit_or, bit_xor, ap}
use nova64_os.Bits.Step.{bit_xor_step, bit_and_step, bit_or_step}

xor_undo_fuel : (n a b : ℕ) → a ≤ n → b ≤ n → bit_xor (bit_xor a b) b ≡ a
xor_undo_fuel zero zero zero h g = refl
xor_undo_fuel zero (suc a) b h g = absurd (omega arith)
xor_undo_fuel zero zero (suc b) h g = absurd (omega arith)
xor_undo_fuel (suc n) a b h g = ground (
  arith,
  bit_xor_step (bit_xor a b) b,
  bit_xor_step a b,
  xor_undo_fuel n (a / 2) (b / 2) (omega arith) (omega arith),
)

pub bit_xor-undo : (a b : ℕ) → bit_xor (bit_xor a b) b ≡ a
bit_xor-undo a b = xor_undo_fuel (a + b) a b (omega arith) (omega arith)

pub bit_xor-lt : (k a b : ℕ) → a < 2 ^ k → b < 2 ^ k → bit_xor a b < 2 ^ k
bit_xor-lt zero zero zero h g = omega arith
bit_xor-lt zero (suc a) b h g = absurd (omega arith)
bit_xor-lt zero zero (suc b) h g = absurd (omega arith)
bit_xor-lt (suc k) a b h g = omega (
  arith,
  pow-suc 2 k,
  bit_xor_step a b,
  bit_xor-lt k (a / 2) (b / 2) (omega (arith, pow-suc 2 k)) (omega (arith, pow-suc 2 k)),
)

and-le_fuel : (n a b : ℕ) → b ≤ n → a ≤ n → bit_and a b ≤ b
and-le_fuel zero zero zero h g = omega arith
and-le_fuel zero (suc a) b h g = absurd (omega arith)
and-le_fuel zero zero (suc b) h g = absurd (omega arith)
and-le_fuel (suc n) a b h g =
    omega (arith, bit_and_step a b, and-le_fuel n (a / 2) (b / 2) (omega arith) (omega arith))

pub bit_and-le : (a b : ℕ) → bit_and a b ≤ b
bit_and-le a b = and-le_fuel (a + b) a b (omega arith) (omega arith)

pub bit_or-lt : (k a b : ℕ) → a < 2 ^ k → b < 2 ^ k → bit_or a b < 2 ^ k
bit_or-lt zero zero zero h g = omega arith
bit_or-lt zero (suc a) b h g = absurd (omega arith)
bit_or-lt zero zero (suc b) h g = absurd (omega arith)
bit_or-lt (suc k) a b h g = omega (
  arith,
  pow-suc 2 k,
  bit_or_step a b,
  bit_or-lt k (a / 2) (b / 2) (omega (arith, pow-suc 2 k)) (omega (arith, pow-suc 2 k)),
)

or-swap_fuel : (n a b : ℕ) → a ≤ n → b ≤ n → bit_or a b ≡ bit_or b a
or-swap_fuel zero zero zero h g = refl
or-swap_fuel zero zero (suc b) h g = absurd (omega arith)
or-swap_fuel zero (suc a) b h g = absurd (omega arith)
or-swap_fuel (suc n) a b h g = omega (
  arith,
  bit_or_step a b,
  bit_or_step b a,
  or-swap_fuel n (a / 2) (b / 2) (omega arith) (omega arith),
)

pub bit_or_swap : (a b : ℕ) → bit_or a b ≡ bit_or b a
bit_or_swap a b = or-swap_fuel (a + b) a b (omega arith) (omega arith)

-- A field above the bits of `r` is joined to it by `|`.
pub bit_or_above : (k q r : ℕ) → r < 2 ^ k → bit_or r (q * 2 ^ k) ≡ r + q * 2 ^ k
bit_or_above zero q zero h = omega (arith, bit_or-bitwise 0 (q * 2 ^ 0))
bit_or_above zero q (suc r) h = absurd (omega arith)
bit_or_above (suc k) q r h = omega (
  arith,
  pow-suc 2 k,
  ap (λ (t : ℕ). q * t) (pow-suc 2 k),
  bit_or_step r (q * 2 ^ suc k),
  ap (λ (t : ℕ). bit_or (r / 2) t) halved,
  bit_or_above k q (r / 2) (omega (arith, pow-suc 2 k)),
)
  where
    halved : q * 2 ^ suc k / 2 ≡ q * 2 ^ k
    halved = omega (arith, ap (λ (t : ℕ). q * t) (pow-suc 2 k))

bit_and-zero : (a : ℕ) → bit_and a 0 ≡ 0
bit_and-zero a = omega (arith, bit_and-le a 0)

pub bit_and_nibble : (a : ℕ) → bit_and a 15 ≡ a % 16
bit_and_nibble a = omega (
  arith,
  bit_and_step a 15,
  bit_and_step (a / 2) 7,
  bit_and_step (a / 2 / 2) 3,
  bit_and_step (a / 2 / 2 / 2) 1,
  bit_and-zero (a / 2 / 2 / 2 / 2),
)

-- `& 0xFF` is the remainder by 256.
pub bit_and_byte : (a : ℕ) → bit_and a 255 ≡ a % 256
bit_and_byte a = omega (
  arith,
  bit_and_step a 255,
  bit_and_step (a / 2) 127,
  bit_and_step (a / 2 / 2) 63,
  bit_and_step (a / 2 / 2 / 2) 31,
  bit_and_nibble (a / 2 / 2 / 2 / 2),
)
