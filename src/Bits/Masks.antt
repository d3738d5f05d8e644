-- ===== src/Bits/Masks.antt =====
-- `&` with a number whose binary digits are all ones.
use native.Mathlib.Nat.{pow-suc, div-div-eq-div-mul, mod-add-div'}
use nova64_os.Base.{ℕ, zero, suc, ◌+◌, ◌*◌, ◌/◌, ◌%◌, ◌^◌, ◌≡◌, arith, bit_and, ap, sym, ◌∙◌}
use nova64_os.Bits.Step.{bit_and_step}
use nova64_os.Bits.Xor.{bit_and-le}

-- `k` ones.
abbrev pub ones : ℕ → ℕ
ones zero = 0
ones (suc k) = 2 * ones k + 1

-- The remainder by a power of two, digit by digit.
low : ℕ → ℕ → ℕ
low zero a = 0
low (suc k) a = 2 * low k (a / 2) + a % 2

half_mod : (p a : ℕ) → a % (p * 2) ≡ 2 * (a / 2 % p) + a % 2
half_mod p a =
    let halved : a / (p * 2) ≡ a / 2 / p =
      ap (λ (m : ℕ). a / m) (omega arith) ∙ sym (div-div-eq-div-mul a 2 p) in
    let same : a / (p * 2) * (p * 2) ≡ a / 2 / p * p * 2 =
      ap (λ (m : ℕ). m * (p * 2)) halved ∙ omega arith in
    omega (arith, mod-add-div' a (p * 2), mod-add-div' (a / 2) p, same)

low_lem : (k a : ℕ) → low k a ≡ a % 2 ^ k
unfolding low
low_lem zero a = omega arith
low_lem (suc k) a =
    omega (arith, low_lem k (a / 2), half_mod (2 ^ k) a, ap (λ (m : ℕ). a % m) (pow-suc 2 k))

bit_and-low : (k a : ℕ) → bit_and a (ones k) ≡ low k a
unfolding low
bit_and-low zero a = omega (arith, bit_and-le a 0)
bit_and-low (suc k) a =
    let half : (2 * ones k + 1) / 2 ≡ ones k = omega arith in
    omega (arith, bit_and_step a (2 * ones k + 1), ap (bit_and (a / 2)) half, bit_and-low k (a / 2))

-- `& 0xFF`, `& 0xFFFF` and the like keep the low digits.
pub bit_and-ones : (k a : ℕ) → bit_and a (ones k) ≡ a % 2 ^ k
bit_and-ones k a = omega (arith, bit_and-low k a, low_lem k a)
