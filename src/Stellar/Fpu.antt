-- ===== src/Stellar/Fpu.antt =====
-- What the machine uses of `double` and of the casts to and from it. A `double`, a `long` and a
-- `Register` are all their 64 bits, a number below 2 ^ 64, so that the two members of the union are
-- one word; the operations on doubles are those of the processor, taken as a parameter.
use nova64_os.Base.{ℕ, ◌+◌, ◌-◌, ◌*◌, ◌%◌, ◌^◌, ◌<◌, Bool, ltb, ◌||◌}
use nova64_os.Base.{if◌then◌else◌, Option, none, some, ◌==◌, ◌&&◌}
use nova64_os.Bits.{u64, u32}

pub record Fpu : Type 0 where
  pub add : ℕ → ℕ → ℕ
  pub sub : ℕ → ℕ → ℕ
  pub mul : ℕ → ℕ → ℕ
  pub div : ℕ → ℕ → ℕ
  -- `a == b` and `a < b`, false where one is not a number.
  pub eq : ℕ → ℕ → Bool
  pub lt : ℕ → ℕ → Bool
  -- `(double)x` for a `long`, `(long)d` and `(int)d`; an `int` is its 32 bits.
  pub of_long : ℕ → ℕ
  pub to_long : ℕ → ℕ
  pub to_int : ℕ → ℕ

-- Every result is 64 bits wide, and an `int` is 32.
pub record IsFpu (f : Fpu) : Type 0 where
  pub add_fits : (a b : ℕ) → f.add a b < 2 ^ 64
  pub sub_fits : (a b : ℕ) → f.sub a b < 2 ^ 64
  pub mul_fits : (a b : ℕ) → f.mul a b < 2 ^ 64
  pub div_fits : (a b : ℕ) → f.div a b < 2 ^ 64
  pub of_long_fits : (a : ℕ) → f.of_long a < 2 ^ 64
  pub to_long_fits : (a : ℕ) → f.to_long a < 2 ^ 64
  pub to_int_fits : (a : ℕ) → f.to_int a < 2 ^ 32

-- 0.0, 0.5 and 1.0.
abbrev pub d_zero : ℕ
d_zero = 0

abbrev pub d_half : ℕ
d_half = 0x3FE0000000000000

abbrev pub d_one : ℕ
d_one = 0x3FF0000000000000

-- The `int` of 32 bits as a `long`.
unfoldable pub extend32 : ℕ → ℕ
extend32 w = if ltb w (2 ^ 31) then w else 2 ^ 64 - 2 ^ 32 + w

-- The magnitude of an `int`.
unfoldable pub magnitude32 : ℕ → ℕ
magnitude32 w = if ltb w (2 ^ 31) then w else 2 ^ 32 - w

-- `a % b` on `int`: the sign is that of `a`. A zero divisor, and the quotient of -2 ^ 31 by -1,
-- which does not fit, stop the process: `none`.
unfoldable pub rem32 : ℕ → ℕ → Option ℕ
unfolding magnitude32
rem32 a b =
    if b == 0 || (a == 2 ^ 31 && b == 2 ^ 32 - 1)
    then none
    else some
        (if ltb a (2 ^ 31) then a % magnitude32 b else u32 (2 ^ 32 - magnitude32 a % magnitude32 b))

-- `long` sums, differences and products wrap around.
unfoldable pub long_add : ℕ → ℕ → ℕ
long_add a b = u64 (a + b)

unfoldable pub long_sub : ℕ → ℕ → ℕ
long_sub a b = u64 (a + 2 ^ 64 - b)

unfoldable pub long_mul : ℕ → ℕ → ℕ
long_mul a b = u64 (a * b)
