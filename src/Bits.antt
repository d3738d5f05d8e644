-- ===== src/Bits.antt =====
-- Machine words: shifts, rotations and the laws of `^`, `|` and `&` that the tools and the
-- page allocator use.
pub mod Step
pub mod Xor
pub mod Bytes
pub mod Masks
use nova64_os.Base.{ℕ, ◌*◌, ◌/◌, ◌%◌, ◌^◌}

-- A `uint32_t` product, sum or left shift keeps the low 32 bits.
abbrev pub u32 : ℕ → ℕ
u32 n = n % 2 ^ 32

abbrev pub u64 : ℕ → ℕ
u64 n = n % 2 ^ 64

abbrev pub u8 : ℕ → ℕ
u8 n = n % 2 ^ 8

infixl 75 ◌<<<◌ ◌>>>◌
abbrev pub ◌<<<◌ : ℕ → ℕ → ℕ
x <<< k = x * 2 ^ k

abbrev pub ◌>>>◌ : ℕ → ℕ → ℕ
x >>> k = x / 2 ^ k
