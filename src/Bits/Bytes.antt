-- ===== src/Bits/Bytes.antt =====
-- `memcpy` between a `uint32_t` and four bytes of memory, little-endian.
use nova64_os.Base.{ℕ, ◌+◌, ◌*◌, ◌/◌, ◌%◌, ◌^◌, ◌<◌, ◌≡◌, arith, List, [], ◌∷◌, get_or, drop}

-- The bytes of a `uint32_t`.
unfoldable pub le_bytes : ℕ → List ℕ
le_bytes w = w % 256 ∷ w / 256 % 256 ∷ w / 65536 % 256 ∷ w / 16777216 % 256 ∷ []

-- The `uint32_t` at an offset of a buffer.
unfoldable pub le_value : List ℕ → ℕ → ℕ
le_value buf i =
    get_or (drop i buf) 0 0
    + get_or (drop i buf) 1 0 * 256
    + get_or (drop i buf) 2 0 * 65536
    + get_or (drop i buf) 3 0 * 16777216

pub le_value-le_bytes : (w : ℕ) → w < 2 ^ 32 → le_value (le_bytes w) 0 ≡ w
unfolding le_value le_bytes
le_value-le_bytes w h = omega arith
