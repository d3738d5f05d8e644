-- ===== src/Tools/Salt.antt =====
-- `stellar_generate_salt` of src/tools/encrypt.c. What `/dev/urandom` delivers, the clock and the
-- address of the local variable are inputs.
use nova64_os.Base.{ℕ, zero, suc, ◌*◌, bit_and, bit_xor, List, [], ◌∷◌}
use nova64_os.Base.{Option, none, some}
use nova64_os.Bits.{u64, ◌<<<◌, ◌>>>◌}

abbrev pub salt_size : ℕ
salt_size = 8

-- One round of the fallback generator, on the 64-bit seed.
unfoldable pub next_seed : ℕ → ℕ
next_seed seed =
    let s₁ = bit_xor seed (seed >>> 12) in
    let s₂ = bit_xor s₁ (u64 (s₁ <<< 25)) in
    let s₃ = bit_xor s₂ (s₂ >>> 27) in u64 (s₃ * 0x2545F4914F6CDD1D)

-- The loop that fills `salt`, with the rounds left.
unfoldable pub fill_salt : ℕ → ℕ → List ℕ
fill_salt zero seed = []
fill_salt (suc n) seed = let s = next_seed seed in bit_and s 0xFF ∷ fill_salt n s

-- `urandom` is what the eight-byte read of `/dev/urandom` gave, `none` where it cannot be opened.
unfoldable pub generate_salt : Option (List ℕ) → ℕ → ℕ → List ℕ
unfolding next_seed fill_salt
generate_salt (some bytes) time ptr_noise = bytes
generate_salt none time ptr_noise =
    let seed = bit_xor time ptr_noise in fill_salt salt_size (bit_xor seed (u64 (ptr_noise <<< 17)))
