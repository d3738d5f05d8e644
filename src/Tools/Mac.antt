-- ===== src/Tools/Mac.antt =====
-- `stellar_compute_mac` of src/tools/encrypt.c. The `sz` bytes at `data` are a list of that
-- length.
use nova64_os.Base.{ℕ, ◌+◌, ◌*◌, bit_and, bit_or, bit_xor, List, [], ◌∷◌}
use nova64_os.Base.{get_or, length}
use nova64_os.Bits.{u32, ◌<<<◌}
use nova64_os.Tools.Kdf.{rotl}
use nova64_os.Tools.Cipher.{load_word}

-- `h0` and `h1`.
pub record MacState : Type 0 where
  pub h0 : ℕ
  pub h1 : ℕ

-- One round of the loop, for the byte at index `i`.
unfoldable pub absorb_byte : ℕ → ℕ → MacState → MacState
unfolding rotl
absorb_byte i byte m =
    let a = u32 (rotl (bit_xor m.h0 (u32 (byte * 0x9E3779B9))) 13 19 + m.h1) in
    let b = rotl (bit_xor m.h1 (u32 (a * 0xBF58476D))) 7 25 in
    record { h0 = a; h1 = u32 (b + bit_xor byte (bit_and i 0xFF)) }

unfoldable pub absorb_from : ℕ → List ℕ → MacState → MacState
unfolding absorb_byte
absorb_from i [] m = m
absorb_from i (byte ∷ rest) m = absorb_from (i + 1) rest (absorb_byte i byte m)

unfoldable pub finish : ℕ → List ℕ → MacState → ℕ
unfolding rotl
finish sz key32 m =
    let a = bit_xor m.h0 m.h1 in
    let b = bit_xor a (bit_or (get_or key32 28 0) (get_or key32 29 0 <<< 8)) in
    let c = u32 (rotl b 17 15 * 0x94D049BB) in bit_xor c (bit_xor m.h1 (u32 (u32 sz * 0x6C62272E)))

unfoldable pub compute_mac : List ℕ → List ℕ → ℕ
unfolding load_word absorb_from finish
compute_mac bytes key32 =
    let start : MacState = record {
      h0 = bit_xor 0x6A09E667 (load_word key32 0);
      h1 = bit_xor 0xBB67AE85 (load_word key32 1);
    } in
    finish (length bytes) key32 (absorb_from 0 bytes start)
