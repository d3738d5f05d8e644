-- ===== src/Tools/Cipher.antt =====
-- `stellar_stream_cipher` of src/tools/encrypt.c. The `sz` bytes at `data` are a list of that
-- length; the keystream is a function of the key alone.
use nova64_os.Base.{ℕ, ◌+◌, ◌*◌, bit_and, bit_or, bit_xor, List, [], ◌∷◌, get_or}
use nova64_os.Bits.{u32, ◌<<<◌, ◌>>>◌}
use nova64_os.Tools.Kdf.{rotl}

-- `s[8]`.
pub record CipherState : Type 0 where
  pub s0 : ℕ
  pub s1 : ℕ
  pub s2 : ℕ
  pub s3 : ℕ
  pub s4 : ℕ
  pub s5 : ℕ
  pub s6 : ℕ
  pub s7 : ℕ

unfoldable pub load_word : List ℕ → ℕ → ℕ
load_word key32 i =
    bit_or
      (bit_or (bit_or (get_or key32 (i * 4) 0) (get_or key32 (i * 4 + 1) 0 <<< 8))
        (get_or key32 (i * 4 + 2) 0 <<< 16))
      (get_or key32 (i * 4 + 3) 0 <<< 24)

unfoldable pub load_state : List ℕ → CipherState
unfolding load_word
load_state key32 = record {
  s0 = load_word key32 0;
  s1 = load_word key32 1;
  s2 = load_word key32 2;
  s3 = load_word key32 3;
  s4 = load_word key32 4;
  s5 = load_word key32 5;
  s6 = load_word key32 6;
  s7 = load_word key32 7;
}

-- The state after one byte.
unfoldable pub advance : CipherState → CipherState
unfolding rotl
advance s =
    let t = bit_xor s.s0 (rotl s.s3 7 25) in
    let a = u32 (s.s1 + s.s4) in
    let b = bit_xor s.s2 (s.s5 >>> 9) in
    let c = u32 (s.s3 * 0xBF58476D) in
    record {
      s0 = a;
      s1 = b;
      s2 = c;
      s3 = bit_xor s.s4 t;
      s4 = u32 (s.s5 + s.s6);
      s5 = bit_xor s.s6 (rotl s.s7 13 19);
      s6 = u32 (s.s7 + a);
      s7 = bit_xor (bit_xor t (c >>> 11)) b;
    }

-- The keystream byte that the new state gives.
unfoldable pub keystream_byte : CipherState → ℕ
keystream_byte s =
    bit_and
      (bit_xor
        (bit_xor (bit_xor (bit_xor (bit_xor (bit_xor (bit_xor s.s0 s.s1) s.s2) s.s3) s.s4) s.s5)
          s.s6)
        s.s7)
      0xFF

-- The loop over the bytes that are left.
unfoldable pub cipher_from : CipherState → List ℕ → List ℕ
unfolding advance keystream_byte
cipher_from s [] = []
cipher_from s (byte ∷ rest) =
    let s' = advance s in bit_xor byte (keystream_byte s') ∷ cipher_from s' rest

unfoldable pub stream_cipher : List ℕ → List ℕ → List ℕ
unfolding load_state cipher_from
stream_cipher bytes key32 = cipher_from (load_state key32) bytes
