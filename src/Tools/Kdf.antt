-- ===== src/Tools/Kdf.antt =====
-- `stellar_derive_key` of src/tools/encrypt.c: 32 bytes of key material from a key and a salt.
-- `state[8]` is a list of eight words; every index is taken modulo 8, as in the source.
use nova64_os.Base.{ℕ, zero, suc, ◌+◌, ◌*◌, ◌%◌, bit_and, bit_or, bit_xor}
use nova64_os.Base.{List, [], ◌∷◌, Option, none, some, get_or, set}
use nova64_os.Bits.{u32, ◌<<<◌, ◌>>>◌}

-- `(x << k) | (x >> (32 - k))`, the amounts as the source writes them.
unfoldable pub rotl : ℕ → ℕ → ℕ → ℕ
rotl x left right = bit_or (u32 (x <<< left)) (x >>> right)

abbrev pub word : List ℕ → ℕ → ℕ
word state i = get_or state (i % 8) 0

-- `state[i] ^= v` and `state[i] += v`.
abbrev pub xor_at : ℕ → ℕ → List ℕ → List ℕ
xor_at i v state = set state (i % 8) (bit_xor (word state i) v)

abbrev pub add_at : ℕ → ℕ → List ℕ → List ℕ
add_at i v state = set state (i % 8) (u32 (word state i + v))

abbrev pub initial_state : List ℕ
initial_state =
    0x243F6A88 ∷ 0x85A308D3 ∷ 0x13198A2E ∷ 0x03707344 ∷ 0xA4093822 ∷ 0x299F31D0 ∷ 0x082EFA98
    ∷ 0xEC4E6C89 ∷ []

unfoldable pub absorb_key_byte : ℕ → ℕ → List ℕ → List ℕ
unfolding rotl
absorb_key_byte i byte s₀ =
    let s₁ = xor_at i (u32 (byte * 0x9E3779B9)) s₀ in
    let s₂ = xor_at i (word s₁ (i + 1) >>> 13) s₁ in
    let s₃ = add_at (i + 3) (word s₂ i) s₂ in xor_at (i + 5) (rotl (word s₃ i) 7 25) s₃

unfoldable pub absorb_salt_byte : ℕ → ℕ → List ℕ → List ℕ
unfolding rotl
absorb_salt_byte i byte s₀ =
    let s₁ = xor_at i (u32 (byte * 0x6C62272E)) s₀ in
    let s₂ = add_at (i + 2) (word s₁ i) s₁ in xor_at (i + 4) (rotl (word s₂ i) 11 21) s₂

-- The two absorbing loops: the bytes not yet absorbed, from index `i`.
unfoldable pub absorb : (ℕ → ℕ → List ℕ → List ℕ) → ℕ → List ℕ → List ℕ → List ℕ
absorb step i [] state = state
absorb step i (byte ∷ bytes) state = absorb step (i + 1) bytes (step i byte state)

unfoldable pub diffuse_word : ℕ → List ℕ → List ℕ
unfolding rotl
diffuse_word i s₀ =
    let s₁ = add_at i (word s₀ (i + 1)) s₀ in
    let s₂ = xor_at (i + 3) (rotl (word s₁ i) 5 27) s₁ in
    let s₃ = xor_at (i + 5) (u32 (word s₂ i * 0xBF58476D)) s₂ in
    add_at (i + 7) (bit_xor (word s₃ i >>> 9) (word s₃ (i + 2))) s₃

-- `for (i = 0; i < 8; i++)`, with the rounds left.
unfoldable pub diffuse_from : ℕ → ℕ → List ℕ → List ℕ
diffuse_from zero i state = state
diffuse_from (suc n) i state = diffuse_from n (i + 1) (diffuse_word i state)

abbrev pub kdf_rounds : ℕ
kdf_rounds = 64

unfoldable pub diffuse : ℕ → List ℕ → List ℕ
unfolding diffuse_from diffuse_word
diffuse zero state = state
diffuse (suc r) state = diffuse r (diffuse_from 8 0 state)

-- The four bytes of each word, lowest first.
unfoldable pub extract : List ℕ → List ℕ
extract [] = []
extract (w ∷ ws) =
    bit_and w 0xFF
    ∷ bit_and (w >>> 8) 0xFF
    ∷ bit_and (w >>> 16) 0xFF
    ∷ bit_and (w >>> 24) 0xFF
    ∷ extract ws

-- A null key is the empty key.
abbrev pub key_or_empty : Option (List ℕ) → List ℕ
key_or_empty none = []
key_or_empty (some key) = key

unfoldable pub derive_state : Option (List ℕ) → List ℕ → List ℕ
unfolding absorb absorb_key_byte absorb_salt_byte diffuse
derive_state key salt =
    let keyed = absorb absorb_key_byte 0 (key_or_empty key) initial_state in
    diffuse kdf_rounds (absorb absorb_salt_byte 0 salt keyed)

unfoldable pub derive_key : Option (List ℕ) → List ℕ → List ℕ
unfolding derive_state extract
derive_key key salt = extract (derive_state key salt)
