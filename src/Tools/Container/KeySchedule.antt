-- ===== src/Tools/Container/KeySchedule.antt =====
-- The key material: 32 bytes, from which the cipher recovers the eight words of the derivation.
use nova64_os.Base.{ℕ, zero, suc, ◌+◌, ◌*◌, ◌/◌, ◌%◌, ◌^◌, ◌<◌, ◌≡◌, refl, arith}
use nova64_os.Base.{List, [], ◌∷◌, Option, length, get_or, All, All-get_or, length-set, All-set}
use native.Mathlib.Nat.{div-le_self}
use nova64_os.Base.{◌∙◌, bit_and, bit_or}
use nova64_os.Bits.{u32}
use nova64_os.Bits.Xor.{bit_and-le, bit_or-lt, bit_xor-lt, bit_and_byte, bit_or_above}
use nova64_os.Tools.Kdf.{rotl, absorb, absorb_key_byte, absorb_salt_byte, diffuse_word}
use nova64_os.Tools.Kdf.{diffuse_from, diffuse, derive_state, derive_key, extract, initial_state}
use nova64_os.Tools.Kdf.{key_or_empty, word, xor_at, add_at}
use nova64_os.Tools.Cipher.{CipherState, load_word, load_state}
use nova64_os.Tools.Mac.{MacState, absorb_byte, absorb_from, finish, compute_mac}

abbrev pub IsByte : ℕ → Type 0
IsByte b = b < 256

abbrev pub IsWord : ℕ → Type 0
IsWord w = w < 2 ^ 32

-- Eight 32-bit words.
abbrev pub IsState : List ℕ → Type 0
IsState s = (length s ≡ 8) × All IsWord s

rotl-IsWord : (x l r : ℕ) → IsWord x → IsWord (rotl x l r)
unfolding rotl
rotl-IsWord x l r h = bit_or-lt 32 _ _ (omega arith) (omega (arith, div-le_self x (2 ^ r)))

shift-IsWord : (x r : ℕ) → IsWord x → IsWord (x / 2 ^ r)
shift-IsWord x r h = omega (arith, div-le_self x (2 ^ r))

word-IsWord : (s : List ℕ) (i : ℕ) → All IsWord s → IsWord (word s i)
word-IsWord s i h = All-get_or IsWord s (i % 8) 0 (omega arith) h

xor_at-IsState : (s : List ℕ) (i v : ℕ) → IsWord v → IsState s → IsState (xor_at i v s)
xor_at-IsState s i v hv h = (
  length-set s (i % 8) _ ∙ h.0,
  All-set IsWord s (i % 8) _ (bit_xor-lt 32 _ v (word-IsWord s i h.1) hv) h.1,
)

add_at-IsState : (s : List ℕ) (i v : ℕ) → IsState s → IsState (add_at i v s)
add_at-IsState s i v h =
    (length-set s (i % 8) _ ∙ h.0, All-set IsWord s (i % 8) _ (omega arith) h.1)

absorb_key_byte-IsState : (i byte : ℕ) (s : List ℕ) → IsState s → IsState (absorb_key_byte i byte s)
unfolding absorb_key_byte
absorb_key_byte-IsState i byte s h =
    let s₁ = xor_at i (u32 (byte * 0x9E3779B9)) s in
    let h₁ : IsState s₁ = xor_at-IsState s i _ (omega arith) h in
    let s₂ = xor_at i (word s₁ (i + 1) / 2 ^ 13) s₁ in
    let h₂ : IsState s₂ =
      xor_at-IsState s₁ i _ (shift-IsWord _ 13 (word-IsWord s₁ (i + 1) h₁.1)) h₁ in
    let s₃ = add_at (i + 3) (word s₂ i) s₂ in
    let h₃ : IsState s₃ = add_at-IsState s₂ (i + 3) _ h₂ in
    xor_at-IsState s₃ (i + 5) _ (rotl-IsWord _ 7 25 (word-IsWord s₃ i h₃.1)) h₃

absorb_salt_byte-IsState :
    (i byte : ℕ) (s : List ℕ) → IsState s → IsState (absorb_salt_byte i byte s)
unfolding absorb_salt_byte
absorb_salt_byte-IsState i byte s h =
    let s₁ = xor_at i (u32 (byte * 0x6C62272E)) s in
    let h₁ : IsState s₁ = xor_at-IsState s i _ (omega arith) h in
    let s₂ = add_at (i + 2) (word s₁ i) s₁ in
    let h₂ : IsState s₂ = add_at-IsState s₁ (i + 2) _ h₁ in
    xor_at-IsState s₂ (i + 4) _ (rotl-IsWord _ 11 21 (word-IsWord s₂ i h₂.1)) h₂

diffuse_word-IsState : (i : ℕ) (s : List ℕ) → IsState s → IsState (diffuse_word i s)
unfolding diffuse_word
diffuse_word-IsState i s h =
    let s₁ = add_at i (word s (i + 1)) s in
    let h₁ : IsState s₁ = add_at-IsState s i _ h in
    let s₂ = xor_at (i + 3) (rotl (word s₁ i) 5 27) s₁ in
    let h₂ : IsState s₂ =
      xor_at-IsState s₁ (i + 3) _ (rotl-IsWord _ 5 27 (word-IsWord s₁ i h₁.1)) h₁ in
    let s₃ = xor_at (i + 5) (u32 (word s₂ i * 0xBF58476D)) s₂ in
    let h₃ : IsState s₃ = xor_at-IsState s₂ (i + 5) _ (omega arith) h₂ in
    add_at-IsState s₃ (i + 7) _ h₃

absorb-IsState :
    (step : ℕ → ℕ → List ℕ → List ℕ)
    → ((i byte : ℕ) (s : List ℕ) → IsState s → IsState (step i byte s))
    → (i : ℕ) (bytes s : List ℕ) → IsState s
    → IsState (absorb step i bytes s)
unfolding absorb
absorb-IsState step keep i [] s h = h
absorb-IsState step keep i (b ∷ bs) s h =
    absorb-IsState step keep (i + 1) bs (step i b s) (keep i b s h)

diffuse_from-IsState : (n i : ℕ) (s : List ℕ) → IsState s → IsState (diffuse_from n i s)
unfolding diffuse_from
diffuse_from-IsState zero i s h = h
diffuse_from-IsState (suc n) i s h = diffuse_from-IsState n (i + 1) _ (diffuse_word-IsState i s h)

diffuse-IsState : (r : ℕ) (s : List ℕ) → IsState s → IsState (diffuse r s)
unfolding diffuse
diffuse-IsState zero s h = h
diffuse-IsState (suc r) s h = diffuse-IsState r _ (diffuse_from-IsState 8 0 s h)

initial-IsState : IsState initial_state
initial-IsState = omega arith

pub derive_state-IsState : (key : Option (List ℕ)) (salt : List ℕ) → IsState (derive_state key salt)
unfolding derive_state
derive_state-IsState key salt = diffuse-IsState 64 _ (
    absorb-IsState absorb_salt_byte absorb_salt_byte-IsState 0 salt _ (
      absorb-IsState absorb_key_byte absorb_key_byte-IsState 0 (key_or_empty key) _
        initial-IsState))

extract-IsByte : (ws : List ℕ) → All IsByte (extract ws)
unfolding extract
extract-IsByte [] = tt
extract-IsByte (w ∷ ws) =
    (byte w, (byte (w / 2 ^ 8), (byte (w / 2 ^ 16), (byte (w / 2 ^ 24), extract-IsByte ws))))
  where
    byte : (x : ℕ) → IsByte (bit_and x 255)
    byte x = omega (arith, bit_and-le x 255)

length-extract : (ws : List ℕ) → length (extract ws) ≡ 4 * length ws
unfolding extract
length-extract [] = refl
length-extract (w ∷ ws) = omega (arith, length-extract ws)

-- Whatever the key and the salt, the derivation gives 32 bytes.
pub derive_key-IsByte :
    (key : Option (List ℕ)) (salt : List ℕ)
    → (length (derive_key key salt) ≡ 32) × All IsByte (derive_key key salt)
unfolding derive_key
derive_key-IsByte key salt = (
  omega (arith, length-extract (derive_state key salt), derive_state-IsState key salt),
  extract-IsByte (derive_state key salt),
)

-- The four shifted bytes of a word, joined by `|`.
join_bytes :
    (w : ℕ)
    → IsWord w
    → bit_or
        (bit_or
          (bit_or (bit_and w 0xFF) (bit_and (w / 2 ^ 8) 0xFF * 2 ^ 8))
          (bit_and (w / 2 ^ 16) 0xFF * 2 ^ 16))
        (bit_and (w / 2 ^ 24) 0xFF * 2 ^ 24)
      ≡ w
join_bytes w h =
    rw
      (
        bit_and_byte w,
        bit_and_byte (w / 2 ^ 8),
        bit_and_byte (w / 2 ^ 16),
        bit_and_byte (w / 2 ^ 24),
        bit_or_above 8 (w / 2 ^ 8 % 256) (w % 256) (omega arith),
        bit_or_above 16 (w / 2 ^ 16 % 256) (w % 256 + w / 2 ^ 8 % 256 * 2 ^ 8) (omega arith),
        bit_or_above 24 (w / 2 ^ 24 % 256)
            (w % 256 + w / 2 ^ 8 % 256 * 2 ^ 8 + w / 2 ^ 16 % 256 * 2 ^ 16) (omega arith),
      )
      (omega arith)

-- The words of a state as the cipher names them.
abbrev pub cipher_state : List ℕ → CipherState
cipher_state s = record {
  s0 = get_or s 0 0;
  s1 = get_or s 1 0;
  s2 = get_or s 2 0;
  s3 = get_or s 3 0;
  s4 = get_or s 4 0;
  s5 = get_or s 5 0;
  s6 = get_or s 6 0;
  s7 = get_or s 7 0;
}

load_state-extract : (s : List ℕ) → IsState s → load_state (extract s) ≡ cipher_state s
unfolding load_state load_word extract
load_state-extract (a ∷ b ∷ c ∷ d ∷ e ∷ f ∷ g ∷ h ∷ []) (eq, ok) = λ i. record {
  s0 = join_bytes a ok.0 i;
  s1 = join_bytes b ok.1.0 i;
  s2 = join_bytes c ok.1.1.0 i;
  s3 = join_bytes d ok.1.1.1.0 i;
  s4 = join_bytes e ok.1.1.1.1.0 i;
  s5 = join_bytes f ok.1.1.1.1.1.0 i;
  s6 = join_bytes g ok.1.1.1.1.1.1.0 i;
  s7 = join_bytes h ok.1.1.1.1.1.1.1.0 i;
}
load_state-extract _ (eq, ok) = absurd (omega arith)

-- The bytes lose nothing: the cipher starts from the eight words that the derivation ended with.
pub load_state-derive_key :
    (key : Option (List ℕ)) (salt : List ℕ)
    → load_state (derive_key key salt) ≡ cipher_state (derive_state key salt)
unfolding derive_key
load_state-derive_key key salt =
    load_state-extract (derive_state key salt) (derive_state-IsState key salt)

load_word-IsWord : (key32 : List ℕ) (i : ℕ) → All IsByte key32 → IsWord (load_word key32 i)
unfolding load_word
load_word-IsWord key32 i h =
    bit_or-lt 32 _ _
      (bit_or-lt 32 _ _
        (bit_or-lt 32 _ _ (omega (arith, byte (i * 4))) (omega (arith, byte (i * 4 + 1))))
        (omega (arith, byte (i * 4 + 2))))
      (omega (arith, byte (i * 4 + 3)))
  where
    byte : (j : ℕ) → get_or key32 j 0 < 256
    byte j = All-get_or IsByte key32 j 0 (omega arith) h

absorb_from-IsWord :
    (i : ℕ) (bs : List ℕ) (m : MacState) → IsWord m.h1 → IsWord (absorb_from i bs m).h1
unfolding absorb_from absorb_byte
absorb_from-IsWord i [] m h = h
absorb_from-IsWord i (b ∷ bs) m h = absorb_from-IsWord (i + 1) bs (absorb_byte i b m) (omega arith)

finish-IsWord : (sz : ℕ) (key32 : List ℕ) (m : MacState) → IsWord m.h1 → IsWord (finish sz key32 m)
unfolding finish
finish-IsWord sz key32 m h = bit_xor-lt 32 _ _ (omega arith) (bit_xor-lt 32 _ _ h (omega arith))

-- The authentication code fits the four bytes in which a file stores it.
pub compute_mac-IsWord : (bs key32 : List ℕ) → All IsByte key32 → IsWord (compute_mac bs key32)
unfolding compute_mac
compute_mac-IsWord bs key32 h =
    finish-IsWord (length bs) key32 _
      (absorb_from-IsWord 0 bs _ (bit_xor-lt 32 _ _ (omega arith) (load_word-IsWord key32 1 h)))
