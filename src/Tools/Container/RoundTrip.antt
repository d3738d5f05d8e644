-- ===== src/Tools/Container/RoundTrip.antt =====
-- Decrypting what was encrypted, and recognising it.
use nova64_os.Base.{ℕ, ◌+◌, ◌≤◌, ◌<◌, ◌≡◌, refl, arith}
use nova64_os.Base.{List, [], ◌∷◌, ◌++◌, Bool, true, false, Option, none, some}
use nova64_os.Base.{take, drop, length, Bool-cases, inl, inr}
use nova64_os.Base.{◌⊎◌}
use nova64_os.Bits.Bytes.{le_bytes}
use nova64_os.Bits.Xor.{bit_xor-undo}
use nova64_os.Tools.Kdf.{derive_key}
use nova64_os.Tools.Cipher.{CipherState, cipher_from, stream_cipher, advance, keystream_byte}
use nova64_os.Tools.Cipher.{load_state}
use nova64_os.Tools.Mac.{compute_mac}
use nova64_os.Tools.Container.{encrypt, decrypt, decrypt_file, decrypt_body}
use nova64_os.Tools.Container.{crypt_ok, obfuscated_magic, is_encrypted, marker}
use nova64_os.Tools.Container.{store_size, stored_mac, stored_body}
use nova64_os.Tools.Container.Layout.{assembled, length-assembled, magic-assembled, salt-assembled}
use nova64_os.Tools.Container.Layout.{body-assembled, mac-assembled, marker-assembled}
use nova64_os.Tools.Container.Layout.{bytes_eq_refl, length-stream_cipher, length-magic}
use nova64_os.Tools.Container.Layout.{length-le_bytes}
use nova64_os.Tools.Container.KeySchedule.{compute_mac-IsWord, derive_key-IsByte}

cipher_from-undo : (bs : List ℕ) (s : CipherState) → cipher_from s (cipher_from s bs) ≡ bs
unfolding cipher_from
cipher_from-undo [] s = refl
cipher_from-undo (b ∷ bs) s =
    λ i. bit_xor-undo b (keystream_byte (advance s)) i ∷ cipher_from-undo bs (advance s) i

-- The stream cipher undoes itself under the same key, and keeps the number of bytes.
pub stream_cipher-undo :
    (bs key32 : List ℕ)
    → (stream_cipher (stream_cipher bs key32) key32 ≡ bs)
      × (length (stream_cipher bs key32) ≡ length bs)
unfolding stream_cipher
stream_cipher-undo bs key32 =
    (cipher_from-undo bs (load_state key32), length-stream_cipher bs key32)

-- The file that `stellar_encrypt` assembles.
abbrev pub sealed_file : List ℕ → List ℕ → Option (List ℕ) → List ℕ
sealed_file salt bytecode key =
    let key32 = derive_key key salt in
    assembled (obfuscated_magic key32) salt (stream_cipher bytecode key32)
      (le_bytes (compute_mac bytecode key32))

module _ (malloc_ok : ℕ → Bool) (salt bytecode : List ℕ) (key : Option (List ℕ)) where
  encrypt-no_copy : malloc_ok (length bytecode) ≡ false → encrypt malloc_ok salt bytecode key ≡ none
  unfolding encrypt
  encrypt-no_copy e = rw e

  encrypt-no_file :
      malloc_ok (20 + length bytecode) ≡ false → encrypt malloc_ok salt bytecode key ≡ none
  unfolding encrypt
  encrypt-no_file f = ground arith

  pub encrypt-sealed :
      malloc_ok (length bytecode) ≡ true
      → malloc_ok (20 + length bytecode) ≡ true
      → encrypt malloc_ok salt bytecode key ≡ some (sealed_file salt bytecode key)
  unfolding encrypt
  encrypt-sealed e f = ground arith

module _ (salt bytecode : List ℕ) (key : Option (List ℕ)) (eight : length salt ≡ 8) where
  abbrev key32 : List ℕ
  key32 = derive_key key salt

  abbrev body : List ℕ
  body = stream_cipher bytecode key32

  abbrev mac : ℕ
  mac = compute_mac bytecode key32

  pub length-sealed : length (sealed_file salt bytecode key) ≡ 20 + length bytecode
  length-sealed = omega (
    arith,
    length-assembled (obfuscated_magic key32) salt body (le_bytes mac) (length-magic key32) eight
        (length-le_bytes mac),
    length-stream_cipher bytecode key32,
  )

  sealed-recognised :
      (other : Option (List ℕ))
      → 0 < length bytecode
      → is_encrypted (some (sealed_file salt bytecode key)) other ≡ true
  unfolding is_encrypted
  sealed-recognised other pos = ground (
    arith,
    length-sealed,
    marker-assembled (obfuscated_magic key32) salt body (le_bytes mac) (length-magic key32) eight
        (length-le_bytes mac),
    bytes_eq_refl marker,
  )

-- The file `stellar_encrypt` returns, or null where one of its two allocations fails. The file is
-- 20 bytes longer than the bytecode, and is recognised whatever key is asked with.
pub encrypt_cases :
    (malloc_ok : ℕ → Bool) (salt bytecode : List ℕ) (key other : Option (List ℕ))
    → length salt ≡ 8
    → 0 < length bytecode
    → ((file : List ℕ) × (encrypt malloc_ok salt bytecode key ≡ some file)
        × (malloc_ok (length bytecode) ≡ true)
        × (malloc_ok (20 + length bytecode) ≡ true)
        × (length file ≡ 20 + length bytecode)
        × (is_encrypted (some file) other ≡ true))
      ⊎ ((encrypt malloc_ok salt bytecode key ≡ none)
          × ((malloc_ok (length bytecode) ≡ false) ⊎ (malloc_ok (20 + length bytecode) ≡ false)))
encrypt_cases malloc_ok salt bytecode key other eight pos =
    elim (Bool-cases (malloc_ok (length bytecode))) [
      | inr e ↦ inr (encrypt-no_copy malloc_ok salt bytecode key e, inl e)
      | inl e ↦ elim (Bool-cases (malloc_ok (20 + length bytecode))) [
        | inr f ↦ inr (encrypt-no_file malloc_ok salt bytecode key f, inr f)
        | inl f ↦ inl (
          sealed_file salt bytecode key,
          encrypt-sealed malloc_ok salt bytecode key e f,
          e,
          f,
          length-sealed salt bytecode key eight,
          sealed-recognised salt bytecode key eight other pos,
        )
      ]
    ]

module _ (file salt bytecode : List ℕ) (key : Option (List ℕ)) (out : List ℕ) (out_sz : Option ℕ)
    (size : length file ≡ 20 + length bytecode) (same_salt : take 8 (drop 4 file) ≡ salt)
    (same_magic : take 4 file ≡ obfuscated_magic (derive_key key salt))
    (same_body : stored_body file ≡ stream_cipher bytecode (derive_key key salt))
    (same_mac : stored_mac file ≡ compute_mac bytecode (derive_key key salt)) where
  decrypt_parts :
      0 < length bytecode
      → length bytecode ≤ 65536
      → length bytecode ≤ length out
      → decrypt_file file key out out_sz
        ≡ some (record {
          result = crypt_ok;
          out_buf = some (bytecode ++ drop (length bytecode) out);
          out_sz = store_size out_sz (length bytecode);
        })
  unfolding decrypt_file decrypt_body
  decrypt_parts pos small fits = ground (
    arith,
    same_salt,
    same_magic,
    same_body,
    same_mac,
    bytes_eq_refl (obfuscated_magic (derive_key key salt)),
    stream_cipher-undo bytecode (derive_key key salt),
  )

-- Decrypting with the key and the salt of the encryption gives the bytecode back: the result is
-- `STELLAR_CRYPT_OK`, the bytecode stands at the start of the output buffer with the rest of the
-- buffer unchanged, and `*out_sz` is its size. The bytecode has 1 to 65536 bytes, the buffer has
-- room for them, and both allocations succeed.
pub decrypt-encrypt :
    (malloc_ok : ℕ → Bool) (salt bytecode : List ℕ) (key : Option (List ℕ)) (out : List ℕ)
    (out_sz : Option ℕ)
    → length salt ≡ 8
    → 0 < length bytecode
    → length bytecode ≤ 65536
    → length bytecode ≤ length out
    → malloc_ok (length bytecode) ≡ true
    → malloc_ok (20 + length bytecode) ≡ true
    → (file : List ℕ) × (encrypt malloc_ok salt bytecode key ≡ some file)
      × (decrypt (some file) key (some out) out_sz
          ≡ some (record {
            result = crypt_ok;
            out_buf = some (bytecode ++ drop (length bytecode) out);
            out_sz = store_size out_sz (length bytecode);
          }))
unfolding decrypt
decrypt-encrypt malloc_ok salt bytecode key out out_sz eight pos small fits e f =
    let key32 = derive_key key salt in
    let magic = obfuscated_magic key32 in
    let body = stream_cipher bytecode key32 in
    let mac = compute_mac bytecode key32 in
    let four = length-magic key32 in
    let mac_four = length-le_bytes mac in
    (
      sealed_file salt bytecode key,
      encrypt-sealed malloc_ok salt bytecode key e f,
      decrypt_parts (sealed_file salt bytecode key) salt bytecode key out out_sz
          (length-sealed salt bytecode key eight)
          (salt-assembled magic salt body (le_bytes mac) four eight mac_four)
          (magic-assembled magic salt body (le_bytes mac) four eight mac_four)
          (body-assembled magic salt body (le_bytes mac) four eight mac_four)
          (mac-assembled magic salt body mac four eight
            (compute_mac-IsWord bytecode key32 (derive_key-IsByte key salt).1))
          pos small fits,
    )
