-- ===== src/Tools/Container/Verdict.antt =====
-- What each result of `stellar_decrypt` says of the file and of the output buffer.
use nova64_os.Base.{ℕ, ◌+◌, ◌-◌, ◌*◌, ◌≤◌, ◌<◌, ◌≡◌, refl, ◌∙◌, ap, sym, arith}
use nova64_os.Base.{List, [], ◌∷◌, ◌++◌, true, Option, none, some}
use nova64_os.Base.{take, drop, length, length-drop, length-take, All, All-drop}
use nova64_os.Base.{take-append-drop, drop-drop, ◌⊎◌, ◌≢◌}
use nova64_os.Bits.Bytes.{le_bytes, le_value}
use nova64_os.Tools.Kdf.{derive_key}
use nova64_os.Tools.Cipher.{stream_cipher}
use nova64_os.Tools.Mac.{compute_mac}
use nova64_os.Tools.Container.{decrypt, decrypt_file, decrypt_body, Decrypted}
use nova64_os.Tools.Container.{crypt_ok, bad_key, bad_mac, corrupted, obfuscated_magic, bytes_eq}
use nova64_os.Tools.Container.{store_size, stored_mac, stored_body, stored_salt}
use nova64_os.Tools.Container.Layout.{bytes_eq_sound, length-stream_cipher}
use nova64_os.Tools.Container.KeySchedule.{IsByte}
use nova64_os.Tools.Container.RoundTrip.{stream_cipher-undo}

le_bytes_of :
    (a b c d : ℕ)
    → IsByte a
    → IsByte b
    → IsByte c
    → IsByte d
    → le_bytes (a + b * 256 + c * 65536 + d * 16777216) ≡ a ∷ b ∷ c ∷ d ∷ []
unfolding le_bytes
le_bytes_of a b c d ha hb hc hd = ground arith

four_bytes :
    (l : List ℕ)
    → length l ≡ 8
    → All IsByte l
    → (tail : List ℕ) × (length tail ≡ 4) × (l ≡ le_bytes (le_value l 0) ++ tail)
unfolding le_value
four_bytes (a ∷ b ∷ c ∷ d ∷ tail) eight (ha, (hb, (hc, (hd, _)))) =
    (tail, omega arith, ap (λ (bs : List ℕ). bs ++ tail) (sym (le_bytes_of a b c d ha hb hc hd)))
four_bytes _ eight bytes = absurd (omega arith)

-- A file of more than 20 bytes is the five parts, the last four bytes being `tail`.
split_file :
    (file : List ℕ)
    → 20 < length file
    → All IsByte file
    → (tail : List ℕ) × (length tail ≡ 4)
      × (file
          ≡ take 4 file
            ++ (stored_salt file ++ (stored_body file ++ (le_bytes (stored_mac file) ++ tail))))
unfolding le_value
split_file file big bytes =
    let n : ℕ = length file - 20 in
    let (tail, four, last) =
      four_bytes (drop (12 + n) file) (omega (arith, length-drop (12 + n) file))
        (All-drop IsByte (12 + n) file bytes) in
    let after_salt : drop 12 file ≡ take n (drop 12 file) ++ drop (12 + n) file =
      sym (take-append-drop n (drop 12 file))
      ∙ ap (λ (r : List ℕ). take n (drop 12 file) ++ r) (drop-drop 12 n (12 + n) file refl) in
    let after_magic : drop 4 file ≡ take 8 (drop 4 file) ++ drop 12 file =
      sym (take-append-drop 8 (drop 4 file))
      ∙ ap (λ (r : List ℕ). take 8 (drop 4 file) ++ r) (drop-drop 4 8 12 file refl) in
    (
      tail,
      four,
      sym (take-append-drop 4 file)
          ∙ ap (λ (r : List ℕ). take 4 file ++ r)
              (after_magic
                ∙ ap (λ (r : List ℕ). take 8 (drop 4 file) ++ r)
                    (after_salt ∙ ap (λ (r : List ℕ). take n (drop 12 file) ++ r) last)),
    )

-- The facts behind `STELLAR_CRYPT_OK`.
module _ (file : List ℕ) (key : Option (List ℕ)) (out : List ℕ) (out_sz : Option ℕ) {r : Decrypted}
    (returned : decrypt_file file key out out_sz ≡ some r) where
  accepted :
      r.result ≡ crypt_ok
      → (20 < length file)
        × (length file ≤ 20 + 65536)
        × (bytes_eq (take 4 file) (obfuscated_magic (derive_key key (stored_salt file))) ≡ true)
        × (compute_mac
              (stream_cipher (stored_body file) (derive_key key (stored_salt file)))
              (derive_key key (stored_salt file))
            ≡ stored_mac file)
        × (length file - 20 ≤ length out)
        × (r.out_buf
            ≡ some (
                stream_cipher (stored_body file) (derive_key key (stored_salt file))
                ++ drop (length file - 20) out))
        × (r.out_sz ≡ store_size out_sz (length file - 20))
  unfolding decrypt_file decrypt_body
  accepted ok = ground arith

  rejected_lem :
      (¬ (r.result ≡ crypt_ok) → r.out_sz ≡ out_sz)
      × ((r.result ≡ bad_key) ⊎ (r.result ≡ corrupted) → r.out_buf ≡ some out)
      × (r.result ≡ bad_mac
          → r.out_buf
            ≡ some (
                stream_cipher (stored_body file) (derive_key key (stored_salt file))
                ++ drop (length file - 20) out))
  unfolding decrypt_file decrypt_body
  rejected_lem = ground arith

defined :
    (file : List ℕ) (key : Option (List ℕ)) (out : List ℕ) (out_sz : Option ℕ)
    → length file ≤ 20 + length out
    → decrypt_file file key out out_sz ≢ none
unfolding decrypt_file decrypt_body
defined file key out out_sz fits = ground arith

returns :
    (file : List ℕ) (key : Option (List ℕ)) (out : List ℕ) (out_sz : Option ℕ)
    → length file ≤ 20 + length out
    → (r : Decrypted) × (decrypt_file file key out out_sz ≡ some r)
returns file key out out_sz fits =
    some_value (decrypt_file file key out out_sz) (defined file key out out_sz fits)
  where
    some_value : (o : Option Decrypted) → o ≢ none → (r : Decrypted) × (o ≡ some r)
    some_value none h = absurd (h refl)
    some_value (some r) h = (r, refl)

-- Where `stellar_decrypt` answers `STELLAR_CRYPT_OK`, the file is what `stellar_encrypt` makes of
-- some bytecode of 1 to 65536 bytes with the same key and the salt that the file holds, its last
-- four bytes excepted, which are not read. That bytecode is what the output buffer starts with,
-- the rest of the buffer is unchanged, and `*out_sz` is its size.
pub decrypt-ok :
    (file : List ℕ) (key : Option (List ℕ)) (out : List ℕ) (out_sz : Option ℕ) {r : Decrypted}
    → All IsByte file
    → decrypt (some file) key (some out) out_sz ≡ some r
    → r.result ≡ crypt_ok
    → (bytecode : List ℕ) × (tail : List ℕ) × (0 < length bytecode)
      × (length bytecode ≤ 65536)
      × (length tail ≡ 4)
      × (file
          ≡ obfuscated_magic (derive_key key (stored_salt file))
            ++ (stored_salt file
                ++ (stream_cipher bytecode (derive_key key (stored_salt file))
                    ++ (le_bytes (compute_mac bytecode (derive_key key (stored_salt file)))
                        ++ tail))))
      × (r.out_buf ≡ some (bytecode ++ drop (length bytecode) out))
      × (r.out_sz ≡ store_size out_sz (length bytecode))
unfolding decrypt
decrypt-ok file key out out_sz bytes returned ok =
    let key32 = derive_key key (stored_salt file) in
    let bytecode = stream_cipher (stored_body file) key32 in
    let (big, small, magic, mac, fits, written, size) = accepted file key out out_sz returned ok in
    let (tail, four, parts) = split_file file big bytes in
    let n : length bytecode ≡ length file - 20 = omega (
      arith,
      length-stream_cipher (stored_body file) key32,
      length-take (length file - 20) (drop 12 file),
      length-drop 12 file,
    ) in
    (
      bytecode,
      tail,
      omega arith,
      omega arith,
      four,
      parts ∙ (λ i.
          bytes_eq_sound (take 4 file) (obfuscated_magic key32) magic i
          ++ (stored_salt file
              ++ (sym (stream_cipher-undo (stored_body file) key32).0 i
                  ++ (le_bytes (sym mac i) ++ tail)))),
      written ∙ ap (λ (k : ℕ). some (bytecode ++ drop k out)) (sym n),
      size ∙ ap (store_size out_sz) (sym n),
    )

-- `stellar_decrypt` returns whenever the output buffer has room for the body. On every error
-- `*out_sz` is unchanged. A wrong key and a malformed file leave the buffer unchanged; a wrong
-- authentication code is found only after the deciphered body has been written to it.
pub decrypt-error :
    (file : List ℕ) (key : Option (List ℕ)) (out : List ℕ) (out_sz : Option ℕ)
    → length file ≤ 20 + length out
    → (r : Decrypted) × (decrypt (some file) key (some out) out_sz ≡ some r)
      × (¬ (r.result ≡ crypt_ok) → r.out_sz ≡ out_sz)
      × ((r.result ≡ bad_key) ⊎ (r.result ≡ corrupted) → r.out_buf ≡ some out)
      × (r.result ≡ bad_mac
          → r.out_buf
            ≡ some (
                stream_cipher (stored_body file) (derive_key key (stored_salt file))
                ++ drop (length file - 20) out))
unfolding decrypt
decrypt-error file key out out_sz fits =
    let (r, e) = returns file key out out_sz fits in
    let (size, buffer, leaked) = rejected_lem file key out out_sz e in (r, e, size, buffer, leaked)
