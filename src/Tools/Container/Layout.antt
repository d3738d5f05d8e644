-- ===== src/Tools/Container/Layout.antt =====
-- Where the parts of an encrypted file stand.
use nova64_os.Base.{ℕ, suc, ◌+◌, ◌-◌, ◌^◌, ◌<◌, ◌≡◌, refl, sym, ◌∙◌, ap, arith}
use nova64_os.Base.{List, [], ◌∷◌, ◌++◌, true}
use nova64_os.Base.{take, drop, length, length-append, drop-append, take-append}
use mathlib.Core.List.{append_assoc}
use nova64_os.Bits.Bytes.{le_bytes, le_value}
use nova64_os.Tools.Cipher.{CipherState, cipher_from, stream_cipher}
use nova64_os.Tools.Container.{obfuscated_magic, marker, header_overhead, bytes_eq}
use nova64_os.Tools.Container.{stored_salt, stored_body, stored_mac}

pub bytes_eq_refl : (bs : List ℕ) → bytes_eq bs bs ≡ true
unfolding bytes_eq
bytes_eq_refl [] = refl
bytes_eq_refl (b ∷ bs) = ground (arith, bytes_eq_refl bs)

pub bytes_eq_sound : (xs ys : List ℕ) → bytes_eq xs ys ≡ true → xs ≡ ys
unfolding bytes_eq
bytes_eq_sound [] [] h = refl
bytes_eq_sound [] (y ∷ ys) h = ground arith
bytes_eq_sound (x ∷ xs) [] h = ground arith
bytes_eq_sound (x ∷ xs) (y ∷ ys) h = ground (arith, bytes_eq_sound xs ys)

pub length-cipher_from : (bs : List ℕ) (s : CipherState) → length (cipher_from s bs) ≡ length bs
unfolding cipher_from
length-cipher_from [] s = refl
length-cipher_from (b ∷ bs) s = ap suc (length-cipher_from bs _)

pub length-stream_cipher : (bs key32 : List ℕ) → length (stream_cipher bs key32) ≡ length bs
unfolding stream_cipher
length-stream_cipher bs key32 = length-cipher_from bs _

pub length-le_bytes : (w : ℕ) → length (le_bytes w) ≡ 4
unfolding le_bytes
length-le_bytes w = refl

pub length-magic : (key32 : List ℕ) → length (obfuscated_magic key32) ≡ 4
unfolding obfuscated_magic
length-magic key32 = refl

-- A file in the order in which `stellar_encrypt` writes its parts.
abbrev pub assembled : List ℕ → List ℕ → List ℕ → List ℕ → List ℕ
assembled magic salt body mac = magic ++ (salt ++ (body ++ (mac ++ marker)))

module _ (magic salt body mac : List ℕ) (four : length magic ≡ 4) (eight : length salt ≡ 8)
    (mac_four : length mac ≡ 4) where
  pub length-assembled : length (assembled magic salt body mac) ≡ header_overhead + length body
  length-assembled = omega (
    arith,
    length-append magic (salt ++ (body ++ (mac ++ marker))),
    length-append salt (body ++ (mac ++ marker)),
    length-append body (mac ++ marker),
    length-append mac marker,
  )

  body_size : length (assembled magic salt body mac) - header_overhead ≡ length body
  body_size = omega (arith, length-assembled)

  pub magic-assembled : take 4 (assembled magic salt body mac) ≡ magic
  magic-assembled = take-append magic _ 4 four

  pub salt-assembled : stored_salt (assembled magic salt body mac) ≡ salt
  salt-assembled =
      rw (drop-append magic (salt ++ (body ++ (mac ++ marker))) 4 four) (take-append salt _ 8 eight)

  after_salt : drop 12 (assembled magic salt body mac) ≡ body ++ (mac ++ marker)
  after_salt =
      ap (drop 12) (sym (append_assoc magic salt (body ++ (mac ++ marker))))
      ∙ drop-append (magic ++ salt) _ 12 (omega (arith, length-append magic salt))

  pub body-assembled : stored_body (assembled magic salt body mac) ≡ body
  body-assembled = rw (after_salt, body_size) (take-append body _ (length body) refl)

  after_body : drop (12 + length body) (assembled magic salt body mac) ≡ mac ++ marker
  after_body =
      ap (drop (12 + length body)) regrouped
      ∙ drop-append (magic ++ (salt ++ body)) _ (12 + length body) front
    where
      regrouped : assembled magic salt body mac ≡ (magic ++ (salt ++ body)) ++ (mac ++ marker)
      regrouped = simp append_assoc

      front : length (magic ++ (salt ++ body)) ≡ 12 + length body
      front = omega (arith, length-append magic (salt ++ body), length-append salt body)

  pub marker-assembled :
      drop (length (assembled magic salt body mac) - 4) (assembled magic salt body mac) ≡ marker
  marker-assembled =
      ap (drop (length (assembled magic salt body mac) - 4)) regrouped
      ∙ drop-append (magic ++ (salt ++ (body ++ mac))) marker _ front
    where
      regrouped : assembled magic salt body mac ≡ (magic ++ (salt ++ (body ++ mac))) ++ marker
      regrouped = simp append_assoc

      front : length (magic ++ (salt ++ (body ++ mac))) ≡ length (assembled magic salt body mac) - 4
      front = omega (
        arith,
        length-assembled,
        length-append magic (salt ++ (body ++ mac)),
        length-append salt (body ++ mac),
        length-append body mac,
      )

module _ (magic salt body : List ℕ) (w : ℕ) (four : length magic ≡ 4)
    (eight : length salt ≡ 8) where
  pub mac-assembled : w < 2 ^ 32 → stored_mac (assembled magic salt body (le_bytes w)) ≡ w
  unfolding le_value le_bytes
  mac-assembled h =
      rw
        (
          body_size magic salt body (le_bytes w) four eight (length-le_bytes w),
          after_body magic salt body (le_bytes w) four eight (length-le_bytes w),
        )
        (omega arith)
