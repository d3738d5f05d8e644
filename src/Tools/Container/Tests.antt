-- ===== src/Tools/Container/Tests.antt =====
-- Runs of the container functions, and the theorems about them at concrete inputs.
use nova64_os.Base.{ℕ, ◌<◌, ◌≤◌, ◌≡◌, refl, Bool, true, false, arith, ◌⊎◌}
use nova64_os.Base.{List, [], ◌∷◌, ◌++◌, Option, none, some, length, take, drop, All}
use nova64_os.Bits.Bytes.{le_bytes, le_value}
use nova64_os.Tools.Kdf.{derive_key, derive_state}
use nova64_os.Tools.Cipher.{stream_cipher, load_state}
use nova64_os.Tools.Mac.{compute_mac}
use nova64_os.Tools.Salt.{generate_salt}
use nova64_os.Tools.Container.{encrypt, decrypt, is_encrypted, Decrypted, crypt_ok}
use nova64_os.Tools.Container.{bad_key, bad_mac, corrupted, obfuscated_magic, store_size}
use nova64_os.Tools.Container.{stored_salt, stored_body}
use nova64_os.Tools.Container.KeySchedule.{IsByte, cipher_state}
use nova64_os.Tools.Container.KeySchedule.{load_state-derive_key}
use nova64_os.Tools.Container.RoundTrip.{stream_cipher-undo, encrypt_cases, decrypt-encrypt}
use nova64_os.Tools.Container.Verdict.{decrypt-ok, decrypt-error}

abbrev halt_program : List ℕ
halt_program = 0x1A ∷ 0 ∷ 0 ∷ []

abbrev nova_key : Option (List ℕ)
nova_key = some (b'n' ∷ b'o' ∷ b'v' ∷ b'a' ∷ [])

abbrev test_salt : List ℕ
test_salt = 1 ∷ 2 ∷ 3 ∷ 4 ∷ 5 ∷ 6 ∷ 7 ∷ 250 ∷ []

abbrev room : List ℕ
room = 9 ∷ 9 ∷ 9 ∷ 9 ∷ []

abbrev enough : ℕ → Bool
enough n = true

-- `encrypt enough test_salt halt_program nova_key`, evaluated.
abbrev halt_file : List ℕ
halt_file =
    34 ∷ 206 ∷ 115 ∷ 43 ∷ 1 ∷ 2 ∷ 3 ∷ 4 ∷ 5 ∷ 6 ∷ 7 ∷ 250 ∷ 9 ∷ 20 ∷ 152 ∷ 36 ∷ 104 ∷ 251 ∷ 37 ∷ 193
    ∷ 75 ∷ 165 ∷ 237 ∷ []

encrypt_runs : encrypt enough test_salt halt_program nova_key ≡ some halt_file
unfolding encrypt obfuscated_magic derive_key stream_cipher compute_mac le_bytes
encrypt_runs = refl

-- A key that is wrong is told by the obfuscated magic.
wrong_key :
    decrypt (some halt_file) (some []) (some room) none
    ≡ some (record { result = bad_key; out_buf = some room; out_sz = none })
unfolding decrypt obfuscated_magic derive_key stream_cipher compute_mac
wrong_key = refl

-- A changed body byte is told by the authentication code, after the buffer has been written.
tampered :
    decrypt (some (take 12 halt_file ++ (8 ∷ drop 13 halt_file))) nova_key (some room) (some 7)
    ≡ some (record { result = bad_mac; out_buf = some (27 ∷ 0 ∷ 0 ∷ 9 ∷ []); out_sz = some 7 })
unfolding decrypt obfuscated_magic derive_key stream_cipher compute_mac le_value
tampered = refl

-- Without `/dev/urandom` the salt is drawn from the clock and an address.
fallback_salt : generate_salt none 1000 77 ≡ 244 ∷ 196 ∷ 164 ∷ 43 ∷ 57 ∷ 36 ∷ 120 ∷ 81 ∷ []
unfolding generate_salt
fallback_salt = refl

-- Nothing encrypted is nothing decrypted: the file of an empty program is refused.
empty_program :
    decrypt (encrypt enough test_salt [] nova_key) nova_key (some room) none
    ≡ some (record { result = corrupted; out_buf = some room; out_sz = none })
unfolding decrypt encrypt obfuscated_magic derive_key stream_cipher compute_mac le_bytes
empty_program = refl

stream_cipher-undo_example :
    (stream_cipher
        (stream_cipher halt_program (derive_key nova_key test_salt))
        (derive_key nova_key test_salt)
      ≡ halt_program)
    × (length (stream_cipher halt_program (derive_key nova_key test_salt)) ≡ 3)
stream_cipher-undo_example = stream_cipher-undo halt_program (derive_key nova_key test_salt)

load_state-derive_key_example :
    load_state (derive_key nova_key test_salt) ≡ cipher_state (derive_state nova_key test_salt)
load_state-derive_key_example = load_state-derive_key nova_key test_salt

encrypt_cases_example :
    ((file : List ℕ) × (encrypt enough test_salt halt_program nova_key ≡ some file)
      × (enough 3 ≡ true)
      × (enough 23 ≡ true)
      × (length file ≡ 23)
      × (is_encrypted (some file) none ≡ true))
    ⊎ ((encrypt enough test_salt halt_program nova_key ≡ none)
        × ((enough 3 ≡ false) ⊎ (enough 23 ≡ false)))
encrypt_cases_example = encrypt_cases enough test_salt halt_program nova_key none refl (omega arith)

decrypt-encrypt_example :
    (file : List ℕ) × (encrypt enough test_salt halt_program nova_key ≡ some file)
    × (decrypt (some file) nova_key (some room) (some 0)
        ≡ some
            (record { result = crypt_ok; out_buf = some (0x1A ∷ 0 ∷ 0 ∷ 9 ∷ []); out_sz = some 3 }))
decrypt-encrypt_example =
    decrypt-encrypt enough test_salt halt_program nova_key room (some 0) refl (omega arith)
      (omega arith) (omega arith) refl refl

halt_file-IsByte : All IsByte halt_file
halt_file-IsByte = omega arith

halt_file_decrypts :
    decrypt (some halt_file) nova_key (some room) (some 0)
    ≡ some (record { result = crypt_ok; out_buf = some (0x1A ∷ 0 ∷ 0 ∷ 9 ∷ []); out_sz = some 3 })
unfolding decrypt obfuscated_magic derive_key stream_cipher compute_mac le_value
halt_file_decrypts = refl

decrypt-ok_example :
    (bytecode : List ℕ) × (tail : List ℕ) × (0 < length bytecode)
    × (length bytecode ≤ 65536)
    × (length tail ≡ 4)
    × (halt_file
        ≡ obfuscated_magic (derive_key nova_key (stored_salt halt_file))
          ++ (stored_salt halt_file
              ++ (stream_cipher bytecode (derive_key nova_key (stored_salt halt_file))
                  ++ (le_bytes (compute_mac bytecode (derive_key nova_key (stored_salt halt_file)))
                      ++ tail))))
    × (some (0x1A ∷ 0 ∷ 0 ∷ 9 ∷ []) ≡ some (bytecode ++ drop (length bytecode) room))
    × (some 3 ≡ store_size (some 0) (length bytecode))
decrypt-ok_example =
    decrypt-ok halt_file nova_key room (some 0) halt_file-IsByte halt_file_decrypts refl

decrypt-error_example :
    (r : Decrypted) × (decrypt (some halt_file) (some []) (some room) none ≡ some r)
    × (¬ (r.result ≡ crypt_ok) → r.out_sz ≡ none)
    × ((r.result ≡ bad_key) ⊎ (r.result ≡ corrupted) → r.out_buf ≡ some room)
    × (r.result ≡ bad_mac
        → r.out_buf
          ≡ some (
              stream_cipher (stored_body halt_file) (derive_key (some []) (stored_salt halt_file))
              ++ drop 3 room))
decrypt-error_example = decrypt-error halt_file (some []) room none (omega arith)
