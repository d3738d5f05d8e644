-- ===== src/Tools/Container.antt =====
-- `stellar_encrypt`, `stellar_decrypt` and `stellar_is_encrypted` of src/tools/encrypt.c.
-- A buffer and its size are one list of bytes; a null pointer is `none`.
pub mod Layout
pub mod RoundTrip
pub mod Verdict
pub mod KeySchedule
mod Tests
use nova64_os.Base.{ℕ, zero, suc, ◌+◌, ◌-◌, bit_xor, Bool, true, false, ◌||◌, ◌&&◌, not}
use nova64_os.Base.{List, [], ◌∷◌, ◌++◌, Option, none, some, get_or, take, drop, length}
use nova64_os.Base.{ltb, leb, ◌==◌, if◌then◌else◌}
use nova64_os.Bits.Bytes.{le_bytes, le_value}
use nova64_os.Tools.Salt.{salt_size}
use nova64_os.Tools.Kdf.{derive_key}
use nova64_os.Tools.Cipher.{stream_cipher}
use nova64_os.Tools.Mac.{compute_mac}

abbrev pub marker_size : ℕ
marker_size = 4

abbrev pub header_overhead : ℕ
header_overhead = 4 + salt_size + 4 + marker_size

abbrev pub max_bytecode : ℕ
max_bytecode = 65536

abbrev pub marker : List ℕ
marker = 0xC1 ∷ 0x4B ∷ 0xA5 ∷ 0xED ∷ []

-- `MAGIC_RAW[i] ^ key32[i]` for the four bytes.
unfoldable pub obfuscated_magic : List ℕ → List ℕ
obfuscated_magic key32 =
    bit_xor 0x53 (get_or key32 0 0)
    ∷ bit_xor 0x54 (get_or key32 1 0)
    ∷ bit_xor 0x45 (get_or key32 2 0)
    ∷ bit_xor 0x4C (get_or key32 3 0)
    ∷ []

-- What is written to disk; `salt` is what `stellar_generate_salt` gave, and `malloc_ok n` says
-- whether an allocation of `n` bytes succeeds. `none` is the null result.
unfoldable pub encrypt : (ℕ → Bool) → List ℕ → List ℕ → Option (List ℕ) → Option (List ℕ)
encrypt malloc_ok salt bytecode key =
    let key32 = derive_key key salt in
    let mac = compute_mac bytecode key32 in
    let total = 4 + salt_size + length bytecode + 4 + marker_size in
    if not (malloc_ok (length bytecode))
    then none
    else if not (malloc_ok total)
    then none
    else some (
        obfuscated_magic key32
        ++ (salt ++ (stream_cipher bytecode key32 ++ (le_bytes mac ++ marker))))

pub data CryptResult : Type 0 where
  crypt_ok bad_key bad_mac corrupted : CryptResult

-- `memcmp(a, b, n) == 0` on two regions of the same size.
unfoldable pub bytes_eq : List ℕ → List ℕ → Bool
bytes_eq [] [] = true
bytes_eq [] (b ∷ bs) = false
bytes_eq (a ∷ as') [] = false
bytes_eq (a ∷ as') (b ∷ bs) = (a == b) && bytes_eq as' bs

-- The result code with what the output buffer and `*out_sz` hold afterwards.
pub record Decrypted : Type 0 where
  pub result : CryptResult
  pub out_buf : Option (List ℕ)
  pub out_sz : Option ℕ

abbrev pub stored_salt : List ℕ → List ℕ
stored_salt file = take salt_size (drop 4 file)

abbrev pub stored_body : List ℕ → List ℕ
stored_body file = take (length file - header_overhead) (drop (4 + salt_size) file)

abbrev pub stored_mac : List ℕ → ℕ
stored_mac file = le_value file (4 + salt_size + (length file - header_overhead))

-- `if (out_sz) *out_sz = v`.
abbrev pub store_size : Option ℕ → ℕ → Option ℕ
store_size none v = none
store_size (some old) v = some v

-- From the copy of the body on. An output buffer shorter than the body is overrun: `none`.
unfoldable pub decrypt_body : List ℕ → List ℕ → List ℕ → Option ℕ → Option Decrypted
decrypt_body file key32 out out_sz =
    let bc_sz = length file - header_overhead in
    let plain = stream_cipher (stored_body file) key32 in
    let written = plain ++ drop bc_sz out in
    if ltb (length out) bc_sz
    then none
    else if compute_mac plain key32 == stored_mac file
    then some
        (record { result = crypt_ok; out_buf = some written; out_sz = store_size out_sz bc_sz })
    else some (record { result = bad_mac; out_buf = some written; out_sz = out_sz })

abbrev pub rejected : CryptResult → Option (List ℕ) → Option ℕ → Option Decrypted
rejected code out out_sz = some (record { result = code; out_buf = out; out_sz = out_sz })

unfoldable pub decrypt_file : List ℕ → Option (List ℕ) → List ℕ → Option ℕ → Option Decrypted
unfolding decrypt_body bytes_eq obfuscated_magic
decrypt_file file key out out_sz =
    let bc_sz = length file - header_overhead in
    let key32 = derive_key key (stored_salt file) in
    if leb (length file) header_overhead
    then rejected corrupted (some out) out_sz
    else if not (bytes_eq (take 4 file) (obfuscated_magic key32))
    then rejected bad_key (some out) out_sz
    else if leb bc_sz 0 || ltb max_bytecode bc_sz
    then rejected corrupted (some out) out_sz
    else decrypt_body file key32 out out_sz

unfoldable pub decrypt :
    Option (List ℕ) → Option (List ℕ) → Option (List ℕ) → Option ℕ → Option Decrypted
unfolding decrypt_file
decrypt none key out out_sz = rejected corrupted out out_sz
decrypt (some file) key none out_sz = rejected corrupted none out_sz
decrypt (some file) key (some out) out_sz = decrypt_file file key out out_sz

-- The key is not looked at.
unfoldable pub is_encrypted : Option (List ℕ) → Option (List ℕ) → Bool
unfolding bytes_eq
is_encrypted none key = false
is_encrypted (some file) key =
    if leb (length file) header_overhead
    then false
    else bytes_eq (take marker_size (drop (length file - marker_size) file)) marker
