-- ===== src/Drivers/Fat32.antt =====
-- `format_to_fat`, `stellar_name_check` and `fat32_find_file_cluster` of src/fs/fat32.c. The sector
-- that `read_sectors` gives is an argument, as its sixteen directory entries.
pub mod Names
pub mod Search
use nova64_os.Base.{
  ℕ, zero, suc, ◌+◌, ◌-◌, ◌*◌, ◌^◌, Bool, true, false, leb, ◌==◌, ◌&&◌, ◌||◌, bit_or,
}
use nova64_os.Base.{if◌then◌else◌, List, [], ◌∷◌, set, replicate, get_or}
use nova64_os.Bits.{◌<<<◌}

-- `if (c >= 'a' && c <= 'z') c -= 32`.
unfoldable pub to_upper : ℕ → ℕ
to_upper c = if leb 0x61 c && leb c 0x7A then c - 32 else c

-- The second loop: at most eight characters, up to a dot. What is left of the input, and the output.
unfoldable pub copy_base : List ℕ → ℕ → List ℕ → List ℕ × List ℕ
unfolding to_upper
copy_base [] j output = ([], output)
copy_base (c ∷ rest) j output =
    let copied = copy_base rest (j + 1) (set output j (to_upper c)) in
    if c == 0x2E || leb 8 j then (c ∷ rest, output) else copied

-- `while (input[i] != '\0' && input[i] != '.') i++`.
unfoldable pub skip_to_dot : List ℕ → List ℕ
skip_to_dot [] = []
skip_to_dot (c ∷ rest) = let later = skip_to_dot rest in if c == 0x2E then c ∷ rest else later

unfoldable pub copy_extension : List ℕ → ℕ → List ℕ → List ℕ
unfolding to_upper
copy_extension [] j output = output
copy_extension (c ∷ rest) j output =
    let copied = copy_extension rest (j + 1) (set output j (to_upper c)) in
    if leb 11 j then output else copied

abbrev pub after_dot : List ℕ → List ℕ → List ℕ
after_dot [] output = output
after_dot (dot ∷ extension) output = copy_extension extension 8 output

-- The first loop: `n` blanks from `i` on.
unfoldable pub fill_blanks : ℕ → ℕ → List ℕ → List ℕ
fill_blanks zero i output = output
fill_blanks (suc n) i output = fill_blanks n (i + 1) (set output i 0x20)

-- `output` is the memory from the pointer on; it may be longer than the eleven characters.
unfoldable pub format_to_fat : List ℕ → List ℕ → List ℕ
unfolding fill_blanks copy_base skip_to_dot copy_extension
format_to_fat input output =
    let (rest, named) = copy_base input 0 (fill_blanks 11 0 output) in
    after_dot (skip_to_dot rest) named

-- `stellar_name_check`, for the characters from `i` on with `n` left.
unfoldable pub same_from : ℕ → ℕ → List ℕ → List ℕ → Bool
same_from zero i s1 s2 = true
same_from (suc n) i s1 s2 = get_or s1 i 0 == get_or s2 i 0 && same_from n (i + 1) s1 s2

unfoldable pub stellar_name_check : List ℕ → List ℕ → Bool
unfolding same_from
stellar_name_check s1 s2 = same_from 11 0 s1 s2

pub record DirEntry : Type 0 where
  pub name : List ℕ
  pub cluster_high : ℕ
  pub cluster_low : ℕ

unfoldable pub cluster : DirEntry → ℕ
cluster e = bit_or (e.cluster_high <<< 16) e.cluster_low

-- The loop over the entries of the root directory, `n` rounds of it.
unfoldable pub find_entry : ℕ → List DirEntry → List ℕ → ℕ
unfolding stellar_name_check cluster
find_entry zero dir name = 0
find_entry (suc n) [] name = 0
find_entry (suc n) (e ∷ rest) name =
    let later = find_entry n rest name in
    if get_or e.name 0 0 == 0
    then 0
    else if stellar_name_check e.name name
    then cluster e
    else later

unfoldable pub fat32_find_file_cluster : List DirEntry → List ℕ → ℕ
unfolding find_entry
fat32_find_file_cluster root_dir name = find_entry 16 root_dir name
