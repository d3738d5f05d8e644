-- ===== src/Utils/Strings.antt =====
-- src/utils/string.c: texts that end in a zero, and `String`, a buffer of 256 characters with the
-- length of the text in it. A character is a number below 128, and a list stands for the memory from
-- an address on, with zeros behind its end.
pub mod Laws
pub mod Compare
pub mod Atof
pub mod Copy
mod Tests
use nova64_os.Base.Int.{ℤ, pos, sub_ℕ}
use nova64_os.Base.{
  ◌&&◌, not, ℕ, zero, suc, ◌+◌, Bool, true, false, ltb, ◌==◌, if◌then◌else◌, List, [], ◌∷◌, set,
}

pub record String : Type 0 where
  pub chars : List ℕ
  pub length : ℕ

-- `while (s[i] != '\0') i++`.
unfoldable pub strlen : List ℕ → ℕ
strlen [] = 0
strlen (c ∷ rest) = let n = strlen rest in if c == 0 then 0 else suc n

unfoldable pub string_append : String → ℕ → String
string_append str c =
    if ltb str.length 254
    then record {
      chars = set (set str.chars str.length c) (str.length + 1) 0;
      length = str.length + 1;
    }
    else str

unfoldable pub string_clear : String → String
string_clear str = record { chars = set str.chars 0 0; length = 0 }

unfoldable pub strcmp : List ℕ → List ℕ → ℤ
strcmp [] [] = pos 0
strcmp [] (d ∷ s2) = sub_ℕ 0 d
strcmp (c ∷ s1) [] = sub_ℕ c 0
strcmp (c ∷ s1) (d ∷ s2) =
    let rest = strcmp s1 s2 in if c == d then (if c == 0 then pos 0 else rest) else sub_ℕ c d

unfoldable pub strncmp : List ℕ → List ℕ → ℕ → ℤ
strncmp s1 s2 zero = pos 0
strncmp [] [] (suc n) = pos 0
strncmp [] (d ∷ s2) (suc n) = sub_ℕ 0 d
strncmp (c ∷ s1) [] (suc n) = sub_ℕ c 0
strncmp (c ∷ s1) (d ∷ s2) (suc n) =
    let rest = strncmp s1 s2 n in if not (c == 0) && c == d then rest else sub_ℕ c d

-- `dest[i] = src[i]` from `i` on, with the terminator.
unfoldable pub copy_from : List ℕ → List ℕ → ℕ → List ℕ
copy_from dest [] i = set dest i 0
copy_from dest (c ∷ src) i =
    let rest = copy_from (set dest i c) src (i + 1) in if c == 0 then set dest i 0 else rest

unfoldable pub strcpy : List ℕ → List ℕ → List ℕ
unfolding copy_from
strcpy dest src = copy_from dest src 0

-- `memory` is what the 256 characters of the new buffer hold before.
unfoldable pub string_create : List ℕ → List ℕ → String
unfolding strcpy strlen
string_create memory s = record { chars = strcpy memory s; length = strlen s }
