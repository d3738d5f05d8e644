-- ===== src/Stellar/Compiler/Scan.antt =====
-- How the compiler reads the source text: the tests of <ctype.h> in the C locale, the loops that
-- skip characters, and `match`.
use nova64_os.Base.{ℕ, suc, ◌+◌, Bool, true, false, not, leb, ◌==◌, ◌&&◌, ◌||◌}
use nova64_os.Base.{if◌then◌else◌, List, [], ◌∷◌, length, get_or, drop, take}

abbrev pub is_space : ℕ → Bool
is_space c = c == 0x20 || (leb 0x09 c && leb c 0x0D)

abbrev pub is_digit : ℕ → Bool
is_digit c = leb 0x30 c && leb c 0x39

abbrev pub is_alpha : ℕ → Bool
is_alpha c = (leb 0x41 c && leb c 0x5A) || (leb 0x61 c && leb c 0x7A)

abbrev pub is_alnum : ℕ → Bool
is_alnum c = is_alpha c || is_digit c

-- `isalnum(c) || c == '_'`, and `isdigit(c) || c == '.'`.
abbrev pub is_word_char : ℕ → Bool
is_word_char c = is_alnum c || c == 0x5F

abbrev pub is_number_char : ℕ → Bool
is_number_char c = is_digit c || c == 0x2E

-- How many characters at the head of a text pass a test.
unfoldable pub count_while : (ℕ → Bool) → List ℕ → ℕ
count_while p [] = 0
count_while p (c ∷ rest) = let n = count_while p rest in if p c then suc n else 0

-- Whether `word` stands at the head of a text.
unfoldable pub starts_with : List ℕ → List ℕ → Bool
starts_with [] text = true
starts_with (w ∷ ws) [] = false
starts_with (w ∷ ws) (c ∷ text) = (c == w) && starts_with ws text

module _ (source : List ℕ) where
  -- `source[i]`; the terminator stands at the end.
  abbrev pub char_at : ℕ → ℕ
  char_at i = get_or source i 0

  -- `while (isspace(source[i])) i++`.
  unfoldable pub skip_spaces : ℕ → ℕ
  unfolding count_while
  skip_spaces i = i + count_while is_space (drop i source)

  -- How many characters a name, a number or a run of other characters takes from `i` on.
  unfoldable pub run_length : (ℕ → Bool) → ℕ → ℕ
  unfolding count_while
  run_length p i = count_while p (drop i source)

  abbrev pub substring : ℕ → ℕ → List ℕ
  substring i n = take n (drop i source)

  -- The length of the word where it stands at `ptr` and no word character follows it, else 0.
  unfoldable pub match : ℕ → List ℕ → ℕ
  unfolding starts_with
  match ptr word =
      if starts_with word (drop ptr source) && not (is_word_char (char_at (ptr + length word)))
      then length word
      else 0
