-- ===== src/Utils/Strings/Copy.antt =====
-- A buffer that a text was copied into, emptied, or shortened.
use nova64_os.Base.{
  ℕ, zero, suc, ◌+◌, ◌≤◌, ◌<◌, ◌≡◌, ◌≢◌, refl, arith, ap, sym, ◌∙◌, ◌==◌, Bool-cases, inl, inr,
  subst, List, [], ◌∷◌, ◌++◌, All, length, length-set, set, take, get_or, get_or-set_self,
}
use mathlib.Core.List.{append_assoc, append-nil}
use nova64_os.Utils.Strings.{String, strlen, string_clear, copy_from, strcpy}
use nova64_os.Utils.Strings.Compare.{c_text}
use nova64_os.Utils.Strings.Laws.{text, IsString, take-set_end, take-set_past, nonzero}

length-copy_from : (src dest : List ℕ) (i : ℕ) → length (copy_from dest src i) ≡ length dest
unfolding copy_from
length-copy_from [] dest i = length-set dest i 0
length-copy_from (c ∷ src) dest i = elim (Bool-cases (c == 0)) [
  | inl end ↦ rw end (length-set dest i 0)
  | inr more ↦ rw more (length-copy_from src (set dest i c) (i + 1) ∙ length-set dest i c)
]

pub All-c_text : (s : List ℕ) → All (λ c. c ≢ 0) (c_text s)
All-c_text [] = tt
All-c_text (c ∷ s) = elim (Bool-cases (c == 0)) [
  | inl end ↦ rw end tt
  | inr more ↦ rw more ((λ e. absurd (ground arith)), All-c_text s)
]

-- A terminator stands at `i`, and what stands before it stays.
ended_at :
    (dest : List ℕ) (i : ℕ)
    → i < length dest
    → (take (i + 0) (set dest i 0) ≡ take i dest ++ []) × (get_or (set dest i 0) (i + 0) 1 ≡ 0)
ended_at dest i room = (
  ap (λ (k : ℕ). take k (set dest i 0)) (omega arith)
      ∙ take-set_past dest i i 0 (omega arith)
      ∙ sym (append-nil (take i dest)),
  ap (λ (k : ℕ). get_or (set dest i 0) k 1) (omega arith) ∙ get_or-set_self dest i 0 1 room,
)

copy_from_lem :
    (src dest : List ℕ) (i : ℕ)
    → i + strlen src < length dest
    → (take (i + strlen src) (copy_from dest src i) ≡ take i dest ++ c_text src)
      × (get_or (copy_from dest src i) (i + strlen src) 1 ≡ 0)
unfolding copy_from strlen
copy_from_lem [] dest i room = ended_at dest i (omega arith)
copy_from_lem (c ∷ src) dest i room = elim (Bool-cases (c == 0)) [
  | inl end ↦ rw end (ended_at dest i (ground arith))
  | inr more ↦
      let (held, ended) =
        copy_from_lem src (set dest i c) (i + 1) (ground (arith, length-set dest i c)) in
      let grown : take (i + 1) (set dest i c) ≡ take i dest ++ (c ∷ []) =
        ap (λ (k : ℕ). take k (set dest i c)) (one_more i) ∙ take-set_end dest i c (omega arith) in
      rw more (
        ap (λ (k : ℕ). take k (copy_from (set dest i c) src (i + 1))) (shift i (strlen src))
            ∙ held
            ∙ ap (λ (l : List ℕ). l ++ c_text src) grown
            ∙ append_assoc (take i dest) (c ∷ []) (c_text src),
        ap (λ (k : ℕ). get_or (copy_from (set dest i c) src (i + 1)) k 1) (shift i (strlen src))
            ∙ ended,
      )
]
  where
    one_more : (i : ℕ) → i + 1 ≡ suc i
    one_more i = omega arith

    shift : (i n : ℕ) → i + suc n ≡ i + 1 + n
    shift i n = omega arith

-- A text of at most 254 characters that is copied into a buffer of 256 stands there as the buffer's
-- text, ended by a zero, when the buffer's length is set to what `strlen` finds.
pub strcpy_lem :
    (s : List ℕ) (str : String)
    → length str.chars ≡ 256
    → strlen s ≤ 254
    → IsString (record { chars = strcpy str.chars s; length = strlen s })
      × (text (record { chars = strcpy str.chars s; length = strlen s }) ≡ c_text s)
unfolding strcpy
strcpy_lem s str sized short =
    let (held, ended) = copy_from_lem s str.chars 0 (omega arith) in
    let held' : take (strlen s) (copy_from str.chars s 0) ≡ c_text s =
      ap (λ (k : ℕ). take k (copy_from str.chars s 0)) (omega arith) ∙ held in
    (
      record {
        sized = length-copy_from s str.chars 0 ∙ sized;
        short = short;
        ended = ap (λ (k : ℕ). get_or (copy_from str.chars s 0) k 1) (omega arith) ∙ ended;
        filled = subst (All (λ c. c ≢ 0)) (sym held') (All-c_text s);
      },
      held',
    )

pub string_clear-IsString :
    (str : String)
    → length str.chars ≡ 256
    → IsString (string_clear str) × (text (string_clear str) ≡ [])
unfolding string_clear
string_clear-IsString str sized = (
  record {
    sized = length-set str.chars 0 0 ∙ sized;
    short = omega arith;
    ended = get_or-set_self str.chars 0 0 1 (omega arith);
    filled = tt;
  },
  refl,
)

-- The characters of a terminated buffer, as the comparisons read them, are its text.
pub c_text-text :
    (xs : List ℕ) (n : ℕ) → All (λ c. c ≢ 0) (take n xs) → get_or xs n 1 ≡ 0 → c_text xs ≡ take n xs
c_text-text [] zero h e = refl
c_text-text [] (suc n) h e = refl
c_text-text (x ∷ xs) zero h e = rw e refl
c_text-text (x ∷ xs) (suc n) (ne, h) e =
    rw (nonzero x ne) (ap (λ (l : List ℕ). x ∷ l) (c_text-text xs n h e))
