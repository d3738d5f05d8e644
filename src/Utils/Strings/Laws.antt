-- ===== src/Utils/Strings/Laws.antt =====
-- A string buffer stays terminated, and holds what was appended.
use nova64_os.Base.{
  ℕ, zero, suc, ◌+◌, ◌≤◌, ◌<◌, ◌≡◌, ◌≢◌, refl, arith, ap, sym, ◌∙◌, false, ltb, ltb→lt, ◌==◌,
  ==_iff, Bool-cases, inl, inr,
}
use nova64_os.Base.{
  subst, if◌then◌else◌, List, [], ◌∷◌, ◌++◌, All, All-append, length, length-set, set, take, get_or,
  get_or-set_self,
}
use nova64_os.Utils.Strings.{String, strlen, string_append}

-- The text in the buffer.
abbrev pub text : String → List ℕ
text str = take str.length str.chars

-- A buffer of 256 characters whose text has no zero and is followed by one.
pub record IsString (str : String) : Type 0 where
  pub sized : length str.chars ≡ 256
  pub short : str.length ≤ 254
  pub ended : get_or str.chars str.length 1 ≡ 0
  pub filled : All (λ c. c ≢ 0) (text str)

pub take-set_end :
    (xs : List ℕ) (n v : ℕ) → n < length xs → take (suc n) (set xs n v) ≡ take n xs ++ (v ∷ [])
take-set_end [] n v h = absurd (omega arith)
take-set_end (x ∷ xs) zero v h = refl
take-set_end (x ∷ xs) (suc n) v h = ap (λ (ys : List ℕ). x ∷ ys) (take-set_end xs n v (omega arith))

pub take-set_past : (xs : List ℕ) (n m v : ℕ) → n ≤ m → take n (set xs m v) ≡ take n xs
take-set_past [] zero m v h = refl
take-set_past [] (suc n) m v h = refl
take-set_past (x ∷ xs) zero zero v h = refl
take-set_past (x ∷ xs) zero (suc m) v h = refl
take-set_past (x ∷ xs) (suc n) zero v h = absurd (omega arith)
take-set_past (x ∷ xs) (suc n) (suc m) v h =
    ap (λ (ys : List ℕ). x ∷ ys) (take-set_past xs n m v (omega arith))

pub nonzero : (c : ℕ) → c ≢ 0 → (c == 0) ≡ false
nonzero c ne = elim (Bool-cases (c == 0)) [
  | inl is ↦ absurd (ne ((==_iff c 0).0 is))
  | inr other ↦ other
]

-- The length that `strlen` finds is the one that the buffer keeps.
pub strlen-text :
    (xs : List ℕ) (n : ℕ) → All (λ c. c ≢ 0) (take n xs) → get_or xs n 1 ≡ 0 → strlen xs ≡ n
unfolding strlen
strlen-text [] zero h e = absurd (omega (arith, e))
strlen-text [] (suc n) h e = absurd (omega (arith, e))
strlen-text (x ∷ xs) zero h e = rw e refl
strlen-text (x ∷ xs) (suc n) (ne, h) e =
    rw (nonzero x ne) (ap (λ (k : ℕ). suc k) (strlen-text xs n h e))

-- From a terminated buffer of 256 characters, appending a character other than zero gives one whose
-- length is what `strlen` finds, and whose text is the old one with the character behind it, or the
-- old one where 254 characters stand already.
pub string_append_lem :
    (str : String) (c : ℕ)
    → IsString str
    → c ≢ 0
    → IsString (string_append str c)
      × (strlen (string_append str c).chars ≡ (string_append str c).length)
      × (text (string_append str c)
          ≡ (if ltb str.length 254 then text str ++ (c ∷ []) else text str))
unfolding string_append
string_append_lem str c ok ne = elim (Bool-cases (ltb str.length 254)) [
  | inl room ↦ rw room (appended (ltb→lt str.length 254 room))
  | inr full ↦ rw full (ok, strlen-text str.chars str.length ok.filled ok.ended, refl)
]
  where
    grown : String
    grown = record {
      chars = set (set str.chars str.length c) (str.length + 1) 0;
      length = str.length + 1;
    }

    one_more : str.length + 1 ≡ suc str.length
    one_more = omega arith

    appended :
        str.length < 254
        → IsString grown × (strlen grown.chars ≡ grown.length) × (text grown ≡ text str ++ (c ∷ []))
    appended room =
        let n = str.length in
        let one = set str.chars n c in
        let sized : length one ≡ 256 = length-set str.chars n c ∙ ok.sized in
        let held : text grown ≡ text str ++ (c ∷ []) =
          take-set_past one (n + 1) (n + 1) 0 (omega arith)
          ∙ ap (λ (k : ℕ). take k one) one_more
          ∙ take-set_end str.chars n c (omega (arith, ok.sized)) in
        let filled : All (λ c. c ≢ 0) (text grown) =
          subst (All (λ c. c ≢ 0)) (sym held)
            (All-append (λ c. c ≢ 0) (text str) (c ∷ []) ok.filled (ne, tt)) in
        let ended : get_or grown.chars (n + 1) 1 ≡ 0 =
          get_or-set_self one (n + 1) 0 1 (omega arith) in
        (
          record {
            sized = length-set one (n + 1) 0 ∙ sized;
            short = omega arith;
            ended = ended;
            filled = filled;
          },
          strlen-text grown.chars (n + 1) filled ended,
          held,
        )
