-- ===== src/Utils/Strings/Compare.antt =====
-- What the comparisons decide: whether the texts before the terminators are the same.
use nova64_os.Base.{
  ℕ, zero, suc, ◌≡◌, ◌↔◌, refl, arith, true, ◌==◌, if◌then◌else◌, List, [], ◌∷◌, take,
}
use nova64_os.Base.Int.{sub_ℕ, is_zero}
use nova64_os.Utils.Strings.{strcmp, strncmp}

-- The text before the terminator.
abbrev pub c_text : List ℕ → List ℕ
c_text [] = []
c_text (c ∷ s) = if c == 0 then [] else c ∷ c_text s

sub_zero : (a b : ℕ) → is_zero (sub_ℕ a b) ≡ true → a ≡ b
sub_zero a b h = ground arith

strcmp_same : (s t : List ℕ) → is_zero (strcmp s t) ≡ true → c_text s ≡ c_text t
unfolding strcmp
strcmp_same [] [] h = refl
strcmp_same [] (d ∷ t) h = ground arith
strcmp_same (c ∷ s) [] h = ground arith
strcmp_same (c ∷ s) (d ∷ t) h = ground (arith, strcmp_same s t)

same_strcmp : (s t : List ℕ) → c_text s ≡ c_text t → is_zero (strcmp s t) ≡ true
unfolding strcmp
same_strcmp [] [] h = refl
same_strcmp [] (d ∷ t) h = ground arith
same_strcmp (c ∷ s) [] h = ground arith
same_strcmp (c ∷ s) (d ∷ t) h = ground (arith, same_strcmp s t)

strncmp_same :
    (s t : List ℕ) (n : ℕ) → is_zero (strncmp s t n) ≡ true → take n (c_text s) ≡ take n (c_text t)
unfolding strncmp
strncmp_same s t zero h = refl
strncmp_same [] [] (suc n) h = refl
strncmp_same [] (d ∷ t) (suc n) h = ground arith
strncmp_same (c ∷ s) [] (suc n) h = ground arith
strncmp_same (c ∷ s) (d ∷ t) (suc n) h = ground (arith, strncmp_same s t n)

same_strncmp :
    (s t : List ℕ) (n : ℕ) → take n (c_text s) ≡ take n (c_text t) → is_zero (strncmp s t n) ≡ true
unfolding strncmp
same_strncmp s t zero h = refl
same_strncmp [] [] (suc n) h = refl
same_strncmp [] (d ∷ t) (suc n) h = ground arith
same_strncmp (c ∷ s) [] (suc n) h = ground arith
same_strncmp (c ∷ s) (d ∷ t) (suc n) h = ground (arith, same_strncmp s t n)

-- `strcmp` gives 0 exactly for two texts that are the same up to their terminators, and `strncmp`
-- exactly for two that are the same there in their first `n` characters.
pub strcmp_iff :
    (s t : List ℕ) (n : ℕ)
    → ((is_zero (strcmp s t) ≡ true) ↔ (c_text s ≡ c_text t))
      × ((is_zero (strncmp s t n) ≡ true) ↔ (take n (c_text s) ≡ take n (c_text t)))
strcmp_iff s t n = ((strcmp_same s t, same_strcmp s t), (strncmp_same s t n, same_strncmp s t n))
