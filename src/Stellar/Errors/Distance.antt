-- ===== src/Stellar/Errors/Distance.antt =====
-- What `is_similar` measures: the fewest edits between two names.
pub mod Matrix
use nova64_os.Base.{
  ℕ, zero, suc, ◌+◌, ◌≤◌, ◌<◌, ◌≡◌, ◌↔◌, refl, arith, ap, ap₂, sym, ◌∙◌, subst, if_both, true, ltb,
  ◌==◌, ==_iff, if◌then◌else◌, List, [], ◌∷◌, length, get_or, Bool-cases, inl, inr,
}
use nova64_os.Stellar.Errors.{least, first_row, fill_row, last_row, is_similar}

-- The first `i` characters of `s` become the first `j` of `t` by `n` edits: a character is kept,
-- replaced, removed or inserted.
pub data Edits (s t : List ℕ) : ℕ → ℕ → ℕ → Type 0 where
  start : Edits s t 0 0 0
  keep : {i j n : ℕ} → get_or s i 0 ≡ get_or t j 0 → Edits s t i j n → Edits s t (suc i) (suc j) n
  replace : {i j n : ℕ} → Edits s t i j n → Edits s t (suc i) (suc j) (suc n)
  remove : {i j n : ℕ} → Edits s t i j n → Edits s t (suc i) j (suc n)
  insert : {i j n : ℕ} → Edits s t i j n → Edits s t i (suc j) (suc n)

-- The cell of the matrix.
unfoldable pub cost : ℕ → ℕ → ℕ
cost x y = if x == y then 0 else 1

unfoldable pub dist : List ℕ → List ℕ → ℕ → ℕ → ℕ
unfolding cost
dist s t zero j = j
dist s t (suc i) zero = suc i
dist s t (suc i) (suc j) =
    least (dist s t i (suc j) + 1) (dist s t (suc i) j + 1)
      (dist s t i j + cost (get_or s i 0) (get_or t j 0))

inserts : (s t : List ℕ) (j : ℕ) → Edits s t 0 j j
inserts s t zero = start
inserts s t (suc j) = insert (inserts s t j)

removes : (s t : List ℕ) (i : ℕ) → Edits s t i 0 i
removes s t zero = start
removes s t (suc i) = remove (removes s t i)

-- With as many edits, counted another way.
counted : {s t : List ℕ} {i j n k : ℕ} → n ≡ k → Edits s t i j n → Edits s t i j k
counted {s} {t} {i} {j} e h = subst (Edits s t i j) e h

-- The least of three is one of them.
least-cases : (P : ℕ → Type 0) (a b c : ℕ) → P a → P b → P c → P (least a b c)
least-cases P a b c ha hb hc =
    if_both P (ltb a b) (λ h. if_both P (ltb a c) (λ k. ha) (λ k. hc))
      (λ h. if_both P (ltb b c) (λ k. hb) (λ k. hc))

aligned :
    (s t : List ℕ) (i j n : ℕ)
    → Edits s t i j n
    → Edits s t (suc i) (suc j) (n + cost (get_or s i 0) (get_or t j 0))
unfolding cost
aligned s t i j n e = elim (Bool-cases (get_or s i 0 == get_or t j 0)) [
  | inl same ↦ rw same (counted (omega arith) (keep ((==_iff _ _).0 same) e))
  | inr other ↦ rw other (counted (omega arith) (replace e))
]

-- The cell is reached by edits.
pub dist-Edits : (s t : List ℕ) (i j : ℕ) → Edits s t i j (dist s t i j)
unfolding dist
dist-Edits s t zero j = inserts s t j
dist-Edits s t (suc i) zero = removes s t (suc i)
dist-Edits s t (suc i) (suc j) =
    least-cases (Edits s t (suc i) (suc j)) (dist s t i (suc j) + 1) (dist s t (suc i) j + 1)
      (dist s t i j + cost (get_or s i 0) (get_or t j 0))
      (counted (omega arith) (remove (dist-Edits s t i (suc j))))
      (counted (omega arith) (insert (dist-Edits s t (suc i) j)))
      (aligned s t i j (dist s t i j) (dist-Edits s t i j))

pub dist_left : (s t : List ℕ) (i : ℕ) → dist s t i 0 ≡ i
unfolding dist
dist_left s t zero = refl
dist_left s t (suc i) = refl

-- No edits are fewer.
pub Edits-dist : (s t : List ℕ) (i j n : ℕ) → Edits s t i j n → dist s t i j ≤ n
unfolding dist cost
Edits-dist s t _ _ _ start = omega arith
Edits-dist s t _ _ _ (keep {i = i} {j = j} {n = n} same e) =
    let ih = Edits-dist s t i j n e in ground (arith, same)
Edits-dist s t _ _ _ (replace {i = i} {j = j} {n = n} e) =
    let ih = Edits-dist s t i j n e in ground arith
Edits-dist s t _ _ _ (remove {i = i} {j = zero} {n = n} e) =
    let ih = Edits-dist s t i 0 n e in omega (arith, dist_left s t i)
Edits-dist s t _ _ _ (remove {i = i} {j = suc j} {n = n} e) =
    let ih = Edits-dist s t i (suc j) n e in ground arith
Edits-dist s t _ _ _ (insert {i = zero} {j = j} {n = n} e) =
    let ih = Edits-dist s t 0 j n e in omega arith
Edits-dist s t _ _ _ (insert {i = suc i} {j = j} {n = n} e) =
    let ih = Edits-dist s t (suc i) j n e in ground arith
