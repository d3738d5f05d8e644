-- ===== src/Stellar/Errors/Distance/Matrix.antt =====
-- The rows that `is_similar` fills in, and its verdict.
use nova64_os.Base.{
  ℕ, zero, suc, ◌+◌, ◌≤◌, ◌<◌, ◌≡◌, ◌↔◌, refl, arith, ap, ap₂, sym, ◌∙◌, true, ◌==◌, if◌then◌else◌,
  List, [], ◌∷◌, length, get_or,
}
use nova64_os.Stellar.Errors.{least, first_row, fill_row, last_row, is_similar}
use nova64_os.Stellar.Errors.Distance.{Edits, cost, dist, dist-Edits, dist_left, Edits-dist}

-- A row of the matrix, or the part of it from column `k` on.
abbrev IsRow : List ℕ → List ℕ → ℕ → ℕ → List ℕ → ℕ → Type 0
IsRow s t i k row n = (p : ℕ) → p < n → get_or row p 0 ≡ dist s t i (k + p)

first_row-IsRow : (s t : List ℕ) (n j : ℕ) → IsRow s t 0 j (first_row n j) (suc n)
unfolding first_row dist
first_row-IsRow s t zero j zero h = omega arith
first_row-IsRow s t zero j (suc p) h = absurd (omega arith)
first_row-IsRow s t (suc n) j zero h = omega arith
first_row-IsRow s t (suc n) j (suc p) h =
    first_row-IsRow s t n (j + 1) p (omega arith) ∙ omega arith

length-first_row : (n j : ℕ) → length (first_row n j) ≡ suc n
unfolding first_row
length-first_row zero j = refl
length-first_row (suc n) j = ap suc (length-first_row n (j + 1))

length-fill_row :
    (x : ℕ) (ys : List ℕ) (left : ℕ) (above : List ℕ)
    → length ys < length above
    → length (fill_row x ys left above) ≡ length ys
unfolding fill_row
length-fill_row x [] left above h = refl
length-fill_row x (y ∷ ys) left [] h = absurd (omega arith)
length-fill_row x (y ∷ ys) left (d ∷ above) h = ap suc (length-fill_row x ys _ above (omega arith))

-- The cell that the loop computes from its three neighbours.
cell-dist :
    (s t : List ℕ) (i k y up left d : ℕ)
    → y ≡ get_or t (k + 0) 0
    → d ≡ dist s t i (k + 0)
    → up ≡ dist s t i (k + 1)
    → left ≡ dist s t (suc i) k
    → least (up + 1) (left + 1) (d + (if get_or s i 0 == y then 0 else 1))
      ≡ dist s t (suc i) (suc k)
unfolding dist cost
cell-dist s t i k y up left d hy hd hup hleft =
    let char : y ≡ get_or t k 0 = hy ∙ ap (λ (j : ℕ). get_or t j 0) (omega arith) in
    let diagonal : d ≡ dist s t i k = hd ∙ ap (dist s t i) (omega arith) in
    let above : up ≡ dist s t i (suc k) = hup ∙ ap (dist s t i) (omega arith) in
    rw (char, diagonal, above, hleft) refl

fill_row-IsRow :
    (s t : List ℕ) (i k : ℕ) (ys : List ℕ) (left : ℕ) (above : List ℕ)
    → ((p : ℕ) → p < length ys → get_or ys p 0 ≡ get_or t (k + p) 0)
    → length ys < length above
    → IsRow s t i k above (suc (length ys))
    → left ≡ dist s t (suc i) k
    → IsRow s t (suc i) (suc k) (fill_row (get_or s i 0) ys left above) (length ys)
unfolding fill_row
fill_row-IsRow s t i k [] left above chars long row corner p h = absurd (omega arith)
fill_row-IsRow s t i k (y ∷ ys) left [] chars long row corner p h = absurd (omega arith)
fill_row-IsRow s t i k (y ∷ ys) left (d ∷ above) chars long row corner zero h =
    cell-dist s t i k y (get_or above 0 0) left d (chars 0 (omega arith)) (row 0 (omega arith))
      (row 1 (omega arith)) corner
    ∙ ap (dist s t (suc i)) (omega arith)
fill_row-IsRow s t i k (y ∷ ys) left (d ∷ above) chars long row corner (suc p) h =
    let cell =
      cell-dist s t i k y (get_or above 0 0) left d (chars 0 (omega arith)) (row 0 (omega arith))
        (row 1 (omega arith)) corner in
    fill_row-IsRow s t i (suc k) ys _ above
      (λ q lt. chars (suc q) (omega arith) ∙ ap (λ (j : ℕ). get_or t j 0) (omega arith))
      (omega arith) (λ q lt. row (suc q) (omega arith) ∙ ap (dist s t i) (omega arith)) cell p
      (omega arith)
    ∙ ap (dist s t (suc i)) (omega arith)

-- The row after `row`, with its first cell.
following-IsRow :
    (s t : List ℕ) (i n x : ℕ) (row : List ℕ)
    → n ≡ suc i
    → x ≡ get_or s i 0
    → length row ≡ suc (length t)
    → IsRow s t i 0 row (suc (length t))
    → IsRow s t (suc i) 0 (n ∷ fill_row x t n row) (suc (length t))
following-IsRow s t i n x row same char sized cells zero h =
    same ∙ sym (dist_left s t (suc i)) ∙ ap (dist s t (suc i)) (omega arith)
following-IsRow s t i n x row same char sized cells (suc p) h =
    ap (λ (y : ℕ). get_or (fill_row y t n row) p 0) char
    ∙ fill_row-IsRow s t i 0 t n row (λ q lt. ap (λ (j : ℕ). get_or t j 0) (omega arith))
        (omega (arith, sized)) cells (same ∙ sym (dist_left s t (suc i))) p (omega arith)
    ∙ ap (dist s t (suc i)) (omega arith)

last_row-IsRow :
    (s t xs : List ℕ) (i n : ℕ) (row : List ℕ)
    → n ≡ suc i
    → ((p : ℕ) → p < length xs → get_or xs p 0 ≡ get_or s (i + p) 0)
    → length row ≡ suc (length t)
    → IsRow s t i 0 row (suc (length t))
    → IsRow s t (i + length xs) 0 (last_row xs t n row) (suc (length t))
unfolding last_row
last_row-IsRow s t [] i n row same chars sized cells p h =
    cells p h ∙ ap (λ (j : ℕ). dist s t j (0 + p)) (omega arith)
last_row-IsRow s t (x ∷ xs) i n row same chars sized cells p h =
    let char : x ≡ get_or s i 0 =
      chars 0 (omega arith) ∙ ap (λ (j : ℕ). get_or s j 0) (omega arith) in
    last_row-IsRow s t xs (suc i) (n + 1) (n ∷ fill_row x t n row) (omega arith)
      (λ q lt. chars (suc q) (omega arith) ∙ ap (λ (j : ℕ). get_or s j 0) (omega arith))
      (ap suc (length-fill_row x t n row (omega (arith, sized))))
      (following-IsRow s t i n x row same char sized cells) p h
    ∙ ap (λ (j : ℕ). dist s t j (0 + p)) (omega arith)

-- The last cell of the matrix.
last_cell :
    (s t : List ℕ)
    → get_or (last_row s t 1 (first_row (length t) 0)) (length t) 0 ≡ dist s t (length s) (length t)
last_cell s t =
    last_row-IsRow s t s 0 1 (first_row (length t) 0) (omega arith)
      (λ p lt. ap (λ (j : ℕ). get_or s j 0) (omega arith)) (length-first_row (length t) 0)
      (first_row-IsRow s t (length t) 0) (length t) (omega arith)
    ∙ ap₂ (λ (i j : ℕ). dist s t i j) (omega arith) (omega arith)

-- `is_similar` says yes exactly for two names of at most 32 characters of which one becomes the other
-- by at most two edits, each of which replaces, removes or inserts a character.
pub is_similar_iff :
    (s t : List ℕ)
    → (is_similar s t ≡ true)
      ↔ ((length s ≤ 32) × (length t ≤ 32) × (n : ℕ) × (n ≤ 2) × Edits s t (length s) (length t) n)
unfolding is_similar
is_similar_iff s t = (
  (λ yes_similar. (
    ground arith,
    ground arith,
    dist s t (length s) (length t),
    ground (arith, last_cell s t),
    dist-Edits s t (length s) (length t),
  )),
  (λ (short_s, short_t, n, few, edits).
      let least_edits = Edits-dist s t (length s) (length t) n edits in
      ground (arith, last_cell s t)),
)
