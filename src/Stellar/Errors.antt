-- ===== src/Stellar/Errors.antt =====
-- `is_similar` of src/stellar/stellar_errors.c, and the place that `error_exit` prints.
pub mod Distance
pub mod Report
mod Tests
use nova64_os.Base.{ℕ, zero, suc, ◌+◌, Bool, false, ltb, leb, ◌==◌, ◌||◌}
use nova64_os.Base.{if◌then◌else◌, List, [], ◌∷◌, length, get_or}

-- `matrix[0][j] = j`, from `j`.
unfoldable pub first_row : ℕ → ℕ → List ℕ
first_row zero j = j ∷ []
first_row (suc n) j = j ∷ first_row n (j + 1)

abbrev pub least : ℕ → ℕ → ℕ → ℕ
least a b c = if ltb a b then (if ltb a c then a else c) else (if ltb b c then b else c)

-- The rest of a row of the matrix, right of the cell `left`, under the row `above` (which starts
-- over that cell); `x` is the character of the row.
unfoldable pub fill_row : ℕ → List ℕ → ℕ → List ℕ → List ℕ
fill_row x [] left above = []
fill_row x (y ∷ ys) left [] = []
fill_row x (y ∷ ys) left (diagonal ∷ above) =
    let cost = if x == y then 0 else 1 in
    let cell = least (get_or above 0 0 + 1) (left + 1) (diagonal + cost) in
    cell ∷ fill_row x ys cell above

-- The last row, from row `i` on.
unfoldable pub last_row : List ℕ → List ℕ → ℕ → List ℕ → List ℕ
unfolding fill_row
last_row [] s2 i row = row
last_row (x ∷ xs) s2 i row = last_row xs s2 (i + 1) (i ∷ fill_row x s2 i row)

unfoldable pub is_similar : List ℕ → List ℕ → Bool
unfolding first_row last_row
is_similar s1 s2 =
    if ltb 32 (length s1) || ltb 32 (length s2)
    then false
    else leb (get_or (last_row s1 s2 1 (first_row (length s2) 0)) (length s2) 0) 2
