-- ===== src/Memory/Pmm/Bitmap.antt =====
-- The bitmap as a set of pages: what marking a page does to the test of every page.
use nova64_os.Base.{ℕ, zero, suc, ◌+◌, ◌/◌, ◌%◌, ◌^◌, ◌≤◌, ◌<◌, ◌≡◌, refl, arith}
use Prim.Native.Nat.{bit_and-bitwise}
use nova64_os.Base.{bit_and, bit_or, Bool, true, false, not, ◌&&◌, ◌==◌, ltb}
use nova64_os.Base.{List, get_or, length, get_or-set_self, get_or-set_ne}
use nova64_os.Base.{All, All-get_or, All-set, length-set, if◌then◌else◌, replicate}
use nova64_os.Memory.Pmm.{is_used, mark_used}

-- A test that holds at every number below a bound holds at each.
all_below : ℕ → (ℕ → Bool) → Bool
all_below zero test = true
all_below (suc n) test = test n && all_below n test

all_below_sound :
    (n : ℕ) (test : ℕ → Bool) (x : ℕ) → all_below n test ≡ true → x < n → test x ≡ true
unfolding all_below
all_below_sound zero test x h lt = absurd (omega arith)
all_below_sound (suc n) test x h lt = ground (arith, all_below_sound n test x)

abbrev bit_set : ℕ → ℕ → Bool
bit_set b k = not (bit_and b (2 ^ k) == 0)

abbrev same : Bool → Bool → Bool
same true b = b
same false b = not b

same_sound : (a b : Bool) → same a b ≡ true → a ≡ b
same_sound true b h = ground arith
same_sound false b h = ground arith

-- Setting bit `k` of a byte, tested at bit `j`.
abbrev byte_law : ℕ → ℕ → ℕ → Bool
byte_law b k j = same (bit_set (bit_or b (2 ^ k) % 256) j) (if k == j then true else bit_set b j)

byte_table : all_below 256 (λ b. all_below 8 (λ k. all_below 8 (λ j. byte_law b k j))) ≡ true
unfolding all_below
byte_table = refl

byte_lem :
    (b k j : ℕ)
    → b < 256
    → k < 8
    → j < 8
    → bit_set (bit_or b (2 ^ k) % 256) j ≡ (if k == j then true else bit_set b j)
byte_lem b k j hb hk hj = same_sound _ _ (
    all_below_sound 8 (byte_law b k) j
      (all_below_sound 8 (λ k. all_below 8 (byte_law b k)) k
        (all_below_sound 256 (λ b. all_below 8 (λ k. all_below 8 (byte_law b k))) b byte_table hb)
        hk)
      hj)

abbrev pub IsBitmap : List ℕ → Type 0
IsBitmap bm = All (λ b. b < 256) bm

pub mark_used-IsBitmap : (bm : List ℕ) (i : ℕ) → IsBitmap bm → IsBitmap (mark_used bm i)
unfolding mark_used
mark_used-IsBitmap bm i h = All-set (λ b. b < 256) bm (i / 8) _ (omega arith) h

pub length-mark_used : (bm : List ℕ) (i : ℕ) → length (mark_used bm i) ≡ length bm
unfolding mark_used
length-mark_used bm i = length-set bm (i / 8) _

-- After page `i` is marked, it is used, and every other page is as it was.
pub is_used-mark_used :
    (bm : List ℕ) (i j : ℕ)
    → IsBitmap bm
    → i / 8 < length bm
    → is_used (mark_used bm i) j ≡ (if i == j then true else is_used bm j)
unfolding is_used mark_used
is_used-mark_used bm i j ok lt =
    let b = get_or bm (i / 8) 0 in
    let v = bit_or b (2 ^ (i % 8)) % 256 in
    let hit = get_or-set_self bm (i / 8) v 0 lt in
    let miss = get_or-set_ne bm (i / 8) (j / 8) v 0 in
    let law =
      byte_lem b (i % 8) (j % 8) (All-get_or (λ b. b < 256) bm (i / 8) 0 (omega arith) ok)
        (omega arith) (omega arith) in
    ground (arith, hit, miss, law)

-- No page of an empty bitmap is used.
pub is_used-empty : (n i : ℕ) → is_used (replicate n 0) i ≡ false
unfolding is_used
is_used-empty n i = rw (zeros n (i / 8)) (ground (arith, zero_and (2 ^ (i % 8))))
  where
    zeros : (n k : ℕ) → ◌≡◌ {A = ℕ} (get_or (replicate n 0) k 0) 0
    zeros zero k = refl
    zeros (suc n) zero = refl
    zeros (suc n) (suc k) = zeros n k

    zero_and : (x : ℕ) → bit_and 0 x ≡ 0
    zero_and x = bit_and-bitwise 0 x

-- How many of the first `n` pages are free.
unfoldable pub free_count : ℕ → List ℕ → ℕ
free_count zero bm = 0
free_count (suc n) bm = free_count n bm + (if is_used bm n then 0 else 1)

pub free_count-le : (n : ℕ) (bm : List ℕ) → free_count n bm ≤ n
unfolding free_count
free_count-le zero bm = omega arith
free_count-le (suc n) bm = ground (arith, free_count-le n bm)

-- Marking a page that was free takes one from the count, if the page is counted.
pub free_count-mark_used :
    (n i : ℕ) (bm : List ℕ)
    → IsBitmap bm
    → i / 8 < length bm
    → is_used bm i ≡ false
    → free_count n (mark_used bm i) + (if ltb i n then 1 else 0) ≡ free_count n bm
unfolding free_count
free_count-mark_used zero i bm ok lt free = ground arith
free_count-mark_used (suc n) i bm ok lt free =
    ground (arith, is_used-mark_used bm i n ok lt, free_count-mark_used n i bm ok lt free)

pub free_count-empty : (n m : ℕ) → free_count n (replicate m 0) ≡ n
unfolding free_count
free_count-empty zero m = refl
free_count-empty (suc n) m = ground (arith, is_used-empty m n, free_count-empty n m)

-- A free page within the first `n` shows in the count.
pub free_count-pos : (n i : ℕ) (bm : List ℕ) → i < n → is_used bm i ≡ false → 0 < free_count n bm
unfolding free_count
free_count-pos zero i bm lt free = absurd (omega arith)
free_count-pos (suc n) i bm lt free = ground (arith, free_count-pos n i bm)

pub free_count-full :
    (n : ℕ) (bm : List ℕ) → ((j : ℕ) → j < n → is_used bm j ≡ true) → free_count n bm ≡ 0
unfolding free_count
free_count-full zero bm full = refl
free_count-full (suc n) bm full =
    let rest = free_count-full n bm (λ j h. full j (omega arith)) in
    let last = full n (omega arith) in ground (arith, rest, last)
