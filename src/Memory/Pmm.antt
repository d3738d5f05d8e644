-- ===== src/Memory/Pmm.antt =====
-- src/utils/pmm.c: one bit for each of the 32768 pages of 4 KB, and a count of the free ones.
pub mod Bitmap
pub mod Alloc
pub mod Init
pub mod History
pub mod Tests
use nova64_os.Base.{ℕ, zero, suc, ◌+◌, ◌-◌, ◌*◌, ◌/◌, ◌%◌, ◌^◌, bit_and, bit_or, Bool, true, false}
use nova64_os.Base.{
  not, List, [], ◌∷◌, Option, none, some, get_or, set, length, replicate, ltb, ◌==◌,
}
use nova64_os.Base.{if◌then◌else◌}
use nova64_os.Bits.{u64}

abbrev pub page_size : ℕ
page_size = 4096

abbrev pub bitmap_size : ℕ
bitmap_size = 4096

abbrev pub total_pages : ℕ
total_pages = 32768

-- The globals `bitmap` and `free_pages`.
pub record Pmm : Type 0 where
  pub bitmap : List ℕ
  pub free_pages : ℕ

-- `bitmap[i / 8] & (1 << (i % 8))`, as a test.
unfoldable pub is_used : List ℕ → ℕ → Bool
is_used bitmap i = not (bit_and (get_or bitmap (i / 8) 0) (2 ^ (i % 8)) == 0)

-- `bitmap[i / 8] |= (1 << (i % 8))`, a byte.
unfoldable pub mark_used : List ℕ → ℕ → List ℕ
mark_used bitmap i = set bitmap (i / 8) (bit_or (get_or bitmap (i / 8) 0) (2 ^ (i % 8)) % 256)

-- The body of both loops where a page is taken: the bit, and the counter, a `uint64_t`.
unfoldable pub take_page : ℕ → Pmm → Pmm
unfolding mark_used
take_page i p = record {
  bitmap = mark_used p.bitmap i;
  free_pages = u64 (p.free_pages + 2 ^ 64 - 1);
}

-- The reserving loop of `pmm_init`, with the rounds left. `none` is a write past the bitmap.
unfoldable pub reserve : ℕ → ℕ → Pmm → Option Pmm
reserve zero i p = some p
reserve (suc n) i p = elim (ltb (i / 8) (length p.bitmap)) [
  | true ↦ reserve n (i + 1) (take_page i p)
  | false ↦ none
]

unfoldable pub used_pages : ℕ → ℕ
used_pages kernel_end =
    let used_size = u64 (kernel_end + bitmap_size + 2 ^ 64 - 0x100000) in used_size / page_size + 1

unfoldable pub pmm_init : ℕ → Option Pmm
unfolding reserve used_pages take_page
pmm_init kernel_end =
    reserve (used_pages kernel_end) 0
      (record { bitmap = replicate bitmap_size 0; free_pages = total_pages })

-- The search of `pmm_alloc_page` from page `i`, with the pages left; the address returned, 0 where
-- every page is used.
unfoldable pub alloc_from : ℕ → ℕ → Pmm → ℕ × Pmm
unfolding is_used take_page
alloc_from zero i p = (0, p)
alloc_from (suc n) i p = elim (is_used p.bitmap i) [
  | true ↦ alloc_from n (i + 1) p
  | false ↦ (i * page_size, take_page i p)
]

unfoldable pub pmm_alloc_page : Pmm → ℕ × Pmm
unfolding alloc_from
pmm_alloc_page p = alloc_from total_pages 0 p
