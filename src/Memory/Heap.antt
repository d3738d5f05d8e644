-- ===== src/Memory/Heap.antt =====
-- `kmalloc` of src/utils/malloc.c: a bump allocator that tells the page allocator of each 4 KB.
pub mod Rounding
pub mod Laws
mod Tests
use nova64_os.Base.{ℕ, zero, suc, ◌+◌, ◌-◌, ◌%◌, ◌/◌, ◌^◌, bit_and, Bool, true, false, ltb}
use nova64_os.Bits.{u64}
use nova64_os.Memory.Pmm.{Pmm, pmm_alloc_page, page_size}

abbrev pub heap_start : ℕ
heap_start = 0x1000000

-- The globals `heap_current` and `heap_mapped_limit`, and the page allocator that `kmalloc` calls.
pub record Heap : Type 0 where
  pub current : ℕ
  pub mapped_limit : ℕ
  pub pmm : Pmm

-- `(size + 7) & ~7` on 64 bits.
unfoldable pub align8 : ℕ → ℕ
align8 size = bit_and (u64 (size + 7)) (2 ^ 64 - 8)

-- `while (heap_current > heap_mapped_limit)`, on fuel. The page that is returned is not used.
unfoldable pub map_pages : ℕ → Heap → Heap
map_pages zero h = h
map_pages (suc fuel) h = elim (ltb h.mapped_limit h.current) [
  | true ↦
      map_pages fuel (record h {
        mapped_limit = u64 (h.mapped_limit + page_size);
        pmm = (pmm_alloc_page h.pmm).1;
      })
  | false ↦ h
]

-- One round for each started page of the gap is enough.
unfoldable pub rounds : Heap → ℕ
rounds h = (h.current - h.mapped_limit) / page_size + 2

-- The address returned, and the state.
unfoldable pub kmalloc : ℕ → Heap → ℕ × Heap
unfolding align8 map_pages rounds
kmalloc size h =
    let grown : Heap = record h { current = u64 (h.current + align8 size) } in
    (h.current, map_pages (rounds grown) grown)
