-- ===== src/Memory/Heap/Tests.antt =====
-- Runs of `kmalloc`, and its theorems at concrete inputs.
use nova64_os.Base.{ℕ, ◌+◌, ◌-◌, ◌*◌, ◌%◌, ◌≤◌, ◌<◌, ◌≡◌, refl, arith, ◌∷◌, replicate}
use nova64_os.Memory.Pmm.{pmm_alloc_page}
use nova64_os.Memory.Pmm.Tests.{untouched, untouched-IsPmm}
use nova64_os.Memory.Heap.{Heap, kmalloc, heap_start}
use nova64_os.Memory.Heap.Laws.{IsHeap, kmalloc_lem, kmalloc-disjoint}

abbrev fresh : Heap
fresh = record { current = heap_start; mapped_limit = heap_start; pmm = untouched }

fresh-IsHeap : IsHeap fresh
fresh-IsHeap = record {
  aligned = omega arith;
  mapped = omega arith;
  close = omega arith;
  limit_aligned = omega arith;
  pages = untouched-IsPmm;
}

-- 5000 bytes take two pages.
kmalloc_runs : kmalloc 5000 fresh ≡ (
  heap_start,
  record {
    current = heap_start + 5000;
    mapped_limit = heap_start + 8192;
    pmm = record { bitmap = 3 ∷ replicate 4095 0; free_pages = 32766 };
  },
)
unfolding kmalloc pmm_alloc_page
kmalloc_runs = refl

kmalloc_lem_example :
    IsHeap (kmalloc 5000 fresh).1
    × ((kmalloc 5000 fresh).0 ≡ heap_start)
    × ((kmalloc 5000 fresh).0 % 8 ≡ 0)
    × ((kmalloc 5000 fresh).0 + 5000 ≤ (kmalloc 5000 fresh).1.current)
    × ((kmalloc 5000 fresh).1.current < (kmalloc 5000 fresh).0 + 5000 + 8)
    × ((n : ℕ) × ((kmalloc 5000 fresh).1.mapped_limit ≡ heap_start + 4096 * n)
        × ((kmalloc 5000 fresh).1.pmm.free_pages ≡ 32768 - n))
kmalloc_lem_example = kmalloc_lem 5000 fresh fresh-IsHeap (omega arith)

kmalloc-disjoint_example : (kmalloc 512 fresh).0 + 512 ≤ (kmalloc 1024 (kmalloc 512 fresh).1).0
kmalloc-disjoint_example = kmalloc-disjoint 512 1024 fresh fresh-IsHeap (omega arith)
