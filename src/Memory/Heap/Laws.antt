-- ===== src/Memory/Heap/Laws.antt =====
-- What `kmalloc` promises: fresh aligned blocks, and pages told to the page allocator in time.
use nova64_os.Base.{ℕ, zero, suc, ◌+◌, ◌-◌, ◌*◌, ◌%◌, ◌^◌, ◌≤◌, ◌<◌, ◌≡◌, refl, arith, ap, ◌∙◌}
use nova64_os.Base.{false, ltb, Bool-cases, inl, inr, ◌⊎◌, lt→ltb, ltb→lt}
use nova64_os.Memory.Pmm.{Pmm, pmm_alloc_page}
use nova64_os.Memory.Pmm.Alloc.{IsPmm, pmm_alloc_page_first}
use nova64_os.Memory.Heap.{Heap, align8, map_pages, rounds, kmalloc}
use nova64_os.Memory.Heap.Rounding.{align8_lem}

-- `n` calls of `pmm_alloc_page`, one after the other.
unfoldable pub pages_taken : ℕ → Pmm → Pmm
pages_taken zero p = p
pages_taken (suc n) p = pages_taken n (pmm_alloc_page p).1

-- The next block starts at a multiple of eight, at or above `heap_start`, and the pages up to it
-- have been told to the page allocator, less than one page ahead.
pub record IsHeap (h : Heap) : Type 0 where
  pub aligned : h.current % 8 ≡ 0
  pub mapped : h.current ≤ h.mapped_limit
  pub close : h.mapped_limit < h.current + 4096
  pub limit_aligned : h.mapped_limit % 4096 ≡ 0
  pub pages : IsPmm h.pmm

-- The state in which `n` more pages have been mapped.
abbrev pub mapped_more : ℕ → Heap → Heap
mapped_more n h = record h { mapped_limit = h.mapped_limit + 4096 * n; pmm = pages_taken n h.pmm }

mapped_none : (h : Heap) → h ≡ mapped_more 0 h
unfolding pages_taken
mapped_none h = ground arith

abbrev after_one : Heap → Heap
after_one h = record h { mapped_limit = h.mapped_limit + 4096; pmm = (pmm_alloc_page h.pmm).1 }

map_pages-go :
    (fuel : ℕ) (h : Heap)
    → h.mapped_limit < h.current
    → h.current < 2 ^ 63
    → map_pages (suc fuel) h ≡ map_pages fuel (after_one h)
unfolding map_pages
map_pages-go fuel h lt hi =
    rw (lt→ltb h.mapped_limit h.current lt, map_pages)
      (ap
        (λ (m : ℕ). map_pages fuel (record h { mapped_limit = m; pmm = (pmm_alloc_page h.pmm).1 }))
        (omega arith))

map_pages-stop : (fuel : ℕ) (h : Heap) → ltb h.mapped_limit h.current ≡ false → map_pages fuel h ≡ h
unfolding map_pages
map_pages-stop zero h stop = refl
map_pages-stop (suc fuel) h stop = rw (stop, map_pages)

-- The loop with enough fuel: it maps exactly the pages up to `current`.
map_pages_lem :
    (fuel : ℕ) (h : Heap)
    → h.current ≤ h.mapped_limit + 4096 * fuel
    → h.current < 2 ^ 63
    → (n : ℕ) × (map_pages fuel h ≡ mapped_more n h)
      × (h.current ≤ h.mapped_limit + 4096 * n)
      × ((n ≡ 0) ⊎ (h.mapped_limit + 4096 * n < h.current + 4096))
map_pages_lem zero h enough hi =
    (0, map_pages-stop 0 h (ground arith) ∙ mapped_none h, omega arith, inl refl)
map_pages_lem (suc fuel) h enough hi = elim (Bool-cases (ltb h.mapped_limit h.current)) [
  | inr stop ↦ (0, map_pages-stop (suc fuel) h stop ∙ mapped_none h, ground arith, inl refl)
  | inl go ↦
      let lt : h.mapped_limit < h.current = ltb→lt _ _ go in
      let (n, result, covers, close) = map_pages_lem fuel (after_one h) (omega arith) hi in
      (suc n, map_pages-go fuel h lt hi ∙ result ∙ regroup n, omega arith, inr (ground arith))
]
  where
    regroup : (n : ℕ) → mapped_more n (after_one h) ≡ mapped_more (suc n) h
    regroup n = unfold pages_taken in ground arith

pages_taken-IsPmm : (n : ℕ) (p : Pmm) → IsPmm p → IsPmm (pages_taken n p)
unfolding pages_taken
pages_taken-IsPmm zero p ok = ok
pages_taken-IsPmm (suc n) p ok = pages_taken-IsPmm n _ (pmm_alloc_page_first p ok).0

-- Each page taken is one free page less, until none is left.
pages_taken-count : (n : ℕ) (p : Pmm) → IsPmm p → (pages_taken n p).free_pages ≡ p.free_pages - n
unfolding pages_taken
pages_taken-count zero p ok = omega arith
pages_taken-count (suc n) p ok =
    let (ok', cases) = pmm_alloc_page_first p ok in
    let rest = pages_taken-count n (pmm_alloc_page p).1 ok' in
    elim cases [
      | inl (k, lt, before, free, address, bits, one) ↦ omega arith
      | inr (full, result, none_left) ↦
          let same : (pmm_alloc_page p).1.free_pages ≡ p.free_pages =
            ap (λ t. t.1.free_pages) result in
          omega arith
    ]

kmalloc-grown :
    (size : ℕ) (h : Heap)
    → h.current + align8 size < 2 ^ 64
    → kmalloc size h ≡ (
      h.current,
      map_pages
          (rounds (record h { current = h.current + align8 size }))
          (record h { current = h.current + align8 size }),
    )
unfolding kmalloc
kmalloc-grown size h small =
    let no_wrap : (h.current + align8 size) % 2 ^ 64 ≡ h.current + align8 size = omega arith in
    ap
      (λ (c : ℕ).
        (h.current, map_pages (rounds (record h { current = c })) (record h { current = c })))
      no_wrap

-- The heap that `kmalloc` leaves: the block is at the old end, which is a multiple of eight; the
-- new end is past the block by less than eight bytes; the pages up to it are mapped, no more than
-- needed; and `free_pages` has fallen by the number of pages mapped, down to 0 at the least. The
-- caller gets its block also where no page was left to take.
pub kmalloc_lem :
    (size : ℕ) (h : Heap)
    → IsHeap h
    → h.current + size < 2 ^ 62
    → IsHeap (kmalloc size h).1
      × ((kmalloc size h).0 ≡ h.current)
      × ((kmalloc size h).0 % 8 ≡ 0)
      × ((kmalloc size h).0 + size ≤ (kmalloc size h).1.current)
      × ((kmalloc size h).1.current < (kmalloc size h).0 + size + 8)
      × ((n : ℕ) × ((kmalloc size h).1.mapped_limit ≡ h.mapped_limit + 4096 * n)
          × ((kmalloc size h).1.pmm.free_pages ≡ h.pmm.free_pages - n))
kmalloc_lem size h ok small =
    let (multiple, covers, within) = align8_lem size (omega arith) in
    let grown : Heap = record h { current = h.current + align8 size } in
    let (n, result, mapped, close) =
      map_pages_lem (rounds grown) grown (unfold rounds in omega arith) (omega arith) in
    let final : kmalloc size h ≡ (h.current, mapped_more n grown) =
      kmalloc-grown size h (omega arith) ∙ ap (λ (g : Heap). (h.current, g)) result in
    rw final (
      record {
        aligned = omega (arith, ok.aligned);
        mapped = mapped;
        close = ground (arith, ok.close);
        limit_aligned = omega (arith, ok.limit_aligned);
        pages = pages_taken-IsPmm n h.pmm ok.pages;
      },
      refl,
      ok.aligned,
      omega arith,
      omega arith,
      (n, refl, pages_taken-count n h.pmm ok.pages),
    )

-- Two blocks never overlap: the second starts at or past the end of the first.
pub kmalloc-disjoint :
    (s t : ℕ) (h : Heap)
    → IsHeap h
    → h.current + s + t < 2 ^ 61
    → (kmalloc s h).0 + s ≤ (kmalloc t (kmalloc s h).1).0
kmalloc-disjoint s t h ok small =
    let first = kmalloc_lem s h ok (omega arith) in
    omega (arith, first, kmalloc_lem t (kmalloc s h).1 first.0 (omega (arith, first)))
