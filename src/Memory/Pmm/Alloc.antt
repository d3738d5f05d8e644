-- ===== src/Memory/Pmm/Alloc.antt =====
-- `pmm_alloc_page` hands out the first free page.
use nova64_os.Base.{ℕ, zero, suc, ◌+◌, ◌-◌, ◌*◌, ◌/◌, ◌%◌, ◌^◌, ◌≤◌, ◌<◌, ◌≡◌, refl, arith, ◌∙◌}
use nova64_os.Base.{true, false, ◌==◌, if◌then◌else◌, Bool-cases, ◌⊎◌, inl, inr, length}
use nova64_os.Memory.Pmm.{Pmm, is_used, take_page, alloc_from, pmm_alloc_page}
use nova64_os.Memory.Pmm.{page_size}
use nova64_os.Memory.Pmm.Bitmap.{IsBitmap, is_used-mark_used, mark_used-IsBitmap, length-mark_used}
use nova64_os.Memory.Pmm.Bitmap.{free_count, free_count-mark_used, free_count-full, free_count-le}

-- The bitmap has its 4096 bytes, and `free_pages` counts the pages whose bit is clear.
pub record IsPmm (p : Pmm) : Type 0 where
  pub bytes : IsBitmap p.bitmap
  pub size : length p.bitmap ≡ 4096
  pub counted : p.free_pages ≡ free_count 32768 p.bitmap

pub take_page-IsPmm :
    (i : ℕ) (p : Pmm)
    → IsPmm p
    → i < 32768
    → is_used p.bitmap i ≡ false
    → IsPmm (take_page i p) × (p.free_pages ≡ suc (take_page i p).free_pages)
unfolding take_page
take_page-IsPmm i p ok lt free =
    let room : i / 8 < length p.bitmap = omega (arith, ok.size) in
    let count = free_count-mark_used 32768 i p.bitmap ok.bytes room free in
    let one : p.free_pages ≡ suc ((p.free_pages + 2 ^ 64 - 1) % 2 ^ 64) =
      ground (arith, count, ok.counted, free_count-le 32768 p.bitmap) in
    (
      record {
        bytes = mark_used-IsBitmap p.bitmap i ok.bytes;
        size = length-mark_used p.bitmap i ∙ ok.size;
        counted = ground (arith, count, ok.counted, one);
      },
      one,
    )

-- The search from page `i` finds the first free page, or every page up to `end` is used.
alloc_from_cases :
    (n i end : ℕ) (p : Pmm)
    → i + n ≡ end
    → ((k : ℕ) × (i ≤ k)
        × (k < end)
        × ((j : ℕ) → i ≤ j → j < k → is_used p.bitmap j ≡ true)
        × (is_used p.bitmap k ≡ false)
        × (alloc_from n i p ≡ (k * page_size, take_page k p)))
      ⊎ (((j : ℕ) → i ≤ j → j < end → is_used p.bitmap j ≡ true) × (alloc_from n i p ≡ (0, p)))
unfolding alloc_from
alloc_from_cases zero i end p e = inr (λ j lo hi. absurd (omega arith), refl)
alloc_from_cases (suc n) i end p e = elim (Bool-cases (is_used p.bitmap i)) [
  | inr free ↦
      inl
        (i, omega arith, omega arith, λ j lo hi. absurd (omega arith), free, rw (free, alloc_from))
  | inl used ↦ elim (alloc_from_cases n (i + 1) end p (omega arith)) [
    | inl (k, lo, hi, before, free, result) ↦ inl (
      k,
      omega arith,
      hi,
      λ j h g. used_from i j used before h g,
      free,
      rw (used, alloc_from) result,
    )
    | inr (before, result) ↦
        inr (λ j h g. used_from i j used before h g, rw (used, alloc_from) result)
  ]
]
  where
    used_from :
        {end : ℕ} (i j : ℕ)
        → is_used p.bitmap i ≡ true
        → ((j : ℕ) → i + 1 ≤ j → j < end → is_used p.bitmap j ≡ true)
        → i ≤ j
        → j < end
        → is_used p.bitmap j ≡ true
    used_from i j used rest lo hi = ground (arith, rest j)

-- Where a page is free, the lowest free one, `k`, is taken: its address is returned, its bit and no
-- other changes, and `free_pages` falls by one. Where none is, the address is 0, nothing changes,
-- and `free_pages` is 0. The count stays right in both cases.
pub pmm_alloc_page_first :
    (p : Pmm)
    → IsPmm p
    → IsPmm (pmm_alloc_page p).1
      × (((k : ℕ) × (k < 32768)
            × ((j : ℕ) → j < k → is_used p.bitmap j ≡ true)
            × (is_used p.bitmap k ≡ false)
            × ((pmm_alloc_page p).0 ≡ k * 4096)
            × ((j : ℕ)
                → is_used (pmm_alloc_page p).1.bitmap j
                  ≡ (if k == j then true else is_used p.bitmap j))
            × (p.free_pages ≡ suc (pmm_alloc_page p).1.free_pages))
          ⊎ (((j : ℕ) → j < 32768 → is_used p.bitmap j ≡ true)
              × (pmm_alloc_page p ≡ (0, p))
              × (p.free_pages ≡ 0)))
unfolding pmm_alloc_page
pmm_alloc_page_first p ok = elim (alloc_from_cases 32768 0 32768 p refl) [
  | inl (k, lo, hi, before, free, result) ↦ rw result (
    (take_page-IsPmm k p ok hi free).0,
    inl (
      k,
      hi,
      λ j h. before j (omega arith) h,
      free,
      refl,
      λ j. unfold take_page in is_used-mark_used p.bitmap k j ok.bytes (omega (arith, ok.size)),
      (take_page-IsPmm k p ok hi free).1,
    ),
  )
  | inr (full, result) ↦ rw result (
    ok,
    inr (
      λ j h. full j (omega arith) h,
      refl,
      ok.counted ∙ free_count-full 32768 p.bitmap (λ j h. full j (omega arith) h),
    ),
  )
]
