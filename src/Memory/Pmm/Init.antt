-- ===== src/Memory/Pmm/Init.antt =====
-- `pmm_init`: which pages it marks.
use nova64_os.Base.{ℕ, zero, suc, ◌+◌, ◌/◌, ◌^◌, ◌≤◌, ◌<◌, ◌≡◌, refl, arith, ◌∙◌, sym}
use nova64_os.Base.{true, false, ◌==◌, ltb, lt→ltb, if◌then◌else◌, length}
use nova64_os.Base.{some, replicate, length-replicate, All-replicate}
use nova64_os.Memory.Pmm.{Pmm, is_used, take_page, reserve, used_pages, pmm_init}
use nova64_os.Memory.Pmm.Bitmap.{is_used-mark_used, is_used-empty, free_count-empty}
use nova64_os.Memory.Pmm.Alloc.{IsPmm, take_page-IsPmm}

module _ (p : Pmm) (ok : IsPmm p) (i : ℕ) (lt : i < 32768) where
  is_used-take_page :
      (j : ℕ) → is_used (take_page i p).bitmap j ≡ (if i == j then true else is_used p.bitmap j)
  unfolding take_page
  is_used-take_page j = is_used-mark_used p.bitmap i j ok.bytes (omega (arith, ok.size))

  reserve-suc : (n : ℕ) → reserve (suc n) i p ≡ reserve n (i + 1) (take_page i p)
  unfolding reserve
  reserve-suc n = rw (lt→ltb (i / 8) (length p.bitmap) (omega (arith, ok.size)), reserve)

-- Reserving `n` pages from `i`, the pages below `i` being the ones used so far.
reserve_lem :
    (n i end : ℕ) (p : Pmm)
    → i + n ≡ end
    → end ≤ 32768
    → IsPmm p
    → ((j : ℕ) → is_used p.bitmap j ≡ ltb j i)
    → (q : Pmm) × (reserve n i p ≡ some q)
      × IsPmm q
      × ((j : ℕ) → is_used q.bitmap j ≡ ltb j end)
      × (p.free_pages ≡ q.free_pages + n)
reserve_lem zero i end p e fits ok below =
    (p, (unfold reserve in refl), ok, λ j. ground (arith, below j), omega arith)
reserve_lem (suc n) i end p e fits ok below =
    let (ok', one) = take_page-IsPmm i p ok (omega arith) (ground (arith, below i)) in
    let (q, result, okq, used, count) =
      reserve_lem n (i + 1) end (take_page i p) (omega arith) fits ok'
        (λ j. ground (arith, is_used-take_page p ok i (omega arith) j, below j)) in
    (q, reserve-suc p ok i (omega arith) n ∙ result, okq, used, omega arith)

empty-IsPmm : IsPmm (record { bitmap = replicate 4096 0; free_pages = 32768 })
empty-IsPmm = record {
  bytes = All-replicate (λ b. b < 256) 4096 0 (omega arith);
  size = length-replicate {A = ℕ} 4096 0;
  counted = sym (free_count-empty 32768 4096);
}

-- For a kernel that ends between 1 MB less the bitmap and 128 MB above it, `pmm_init` marks the
-- pages from 0 up to `used_pages kernel_end` and no other, stays within the bitmap, and sets
-- `free_pages` to the number of the others.
pub pmm_init_lem :
    (kernel_end : ℕ)
    → 0xFF000 ≤ kernel_end
    → used_pages kernel_end ≤ 32768
    → kernel_end < 2 ^ 63
    → (p : Pmm) × (pmm_init kernel_end ≡ some p)
      × IsPmm p
      × ((j : ℕ) → is_used p.bitmap j ≡ ltb j (used_pages kernel_end))
      × (p.free_pages + used_pages kernel_end ≡ 32768)
pmm_init_lem kernel_end lo fits hi =
    let (q, result, ok, used, count) =
      reserve_lem (used_pages kernel_end) 0 (used_pages kernel_end)
        (record { bitmap = replicate 4096 0; free_pages = 32768 }) (omega arith) fits empty-IsPmm
        (λ j. ground (arith, is_used-empty 4096 j)) in
    (q, (unfold pmm_init in result), ok, used, omega arith)

-- The pages meant to be reserved hold the kernel, from 1 MB, and the bitmap, which ends at
-- `kernel_end + 4096`. The page of the bitmap's last byte is never marked: it stays free.
pub pmm_init-bitmap_free :
    (kernel_end : ℕ) {p : Pmm}
    → 0xFF000 ≤ kernel_end
    → used_pages kernel_end ≤ 32768
    → kernel_end < 2 ^ 63
    → pmm_init kernel_end ≡ some p
    → is_used p.bitmap ((kernel_end + 4095) / 4096) ≡ false
pmm_init-bitmap_free kernel_end {p} lo fits hi e =
    let (q, result, ok, used, count) = pmm_init_lem kernel_end lo fits hi in
    let same : q ≡ p = cc in
    let j : ℕ = (kernel_end + 4095) / 4096 in
    let past : used_pages kernel_end ≤ j = unfold used_pages in omega arith in
    rw (← same) (used j ∙ ltb_above j (used_pages kernel_end) past)
  where
    ltb_above : (j n : ℕ) → n ≤ j → ltb j n ≡ false
    ltb_above j n h = ground arith
