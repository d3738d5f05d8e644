-- ===== src/Memory/Pmm/Tests.antt =====
-- Runs of the page allocator, and its theorems at concrete inputs.
use nova64_os.Base.{ℕ, ◌+◌, ◌*◌, ◌/◌, ◌<◌, ◌≡◌, refl, arith, true, false, ltb, ◌==◌, ◌⊎◌}
use nova64_os.Base.{[], ◌∷◌, some, replicate, All, if◌then◌else◌}
use nova64_os.Base.{length-replicate, All-replicate, sym, subst, suc}
use nova64_os.Memory.Pmm.{Pmm, is_used, take_page, used_pages, pmm_init, pmm_alloc_page}
use nova64_os.Memory.Pmm.Bitmap.{free_count-empty}
use nova64_os.Memory.Pmm.Alloc.{IsPmm, pmm_alloc_page_first}
use nova64_os.Memory.Pmm.Init.{pmm_init_lem, pmm_init-bitmap_free}
use nova64_os.Memory.Pmm.History.{Allocs, nothing, more, Distinct, IsTaken, Allocs-Distinct}

-- A kernel that ends at 0x110000 has 18 pages marked, those from page 0.
used_pages_small : used_pages 0x110000 ≡ 18
unfolding used_pages
used_pages_small = refl

abbrev pub untouched : Pmm
untouched = record { bitmap = replicate 4096 0; free_pages = 32768 }

pub untouched-IsPmm : IsPmm untouched
untouched-IsPmm = record {
  bytes = All-replicate (λ b. b < 256) 4096 0 (omega arith);
  size = length-replicate {A = ℕ} 4096 0;
  counted = sym (free_count-empty 32768 4096);
}

first_page : (pmm_alloc_page (take_page 0 untouched)).0 ≡ 4096
unfolding pmm_alloc_page take_page
first_page = refl

-- Eighteen pages are marked, so the first page handed out is page 18.
abbrev booted : Pmm
booted = record { bitmap = 255 ∷ 255 ∷ 3 ∷ replicate 4093 0; free_pages = 32750 }

booted_runs : pmm_init 0x110000 ≡ some booted
unfolding pmm_init
booted_runs = refl

pmm_init_lem_example :
    (p : Pmm) × (pmm_init 0x110000 ≡ some p)
    × IsPmm p
    × ((j : ℕ) → is_used p.bitmap j ≡ ltb j (used_pages 0x110000))
    × (p.free_pages + used_pages 0x110000 ≡ 32768)
unfolding used_pages
pmm_init_lem_example = pmm_init_lem 0x110000 (omega arith) (omega arith) (omega arith)

pmm_init-bitmap_free_example : is_used booted.bitmap (0x110FFF / 4096) ≡ false
unfolding used_pages
pmm_init-bitmap_free_example =
    pmm_init-bitmap_free 0x110000 (omega arith) (omega arith) (omega arith) booted_runs

booted-IsPmm : IsPmm booted
booted-IsPmm =
    let (p, e, ok, bits, count) = pmm_init_lem_example in
    let same : p ≡ booted = cc (booted_runs) in subst IsPmm same ok

pmm_alloc_page_first_example :
    IsPmm (pmm_alloc_page booted).1
    × (((k : ℕ) × (k < 32768)
          × ((j : ℕ) → j < k → is_used booted.bitmap j ≡ true)
          × (is_used booted.bitmap k ≡ false)
          × ((pmm_alloc_page booted).0 ≡ k * 4096)
          × ((j : ℕ)
              → is_used (pmm_alloc_page booted).1.bitmap j
                ≡ (if k == j then true else is_used booted.bitmap j))
          × (32750 ≡ suc (pmm_alloc_page booted).1.free_pages))
        ⊎ (((j : ℕ) → j < 32768 → is_used booted.bitmap j ≡ true)
            × (pmm_alloc_page booted ≡ (0, booted))
            × (◌≡◌ {A = ℕ} 32750 0)))
pmm_alloc_page_first_example = pmm_alloc_page_first booted booted-IsPmm

abbrev after_two : Pmm
after_two = record { bitmap = 255 ∷ 255 ∷ 15 ∷ replicate 4093 0; free_pages = 32748 }

abbrev after_one : Pmm
after_one = record { bitmap = 255 ∷ 255 ∷ 7 ∷ replicate 4093 0; free_pages = 32749 }

first_call : pmm_alloc_page booted ≡ (18 * 4096, after_one)
unfolding pmm_alloc_page
first_call = refl

second_call : pmm_alloc_page after_one ≡ (19 * 4096, after_two)
unfolding pmm_alloc_page
second_call = refl

two-Allocs : Allocs booted (77824 ∷ 73728 ∷ []) after_two
two-Allocs = more (more nothing first_call (omega arith)) second_call (omega arith)

Allocs-Distinct_example :
    IsPmm after_two
    × Distinct (77824 ∷ 73728 ∷ [])
    × All (IsTaken after_two) (77824 ∷ 73728 ∷ [])
    × (◌≡◌ {A = ℕ} 32750 (32748 + 2))
Allocs-Distinct_example = Allocs-Distinct booted-IsPmm two-Allocs
