-- ===== src/Memory/Pmm/History.antt =====
-- Any run of successful allocations, from any state in which the count is right.
use nova64_os.Base.{ℕ, suc, ◌+◌, ◌/◌, ◌%◌, ◌^◌, ◌<◌, ◌≡◌, ◌≢◌, arith}
use nova64_os.Base.{true, false, ◌==◌, if◌then◌else◌, inl, inr, List, [], ◌∷◌, length, All, ap}
use nova64_os.Base.{◌∙◌}
use nova64_os.Memory.Pmm.{Pmm, is_used, pmm_alloc_page}
use nova64_os.Memory.Pmm.Alloc.{IsPmm, pmm_alloc_page_first}

-- `addresses` were returned, the last one first, by successive calls that did not return 0.
pub data Allocs (p : Pmm) : List ℕ → Pmm → Type 0 where
  nothing : Allocs p [] p
  more :
      {addresses : List ℕ} {q r : Pmm} {a : ℕ}
      → Allocs p addresses q
      → pmm_alloc_page q ≡ (a, r)
      → a ≢ 0
      → Allocs p (a ∷ addresses) r

abbrev pub Distinct : List ℕ → Type 0
Distinct [] = Unit
Distinct (a ∷ rest) = All (λ b. a ≢ b) rest × Distinct rest

-- An address of a page of the 128 MB whose bit is set.
abbrev pub IsTaken : Pmm → ℕ → Type 0
IsTaken q a = (a % 4096 ≡ 0) × (a < 2 ^ 27) × (is_used q.bitmap (a / 4096) ≡ true)

-- One call: what was taken stays taken, and the new address is of a page that was free.
one_more :
    (q : Pmm) {r : Pmm} {a : ℕ}
    → IsPmm q
    → pmm_alloc_page q ≡ (a, r)
    → a ≢ 0
    → IsPmm r
      × IsTaken r a
      × (is_used q.bitmap (a / 4096) ≡ false)
      × ((b : ℕ) → IsTaken q b → IsTaken r b)
      × (q.free_pages ≡ suc r.free_pages)
one_more q {r} {a} ok e ne =
    let (okr, cases) = rw e at (pmm_alloc_page_first q ok) in
    elim cases [
      | inr (full, result, none_left) ↦ absurd (ne (ap (λ t. t.0) result))
      | inl (k, lt, before, free, address, bits, one) ↦
          let page : a / 4096 ≡ k = omega arith in
          (
            okr,
            (omega arith, omega arith, rw page (bits k ∙ self k)),
            rw page free,
            λ b t. (t.0, t.1, bits (b / 4096) ∙ keeps k (b / 4096) t.2),
            one,
          )
    ]
  where
    self : (k : ℕ) → (if k == k then true else is_used q.bitmap k) ≡ true
    self k = ground arith

    keeps :
        (k j : ℕ) → is_used q.bitmap j ≡ true → (if k == j then true else is_used q.bitmap j) ≡ true
    keeps k j h = ground arith

All-kept :
    (q r : Pmm) (addresses : List ℕ)
    → ((b : ℕ) → IsTaken q b → IsTaken r b)
    → All (IsTaken q) addresses
    → All (IsTaken r) addresses
All-kept q r [] keep all = tt
All-kept q r (b ∷ rest) keep all = (keep b all.0, All-kept q r rest keep all.1)

-- A page that was free is none of those taken.
All-fresh :
    (q : Pmm) (a : ℕ) (addresses : List ℕ)
    → is_used q.bitmap (a / 4096) ≡ false
    → All (IsTaken q) addresses
    → All (λ b. a ≢ b) addresses
All-fresh q a [] free all = tt
All-fresh q a (b ∷ rest) free all = (other, All-fresh q a rest free all.1)
  where
    other : a ≢ b
    other e = cc (ap (λ (t : ℕ). is_used q.bitmap (t / 4096)) e)

-- However many pages are taken, their addresses are distinct, page-aligned and below 128 MB, every
-- one of them is marked, `free_pages` has fallen by their number, and the count is still right.
pub Allocs-Distinct :
    {p q : Pmm} {addresses : List ℕ}
    → IsPmm p
    → Allocs p addresses q
    → IsPmm q
      × Distinct addresses
      × All (IsTaken q) addresses
      × (p.free_pages ≡ q.free_pages + length addresses)
Allocs-Distinct ok nothing = (ok, tt, tt, omega arith)
Allocs-Distinct ok (more {addresses = rest} {q = q} {r = r} {a = a} before e ne) =
    let (okq, distinct, taken, count) = Allocs-Distinct ok before in
    let (okr, new, free, keep, one) = one_more q okq e ne in
    (
      okr,
      (All-fresh q a rest free taken, distinct),
      (new, All-kept q r rest keep taken),
      omega arith,
    )
