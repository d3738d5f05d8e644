-- ===== src/Drivers/Fat32/Search.antt =====
-- What `fat32_find_file_cluster` finds.
use nova64_os.Base.{
  ℕ, zero, suc, ◌+◌, ◌*◌, ◌^◌, ◌≤◌, ◌<◌, ◌≡◌, ◌≢◌, refl, arith, ap, ap₂, sym, subst, ◌∙◌, true,
  false, ◌==◌, Bool-cases, List, [], ◌∷◌, length, get_or, get_elem?, All, some, ◌⊎◌, inl, inr,
}
use mathlib.Core.Option.{some-injective}
use nova64_os.Bits.Xor.{bit_or_above, bit_or_swap}
use nova64_os.Drivers.Fat32.{
  DirEntry, same_from, stellar_name_check, cluster, find_entry, fat32_find_file_cluster,
}

-- An entry of the directory as it lies on the disk: eleven characters, and a cluster in two words.
abbrev pub IsEntry : DirEntry → Type 0
IsEntry e = (length e.name ≡ 11) × (e.cluster_low < 2 ^ 16)

same_from-get_or :
    (n i : ℕ) (s1 s2 : List ℕ) (j : ℕ)
    → same_from n i s1 s2 ≡ true
    → i ≤ j
    → j < i + n
    → get_or s1 j 0 ≡ get_or s2 j 0
unfolding same_from
same_from-get_or zero i s1 s2 j same low high = absurd (omega arith)
same_from-get_or (suc n) i s1 s2 j same low high =
    elim (Bool-cases (get_or s1 i 0 == get_or s2 i 0)) [
      | inr differ ↦ absurd (ground arith)
      | inl equal ↦
          let rest : same_from n (i + 1) s1 s2 ≡ true = ground arith in
          elim (Bool-cases (i == j)) [
            | inl here ↦
                let at : i ≡ j = ground arith in
                ap (λ (k : ℕ). get_or s1 k 0) (sym at)
                ∙ (let is : get_or s1 i 0 ≡ get_or s2 i 0 = ground arith in is)
                ∙ ap (λ (k : ℕ). get_or s2 k 0) at
            | inr later ↦
                let beyond : i + 1 ≤ j = ground arith in
                same_from-get_or n (i + 1) s1 s2 j rest beyond (omega arith)
          ]
    ]

same_from_self : (n i : ℕ) (s : List ℕ) → same_from n i s s ≡ true
unfolding same_from
same_from_self zero i s = refl
same_from_self (suc n) i s =
    let rest = same_from_self n (i + 1) s in
    let equal : (get_or s i 0 == get_or s i 0) ≡ true = ground arith in rw (equal, rest) refl

-- Lists of one length with the same elements.
all_same :
    (s1 s2 : List ℕ)
    → length s1 ≡ length s2
    → ((j : ℕ) → j < length s1 → get_or s1 j 0 ≡ get_or s2 j 0)
    → s1 ≡ s2
all_same [] [] e h = refl
all_same [] (y ∷ s2) e h = absurd (omega arith)
all_same (x ∷ s1) [] e h = absurd (omega arith)
all_same (x ∷ s1) (y ∷ s2) e h =
    ap₂ (λ (z : ℕ) (zs : List ℕ). z ∷ zs) (h 0 (omega arith))
      (all_same s1 s2 (omega arith) (λ j lt. h (suc j) (omega arith)))

stellar_name_check-≡ :
    (s1 s2 : List ℕ) → length s1 ≡ 11 → length s2 ≡ 11 → stellar_name_check s1 s2 ≡ true → s1 ≡ s2
unfolding stellar_name_check
stellar_name_check-≡ s1 s2 size₁ size₂ same =
    all_same s1 s2 (size₁ ∙ sym size₂)
      (λ j lt. same_from-get_or 11 0 s1 s2 j same (omega arith) (omega arith))

stellar_name_check-≢ : (s1 s2 : List ℕ) → stellar_name_check s1 s2 ≡ false → s1 ≢ s2
unfolding stellar_name_check
stellar_name_check-≢ s1 s2 differ is =
    let same : stellar_name_check s1 s2 ≡ true =
      ap (stellar_name_check s1) (sym is) ∙ same_from_self 11 0 s1 in
    cc

cluster_lem :
    (e : DirEntry) → e.cluster_low < 2 ^ 16 → cluster e ≡ e.cluster_high * 2 ^ 16 + e.cluster_low
unfolding cluster
cluster_lem e low =
    bit_or_swap (e.cluster_high * 2 ^ 16) e.cluster_low
    ∙ bit_or_above 16 e.cluster_high e.cluster_low low
    ∙ omega arith

-- Among the first `n` entries one, used, has the name, those before are used and have other names,
-- and `found` is the number of its cluster.
abbrev pub Finds : ℕ → List DirEntry → List ℕ → ℕ → Type 0
Finds n dir name found =
    (i : ℕ) × (e : DirEntry) × (i < n)
    × (get_elem? dir i ≡ some e)
    × (e.name ≡ name)
    × (get_or e.name 0 0 ≢ 0)
    × ((j : ℕ) (f : DirEntry)
        → j < i
        → get_elem? dir j ≡ some f
        → (get_or f.name 0 0 ≢ 0) × (f.name ≢ name))
    × (found ≡ e.cluster_high * 2 ^ 16 + e.cluster_low)

-- `found` is 0, and each of the first `n` entries with the name is unused or behind an unused one.
abbrev pub Misses : ℕ → List DirEntry → List ℕ → ℕ → Type 0
Misses n dir name found =
    (found ≡ 0)
    × ((i : ℕ) (e : DirEntry)
        → i < n
        → get_elem? dir i ≡ some e
        → e.name ≡ name
        → (j : ℕ) × (f : DirEntry) × (j ≤ i) × (get_elem? dir j ≡ some f) × (get_or f.name 0 0 ≡ 0))

-- One more entry in front, used and of another name.
passed :
    (n : ℕ) (e : DirEntry) (rest : List DirEntry) (name : List ℕ) (found : ℕ)
    → get_or e.name 0 0 ≢ 0
    → e.name ≢ name
    → Finds n rest name found ⊎ Misses n rest name found
    → Finds (suc n) (e ∷ rest) name found ⊎ Misses (suc n) (e ∷ rest) name found
passed n e rest name found used other (inl (i, f, lt, at, is, used_f, before, value)) =
    inl (suc i, f, omega arith, at, is, used_f, earlier, value)
  where
    earlier :
        (j : ℕ) (g : DirEntry)
        → j < suc i
        → get_elem? (e ∷ rest) j ≡ some g
        → (get_or g.name 0 0 ≢ 0) × (g.name ≢ name)
    earlier zero g lt at =
        let is : e ≡ g = some-injective _ _ at in
        subst (λ (h : DirEntry). (get_or h.name 0 0 ≢ 0) × (h.name ≢ name)) is (used, other)
    earlier (suc j) g lt at = before j g (omega arith) at
passed n e rest name found used other (inr (nothing, missing)) = inr (nothing, later)
  where
    later :
        (i : ℕ) (g : DirEntry)
        → i < suc n
        → get_elem? (e ∷ rest) i ≡ some g
        → g.name ≡ name
        → (j : ℕ) × (f : DirEntry) × (j ≤ i)
          × (get_elem? (e ∷ rest) j ≡ some f)
          × (get_or f.name 0 0 ≡ 0)
    later zero g lt at is =
        absurd (other (ap (λ (h : DirEntry). h.name) (some-injective _ _ at) ∙ is))
    later (suc i) g lt at is =
        let (j, f, le, at_j, unused) = missing i g (omega arith) at is in
        (suc j, f, omega arith, at_j, unused)

find_entry_lem :
    (n : ℕ) (dir : List DirEntry) (name : List ℕ)
    → length name ≡ 11
    → All IsEntry dir
    → Finds n dir name (find_entry n dir name) ⊎ Misses n dir name (find_entry n dir name)
unfolding find_entry
find_entry_lem zero dir name size entries = inr (refl, λ i e lt. absurd (omega arith))
find_entry_lem (suc n) [] name size entries = inr (refl, λ i e lt at. cc)
find_entry_lem (suc n) (e ∷ rest) name size ((size_e, low), entries) =
    elim (Bool-cases (get_or e.name 0 0 == 0)) [
      | inl unused ↦
          let end : get_or e.name 0 0 ≡ 0 = ground arith in
          rw unused (inr (refl, λ i f lt at is. (0, e, omega arith, refl, end)))
      | inr used ↦
          let begun : get_or e.name 0 0 ≢ 0 = λ z. absurd (ground arith) in
          elim (Bool-cases (stellar_name_check e.name name)) [
            | inl same ↦
                rw (used, same)
                  (inl (
                    0,
                    e,
                    omega arith,
                    refl,
                    stellar_name_check-≡ e.name name size_e size same,
                    begun,
                    λ j f lt at. absurd (omega arith),
                    cluster_lem e low,
                  ))
            | inr other ↦
                rw (used, other)
                  (passed n e rest name (find_entry n rest name) begun
                    (stellar_name_check-≢ e.name name other)
                    (find_entry_lem n rest name size entries))
          ]
    ]

-- In a directory whose entries have names of eleven characters, and for a name of eleven characters,
-- either the first sixteen entries hold one of that name, used, with only used entries of other names
-- before it, and the search gives the number that its two words of the cluster make; or the search
-- gives 0, and every entry of that name among the sixteen is unused or stands behind an unused one.
pub fat32_find_file_cluster_lem :
    (dir : List DirEntry) (name : List ℕ)
    → All IsEntry dir
    → length name ≡ 11
    → let found : ℕ = fat32_find_file_cluster dir name in
      Finds 16 dir name found ⊎ Misses 16 dir name found
unfolding fat32_find_file_cluster
fat32_find_file_cluster_lem dir name entries size = find_entry_lem 16 dir name size entries
