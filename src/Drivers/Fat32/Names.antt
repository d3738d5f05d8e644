-- ===== src/Drivers/Fat32/Names.antt =====
-- The names that `format_to_fat` makes.
use nova64_os.Base.{
  ℕ, zero, suc, ◌+◌, ◌-◌, ◌≤◌, ◌≡◌, refl, arith, ap, ap₂, sym, ◌∙◌, true, false, leb, ◌==◌, ◌&&◌,
  ◌||◌, Bool-cases, inl, inr, if◌then◌else◌, List, [], ◌∷◌, ◌++◌, map, set, take, drop, replicate,
  length, length-append,
}
use mathlib.Core.List.{append_assoc}
use nova64_os.Base.Text.{codes}
use nova64_os.Drivers.Fat32.{
  to_upper, fill_blanks, copy_base, skip_to_dot, copy_extension, after_dot, format_to_fat,
}

-- The number that stands in the second list where `c` stands in the first.
abbrev pub translate : ℕ → List ℕ → List ℕ → ℕ
translate c [] ys = c
translate c (x ∷ xs) [] = c
translate c (x ∷ xs) (y ∷ ys) = let later = translate c xs ys in if c == x then y else later

-- The capital of a small letter; every other character stays.
abbrev pub capital : ℕ → ℕ
capital c = translate c (codes "abcdefghijklmnopqrstuvwxyz") (codes "ABCDEFGHIJKLMNOPQRSTUVWXYZ")

-- The characters before the first dot, and those behind it.
abbrev pub before_dot : List ℕ → List ℕ
before_dot [] = []
before_dot (c ∷ rest) = let later = before_dot rest in if c == 0x2E then [] else c ∷ later

abbrev pub behind_dot : List ℕ → List ℕ
behind_dot [] = []
behind_dot (c ∷ rest) = let later = behind_dot rest in if c == 0x2E then rest else later

-- A field of `n` characters, filled up with blanks.
abbrev pub padded : ℕ → List ℕ → List ℕ
padded n xs = take n xs ++ replicate (n - length (take n xs)) 0x20

-- The successive numbers from `k` on.
abbrev run : ℕ → ℕ → List ℕ
run k zero = []
run k (suc n) = k ∷ run (k + 1) n

translate-run :
    (n c k : ℕ)
    → translate c (run (k + 32) n) (run k n)
      ≡ (if leb (k + 32) c && leb (c + 1) (k + 32 + n) then c - 32 else c)
translate-run zero c k = ground arith
translate-run (suc n) c k =
    ap (λ (x : ℕ). if c == k + 32 then k else translate c (run x n) (run (k + 1) n)) (omega arith)
    ∙ ap (λ (x : ℕ). if c == k + 32 then k else x) (translate-run n c (k + 1))
    ∙ ground arith

to_upper-capital : (c : ℕ) → to_upper c ≡ capital c
unfolding to_upper
to_upper-capital c = sym (translate-run 26 c 65 ∙ ground arith)

map-capital : (xs : List ℕ) → map to_upper xs ≡ map capital xs
map-capital [] = refl
map-capital (x ∷ xs) = ap₂ (λ (y : ℕ) (ys : List ℕ). y ∷ ys) (to_upper-capital x) (map-capital xs)

-- `xs` written over `old` from its start, as far as there is room.
abbrev over : List ℕ → List ℕ → List ℕ
over xs [] = []
over [] (o ∷ old) = o ∷ old
over (x ∷ xs) (o ∷ old) = x ∷ over xs old

length-over : (xs old : List ℕ) → length (over xs old) ≡ length old
length-over xs [] = refl
length-over [] (o ∷ old) = refl
length-over (x ∷ xs) (o ∷ old) = ap suc (length-over xs old)

over-padded : (n : ℕ) (xs : List ℕ) → over xs (replicate n 0x20) ≡ padded n xs
over-padded zero xs = refl
over-padded (suc n) [] =
    let all : suc n ≡ suc n - 0 = omega arith in ap (λ (k : ℕ). replicate k 0x20) all
over-padded (suc n) (x ∷ xs) =
    let left : n - length (take n xs) ≡ suc n - suc (length (take n xs)) = omega arith in
    ap (λ l. x ∷ l) (over-padded n xs) ∙ ap (λ (k : ℕ). x ∷ (take n xs ++ replicate k 0x20)) left

-- Writing the place behind `done` makes that part longer.
set-next :
    (done : List ℕ) (o : ℕ) (rest : List ℕ) (j v : ℕ)
    → j ≡ length done
    → set (done ++ (o ∷ rest)) j v ≡ (done ++ (v ∷ [])) ++ rest
set-next [] o rest zero v e = refl
set-next [] o rest (suc j) v e = absurd (omega arith)
set-next (d ∷ done) o rest zero v e = absurd (omega arith)
set-next (d ∷ done) o rest (suc j) v e = ap (λ l. d ∷ l) (set-next done o rest j v (omega arith))

length-next : (done : List ℕ) (j v : ℕ) → j ≡ length done → j + 1 ≡ length (done ++ (v ∷ []))
length-next done j v e = omega (arith, length-append done (v ∷ []))

fill_blanks_lem :
    (n : ℕ) (done memory : List ℕ) (j : ℕ)
    → j ≡ length done
    → n ≤ length memory
    → fill_blanks n j (done ++ memory) ≡ done ++ (replicate n 0x20 ++ drop n memory)
unfolding fill_blanks
fill_blanks_lem zero done memory j e room = refl
fill_blanks_lem (suc n) done [] j e room = absurd (omega arith)
fill_blanks_lem (suc n) done (o ∷ memory) j e room =
    ap (fill_blanks n (j + 1)) (set-next done o memory j 0x20 e)
    ∙ fill_blanks_lem n (done ++ (0x20 ∷ [])) memory (j + 1) (length-next done j 0x20 e)
        (omega arith)
    ∙ append_assoc done (0x20 ∷ []) _

-- The first copy writes the capitals of the part before the dot over the first field.
copy_base_lem :
    (input done old more : List ℕ) (j : ℕ)
    → j ≡ length done
    → j + length old ≡ 8
    → (copy_base input j (done ++ (old ++ more))).1
      ≡ done ++ (over (map to_upper (before_dot input)) old ++ more)
unfolding copy_base
copy_base_lem [] done [] more j e size = refl
copy_base_lem [] done (o ∷ old) more j e size = refl
copy_base_lem (c ∷ rest) done [] more j e size =
    let full : (c == 0x2E || leb 8 j) ≡ true = ground arith in rw full refl
copy_base_lem (c ∷ rest) done (o ∷ old) more j e size = elim (Bool-cases (c == 0x2E)) [
  | inl dot ↦ rw dot refl
  | inr other ↦
      let room : leb 8 j ≡ false = ground arith in
      rw (other, room)
        (ap (λ (l : List ℕ). (copy_base rest (j + 1) l).1)
            (set-next done o (old ++ more) j (to_upper c) e)
          ∙ copy_base_lem rest (done ++ (to_upper c ∷ [])) old more (j + 1)
              (length-next done j (to_upper c) e) (omega arith)
          ∙ append_assoc done (to_upper c ∷ []) _)
]

-- What it leaves has the same dot.
skip_to_dot-copy_base :
    (input : List ℕ) (j : ℕ) (output : List ℕ)
    → skip_to_dot (copy_base input j output).0 ≡ skip_to_dot input
unfolding copy_base skip_to_dot
skip_to_dot-copy_base [] j output = refl
skip_to_dot-copy_base (c ∷ rest) j output = elim (Bool-cases (c == 0x2E)) [
  | inl dot ↦ rw dot (rw dot refl)
  | inr other ↦ elim (Bool-cases (leb 8 j)) [
    | inl full ↦ rw (other, full) (rw other refl)
    | inr room ↦ rw (other, room) (skip_to_dot-copy_base rest (j + 1) (set output j (to_upper c)))
  ]
]

-- The second copy, over the second field.
copy_extension_lem :
    (input done old more : List ℕ) (j : ℕ)
    → j ≡ length done
    → j + length old ≡ 11
    → copy_extension input j (done ++ (old ++ more))
      ≡ done ++ (over (map to_upper input) old ++ more)
unfolding copy_extension
copy_extension_lem [] done [] more j e size = refl
copy_extension_lem [] done (o ∷ old) more j e size = refl
copy_extension_lem (c ∷ rest) done [] more j e size =
    let full : leb 11 j ≡ true = ground arith in rw full refl
copy_extension_lem (c ∷ rest) done (o ∷ old) more j e size =
    let room : leb 11 j ≡ false = ground arith in
    rw room (
      ap (copy_extension rest (j + 1)) (set-next done o (old ++ more) j (to_upper c) e)
      ∙ copy_extension_lem rest (done ++ (to_upper c ∷ [])) old more (j + 1)
          (length-next done j (to_upper c) e) (omega arith)
      ∙ append_assoc done (to_upper c ∷ []) _)

after_dot-behind_dot :
    (input output : List ℕ)
    → after_dot (skip_to_dot input) output ≡ copy_extension (behind_dot input) 8 output
unfolding skip_to_dot copy_extension
after_dot-behind_dot [] output = refl
after_dot-behind_dot (c ∷ rest) output = elim (Bool-cases (c == 0x2E)) [
  | inl dot ↦ rw dot refl
  | inr other ↦ rw other (after_dot-behind_dot rest output)
]

-- In memory with room for eleven characters `format_to_fat` writes the name in a field of eight and
-- the extension in a field of three: of the part before the first dot the first eight characters, of
-- the part behind it the first three, in capitals and filled up with blanks. The memory behind the
-- eleven characters stays as it was.
pub format_to_fat_lem :
    (input memory : List ℕ)
    → 11 ≤ length memory
    → format_to_fat input memory
      ≡ padded 8 (map capital (before_dot input))
        ++ (padded 3 (map capital (behind_dot input)) ++ drop 11 memory)
unfolding format_to_fat
format_to_fat_lem input memory room =
    let blank : List ℕ = fill_blanks 11 0 memory in
    let more : List ℕ = drop 11 memory in
    let three : List ℕ = replicate 3 0x20 in
    let base : List ℕ = over (map to_upper (before_dot input)) (replicate 8 0x20) in
    let named : (copy_base input 0 blank).1 ≡ base ++ (three ++ more) =
      ap (λ (l : List ℕ). (copy_base input 0 l).1) (fill_blanks_lem 11 [] memory 0 refl room)
      ∙ copy_base_lem input [] (replicate 8 0x20) (three ++ more) 0 refl refl in
    ap (λ (rest : List ℕ). after_dot rest (copy_base input 0 blank).1)
      (skip_to_dot-copy_base input 0 blank)
    ∙ after_dot-behind_dot input (copy_base input 0 blank).1
    ∙ ap (copy_extension (behind_dot input) 8) named
    ∙ copy_extension_lem (behind_dot input) base three more 8
        (sym (length-over (map to_upper (before_dot input)) (replicate 8 0x20))) refl
    ∙ ap₂ (λ (a b : List ℕ). a ++ (b ++ more))
        (over-padded 8 (map to_upper (before_dot input))
          ∙ ap (padded 8) (map-capital (before_dot input)))
        (over-padded 3 (map to_upper (behind_dot input))
          ∙ ap (padded 3) (map-capital (behind_dot input)))
