-- ===== src/Drivers/Screen/Cells.antt =====
-- What stands on the screen after a text was printed or the screen was cleared.
use nova64_os.Base.{
  ℕ, zero, suc, ◌+◌, ◌-◌, ◌*◌, ◌/◌, ◌%◌, ◌≤◌, ◌≡◌, refl, arith, ap, ◌∙◌, ltb, leb, ◌==◌, ◌&&◌,
  if◌then◌else◌, List, [], ◌∷◌, length, get_or,
}
use nova64_os.Drivers.Screen.{Vram, poke, putc, print_from, print, clear_from, clear_screen}

clear_from_lem :
    (n i : ℕ) (vram : Vram) (b : ℕ)
    → i % 2 ≡ 0
    → clear_from n i vram b
      ≡ (if leb i b && ltb b (i + 2 * n) then (if b % 2 == 0 then 0x20 else 0x07) else vram b)
unfolding clear_from
clear_from_lem zero i vram b even = ground arith
clear_from_lem (suc n) i vram b even =
    let ih = clear_from_lem n (i + 2) (poke (i + 1) 0x07 (poke i 0x20 vram)) b (omega arith) in
    ground arith

-- Clearing the screen leaves a blank of colour 7 in each of its 80 times 25 cells, and changes nothing
-- behind them.
pub clear_screen_lem :
    (vram : Vram) (b : ℕ)
    → clear_screen vram b ≡ (if ltb b 4000 then (if b % 2 == 0 then 0x20 else 0x07) else vram b)
unfolding clear_screen
clear_screen_lem vram b = clear_from_lem 2000 0 vram b refl ∙ ground arith

get_or-cons :
    (c : ℕ) (str : List ℕ) (k : ℕ)
    → get_or (c ∷ str) k 0 ≡ (if k == 0 then c else get_or str (k - 1) 0)
get_or-cons c str zero = refl
get_or-cons c str (suc k) = ground arith

print_from_lem :
    (str : List ℕ) (color x y i : ℕ) (vram : Vram) (b : ℕ)
    → x + i + length str ≤ 80
    → print_from str color x y i vram b ≡ (
        if leb ((y * 80 + x + i) * 2) b && ltb b ((y * 80 + x + i + length str) * 2)
        then (if b % 2 == 0 then get_or str (b / 2 - (y * 80 + x + i)) 0 else color)
        else vram b)
unfolding print_from putc
print_from_lem [] color x y i vram b fits = ground arith
print_from_lem (c ∷ str) color x y i vram b fits =
    let next : Vram =
      if leb 80 (x + i)
      then putc c color ((x + i) % 80) (y + 1) vram
      else putc c color (x + i) y vram in
    let ih = print_from_lem str color x y (i + 1) next b (omega arith) in
    let k = b / 2 - (y * 80 + x + i) in
    let later : get_or str (k - 1) 0 ≡ get_or str (b / 2 - (y * 80 + x + (i + 1))) 0 =
      ap (λ (j : ℕ). get_or str j 0) (omega arith) in
    ground (arith, ih, get_or-cons c str k, later)

-- A text that fits in its line stands there after `print`, a cell for each character, in the colour
-- asked for, and nothing else of the screen changes.
pub print_lem :
    (str : List ℕ) (color x y : ℕ) (vram : Vram) (b : ℕ)
    → x + length str ≤ 80
    → print str color x y vram b ≡ (
        if leb ((y * 80 + x) * 2) b && ltb b ((y * 80 + x + length str) * 2)
        then (if b % 2 == 0 then get_or str (b / 2 - (y * 80 + x)) 0 else color)
        else vram b)
unfolding print
print_lem str color x y vram b fits =
    let whole = print_from_lem str color x y 0 vram b (omega arith) in
    let start : get_or str (b / 2 - (y * 80 + x + 0)) 0 ≡ get_or str (b / 2 - (y * 80 + x)) 0 =
      ap (λ (j : ℕ). get_or str j 0) (omega arith) in
    ground (arith, whole, start)
