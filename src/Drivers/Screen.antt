-- ===== src/Drivers/Screen.antt =====
-- src/drivers/VGA/videodriver.c. The memory of the screen is a function from the distance to its
-- start; a cell is a character and, behind it, its colour.
pub mod Cells
pub mod Decimal
mod Tests
use nova64_os.Base.{
  ℕ, zero, suc, ◌+◌, ◌-◌, ◌*◌, ◌/◌, ◌%◌, ◌^◌, Bool, true, false, ltb, leb, ◌==◌, if◌then◌else◌,
  List, [], ◌∷◌, ◌++◌, length, set, get_or,
}

abbrev pub Vram : Type 0
Vram = ℕ → ℕ

-- `vram[offset] = v`.
abbrev pub poke : ℕ → ℕ → Vram → Vram
poke offset v vram b = if b == offset then v else vram b

unfoldable pub putc : ℕ → ℕ → ℕ → ℕ → Vram → Vram
putc letter color x y vram =
    let offset = (y * 80 + x) * 2 in poke (offset + 1) color (poke offset letter vram)

-- `print` from the character `i` of its text on.
unfoldable pub print_from : List ℕ → ℕ → ℕ → ℕ → ℕ → Vram → Vram
unfolding putc
print_from [] color x y i vram = vram
print_from (c ∷ str) color x y i vram = print_from str color x y (i + 1) (
    if leb 80 (x + i)
    then putc c color ((x + i) % 80) (y + 1) vram
    else putc c color (x + i) y vram)

unfoldable pub print : List ℕ → ℕ → ℕ → ℕ → Vram → Vram
unfolding print_from
print str color x y vram = print_from str color x y 0 vram

-- The loop of `clear_screen`, with the rounds left.
unfoldable pub clear_from : ℕ → ℕ → Vram → Vram
clear_from zero i vram = vram
clear_from (suc n) i vram = clear_from n (i + 2) (poke (i + 1) 0x07 (poke i 0x20 vram))

unfoldable pub clear_screen : Vram → Vram
unfolding clear_from
clear_screen vram = clear_from 2000 0 vram

-- The characters of a number, the last digit first; as many rounds as `n` are enough.
unfoldable pub digits_from : ℕ → ℕ → List ℕ
digits_from zero n = []
digits_from (suc fuel) n =
    let rest = digits_from fuel (n / 10) in if n == 0 then [] else (n % 10 + 0x30) ∷ rest

-- `while (start < end)`: the two ends change places; half the length is enough rounds.
unfoldable pub swap_from : ℕ → ℕ → ℕ → List ℕ → List ℕ
swap_from zero start end str = str
swap_from (suc fuel) start end str =
    let rest =
      swap_from fuel (start + 1) (end - 1)
        (set (set str start (get_or str end 0)) end (get_or str start 0)) in
    if ltb start end then rest else str

-- An `int` is its 32 bits; a negative one gives the empty text. The text without its terminator.
unfoldable pub itoa : ℕ → List ℕ
unfolding digits_from swap_from
itoa n =
    let digits = digits_from n n in
    if n == 0
    then 0x30 ∷ []
    else if ltb n (2 ^ 31)
    then swap_from (length digits) 0 (length digits - 1) digits
    else []

unfoldable pub print_int : ℕ → ℕ → ℕ → ℕ → Vram → Vram
unfolding itoa print
print_int n color x y vram = print (itoa n) color x y vram

unfoldable pub draw_cursor : ℕ → ℕ → Bool → Vram → Vram
unfolding putc
draw_cursor x y show vram = if show then putc 0x7C 0x0F x y vram else putc 0x20 0x0F x y vram
