-- ===== src/Drivers/Screen/Tests.antt =====
-- A text on the last cells of a line, and numbers as text.
use nova64_os.Base.{
  ◌+◌, ◌-◌, ◌*◌, ◌/◌, ◌%◌, ◌≡◌, refl, arith, ltb, leb, ◌==◌, ◌&&◌, if◌then◌else◌, length, get_or,
}
use nova64_os.Base.Text.{codes}
use nova64_os.Drivers.Screen.{print, itoa}
use nova64_os.Drivers.Screen.Cells.{print_lem}

-- The colour of the last character of "ok" at the end of line 1.
print_lem_example : print (codes "ok") 0x0A 78 1 (λ b. 0) 319 ≡ (
    if leb ((1 * 80 + 78) * 2) 319 && ltb 319 ((1 * 80 + 78 + length (codes "ok")) * 2)
    then (if 319 % 2 == 0 then get_or (codes "ok") (319 / 2 - (1 * 80 + 78)) 0 else 0x0A)
    else 0)
print_lem_example = print_lem (codes "ok") 0x0A 78 1 (λ b. 0) 319 (omega arith)

itoa_128 : itoa 128 ≡ codes "128"
unfolding itoa
itoa_128 = refl
