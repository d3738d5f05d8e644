-- ===== src/Utils/Strings/Atof.antt =====
-- `atof` of src/utils/string.c, over the doubles of the processor.
use nova64_os.Base.{ℕ, ◌-◌, Bool, true, false, leb, ◌==◌, ◌&&◌, if◌then◌else◌, List, [], ◌∷◌}
use nova64_os.Stellar.Fpu.{Fpu, d_zero, d_one}

-- 10.0 and -1.0.
abbrev pub d_ten : ℕ
d_ten = 0x4024000000000000

abbrev pub d_minus_one : ℕ
d_minus_one = 0xBFF0000000000000

module _ (fpu : Fpu) where
  -- The loop, with `res`, `fact` and `point_seen`.
  unfoldable pub atof_from : List ℕ → ℕ → ℕ → Bool → ℕ
  atof_from [] res fact point_seen = fpu.mul res fact
  atof_from (c ∷ s) res fact point_seen =
      let is_point = c == 0x2E in
      let is_digit = leb 0x30 c && leb c 0x39 in
      let digit_fact = if point_seen then fpu.div fact d_ten else fact in
      let digit_res = fpu.add (fpu.mul res d_ten) (fpu.of_long (c - 0x30)) in
      atof_from s (if is_point then res else if is_digit then digit_res else res)
        (if is_point then fact else if is_digit then digit_fact else fact)
        (if is_point then true else point_seen)

  unfoldable pub atof : List ℕ → ℕ
  unfolding atof_from
  atof [] = atof_from [] d_zero d_one false
  atof (c ∷ s) =
      if c == 0x2D
      then atof_from s d_zero d_minus_one false
      else atof_from (c ∷ s) d_zero d_one false
