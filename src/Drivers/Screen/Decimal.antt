-- ===== src/Drivers/Screen/Decimal.antt =====
-- The decimal text of a number.
use nova64_os.Base.{
  ℕ, zero, suc, ◌+◌, ◌-◌, ◌*◌, ◌/◌, ◌≤◌, ◌≡◌, refl, arith, ◌==◌, List, [], ◌∷◌, ◌++◌, length,
  get_or, All, Bool-cases, inl, inr,
}
use nova64_os.Drivers.Screen.{digits_from}

-- The number that a text of decimal digits stands for.
abbrev pub decimal : ℕ → List ℕ → ℕ
decimal v [] = v
decimal v (c ∷ str) = decimal (v * 10 + (c - 0x30)) str

abbrev pub IsDigit : ℕ → Type 0
IsDigit c = (0x30 ≤ c) × (c ≤ 0x39)

-- The number of a text with its last digit first.
abbrev value : List ℕ → ℕ
value [] = 0
value (c ∷ str) = (c - 0x30) + 10 * value str

All-digits_from : (fuel n : ℕ) → All IsDigit (digits_from fuel n)
unfolding digits_from
All-digits_from zero n = tt
All-digits_from (suc fuel) n = elim (Bool-cases (n == 0)) [
  | inl is_zero ↦ rw is_zero tt
  | inr more ↦ rw more ((omega arith, omega arith), All-digits_from fuel (n / 10))
]

abbrev turned : List ℕ → List ℕ
turned [] = []
turned (c ∷ str) = turned str ++ (c ∷ [])

get_or_ge : (str : List ℕ) (j : ℕ) → length str ≤ j → get_or str j 0 ≡ 0
get_or_ge [] j h = refl
get_or_ge (c ∷ str) zero h = absurd (omega arith)
get_or_ge (c ∷ str) (suc j) h = get_or_ge str j (omega arith)
