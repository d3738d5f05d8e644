-- ===== src/Console/Editor/Scancodes.antt =====
-- The bits and the characters of the codes, checked for every byte.
use nova64_os.Base.{
  ℕ, zero, suc, ◌-◌, ◌<◌, ◌≡◌, ◌≢◌, refl, arith, sym, subst, Bool, true, false, ltb, ◌==◌, ◌&&◌,
  ◌||◌, not, if◌then◌else◌, Bool-cases, inl, inr, bit_and,
}
use nova64_os.Console.Keyboard.{key_char}

-- What holds of every number below `n`.
check : (ℕ → Bool) → ℕ → Bool
check test zero = true
check test (suc n) = test n && check test n

check_lem : (test : ℕ → Bool) (n k : ℕ) → check test n ≡ true → k < n → test k ≡ true
unfolding check
check_lem test zero k all lt = absurd (omega arith)
check_lem test (suc n) k all lt = elim (Bool-cases (k == n)) [
  | inl last ↦
      let at : k ≡ n = ground arith in subst (λ (i : ℕ). test i ≡ true) (sym at) (ground arith)
  | inr before ↦ check_lem test n k (ground arith) (ground arith)
]

-- The high bit tells the two halves apart, and the other bits are what is left.
halves : ℕ → Bool
halves k =
    (if ltb k 128 then bit_and k 0x80 == 0 else not (bit_and k 0x80 == 0))
    && (ltb k 128 || bit_and k 0x7F == (k - 128))

-- Only one key gives the line feed.
no_line : ℕ → Bool
no_line k = k == 0x1C || (not (key_char true k == 0x0A) && not (key_char false k == 0x0A))

halves_all : check halves 256 ≡ true
unfolding check halves
halves_all = refl

no_line_all : check no_line 128 ≡ true
unfolding check no_line
no_line_all = refl

pub high_bit : (k : ℕ) → k < 256 → (bit_and k 0x80 == 0) ≡ ltb k 128
unfolding halves
high_bit k lt = let h = check_lem halves 256 k halves_all lt in ground arith

pub low_bits : (k : ℕ) → k < 256 → ltb k 128 ≡ false → bit_and k 0x7F ≡ k - 128
unfolding halves
low_bits k lt up = let h = check_lem halves 256 k halves_all lt in ground arith

pub key_char-line : (shift : Bool) (k : ℕ) → k < 128 → k ≢ 0x1C → (key_char shift k == 0x0A) ≡ false
unfolding no_line
key_char-line true k lt ne = let h = check_lem no_line 128 k no_line_all lt in ground arith
key_char-line false k lt ne = let h = check_lem no_line 128 k no_line_all lt in ground arith
