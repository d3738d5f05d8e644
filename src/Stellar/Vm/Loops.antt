-- ===== src/Stellar/Vm/Loops.antt =====
-- Jumps of `vm_run` (src/stellar/stellar.c) at work: a loop on two `long` variables.
use nova64_os.Base.{
  ℕ, zero, suc, ◌+◌, ◌/◌, ◌%◌, ◌^◌, ◌≤◌, ◌<◌, ◌≡◌, ◌≢◌, ◌==◌, if◌then◌else◌, List, [], ◌∷◌, some,
  get_elem?,
}
use nova64_os.Stellar.Fpu.{Fpu, d_zero}
use nova64_os.Stellar.Opcode.{Op, opcode}
use nova64_os.Stellar.Vm.{Vm, M, pure, ◌>>=◌, fetch_address, jump, pop}
use nova64_os.Stellar.Vm.Run.{steps}

-- `LOAD_I i; JZ exit; ADD_VAR_I s i; DEC_I i; JMP top`, which stands at `top`.
abbrev pub sum_loop : ℕ → ℕ → ℕ → ℕ → List ℕ
sum_loop top exit i s =
    opcode Op.load_i
    ∷ i
    ∷ opcode Op.jz
    ∷ exit % 256
    ∷ exit / 256
    ∷ opcode Op.add_var_i
    ∷ s
    ∷ i
    ∷ opcode Op.dec_i
    ∷ i
    ∷ opcode Op.jmp
    ∷ top % 256
    ∷ top / 256
    ∷ []

-- 1 + 2 + ... + k.
abbrev pub sum_to : ℕ → ℕ
sum_to zero = 0
sum_to (suc k) = suc k + sum_to k

module _ (fpu : Fpu) where
  abbrev jz_as : M (Unit {0})
  jz_as = do address ← fetch_address; v ← pop; if fpu.eq v d_zero then jump address else pure tt

  abbrev jmp_as : M (Unit {0})
  jmp_as = do address ← fetch_address; jump address

  -- Casting a `long` that a double can hold exactly and comparing with 0.0 tells whether it is 0.
  abbrev pub TestsZero : Type 0
  TestsZero = (k : ℕ) → k ≤ 2 ^ 53 → fpu.eq (fpu.of_long k) d_zero ≡ (k == 0)

  -- `n` dispatches from `vm` lead to `exit`, with `i` at 0 and `s` at `total`; the other variables, the
  -- code, the stack pointer and the values on the stack are as they were.
  abbrev pub Leaves : Vm → ℕ → ℕ → ℕ → ℕ → ℕ → Type 0
  Leaves vm n exit i s total =
      (v : Vm) × (steps fpu n vm ≡ some v)
      × (v.pc ≡ exit)
      × (get_elem? v.variables i ≡ some 0)
      × (get_elem? v.variables s ≡ some total)
      × ((j : ℕ) → i ≢ j → s ≢ j → get_elem? v.variables j ≡ get_elem? vm.variables j)
      × ((v.code ≡ vm.code) × (v.sp ≡ vm.sp))
      × ((j : ℕ) → j < vm.sp → get_elem? v.stack j ≡ get_elem? vm.stack j)
