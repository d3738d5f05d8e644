-- ===== src/Stellar/Vm/Run.antt =====
-- Several dispatches of `vm_run` (src/stellar/stellar.c) in a row, and what a run keeps.
use mathlib.Core.Option
use mathlib.Core.Option.{some-injective}
use nova64_os.Base.{ℕ, zero, suc, ◌+◌, ◌≡◌, refl, arith, ap, List, [], ◌∷◌, Option, none, some}
use nova64_os.Base.{get_elem?, All, length, ◌<◌, length-replicate, All-replicate}
use nova64_os.Stellar.Fpu.{Fpu, IsFpu}
use nova64_os.Stellar.Opcode.{Op, decode}
use nova64_os.Stellar.Vm.{Vm, vm_init, fetch}
use nova64_os.Stellar.Vm.Exec.{next, halted, fault, dispatch, step}
use nova64_os.Stellar.Vm.Exec.{vm_run}
use nova64_os.Stellar.Vm.Keeps.{IsWord}
use nova64_os.Stellar.Vm.Invariant.Steps.{Finishes, Finishes-run_from}

-- The bytes `bs` stand in `code` from `pc` on.
abbrev pub At : List ℕ → ℕ → List ℕ → Type 0
At code pc [] = Unit
At code pc (b ∷ bs) = (get_elem? code pc ≡ some b) × At code (pc + 1) bs

pub fetch-at :
    (vm : Vm) (byte : ℕ)
    → get_elem? vm.code vm.pc ≡ some byte
    → fetch vm ≡ some (byte, record vm { pc = vm.pc + 1 })
unfolding fetch
fetch-at vm byte here =
    ap (λ (o : Option ℕ). Option.map (λ byte. (byte, record vm { pc = vm.pc + 1 })) o) here

module _ (fpu : Fpu) where
  -- The machine after `n` dispatches that each lead to the next.
  unfoldable pub steps : ℕ → Vm → Option Vm
  steps zero vm = some vm
  steps (suc n) vm = elim (step fpu vm) [
    | next vm' ↦ steps n vm'
    | halted vm' ↦ none
    | fault ↦ none
  ]

  pub steps-next :
      (n : ℕ) (vm : Vm) {vm' : Vm} → step fpu vm ≡ next vm' → steps (suc n) vm ≡ steps n vm'
  unfolding steps
  steps-next n vm e = rw (e, steps)

  -- A dispatch is that of the byte at the counter.
  pub step-dispatch :
      (vm : Vm) (byte : ℕ) (op : Op)
      → get_elem? vm.code vm.pc ≡ some byte
      → decode byte ≡ some op
      → step fpu vm ≡ dispatch fpu op (record vm { pc = vm.pc + 1 })
  unfolding step
  step-dispatch vm byte op here named = rw (fetch-at vm byte here, step) (rw (named, step))

-- A run from the start, however long, of a code of bytes, where the stack, the addresses that `malloc`
-- gives, the numbers read and the results of the arithmetic are all 64 bits wide (and an `int` 32): if
-- it ends without a fault, it ends with the code as it was, the stack of the same size and used no
-- further than that, 256 variables, and every value 64 bits wide.
pub vm_run-IsVm :
    (fpu : Fpu) (code stack mallocs inputs : List ℕ) (fuel : ℕ)
    → IsFpu fpu
    → All (λ b. b < 256) code
    → All IsWord stack
    → All IsWord mallocs
    → All IsWord inputs
    → Finishes code (length stack) (vm_run fpu fuel (vm_init code stack mallocs inputs))
unfolding vm_run vm_init
vm_run-IsVm fpu code stack mallocs inputs fuel fit bytes words addresses numbers =
    Finishes-run_from code (length stack) bytes fpu fit fuel _ (record {
      same_code = refl;
      same_size = refl;
      depth = omega arith;
      count = length-replicate {A = ℕ} 256 0;
      stack_words = words;
      variable_words = All-replicate IsWord 256 0 (omega arith);
      cell_words = λ a v e. cc;
      malloc_words = addresses;
      input_words = numbers;
    })
