-- ===== src/Stellar/Vm/Tests.antt =====
-- Programs run on the machine, with a toy arithmetic in which a double is a whole number.
use nova64_os.Base.{ℕ, ◌+◌, ◌-◌, ◌*◌, ◌/◌, ◌%◌, ◌^◌, ◌≡◌, refl, arith, true, ltb, ◌==◌}
use nova64_os.Base.{List, [], ◌∷◌, Option, none, some, replicate}
use nova64_os.Bits.{u64, u32}
use nova64_os.Stellar.Fpu.{Fpu, IsFpu, long_sub}
use nova64_os.Stellar.Vm.{Vm, vm_init, Line, number}
use nova64_os.Stellar.Vm.{
  fetch_word, push_value, pop, set_variable, variable, fetch_address, emit_line, jump,
}
use nova64_os.Stellar.Vm.Exec.{Result, finished, vm_run}
use nova64_os.Base.{◌↔◌}
use nova64_os.Stellar.Opcode.{Op, decode, opcode, decode-opcode_iff}
use nova64_os.Stellar.Vm.Fused.{stack_code}
use nova64_os.Stellar.Vm.Fused.Equivalence.{
  SameEffect, FusedDouble, fused_double, IsExact, FusedWhole, SameResult, fused_whole,
}

-- A double is the whole number that its bits are, modulo 2 ^ 64, but for 1.0 and 0.5.
abbrev pub toy : Fpu
toy = record {
  add = λ a b. u64 (a + b);
  sub = λ a b. u64 (a + 2 ^ 64 - b % 2 ^ 64);
  mul = λ a b. u64 (a * b);
  div = λ a b. u64 (a / b);
  eq = λ a b. a == b;
  lt = λ a b. ltb a b;
  of_long = λ a. u64 a;
  to_long = λ a. u64 a;
  to_int = λ a. u32 a;
}

pub toy-IsFpu : IsFpu toy
toy-IsFpu = record {
  add_fits = λ a b. omega arith;
  sub_fits = λ a b. omega arith;
  mul_fits = λ a b. omega arith;
  div_fits = λ a b. omega arith;
  of_long_fits = λ a. omega arith;
  to_long_fits = λ a. omega arith;
  to_int_fits = λ a. omega arith;
}

abbrev pub output_of : Result → Option (List Line)
output_of (finished vm) = some vm.output
output_of _ = none

-- int x; x = 5; while (x) { print x; x -= 1 } with the toy numbers: 5, 4, 3, 2, 1.
abbrev countdown : List ℕ
countdown =
    0x01 ∷ 5 ∷ 0 ∷ 0 ∷ 0 ∷ 0 ∷ 0 ∷ 0 ∷ 0 ∷ 0x22 ∷ 0 ∷ 0x23 ∷ 0 ∷ 0x0C ∷ 24 ∷ 0 ∷ 0x23 ∷ 0 ∷ 0x06
    ∷ 0x25 ∷ 0 ∷ 0x0D ∷ 11 ∷ 0 ∷ 0x00 ∷ []

countdown_prints :
    output_of (vm_run toy 40 (vm_init countdown (replicate 8 0) [] []))
    ≡ some (number 5 ∷ number 4 ∷ number 3 ∷ number 2 ∷ number 1 ∷ [])
unfolding vm_run vm_init fetch_word push_value pop set_variable variable fetch_address emit_line
    jump long_sub
countdown_prints = refl

-- A machine at the start of `code` with 7 and 3 in its first variables.
abbrev ready : List ℕ → Vm
ready code = record {
  code = code;
  stack = replicate 4 0;
  variables = 7 ∷ 3 ∷ [];
  pc = 0;
  sp = 1;
  running = true;
  cells = λ a. none;
  mallocs = [];
  inputs = [];
  output = [];
}

abbrev fused_code : Op → List ℕ
fused_code op = opcode op ∷ 0 ∷ 1 ∷ []

fused_double_example :
    SameEffect toy toy.mul
      (ready (fused_code Op.mul_var))
      (ready (stack_code Op.load Op.mul Op.store 0 1))
      0
      1
fused_double_example =
    fused_double toy (ready (fused_code Op.mul_var))
      (ready (stack_code Op.load Op.mul Op.store 0 1)) 0 1 FusedDouble.multiplies
      (refl, (refl, (refl, tt))) (refl, (refl, (refl, (refl, (refl, (refl, (refl, tt))))))) refl
      (omega arith) (omega arith) (omega arith)

-- A toy double of a small whole number is that number.
toy-IsExact : IsExact toy (λ n. n)
toy-IsExact = record {
  of_long_exact = λ n h. omega arith;
  to_long_exact = λ n h. omega arith;
  add_exact = λ a b h. omega arith;
  sub_exact = λ a b h k. omega arith;
  mul_exact = λ a b h. omega arith;
}

fused_whole_example :
    SameResult toy
      (ready (fused_code Op.mul_var_i))
      (ready (stack_code Op.load_i Op.mul Op.store_i 0 1))
      0
      21
fused_whole_example =
    fused_whole toy (λ n. n) (ready (fused_code Op.mul_var_i))
      (ready (stack_code Op.load_i Op.mul Op.store_i 0 1)) 0 1 7 3 21 toy-IsExact
      (FusedWhole.multiplies 7 3) (refl, (refl, (refl, tt)))
      (refl, (refl, (refl, (refl, (refl, (refl, (refl, tt))))))) refl refl refl (omega arith)
      (omega arith) (omega arith) (omega arith)

decode-opcode_iff_example : (decode 0x2B ≡ some Op.mul_const_i) ↔ (0x2B ≡ opcode Op.mul_const_i)
decode-opcode_iff_example = decode-opcode_iff Op.mul_const_i 0x2B
