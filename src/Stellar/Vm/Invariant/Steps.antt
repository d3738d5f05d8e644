-- ===== src/Stellar/Vm/Invariant/Steps.antt =====
-- Every dispatch of `vm_run`, and every run of it, keeps the invariant of the machine.
use nova64_os.Base.{if_both, ℕ, zero, suc, ◌<◌, List, Option, none, some, All}
use nova64_os.Stellar.Fpu.{Fpu, IsFpu, d_one, d_zero, long_add, long_sub, long_mul, rem32}
use nova64_os.Stellar.Fpu.{extend32}
use nova64_os.Stellar.Opcode.{Op, decode}
use nova64_os.Stellar.Vm.{Vm, fetch}
use nova64_os.Stellar.Vm.{number, text}
use nova64_os.Stellar.Vm.Exec.{exec}
use nova64_os.Stellar.Vm.Exec.{Outcome, next, halted, fault, dispatch, step, Result, finished}
use nova64_os.Stellar.Vm.Exec.{run_from, faulted}
use nova64_os.Stellar.Vm.Keeps.{IsVm, Keeps, Any, Post, Keeps-pure, Keeps-bind}
use nova64_os.Stellar.Vm.Keeps.{
  Keeps-of_option, Keeps-fetch, Keeps-jump, Keeps-pop, Keeps-push_value,
}
use nova64_os.Stellar.Vm.Keeps.{Keeps-variable, Keeps-set_variable, Keeps-emit_line}
use nova64_os.Stellar.Vm.Keeps.{Keeps-next_input}
use nova64_os.Stellar.Vm.Invariant.{Keeps-fetch_word, Keeps-fetch_address, Keeps-binary}
use nova64_os.Stellar.Vm.Invariant.{Keeps-update_variable, Keeps-combine_variables}
use nova64_os.Stellar.Vm.Invariant.{Keeps-combine_constant, Keeps-compare, long_add-IsWord}
use nova64_os.Stellar.Vm.Invariant.{long_sub-IsWord, long_mul-IsWord, Keeps-string_at}
use nova64_os.Stellar.Vm.Invariant.{Keeps-array_make, Keeps-array_set, Keeps-array_get}

-- Where a dispatch or a run ends in a machine, it is one that meets the invariant.
abbrev pub After : List ℕ → ℕ → Outcome → Type 0
After code size (next vm) = IsVm code size vm
After code size (halted vm) = IsVm code size vm
After code size fault = Unit

abbrev pub Finishes : List ℕ → ℕ → Result → Type 0
Finishes code size (finished vm) = IsVm code size vm
Finishes code size _ = Unit

module _ (code : List ℕ) (size : ℕ) (bytes : All (λ b. b < 256) code) (fpu : Fpu)
    (fit : IsFpu fpu) where
  Keeps-exec : (op : Op) → Keeps code size Any (exec fpu op)
  unfolding exec
  Keeps-exec Op.halt = Keeps-pure code size Any tt tt
  Keeps-exec Op.push =
      Keeps-bind code size (Keeps-fetch_word code size bytes)
        (λ v h. Keeps-push_value code size v h)
  Keeps-exec Op.add = Keeps-binary code size bytes fpu.add fit.add_fits
  Keeps-exec Op.sub = Keeps-binary code size bytes fpu.sub fit.sub_fits
  Keeps-exec Op.mul = Keeps-binary code size bytes fpu.mul fit.mul_fits
  Keeps-exec Op.div = Keeps-binary code size bytes fpu.div fit.div_fits
  Keeps-exec Op.mod_op = Keeps-bind code size (Keeps-pop code size) (λ b hb.
      Keeps-bind code size (Keeps-pop code size) (λ a ha.
        Keeps-bind code size {Q = Any}
          (Keeps-of_option code size (rem32 (fpu.to_int a) (fpu.to_int b)))
          (λ r hr.
            Keeps-push_value code size (fpu.of_long (extend32 r)) (fit.of_long_fits (extend32 r)))))
  Keeps-exec Op.cmp_eq = Keeps-compare code size bytes _
  Keeps-exec Op.cmp_neq = Keeps-compare code size bytes _
  Keeps-exec Op.cmp_lt = Keeps-compare code size bytes _
  Keeps-exec Op.cmp_gt = Keeps-compare code size bytes _
  Keeps-exec Op.cmp_gte = Keeps-compare code size bytes _
  Keeps-exec Op.cmp_lte = Keeps-compare code size bytes _
  Keeps-exec Op.jz = Keeps-bind code size (Keeps-fetch_address code size bytes) (λ address l.
      Keeps-bind code size (Keeps-pop code size) (λ v h.
        if_both (Keeps code size Any) (fpu.eq v d_zero) (λ taken. Keeps-jump code size address)
          (λ on. Keeps-pure code size Any tt tt)))
  Keeps-exec Op.jmp =
      Keeps-bind code size (Keeps-fetch_address code size bytes)
        (λ address l. Keeps-jump code size address)
  Keeps-exec Op.store = Keeps-bind code size (Keeps-fetch code size) (λ i l.
      Keeps-bind code size (Keeps-pop code size) (λ v h. Keeps-set_variable code size i v h))
  Keeps-exec Op.load = Keeps-bind code size (Keeps-fetch code size) (λ i l.
      Keeps-bind code size (Keeps-variable code size i) (λ v h. Keeps-push_value code size v h))
  Keeps-exec Op.inc = Keeps-update_variable code size bytes _ (λ a. fit.add_fits a d_one)
  Keeps-exec Op.dec = Keeps-update_variable code size bytes _ (λ a. fit.sub_fits a d_one)
  Keeps-exec Op.add_var = Keeps-combine_variables code size bytes fpu.add fit.add_fits
  Keeps-exec Op.sub_var = Keeps-combine_variables code size bytes fpu.sub fit.sub_fits
  Keeps-exec Op.mul_var = Keeps-combine_variables code size bytes fpu.mul fit.mul_fits
  Keeps-exec Op.add_const = Keeps-combine_constant code size bytes fpu.add fit.add_fits
  Keeps-exec Op.sub_const = Keeps-combine_constant code size bytes fpu.sub fit.sub_fits
  Keeps-exec Op.mul_const = Keeps-combine_constant code size bytes fpu.mul fit.mul_fits
  Keeps-exec Op.load_i = Keeps-bind code size (Keeps-fetch code size) (λ i l.
      Keeps-bind code size (Keeps-variable code size i)
        (λ v h. Keeps-push_value code size (fpu.of_long v) (fit.of_long_fits v)))
  Keeps-exec Op.store_i = Keeps-bind code size (Keeps-fetch code size) (λ i l.
      Keeps-bind code size (Keeps-pop code size)
        (λ v h. Keeps-set_variable code size i (fpu.to_long v) (fit.to_long_fits v)))
  Keeps-exec Op.inc_i =
      Keeps-update_variable code size bytes _ (λ a. (long_add-IsWord code size bytes) a 1)
  Keeps-exec Op.dec_i =
      Keeps-update_variable code size bytes _ (λ a. (long_sub-IsWord code size bytes) a 1)
  Keeps-exec Op.add_var_i =
      Keeps-combine_variables code size bytes long_add (long_add-IsWord code size bytes)
  Keeps-exec Op.sub_var_i =
      Keeps-combine_variables code size bytes long_sub (long_sub-IsWord code size bytes)
  Keeps-exec Op.mul_var_i =
      Keeps-combine_variables code size bytes long_mul (long_mul-IsWord code size bytes)
  Keeps-exec Op.add_const_i =
      Keeps-combine_constant code size bytes long_add (long_add-IsWord code size bytes)
  Keeps-exec Op.sub_const_i =
      Keeps-combine_constant code size bytes long_sub (long_sub-IsWord code size bytes)
  Keeps-exec Op.mul_const_i =
      Keeps-combine_constant code size bytes long_mul (long_mul-IsWord code size bytes)
  Keeps-exec Op.print =
      Keeps-bind code size (Keeps-pop code size) (λ v h. Keeps-emit_line code size (number v))
  Keeps-exec Op.push_str =
      Keeps-bind code size (Keeps-fetch_address code size bytes)
        (λ a l. Keeps-push_value code size (fpu.of_long a) (fit.of_long_fits a))
  Keeps-exec Op.print_str = Keeps-bind code size (Keeps-pop code size) (λ v h.
      Keeps-bind code size (Keeps-string_at code size bytes (fpu.to_int v))
        (λ s l. Keeps-emit_line code size (text s)))
  Keeps-exec Op.array_make = Keeps-array_make code size bytes fpu fit
  Keeps-exec Op.array_set = Keeps-array_set code size bytes fpu fit
  Keeps-exec Op.array_get = Keeps-array_get code size bytes fpu fit
  Keeps-exec Op.input =
      Keeps-bind code size (Keeps-next_input code size) (λ v h. Keeps-push_value code size v h)
  Keeps-exec Op.else_op = Keeps-pure code size Any tt tt
  Keeps-exec Op.else_if = Keeps-pure code size Any tt tt

  After-next :
      (o : Option (Unit {0} × Vm))
      → Post code size Any o
      → After code size (elim o [ none ↦ fault | some (_, vm') ↦ next vm' ])
  After-next none h = tt
  After-next (some (u, vm)) h = h.1

  After-dispatch : (op : Op) (vm : Vm) → IsVm code size vm → After code size (dispatch fpu op vm)
  unfolding dispatch
  After-dispatch Op.halt vm ok = assumption
  After-dispatch op vm ok = After-next (exec fpu op vm) ((Keeps-exec op).keeps vm ok)

  After-step : (vm : Vm) → IsVm code size vm → After code size (step fpu vm)
  unfolding step
  After-step vm ok = fetched (fetch vm) ((Keeps-fetch code size).keeps vm ok)
    where
      decoded :
          (o : Option Op) (vm' : Vm)
          → IsVm code size vm'
          → After code size (elim o [ none ↦ fault | some op ↦ dispatch fpu op vm' ])
      decoded none vm' ok' = tt
      decoded (some op) vm' ok' = After-dispatch op vm' ok'

      fetched :
          (o : Option (ℕ × Vm))
          → Post code size Any o
          → After code size (elim o [
            | none ↦ fault
            | some (byte, vm') ↦ elim (decode byte) [ none ↦ fault | some op ↦ dispatch fpu op vm' ]
          ])
      fetched none h = tt
      fetched (some (byte, vm')) h = decoded (decode byte) vm' h.1

  pub Finishes-run_from :
      (fuel : ℕ) (vm : Vm) → IsVm code size vm → Finishes code size (run_from fpu fuel vm)
  unfolding run_from
  Finishes-run_from zero vm ok = tt
  Finishes-run_from (suc fuel) vm ok =
      stepped (step fpu vm) (After-step vm ok) (Finishes-run_from fuel)
    where
      stepped :
          (o : Outcome)
          → After code size o
          → ((vm' : Vm) → IsVm code size vm' → Finishes code size (run_from fpu fuel vm'))
          → Finishes code size (elim o [
            | next vm' ↦ run_from fpu fuel vm'
            | halted vm' ↦ finished vm'
            | fault ↦ faulted
          ])
      stepped (next vm') h rest = rest vm' h
      stepped (halted vm') h rest = h
      stepped fault h rest = tt
