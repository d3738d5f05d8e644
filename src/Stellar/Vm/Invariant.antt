-- ===== src/Stellar/Vm/Invariant.antt =====
-- The shapes of operation that `vm_run` is made of keep the invariant of the machine.
pub mod Steps
use native.Mathlib.Nat.{pow-suc}
use mathlib.Core.Option
use nova64_os.Base.{
  if_both, ℕ, zero, suc, ◌+◌, ◌*◌, ◌^◌, ◌≤◌, ◌<◌, ◌≡◌, refl, arith, List, Option, none, some, All,
}
use nova64_os.Base.{
  length, Bool, true, false, not, ◌||◌, if◌then◌else◌, All-get_elem?, get_elem?, sym, subst,
}
use nova64_os.Base.{ltb, ◌==◌, bit_or, [], replicate, length-replicate, All-replicate}
use nova64_os.Bits.{u64, ◌<<<◌}
use nova64_os.Stellar.Fpu.{Fpu, IsFpu, d_one, d_zero, d_half, long_add, long_sub, long_mul, rem32}
use nova64_os.Stellar.Fpu.{extend32}
use nova64_os.Stellar.Opcode
use nova64_os.Stellar.Opcode.{Op, decode}
use nova64_os.Stellar.Vm.{
  Vm, M, pure, ◌>>=◌, ◌>>◌, fetch, fetch_bytes, fetch_word, fetch_address, Line,
}
use nova64_os.Stellar.Vm.{jump, number, text, vm_init, of_option, c_string}
use nova64_os.Stellar.Vm.Exec.{
  binary, truth, compare_op, update_variable, combine_variables, element,
}
use nova64_os.Stellar.Vm.Exec.{combine_constant, exec, array_make, array_set, array_get, string_at}
use nova64_os.Stellar.Vm.Exec.{Outcome, next, halted, fault, dispatch, step, Result, finished}
use nova64_os.Stellar.Vm.Exec.{run_from, vm_run, faulted, out_of_fuel}
use nova64_os.Stellar.Vm.Keeps.{IsWord, IsVm, Keeps, Any, Post, Keeps-pure, Keeps-bind}
use nova64_os.Stellar.Vm.Keeps.{
  Keeps-of_option, Keeps-fetch, Keeps-jump, Keeps-pop, Keeps-push_value,
}
use nova64_os.Stellar.Vm.Keeps.{
  Keeps-variable, Keeps-set_variable, Keeps-emit_line, Keeps-load_cell,
}
use nova64_os.Stellar.Vm.Keeps.{
  Keeps-store_cell, Keeps-next_malloc, Keeps-next_input, Keeps-map_block,
}

-- A word-valued operation on doubles or longs.
abbrev pub Fits₂ : (ℕ → ℕ → ℕ) → Type 0
Fits₂ f = (a b : ℕ) → IsWord (f a b)

module _ (code : List ℕ) (size : ℕ) (bytes : All (λ b. b < 256) code) where
  Keeps-fetch_byte : Keeps code size (λ b. b < 256) fetch
  unfolding fetch
  Keeps-fetch_byte = record {
    keeps = λ vm ok. from_code vm ok (get_elem? vm.code vm.pc) (λ b e.
        All-get_elem? (λ b. b < 256) code vm.pc bytes
          (subst (λ c. get_elem? c vm.pc ≡ some b) ok.same_code e));
  }
    where
      from_code :
          (vm : Vm) (ok : IsVm code size vm) (o : Option ℕ)
          → ((b : ℕ) → o ≡ some b → b < 256)
          → Post code size
              (λ b. b < 256)
              (Option.map (λ byte. (byte, record vm { pc = vm.pc + 1 })) o)
      from_code vm ok none h = tt
      from_code vm ok (some b) h = (h b refl, (assumption))

  Keeps-fetch_bytes : (n : ℕ) → Keeps code size (λ v. v < 256 ^ n) (fetch_bytes n)
  unfolding fetch_bytes
  Keeps-fetch_bytes zero = Keeps-pure code size (λ v. v < 256 ^ 0) 0 (omega arith)
  Keeps-fetch_bytes (suc n) = Keeps-bind code size Keeps-fetch_byte (λ low l.
      Keeps-bind code size (Keeps-fetch_bytes n) (λ high h.
        Keeps-pure code size (λ v. v < 256 ^ suc n) (low + 256 * high)
          (omega (arith, pow-suc 256 n))))

  pub Keeps-fetch_word : Keeps code size IsWord fetch_word
  unfolding fetch_word
  Keeps-fetch_word = Keeps-fetch_bytes 8

  pub Keeps-fetch_address : Keeps code size Any fetch_address
  unfolding fetch_address
  Keeps-fetch_address = Keeps-bind code size (Keeps-fetch code size) (λ low l.
      Keeps-bind code size (Keeps-fetch code size) (λ high h. Keeps-pure code size Any _ tt))

  pub Keeps-binary : (f : ℕ → ℕ → ℕ) → Fits₂ f → Keeps code size Any (binary f)
  Keeps-binary f fits = Keeps-bind code size (Keeps-pop code size) (λ b hb.
      Keeps-bind code size (Keeps-pop code size)
        (λ a ha. Keeps-push_value code size (f a b) (fits a b)))

  pub Keeps-update_variable :
      (f : ℕ → ℕ) → ((a : ℕ) → IsWord (f a)) → Keeps code size Any (update_variable f)
  Keeps-update_variable f fits = Keeps-bind code size (Keeps-fetch code size) (λ i l.
      Keeps-bind code size (Keeps-variable code size i)
        (λ v h. Keeps-set_variable code size i (f v) (fits v)))

  pub Keeps-combine_variables :
      (f : ℕ → ℕ → ℕ) → Fits₂ f → Keeps code size Any (combine_variables f)
  Keeps-combine_variables f fits = Keeps-bind code size (Keeps-fetch code size) (λ d l.
      Keeps-bind code size (Keeps-fetch code size) (λ s l.
        Keeps-bind code size (Keeps-variable code size d) (λ v h.
          Keeps-bind code size (Keeps-variable code size s)
            (λ w g. Keeps-set_variable code size d (f v w) (fits v w)))))

  pub Keeps-combine_constant : (f : ℕ → ℕ → ℕ) → Fits₂ f → Keeps code size Any (combine_constant f)
  Keeps-combine_constant f fits = Keeps-bind code size (Keeps-fetch code size) (λ i l.
      Keeps-bind code size Keeps-fetch_word (λ c l.
        Keeps-bind code size (Keeps-variable code size i)
          (λ v h. Keeps-set_variable code size i (f v c) (fits v c))))

  truth-IsWord : (b : Bool) → IsWord (truth b)
  truth-IsWord true = omega arith
  truth-IsWord false = omega arith

  pub Keeps-compare : (f : ℕ → ℕ → Bool) → Keeps code size Any (compare_op f)
  Keeps-compare f = Keeps-binary (λ a b. truth (f a b)) (λ a b. truth-IsWord (f a b))

  pub long_add-IsWord : Fits₂ long_add
  unfolding long_add
  long_add-IsWord a b = omega arith

  pub long_sub-IsWord : Fits₂ long_sub
  unfolding long_sub
  long_sub-IsWord a b = omega arith

  pub long_mul-IsWord : Fits₂ long_mul
  unfolding long_mul
  long_mul-IsWord a b = omega arith

  pub Keeps-string_at : (offset : ℕ) → Keeps code size Any (string_at offset)
  unfolding string_at
  Keeps-string_at offset = record {
    keeps = λ vm ok.
        if_both (Post code size Any) (ltb offset (2 ^ 31))
          (λ lt. (Keeps-of_option code size _).keeps vm ok) (λ neg. tt);
  }

  module _ (fpu : Fpu) (fit : IsFpu fpu) where
    pub Keeps-array_make : Keeps code size Any (array_make fpu)
    unfolding array_make
    Keeps-array_make = Keeps-bind code size (Keeps-pop code size) (λ n hn.
        Keeps-bind code size (Keeps-next_malloc code size) (λ a ha.
          Keeps-bind code size (Keeps-map_block code size a _)
            (λ u h. Keeps-push_value code size (fpu.of_long a) (fit.of_long_fits a))))

    pub Keeps-array_set : Keeps code size Any (array_set fpu)
    unfolding array_set
    Keeps-array_set = Keeps-bind code size (Keeps-pop code size) (λ v hv.
        Keeps-bind code size (Keeps-pop code size) (λ i hi.
          Keeps-bind code size (Keeps-pop code size) (λ b hb.
            if_both (Keeps code size Any) (fpu.to_long b == 0)
              (λ null. Keeps-pure code size Any tt tt)
              (λ array. Keeps-store_cell code size _ v hv))))

    pub Keeps-array_get : Keeps code size Any (array_get fpu)
    unfolding array_get
    Keeps-array_get = Keeps-bind code size (Keeps-pop code size) (λ i hi.
        Keeps-bind code size (Keeps-pop code size) (λ b hb.
          Keeps-bind code size {Q = IsWord}
            (if_both (Keeps code size IsWord) (fpu.to_long b == 0)
              (λ null. Keeps-pure code size IsWord d_zero (omega arith))
              (λ array. Keeps-load_cell code size _))
            (λ v hv. Keeps-push_value code size v hv)))
