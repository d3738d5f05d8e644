-- ===== src/Stellar/Vm/Fused/Equivalence.antt =====
-- The fused operations have the effect of the stack code that they replace.
use nova64_os.Base.{zero, suc, ◌-◌, ◌*◌, ◌^◌, ap₂}
use mathlib.Core.Option.{some-injective}
use nova64_os.Base.{ℕ, ◌+◌, ◌≤◌, ◌<◌, ◌≡◌, refl, arith, ap, sym, ◌∙◌, List, [], ◌∷◌}
use nova64_os.Base.{some, get_elem?, get_or, set, length}
use nova64_os.Stellar.Fpu.{Fpu, long_add, long_sub, long_mul}
use nova64_os.Stellar.Opcode.{Op, opcode}
use nova64_os.Stellar.Vm.{Vm}
use nova64_os.Stellar.Vm.Exec.{exec, dispatch, binary, combine_variables}
use nova64_os.Stellar.Vm.Run.{At, steps, steps-next}
use nova64_os.Stellar.Vm.Fused.{
  combined, combine_variables_lem, load_as, store_as, continue, step_as, stack_code, stack_code_lem,
}

-- The fused operations on doubles, with the plain operation that each stands for.
pub data FusedDouble (fpu : Fpu) : Op → Op → (ℕ → ℕ → ℕ) → Type 0 where
  adds : FusedDouble fpu Op.add_var Op.add fpu.add
  subtracts : FusedDouble fpu Op.sub_var Op.sub fpu.sub
  multiplies : FusedDouble fpu Op.mul_var Op.mul fpu.mul

-- Whole numbers up to 2 ^ 53 are doubles, `dbl` the bits of one: converting is exact, and so is an
-- operation whose result is such a number.
pub record IsExact (fpu : Fpu) (dbl : ℕ → ℕ) : Type 0 where
  pub of_long_exact : (n : ℕ) → n ≤ 2 ^ 53 → fpu.of_long n ≡ dbl n
  pub to_long_exact : (n : ℕ) → n ≤ 2 ^ 53 → fpu.to_long (dbl n) ≡ n
  pub add_exact : (a b : ℕ) → a + b ≤ 2 ^ 53 → fpu.add (dbl a) (dbl b) ≡ dbl (a + b)
  pub sub_exact : (a b : ℕ) → b ≤ a → a ≤ 2 ^ 53 → fpu.sub (dbl a) (dbl b) ≡ dbl (a - b)
  pub mul_exact : (a b : ℕ) → a * b ≤ 2 ^ 53 → fpu.mul (dbl a) (dbl b) ≡ dbl (a * b)

-- A fused operation on longs and the plain one, with the numbers before and the number after.
pub data FusedWhole : Op → Op → ℕ → ℕ → ℕ → Type 0 where
  adds : (a b : ℕ) → FusedWhole Op.add_var_i Op.add a b (a + b)
  subtracts : (a b : ℕ) → b ≤ a → FusedWhole Op.sub_var_i Op.sub a b (a - b)
  multiplies : (a b : ℕ) → FusedWhole Op.mul_var_i Op.mul a b (a * b)

-- Those on longs, with what they compute on longs and what the plain one does on doubles.
pub data FusedLong (fpu : Fpu) : Op → Op → (ℕ → ℕ → ℕ) → (ℕ → ℕ → ℕ) → Type 0 where
  adds : FusedLong fpu Op.add_var_i Op.add long_add fpu.add
  subtracts : FusedLong fpu Op.sub_var_i Op.sub long_sub fpu.sub
  multiplies : FusedLong fpu Op.mul_var_i Op.mul long_mul fpu.mul

-- An element that is there, by its default and its bound.
pub get_or_of :
    (xs : List ℕ) (i v : ℕ) → get_elem? xs i ≡ some v → (get_or xs i 0 ≡ v) × (i < length xs)
get_or_of [] i v e = cc
get_or_of (x ∷ xs) zero v e = (some-injective _ _ e, omega arith)
get_or_of (x ∷ xs) (suc i) v e = let (value, bound) = get_or_of xs i v e in (value, omega arith)

module _ (fpu : Fpu) where
  -- One dispatch from `vm₁` and four from `vm₂` make the same variables, `d` the result of `f`. The
  -- first takes 3 bytes, the second 7; both leave the values on the stack and their number.
  abbrev pub SameEffect : (ℕ → ℕ → ℕ) → Vm → Vm → ℕ → ℕ → Type 0
  SameEffect f vm₁ vm₂ d s =
      (v₁ v₂ : Vm) × (steps fpu 1 vm₁ ≡ some v₁)
      × (steps fpu 4 vm₂ ≡ some v₂)
      × (v₁.variables ≡ v₂.variables)
      × (v₁.variables ≡ combined f d s vm₁)
      × ((v₁.pc ≡ vm₁.pc + 3) × (v₁.sp ≡ vm₁.sp) × (v₁.stack ≡ vm₁.stack))
      × ((v₂.pc ≡ vm₂.pc + 7)
          × (v₂.sp ≡ vm₂.sp)
          × ((j : ℕ) → j < vm₂.sp → get_elem? v₂.stack j ≡ get_elem? vm₂.stack j))

  double_is :
      {fused plain : Op} {f : ℕ → ℕ → ℕ}
      → FusedDouble fpu fused plain f
      → ((vm : Vm) → dispatch fpu fused vm ≡ continue (combine_variables f vm))
        × ((vm : Vm) → dispatch fpu plain vm ≡ continue (binary f vm))
  unfolding dispatch exec
  double_is FusedDouble.adds = (λ vm. refl, λ vm. refl)
  double_is FusedDouble.subtracts = (λ vm. refl, λ vm. refl)
  double_is FusedDouble.multiplies = (λ vm. refl, λ vm. refl)

  long_is :
      {fused plain : Op} {f k : ℕ → ℕ → ℕ}
      → FusedLong fpu fused plain f k
      → ((vm : Vm) → dispatch fpu fused vm ≡ continue (combine_variables f vm))
        × ((vm : Vm) → dispatch fpu plain vm ≡ continue (binary k vm))
  unfolding dispatch exec
  long_is FusedLong.adds = (λ vm. refl, λ vm. refl)
  long_is FusedLong.subtracts = (λ vm. refl, λ vm. refl)
  long_is FusedLong.multiplies = (λ vm. refl, λ vm. refl)

  load_is : (vm : Vm) → dispatch fpu Op.load vm ≡ continue (load_as (λ v. v) vm)
  unfolding dispatch exec
  load_is vm = refl

  store_is : (vm : Vm) → dispatch fpu Op.store vm ≡ continue (store_as (λ v. v) vm)
  unfolding dispatch exec
  store_is vm = refl

  load_i_is : (vm : Vm) → dispatch fpu Op.load_i vm ≡ continue (load_as fpu.of_long vm)
  unfolding dispatch exec
  load_i_is vm = refl

  store_i_is : (vm : Vm) → dispatch fpu Op.store_i vm ≡ continue (store_as fpu.to_long vm)
  unfolding dispatch exec
  store_i_is vm = refl

  -- One dispatch of a fused operation.
  fused_step :
      (fused : Op) (f : ℕ → ℕ → ℕ) (vm : Vm) (d s : ℕ)
      → ((vm : Vm) → dispatch fpu fused vm ≡ continue (combine_variables f vm))
      → At vm.code vm.pc (opcode fused ∷ d ∷ s ∷ [])
      → d < length vm.variables
      → s < length vm.variables
      → steps fpu 1 vm ≡ some (record vm { pc = vm.pc + 1 + 1 + 1; variables = combined f d s vm })
  fused_step fused f vm d s is (c0, at) hd hs =
      steps-next fpu 0 vm
        (step_as fpu fused (combine_variables f) is vm c0 (combine_variables_lem f _ d s at hd hs))
      ∙ (unfold steps in refl)

  -- `ADD_VAR`, `SUB_VAR` and `MUL_VAR` do in one dispatch and 3 bytes what the stack code `LOAD`,
  -- `LOAD`, operation, `STORE` does in four dispatches and 7 bytes: from the same variables both
  -- reach the same variables, those in which `d` has become the operation's result, and both leave
  -- the stack pointer and every value on the stack as they were. The stack code needs room for two
  -- more values, and both indices are those of variables.
  pub fused_double :
      {fused plain : Op} {f : ℕ → ℕ → ℕ} (vm₁ vm₂ : Vm) (d s : ℕ)
      → FusedDouble fpu fused plain f
      → At vm₁.code vm₁.pc (opcode fused ∷ d ∷ s ∷ [])
      → At vm₂.code vm₂.pc (stack_code Op.load plain Op.store d s)
      → vm₁.variables ≡ vm₂.variables
      → d < length vm₁.variables
      → s < length vm₁.variables
      → vm₂.sp + 2 ≤ length vm₂.stack
      → SameEffect f vm₁ vm₂ d s
  fused_double {fused} {plain} {f} vm₁ vm₂ d s kind at₁ at₂ same hd hs room =
      let (fused_is, plain_is) = double_is kind in
      let long : length vm₁.variables ≡ length vm₂.variables = ap length same in
      let (st, kept, sized, run) =
        stack_code_lem fpu Op.load plain Op.store (λ v. v) (λ v. v) f load_is plain_is store_is vm₂
          d s at₂ (omega arith) (omega arith) room in
      (
        record vm₁ { pc = vm₁.pc + 1 + 1 + 1; variables = combined f d s vm₁ },
        record vm₂ {
          pc = vm₂.pc + 1 + 1 + 1 + 1 + 1 + 1 + 1;
          stack = st;
          variables = combined f d s vm₂;
        },
        fused_step fused f vm₁ d s fused_is at₁ hd hs,
        run,
        ap (λ (vs : List ℕ). set vs d (f (get_or vs d 0) (get_or vs s 0))) same,
        refl,
        (omega arith, refl, refl),
        (omega arith, refl, kept),
      )

  -- `ADD_VAR_I`, `SUB_VAR_I` and `MUL_VAR_I` do in one dispatch and 3 bytes what `LOAD_I`, `LOAD_I`,
  -- the operation on doubles and `STORE_I` do in four dispatches and 7 bytes, wherever the doubles are
  -- exact: converting the two longs, operating on doubles and converting back gives the result on
  -- longs. From the same variables both reach the same variables, those in which `d` has become that
  -- result, and both leave the stack pointer and every value on the stack as they were. The stack code
  -- needs room for two more values, and both indices are those of variables.
  fused_long :
      {fused plain : Op} {f k : ℕ → ℕ → ℕ} (vm₁ vm₂ : Vm) (d s : ℕ)
      → FusedLong fpu fused plain f k
      → At vm₁.code vm₁.pc (opcode fused ∷ d ∷ s ∷ [])
      → At vm₂.code vm₂.pc (stack_code Op.load_i plain Op.store_i d s)
      → vm₁.variables ≡ vm₂.variables
      → d < length vm₁.variables
      → s < length vm₁.variables
      → vm₂.sp + 2 ≤ length vm₂.stack
      → fpu.to_long
          (k (fpu.of_long (get_or vm₁.variables d 0)) (fpu.of_long (get_or vm₁.variables s 0)))
        ≡ f (get_or vm₁.variables d 0) (get_or vm₁.variables s 0)
      → SameEffect f vm₁ vm₂ d s
  fused_long {fused} {plain} {f} {k} vm₁ vm₂ d s kind at₁ at₂ same hd hs room exact =
      let (fused_is, plain_is) = long_is kind in
      let long : length vm₁.variables ≡ length vm₂.variables = ap length same in
      let (st, kept, sized, run) =
        stack_code_lem fpu Op.load_i plain Op.store_i fpu.of_long fpu.to_long k load_i_is plain_is
          store_i_is vm₂ d s at₂ (omega arith) (omega arith) room in
      let result : List ℕ → ℕ =
        λ vs. fpu.to_long (k (fpu.of_long (get_or vs d 0)) (fpu.of_long (get_or vs s 0))) in
      (
        record vm₁ { pc = vm₁.pc + 1 + 1 + 1; variables = combined f d s vm₁ },
        record vm₂ {
          pc = vm₂.pc + 1 + 1 + 1 + 1 + 1 + 1 + 1;
          stack = st;
          variables = set vm₂.variables d (result vm₂.variables);
        },
        fused_step fused f vm₁ d s fused_is at₁ hd hs,
        run,
        ap (set vm₁.variables d) (sym exact) ∙ ap (λ (vs : List ℕ). set vs d (result vs)) same,
        refl,
        (omega arith, refl, refl),
        (omega arith, refl, kept),
      )

  -- The operation on longs and that on doubles, converted, are the operation on numbers.
  whole_is :
      (dbl : ℕ → ℕ) {fused plain : Op} {a b result : ℕ}
      → IsExact fpu dbl
      → FusedWhole fused plain a b result
      → a ≤ 2 ^ 53
      → b ≤ 2 ^ 53
      → result ≤ 2 ^ 53
      → (f k : ℕ → ℕ → ℕ) × FusedLong fpu fused plain f k
        × (f a b ≡ result)
        × (fpu.to_long (k (fpu.of_long a) (fpu.of_long b)) ≡ result)
  unfolding long_add long_sub long_mul
  whole_is dbl exact (FusedWhole.adds a b) ha hb hr = (
    long_add,
    fpu.add,
    FusedLong.adds,
    omega arith,
    rw (exact.of_long_exact a ha, exact.of_long_exact b hb, exact.add_exact a b hr)
        (exact.to_long_exact (a + b) hr),
  )
  whole_is dbl exact (FusedWhole.subtracts a b le) ha hb hr = (
    long_sub,
    fpu.sub,
    FusedLong.subtracts,
    omega arith,
    rw (exact.of_long_exact a ha, exact.of_long_exact b hb, exact.sub_exact a b le ha)
        (exact.to_long_exact (a - b) hr),
  )
  whole_is dbl exact (FusedWhole.multiplies a b) ha hb hr = (
    long_mul,
    fpu.mul,
    FusedLong.multiplies,
    omega arith,
    rw (exact.of_long_exact a ha, exact.of_long_exact b hb, exact.mul_exact a b hr)
        (exact.to_long_exact (a * b) hr),
  )

  -- One dispatch from `vm₁` and four from `vm₂` make `d` the number `result` and change no other
  -- variable; the counters and the stack are as in `SameEffect`.
  abbrev pub SameResult : Vm → Vm → ℕ → ℕ → Type 0
  SameResult vm₁ vm₂ d result =
      (v₁ v₂ : Vm) × (steps fpu 1 vm₁ ≡ some v₁)
      × (steps fpu 4 vm₂ ≡ some v₂)
      × (v₁.variables ≡ set vm₁.variables d result)
      × (v₂.variables ≡ set vm₂.variables d result)
      × ((v₁.pc ≡ vm₁.pc + 3) × (v₁.sp ≡ vm₁.sp) × (v₁.stack ≡ vm₁.stack))
      × ((v₂.pc ≡ vm₂.pc + 7)
          × (v₂.sp ≡ vm₂.sp)
          × ((j : ℕ) → j < vm₂.sp → get_elem? v₂.stack j ≡ get_elem? vm₂.stack j))

  -- On whole numbers up to 2 ^ 53, where doubles are exact, `ADD_VAR_I`, `SUB_VAR_I` and `MUL_VAR_I`
  -- in one dispatch and 3 bytes, and `LOAD_I`, `LOAD_I`, the operation on doubles and `STORE_I` in
  -- four dispatches and 7 bytes, both make the variable `d` the sum, the difference or the product of
  -- the numbers in `d` and `s`, where it is again such a number, and change no other variable; both
  -- leave the stack pointer and every value on the stack as they were. The two start from the same
  -- variables, the stack code needs room for two more values, and both indices are those of variables.
  pub fused_whole :
      (dbl : ℕ → ℕ) {fused plain : Op} (vm₁ vm₂ : Vm) (d s a b result : ℕ)
      → IsExact fpu dbl
      → FusedWhole fused plain a b result
      → At vm₁.code vm₁.pc (opcode fused ∷ d ∷ s ∷ [])
      → At vm₂.code vm₂.pc (stack_code Op.load_i plain Op.store_i d s)
      → vm₁.variables ≡ vm₂.variables
      → get_elem? vm₁.variables d ≡ some a
      → get_elem? vm₁.variables s ≡ some b
      → a ≤ 2 ^ 53
      → b ≤ 2 ^ 53
      → result ≤ 2 ^ 53
      → vm₂.sp + 2 ≤ length vm₂.stack
      → SameResult vm₁ vm₂ d result
  fused_whole dbl vm₁ vm₂ d s a b result exact kind at₁ at₂ same at_d at_s ha hb hr room =
      let (f, k, long, value, converted) = whole_is dbl exact kind ha hb hr in
      let (is_a, hd) = get_or_of vm₁.variables d a at_d in
      let (is_b, hs) = get_or_of vm₁.variables s b at_s in
      let made : combined f d s vm₁ ≡ set vm₁.variables d result =
        ap (set vm₁.variables d) (ap₂ f is_a is_b ∙ value) in
      let (v₁, v₂, run₁, run₂, agree, first, left₁, left₂) =
        fused_long vm₁ vm₂ d s long at₁ at₂ same hd hs room (
          ap₂ (λ (x y : ℕ). fpu.to_long (k (fpu.of_long x) (fpu.of_long y))) is_a is_b
          ∙ converted
          ∙ sym (ap₂ f is_a is_b ∙ value)) in
      (
        v₁,
        v₂,
        run₁,
        run₂,
        first ∙ made,
        sym agree ∙ first ∙ made ∙ ap (λ (vs : List ℕ). set vs d result) same,
        left₁,
        left₂,
      )
