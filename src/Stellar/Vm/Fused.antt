-- ===== src/Stellar/Vm/Fused.antt =====
-- The fused operations on variables against the stack code that they stand for.
pub mod Equivalence
use nova64_os.Base.{ℕ, zero, suc, ◌+◌, ◌≤◌, ◌<◌, ◌≡◌, ◌≢◌, refl, arith, ap, sym, ◌∙◌, List, [], ◌∷◌}
use nova64_os.Base.{Option, none, some, get_elem?, get_or, set, length, length-set, get_elem?-lt}
use nova64_os.Base.{get_elem?-set_self, get_elem?-set_ne}
use nova64_os.Stellar.Fpu.{Fpu, long_add, long_sub, long_mul}
use nova64_os.Stellar.Opcode
use nova64_os.Stellar.Opcode.{Op, opcode, decode-opcode}
use nova64_os.Stellar.Vm.{Vm, M, ◌>>=◌, fetch, pop, push_value, variable, set_variable}
use nova64_os.Stellar.Vm.Exec.{
  Outcome, next, fault, exec, dispatch, step, binary, combine_variables,
}
use nova64_os.Stellar.Vm.Run.{At, steps, steps-next, step-dispatch, fetch-at}
use nova64_os.Stellar.Vm.Primitives.{bind-some, pop_lem, push_value_lem, variable_lem}
use nova64_os.Stellar.Vm.Primitives.{set_variable_lem}

-- The machine after its variable `d` became `f(d, s)`, by an operation of `size` bytes.
abbrev pub combined : (ℕ → ℕ → ℕ) → ℕ → ℕ → Vm → List ℕ
combined f d s vm = set vm.variables d (f (get_or vm.variables d 0) (get_or vm.variables s 0))

pub combine_variables_lem :
    (f : ℕ → ℕ → ℕ) (vm : Vm) (d s : ℕ)
    → At vm.code vm.pc (d ∷ s ∷ [])
    → d < length vm.variables
    → s < length vm.variables
    → combine_variables f vm
      ≡ some (tt, record vm { pc = vm.pc + 1 + 1; variables = combined f d s vm })
combine_variables_lem f vm d s (at_d, (at_s, _)) hd hs =
    let one = record vm { pc = vm.pc + 1 } in
    let two = record vm { pc = vm.pc + 1 + 1 } in
    bind-some fetch _ vm (fetch-at vm d at_d)
    ∙ bind-some fetch _ one (fetch-at one s at_s)
    ∙ bind-some (variable d) _ two (variable_lem two d (get_elem?-lt vm.variables d 0 hd))
    ∙ bind-some (variable s) _ two (variable_lem two s (get_elem?-lt vm.variables s 0 hs))
    ∙ set_variable_lem two d _ hd

-- `LOAD` and `STORE` with a cast, `g` to the stack and `h` from it.
abbrev pub load_as : (ℕ → ℕ) → M (Unit {0})
load_as g = do i ← fetch; v ← variable i; push_value (g v)

abbrev pub store_as : (ℕ → ℕ) → M (Unit {0})
store_as h = do i ← fetch; v ← pop; set_variable i (h v)

pub load_as_lem :
    (g : ℕ → ℕ) (vm : Vm) (i : ℕ)
    → get_elem? vm.code vm.pc ≡ some i
    → i < length vm.variables
    → vm.sp < length vm.stack
    → load_as g vm
      ≡ some (
        tt,
        record vm {
          pc = vm.pc + 1;
          stack = set vm.stack vm.sp (g (get_or vm.variables i 0));
          sp = vm.sp + 1;
        },
      )
load_as_lem g vm i at_i hi room =
    let one = record vm { pc = vm.pc + 1 } in
    bind-some fetch _ vm (fetch-at vm i at_i)
    ∙ bind-some (variable i) _ one (variable_lem one i (get_elem?-lt vm.variables i 0 hi))
    ∙ push_value_lem one _ room

store_as_lem :
    (h : ℕ → ℕ) (vm : Vm) (i n : ℕ) {v : ℕ}
    → get_elem? vm.code vm.pc ≡ some i
    → i < length vm.variables
    → vm.sp ≡ suc n
    → get_elem? vm.stack n ≡ some v
    → store_as h vm
      ≡ some (tt, record vm { pc = vm.pc + 1; sp = n; variables = set vm.variables i (h v) })
store_as_lem h vm i n at_i hi depth top =
    let one = record vm { pc = vm.pc + 1 } in
    let two = record vm { pc = vm.pc + 1; sp = n } in
    bind-some fetch _ vm (fetch-at vm i at_i)
    ∙ bind-some pop _ one (pop_lem one n depth top)
    ∙ set_variable_lem two i _ hi

binary_lem :
    (f : ℕ → ℕ → ℕ) (vm : Vm) (n : ℕ) {a b : ℕ}
    → vm.sp ≡ suc (suc n)
    → get_elem? vm.stack (suc n) ≡ some b
    → get_elem? vm.stack n ≡ some a
    → n < length vm.stack
    → binary f vm ≡ some (tt, record vm { stack = set vm.stack n (f a b); sp = n + 1 })
binary_lem f vm n depth top below room =
    let one = record vm { sp = suc n } in
    let two = record vm { sp = n } in
    bind-some pop _ vm (pop_lem vm (suc n) depth top)
    ∙ bind-some pop _ one (pop_lem one n refl below)
    ∙ push_value_lem two _ room

abbrev pub continue : Option (Unit {0} × Vm) → Outcome
continue o = elim o [ none ↦ fault | some (_, vm') ↦ next vm' ]

-- One dispatch, where the operation is known and does not fault.
pub step_as :
    (fpu : Fpu) (op : Op) (m : M (Unit {0}))
    → ((vm : Vm) → dispatch fpu op vm ≡ continue (m vm))
    → (vm : Vm) {vm' : Vm} → get_elem? vm.code vm.pc ≡ some (opcode op)
    → m (record vm { pc = vm.pc + 1 }) ≡ some (tt, vm')
    → step fpu vm ≡ next vm'
step_as fpu op m is vm here result =
    step-dispatch fpu vm (opcode op) op here (decode-opcode op)
    ∙ is (record vm { pc = vm.pc + 1 })
    ∙ ap continue result

-- The stack code of an operation on the variables `d` and `s`.
abbrev pub stack_code : Op → Op → Op → ℕ → ℕ → List ℕ
stack_code load_op plain store_op d s =
    opcode load_op ∷ d ∷ opcode load_op ∷ s ∷ opcode plain ∷ opcode store_op ∷ d ∷ []

module _ (fpu : Fpu) (load_op plain store_op : Op) (g h : ℕ → ℕ) (f : ℕ → ℕ → ℕ)
    (load_is : (vm : Vm) → dispatch fpu load_op vm ≡ continue (load_as g vm))
    (plain_is : (vm : Vm) → dispatch fpu plain vm ≡ continue (binary f vm))
    (store_is : (vm : Vm) → dispatch fpu store_op vm ≡ continue (store_as h vm)) where
  -- The four dispatches of the stack code.
  pub stack_code_lem :
      (vm : Vm) (d s : ℕ)
      → At vm.code vm.pc (stack_code load_op plain store_op d s)
      → d < length vm.variables
      → s < length vm.variables
      → vm.sp + 2 ≤ length vm.stack
      → (st : List ℕ) × ((j : ℕ) → j < vm.sp → get_elem? st j ≡ get_elem? vm.stack j)
        × (length st ≡ length vm.stack)
        × (steps fpu 4 vm
            ≡ some (record vm {
              pc = vm.pc + 1 + 1 + 1 + 1 + 1 + 1 + 1;
              stack = st;
              sp = vm.sp;
              variables =
                  set vm.variables d
                    (h (f (g (get_or vm.variables d 0)) (g (get_or vm.variables s 0))));
            }))
  stack_code_lem vm d s (c0, (c1, (c2, (c3, (c4, (c5, (c6, _))))))) hd hs room =
      let n = vm.sp in
      let v = g (get_or vm.variables d 0) in
      let w = g (get_or vm.variables s 0) in
      let one = set vm.stack n v in
      let two = set one (n + 1) w in
      let three = set two n (f v w) in
      let long_one : length one ≡ length vm.stack = length-set vm.stack n v in
      let long_two : length two ≡ length vm.stack = length-set one (n + 1) w ∙ long_one in
      let vm₁ = record vm { pc = vm.pc + 1 + 1; stack = one; sp = n + 1 } in
      let vm₂ = record vm { pc = vm.pc + 1 + 1 + 1 + 1; stack = two; sp = n + 1 + 1 } in
      let vm₃ = record vm { pc = vm.pc + 1 + 1 + 1 + 1 + 1; stack = three; sp = n + 1 } in
      let top : get_elem? two (suc n) ≡ some w =
        ap (get_elem? two) (suc-is n) ∙ get_elem?-set_self one (n + 1) w (omega arith) in
      let below : get_elem? two n ≡ some v =
        get_elem?-set_ne one (n + 1) n w (omega arith)
        ∙ get_elem?-set_self vm.stack n v (omega arith) in
      let result : get_elem? three n ≡ some (f v w) =
        get_elem?-set_self two n (f v w) (omega arith) in
      (
        three,
        λ j lt.
            get_elem?-set_ne two n j (f v w) (omega arith)
            ∙ get_elem?-set_ne one (n + 1) j w (omega arith)
            ∙ get_elem?-set_ne vm.stack n j v (omega arith),
        length-set two n (f v w) ∙ long_two,
        steps-next fpu 3 vm (
              step_as fpu load_op (load_as g) load_is vm c0 (load_as_lem g _ d c1 hd (omega arith)))
            ∙ steps-next fpu 2 vm₁ (
                step_as fpu load_op (load_as g) load_is vm₁ c2
                  (load_as_lem g _ s c3 hs (omega arith)))
            ∙ steps-next fpu 1 vm₂ (
                step_as fpu plain (binary f) plain_is vm₂ c4
                  (binary_lem f _ n (twice-suc n) top below (omega arith)))
            ∙ steps-next fpu 0 vm₃ (
                step_as fpu store_op (store_as h) store_is vm₃ c5
                  (store_as_lem h _ d n c6 hd (sym (suc-is n)) result))
            ∙ (unfold steps in refl),
      )
    where
      suc-is : (n : ℕ) → suc n ≡ n + 1
      suc-is n = omega arith

      twice-suc : (n : ℕ) → n + 1 + 1 ≡ suc (suc n)
      twice-suc n = omega arith
