-- ===== src/Stellar/Vm/Exec.antt =====
-- The labels of `vm_run`, one case each, and the dispatching loop.
use nova64_os.Base.{ℕ, zero, suc, ◌+◌, ◌*◌, ◌^◌, Bool, true, false, not, ltb, ◌==◌, ◌||◌}
use nova64_os.Base.{if◌then◌else◌, List, none, some, drop}
use nova64_os.Bits.{u64}
use nova64_os.Stellar.Fpu.{
  Fpu, d_zero, d_half, d_one, extend32, rem32, long_add, long_sub, long_mul,
}
use nova64_os.Stellar.Opcode.{Op, decode}
use nova64_os.Stellar.Vm.{Vm, M, pure, ◌>>=◌, ◌>>◌, of_option, fetch, fetch_word, fetch_address}
use nova64_os.Stellar.Vm.{jump, pop, push_value, variable, set_variable, emit_line, load_cell}
use nova64_os.Stellar.Vm.{store_cell, next_malloc, map_block, next_input, c_string, number, text}

-- `b = pop; a = pop; push(a OP b)`.
abbrev pub binary : (ℕ → ℕ → ℕ) → M (Unit {0})
binary f = do b ← pop; a ← pop; push_value (f a b)

abbrev pub truth : Bool → ℕ
truth b = if b then d_one else d_zero

abbrev pub compare_op : (ℕ → ℕ → Bool) → M (Unit {0})
compare_op f = binary (λ a b. truth (f a b))

-- `variables[i] = f(variables[i])`, the index from the code.
abbrev pub update_variable : (ℕ → ℕ) → M (Unit {0})
update_variable f = do i ← fetch; v ← variable i; set_variable i (f v)

-- `variables[d] = f(variables[d], variables[s])`, both indices from the code.
abbrev pub combine_variables : (ℕ → ℕ → ℕ) → M (Unit {0})
combine_variables f = do
  d ← fetch
  s ← fetch
  v ← variable d
  w ← variable s
  set_variable d (f v w)

-- `variables[i] = f(variables[i], c)`, the index and the constant from the code.
abbrev pub combine_constant : (ℕ → ℕ → ℕ) → M (Unit {0})
combine_constant f = do i ← fetch; c ← fetch_word; v ← variable i; set_variable i (f v c)

-- The address of `array[index]`, the index an `int`.
abbrev pub element : ℕ → ℕ → ℕ
element array index = u64 (array + 8 * extend32 index)

-- A negative offset lies before the code.
unfoldable pub string_at : ℕ → M (List ℕ)
unfolding c_string
string_at offset vm =
    if ltb offset (2 ^ 31) then of_option (c_string (drop offset vm.code)) vm else none

-- How a dispatch ends: at the next one, at `do_halt`, or in undefined behaviour.
pub data Outcome : Type 0 where
  next halted : Vm → Outcome
  fault : Outcome

-- How a run ends, or that it goes on past the bound.
pub data Result : Type 0 where
  finished : Vm → Result
  faulted out_of_fuel : Result

module _ (fpu : Fpu) where
  unfoldable pub array_make : M (Unit {0})
  unfolding next_malloc map_block
  array_make = do
    size_value ← pop
    let size = fpu.to_int size_value
    a ← next_malloc
    map_block a (if ltb size (2 ^ 31) then size else 0)
    push_value (fpu.of_long a)

  unfoldable pub array_set : M (Unit {0})
  unfolding store_cell
  array_set = do
    value ← pop
    index ← pop
    base ← pop
    let array = fpu.to_long base
    if array == 0
        then pure tt
        else store_cell (element array (fpu.to_int (fpu.add index d_half))) value

  unfoldable pub array_get : M (Unit {0})
  unfolding load_cell
  array_get = do
    index ← pop
    base ← pop
    let array = fpu.to_long base
    v ←
        (if array == 0
          then pure d_zero
          else load_cell (element array (fpu.to_int (fpu.add index d_half))))
    push_value v

  -- The labels of the operations on `long` variables.
  abbrev exec_long : Op → M (Unit {0})
  exec_long Op.load_i = do i ← fetch; v ← variable i; push_value (fpu.of_long v)
  exec_long Op.store_i = do i ← fetch; v ← pop; set_variable i (fpu.to_long v)
  exec_long Op.inc_i = update_variable (λ v. long_add v 1)
  exec_long Op.dec_i = update_variable (λ v. long_sub v 1)
  exec_long Op.add_var_i = combine_variables long_add
  exec_long Op.sub_var_i = combine_variables long_sub
  exec_long Op.mul_var_i = combine_variables long_mul
  exec_long Op.add_const_i = combine_constant long_add
  exec_long Op.sub_const_i = combine_constant long_sub
  exec_long Op.mul_const_i = combine_constant long_mul
  exec_long op = pure tt

  -- Every label but `do_halt`.
  unfoldable pub exec : Op → M (Unit {0})
  unfolding array_make array_set array_get
  exec Op.halt = pure tt
  exec Op.push = do v ← fetch_word; push_value v
  exec Op.add = binary fpu.add
  exec Op.sub = binary fpu.sub
  exec Op.mul = binary fpu.mul
  exec Op.div = binary fpu.div
  exec Op.mod_op = do
    b ← pop
    a ← pop
    r ← of_option (rem32 (fpu.to_int a) (fpu.to_int b))
    push_value (fpu.of_long (extend32 r))
  exec Op.cmp_eq = compare_op fpu.eq
  exec Op.cmp_neq = compare_op (λ a b. not (fpu.eq a b))
  exec Op.cmp_lt = compare_op fpu.lt
  exec Op.cmp_gt = compare_op (λ a b. fpu.lt b a)
  exec Op.cmp_gte = compare_op (λ a b. fpu.lt b a || fpu.eq a b)
  exec Op.cmp_lte = compare_op (λ a b. fpu.lt a b || fpu.eq a b)
  exec Op.jz = do
    address ← fetch_address
    v ← pop
    if fpu.eq v d_zero then jump address else pure tt
  exec Op.jmp = do address ← fetch_address; jump address
  exec Op.store = do i ← fetch; v ← pop; set_variable i v
  exec Op.load = do i ← fetch; v ← variable i; push_value v
  exec Op.inc = update_variable (λ v. fpu.add v d_one)
  exec Op.dec = update_variable (λ v. fpu.sub v d_one)
  exec Op.add_var = combine_variables fpu.add
  exec Op.sub_var = combine_variables fpu.sub
  exec Op.mul_var = combine_variables fpu.mul
  exec Op.add_const = combine_constant fpu.add
  exec Op.sub_const = combine_constant fpu.sub
  exec Op.mul_const = combine_constant fpu.mul
  exec Op.print = do v ← pop; emit_line (number v)
  exec Op.push_str = do address ← fetch_address; push_value (fpu.of_long address)
  exec Op.print_str = do v ← pop; s ← string_at (fpu.to_int v); emit_line (text s)
  exec Op.array_make = array_make
  exec Op.array_set = array_set
  exec Op.array_get = array_get
  exec Op.input = do v ← next_input; push_value v
  exec Op.else_op = pure tt
  exec Op.else_if = pure tt
  exec op = exec_long op

  unfoldable pub dispatch : Op → Vm → Outcome
  unfolding exec
  dispatch Op.halt vm = halted (record vm { running = false })
  dispatch op vm = elim (exec op vm) [ none ↦ fault | some (_, vm') ↦ next vm' ]

  -- One `NEXT_OP()`.
  unfoldable pub step : Vm → Outcome
  unfolding fetch dispatch
  step vm = elim (fetch vm) [
    | none ↦ fault
    | some (byte, vm') ↦ elim (decode byte) [ none ↦ fault | some op ↦ dispatch op vm' ]
  ]

  -- The machine from a dispatch on, with a bound on their number.
  unfoldable pub run_from : ℕ → Vm → Result
  unfolding step
  run_from zero vm = out_of_fuel
  run_from (suc fuel) vm = elim (step vm) [
    | next vm' ↦ run_from fuel vm'
    | halted vm' ↦ finished vm'
    | fault ↦ faulted
  ]

  unfoldable pub vm_run : ℕ → Vm → Result
  unfolding run_from
  vm_run fuel vm = run_from fuel (record vm { running = true })
