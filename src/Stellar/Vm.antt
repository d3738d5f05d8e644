-- ===== src/Stellar/Vm.antt =====
-- `StellarVM`, `vm_init` and `vm_run` of src/stellar/stellar.c, as built with STELLAR_HOST. An
-- operation is a function on the machine that may fault: a read or write outside the code, the
-- stack or a mapped array, a null array, a division by zero.
pub mod Exec
pub mod Keeps
pub mod Primitives
pub mod Fused
pub mod Loops
pub mod Invariant
pub mod Run
pub mod Tests
use mathlib.Core.Option
use nova64_os.Base.{ℕ, zero, suc, ◌+◌, ◌-◌, ◌*◌, ◌/◌, ◌%◌, ◌^◌, Bool, true, false, ltb, leb, ◌==◌}
use nova64_os.Base.{if◌then◌else◌, List, [], ◌∷◌, ◌++◌, Option, none, some, get_elem?, get_or, set}
use nova64_os.Base.{length, replicate, bit_or, ◌&&◌}
use nova64_os.Bits.{u64, ◌<<<◌}

-- What `printf` prints, a line each.
pub data Line : Type 0 where
  number : ℕ → Line
  text : List ℕ → Line

-- `sp` is the number of values on the stack, one more than the source's index of the top. `cells`
-- holds the doubles of the arrays by address. `mallocs` are the addresses that the calls of `malloc`
-- will return, 0 once they are used up; `inputs` are the numbers that `scanf` will read.
pub record Vm : Type 0 where
  pub code : List ℕ
  pub stack : List ℕ
  pub variables : List ℕ
  pub pc : ℕ
  pub sp : ℕ
  pub running : Bool
  pub cells : ℕ → Option ℕ
  pub mallocs : List ℕ
  pub inputs : List ℕ
  pub output : List Line

-- `stack` is the memory the caller gives; the last four fields are the process's.
unfoldable pub vm_init : List ℕ → List ℕ → List ℕ → List ℕ → Vm
vm_init code stack mallocs inputs = record {
  code = code;
  stack = stack;
  variables = replicate 256 0;
  pc = 0;
  sp = 0;
  running = false;
  cells = λ a. none;
  mallocs = mallocs;
  inputs = inputs;
  output = [];
}

abbrev pub M : Type 0 → Type 0
M A = Vm → Option (A × Vm)

abbrev pub pure : {A : Type 0} → A → M A
pure a vm = some (a, vm)

infixl 5 ◌>>=◌ ◌>>◌
abbrev pub ◌>>=◌ : {A B : Type 0} → M A → (A → M B) → M B
◌>>=◌ m f vm = elim (m vm) [ none ↦ none | some (a, vm') ↦ f a vm' ]

abbrev pub ◌>>◌ : {B : Type 0} → M (Unit {0}) → M B → M B
m >> k = m >>= λ _. k

abbrev pub of_option : {A : Type 0} → Option A → M A
of_option o vm = Option.map (λ a. (a, vm)) o

-- `vm->code[vm->pc++]`.
unfoldable pub fetch : M ℕ
fetch vm = Option.map (λ byte. (byte, record vm { pc = vm.pc + 1 })) (get_elem? vm.code vm.pc)

-- `n` bytes from the code, the lowest first, as one number.
unfoldable pub fetch_bytes : ℕ → M ℕ
unfolding fetch
fetch_bytes zero = pure 0
fetch_bytes (suc n) = do low ← fetch; high ← fetch_bytes n; pure (low + 256 * high)

-- The eight bytes of a `double` or a `long`.
unfoldable pub fetch_word : M ℕ
unfolding fetch_bytes
fetch_word = fetch_bytes 8

-- `code[pc] | (code[pc + 1] << 8)`; the counter is left at the second byte plus one.
unfoldable pub fetch_address : M ℕ
unfolding fetch
fetch_address = do low ← fetch; high ← fetch; pure (bit_or low (high <<< 8))

unfoldable pub jump : ℕ → M (Unit {0})
jump address vm = some (tt, record vm { pc = address })

-- `vm->stack[vm->sp--]` and `vm->stack[++vm->sp] = v`. The source checks neither: `none` is no branch
-- of it, but marks the access outside the stack, after which C defines nothing.
abbrev pub pop_at : ℕ → M ℕ
pop_at zero vm = none
pop_at (suc n) vm = Option.map (λ v. (v, record vm { sp = n })) (get_elem? vm.stack n)

unfoldable pub pop : M ℕ
pop vm = pop_at vm.sp vm

unfoldable pub push_value : ℕ → M (Unit {0})
push_value v vm =
    if ltb vm.sp (length vm.stack)
    then some (tt, record vm { stack = set vm.stack vm.sp v; sp = vm.sp + 1 })
    else none

-- `vm->variables[i]`, of 256.
unfoldable pub variable : ℕ → M ℕ
variable i vm = Option.map (λ v. (v, vm)) (get_elem? vm.variables i)

unfoldable pub set_variable : ℕ → ℕ → M (Unit {0})
set_variable i v vm =
    if ltb i (length vm.variables)
    then some (tt, record vm { variables = set vm.variables i v })
    else none

unfoldable pub emit_line : Line → M (Unit {0})
emit_line line vm = some (tt, record vm { output = vm.output ++ (line ∷ []) })

-- An address in an array, and the array's cell there.
unfoldable pub load_cell : ℕ → M ℕ
load_cell a vm = Option.map (λ v. (v, vm)) (vm.cells a)

abbrev pub update_cell : (ℕ → Option ℕ) → ℕ → ℕ → ℕ → Option ℕ
update_cell cells a v b = if a == b then some v else cells b

unfoldable pub store_cell : ℕ → ℕ → M (Unit {0})
store_cell a v vm =
    Option.map (λ _. (tt, record vm { cells = update_cell vm.cells a v })) (vm.cells a)

-- `malloc`, which does not say what the block holds.
unfoldable pub next_malloc : M ℕ
next_malloc vm = elim vm.mallocs [
  | [] ↦ some (0, vm)
  | a ∷ rest ↦ some (a, record vm { mallocs = rest })
]

-- `for (i = 0; i < size; i++) new_array[i] = 0.0` on a block of `size` doubles.
unfoldable pub clear_block : ℕ → ℕ → (ℕ → Option ℕ) → ℕ → Option ℕ
clear_block a size cells b =
    if leb a b && (ltb b (a + 8 * size) && (b - a) % 8 == 0) then some 0 else cells b

unfoldable pub map_block : ℕ → ℕ → M (Unit {0})
unfolding clear_block
map_block a size vm =
    if a == 0
    then (if size == 0 then some (tt, vm) else none)
    else some (tt, record vm { cells = clear_block a size vm.cells })

unfoldable pub next_input : M ℕ
next_input vm = elim vm.inputs [
  | [] ↦ some (0, vm)
  | v ∷ rest ↦ some (v, record vm { inputs = rest })
]

-- The string at an offset of the code, up to its terminator; past the end of the code is a fault.
unfoldable pub c_string : List ℕ → Option (List ℕ)
c_string [] = none
c_string (c ∷ rest) =
    let tail = c_string rest in if c == 0 then some [] else Option.map (λ s. c ∷ s) tail
