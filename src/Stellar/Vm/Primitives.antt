-- ===== src/Stellar/Vm/Primitives.antt =====
-- What each primitive of the machine does where it does not fault.
use mathlib.Core.Option
use nova64_os.Base.{ℕ, suc, ◌+◌, ◌<◌, ◌≡◌, ap, ◌∙◌, lt→ltb, Option, none, some}
use nova64_os.Base.{get_elem?, length, set}
use nova64_os.Stellar.Vm.{Vm, M, ◌>>=◌, pop, pop_at, push_value, variable, set_variable}

-- The chain goes on from the result of its first part.
pub bind-some :
    {A B : Type 0} (m : M A) (f : A → M B) (vm : Vm) {vm' : Vm} {a : A}
    → m vm ≡ some (a, vm')
    → (m >>= f) vm ≡ f a vm'
bind-some m f vm e = ap (λ o. elim o [ none ↦ none | some (a, vm') ↦ f a vm' ]) e

pub pop_lem :
    (vm : Vm) (n : ℕ) {v : ℕ}
    → vm.sp ≡ suc n
    → get_elem? vm.stack n ≡ some v
    → pop vm ≡ some (v, record vm { sp = n })
unfolding pop
pop_lem vm n depth top =
    ap (λ (k : ℕ). pop_at k vm) depth
    ∙ ap (λ (o : Option ℕ). Option.map (λ v. (v, record vm { sp = n })) o) top

pub push_value_lem :
    (vm : Vm) (v : ℕ)
    → vm.sp < length vm.stack
    → push_value v vm ≡ some (tt, record vm { stack = set vm.stack vm.sp v; sp = vm.sp + 1 })
unfolding push_value
push_value_lem vm v room = rw (lt→ltb vm.sp (length vm.stack) room)

pub variable_lem :
    (vm : Vm) (i : ℕ) {v : ℕ} → get_elem? vm.variables i ≡ some v → variable i vm ≡ some (v, vm)
unfolding variable
variable_lem vm i e = ap (λ (o : Option ℕ). Option.map (λ v. (v, vm)) o) e

pub set_variable_lem :
    (vm : Vm) (i v : ℕ)
    → i < length vm.variables
    → set_variable i v vm ≡ some (tt, record vm { variables = set vm.variables i v })
unfolding set_variable
set_variable_lem vm i v h = rw (lt→ltb i (length vm.variables) h)
