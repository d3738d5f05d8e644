-- ===== src/Stellar/Compiler/Progress.antt =====
-- Every branch of the loop of `compile` moves on in the text, and writes at most nine bytes for each
-- character it takes, counting the bytes that are still to be written.
pub mod Statements
pub mod Literals
pub mod Scopes
pub mod Names
pub mod Bound
use nova64_os.Base.{
  ℕ, zero, suc, ◌+◌, ◌-◌, ◌*◌, ◌/◌, ◌%◌, ◌^◌, ◌≤◌, ◌<◌, ◌≡◌, refl, arith, ap, sym, ◌∙◌, Bool, true,
  false, not, ltb, leb, ◌==◌, ◌&&◌,
}
use nova64_os.Base.{
  if_both, if◌then◌else◌, List, [], ◌∷◌, ◌++◌, Option, none, some, length, set, length-append,
  length-set, Bool-cases, inl, inr,
}
use nova64_os.Stellar.Opcode.{Op, opcode}
use nova64_os.Stellar.Compiler.Symbols.{VarType, Symbol, find_variable}
use nova64_os.Stellar.Compiler.State.{
  Message, expected_semicolon, missing_before_if, missing_before_else, missing_before_while,
  missing_before_declaration, missing_before_print, missing_before_open, missing_before_close,
  missing_before_assignment, unmatched_close, too_many_variables, array_size_not_number,
  expected_bracket, expected_open_after_input, not_declared_for_input, expected_close_after_name,
  unknown_function, not_declared, index_not_declared, unexpected_token, semicolon_at_end,
}
use nova64_os.Stellar.Compiler.State.{
  Diagnostic, Result, done, error, fault, out_of_fuel, ◌>>=◌, ◌>>◌, fail, require, bounded, Target,
  no_target, array_target, variable_target, Scope, if_scope, while_scope, else_scope, Compiler,
  compiler_init,
}
use nova64_os.Stellar.Compiler.State.{
  emit, emit_op, emit_indexed, bytes_of, emit_push, patch16, advance, pending, flush_product,
  flush_sum, flush_cmp, no_store, push_scope,
}

-- The value, where there is one, meets `P`; fuel is not what ends it.
abbrev pub Ends : {A : Type 0} → (A → Type 0) → Result A → Type 0
Ends P (done a) = P a
Ends P (error d) = Unit
Ends P fault = Unit
Ends P out_of_fuel = ⊥

abbrev pub Any : {A : Type 0} → A → Type 0
Any a = Unit

pub Ends-bind :
    {A B : Type 0} (P : A → Type 0) (Q : B → Type 0) (m : Result A) (f : A → Result B)
    → Ends P m
    → ((a : A) → P a → Ends Q (f a))
    → Ends Q (m >>= f)
Ends-bind P Q (done a) f h k = k a h
Ends-bind P Q (error d) f h k = tt
Ends-bind P Q fault f h k = tt
Ends-bind P Q out_of_fuel f h k = absurd h

pub weaker :
    {A : Type 0} (P Q : A → Type 0) (m : Result A) → ((a : A) → P a → Q a) → Ends P m → Ends Q m
weaker P Q (done a) k h = k a h
weaker P Q (error d) k h = tt
weaker P Q fault k h = tt
weaker P Q out_of_fuel k h = absurd h

pub Ends-require : (b : Bool) (m : Message) (i : ℕ) → Ends Any (require b m i)
Ends-require true m i = tt
Ends-require false m i = tt

pub Ends-bounded : (b : Bool) → Ends Any (bounded b)
Ends-bounded true = tt
Ends-bounded false = tt

pub Ends-no_store : (m : Message) (len : ℕ) (c : Compiler) → Ends Any (no_store m len c)
Ends-no_store m len c = by_target c.var_store
  where
    by_target :
        (t : Target)
        → Ends Any (elim t [
          | no_target ↦ done tt
          | array_target ↦ fail m c.s_ptr len
          | variable_target i ↦ fail m c.s_ptr len
        ])
    by_target no_target = tt
    by_target array_target = tt
    by_target (variable_target i) = tt

abbrev pub target_size : Target → ℕ
target_size no_target = 0
target_size array_target = 1
target_size (variable_target i) = 2

pub target_size-le : (t : Target) → target_size t ≤ 2
target_size-le no_target = omega arith
target_size-le array_target = omega arith
target_size-le (variable_target i) = omega arith

-- The bytes written and those that the pending operations and the store will take.
abbrev pub size : Compiler → ℕ
size c =
    length c.out
    + length (pending c.p_mul_div)
    + length (pending c.p_add_sub)
    + length (pending c.p_cmp)
    + target_size c.var_store

pub length-pending_le : (p : ℕ) → length (pending p) ≤ 1
unfolding pending
length-pending_le p = ground arith

pub length-pending_zero : length (pending 0) ≡ 0
unfolding pending
length-pending_zero = refl

pub length-patch16 : (out : List ℕ) (pos val : ℕ) → length (patch16 out pos val) ≡ length out
unfolding patch16
length-patch16 out pos val = length-set (set out pos (val % 256)) (pos + 1) _ ∙ length-set out pos _

pub length-bytes_of : (n w : ℕ) → length (bytes_of n w) ≡ n
unfolding bytes_of
length-bytes_of zero w = refl
length-bytes_of (suc n) w = let e = length-bytes_of n (w / 256) in omega arith

-- From position `i` and size `n` to the state.
abbrev pub Moved : ℕ → ℕ → Compiler → Type 0
Moved i n c = (i < c.s_ptr) × (size c + 9 * i ≤ n + 9 * c.s_ptr)

-- No fewer bytes are allowed for than `k` more than at the start, at the same place.
abbrev pub Wrote : ℕ → Compiler → Compiler → Type 0
Wrote k c c' = (c'.s_ptr ≡ c.s_ptr) × (size c' ≤ size c + k)

pub ruleset sizes = (
  arith, length-append, length-patch16, length-bytes_of, length-pending_le, length-pending_zero,
  target_size-le,
)

pub Ends-push_scope :
    (kind : Scope) (b : Bool) (c : Compiler) → Ends (Wrote 0 c) (push_scope kind b c)
unfolding push_scope
Ends-push_scope kind b c =
    if_both (Ends (Wrote 0 c)) (leb 32 (length c.scopes)) (λ full. tt)
      (λ room. if_both (Ends (Wrote 0 c)) b (λ t. (refl, omega arith)) (λ f. (refl, omega arith)))
