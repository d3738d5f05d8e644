-- ===== src/Stellar/Compiler/State.antt =====
-- The local variables of `compile`, and the small steps that its branches share.
use nova64_os.Base.{ℕ, zero, suc, ◌+◌, ◌/◌, ◌%◌, Bool, true, false, leb, ◌==◌}
use nova64_os.Base.{if◌then◌else◌, List, [], ◌∷◌, ◌++◌, Option, none, length, set, replicate}
use nova64_os.Bits.{u8}
use nova64_os.Stellar.Opcode.{Op, opcode}
use nova64_os.Stellar.Compiler.Symbols.{Symbol}

-- The messages of `error_exit`, with what comes after "Missing ';' before", "Expected" and the like.
pub data Message : Type 0 where
  expected_semicolon missing_before_if missing_before_else missing_before_while : Message
  missing_before_declaration missing_before_print missing_before_open missing_before_close : Message
  missing_before_assignment unmatched_close too_many_variables array_size_not_number : Message
  expected_bracket expected_open_after_input not_declared_for_input expected_close_after_name :
      Message
  unknown_function not_declared index_not_declared unexpected_token semicolon_at_end : Message

-- The arguments of `error_exit`.
pub record Diagnostic : Type 0 where
  pub message : Message
  pub ptr : ℕ
  pub len : ℕ
  pub suggest : Option (List ℕ)

-- How a part of `compile` ends: in a value, in `error_exit`, or in a read or write outside an array.
pub data Result (A : Type 0) : Type 0 where
  done : A → Result A
  error : Diagnostic → Result A
  fault : Result A
  out_of_fuel : Result A

infixl 5 ◌>>=◌ ◌>>◌
abbrev pub ◌>>=◌ : {A B : Type 0} → Result A → (A → Result B) → Result B
◌>>=◌ (done a) f = f a
◌>>=◌ (error d) f = error d
◌>>=◌ fault f = fault
◌>>=◌ out_of_fuel f = out_of_fuel

abbrev pub ◌>>◌ : {B : Type 0} → Result (Unit {0}) → Result B → Result B
m >> k = m >>= λ _. k

abbrev pub fail : {A : Type 0} → Message → ℕ → ℕ → Result A
fail m ptr len = error (record { message = m; ptr = ptr; len = len; suggest = none })

abbrev pub require : Bool → Message → ℕ → Result (Unit {0})
require true m ptr = done tt
require false m ptr = fail m ptr 1

-- An access that is in bounds where the test holds.
abbrev pub bounded : Bool → Result (Unit {0})
bounded true = done tt
bounded false = fault

-- `var_store`: -1, -2 or an index.
pub data Target : Type 0 where
  no_target array_target : Target
  variable_target : ℕ → Target

-- The values of `scope_stack`: 0, 1 and 2.
pub data Scope : Type 0 where
  if_scope while_scope else_scope : Scope

-- `out` holds the bytes written, so that `b_ptr` is its length. A stack is a list with its top
-- first; `while_exit` and `expecting_cond_stack` keep what a popped entry held, so they are arrays.
-- A pending operation is its opcode, or 0.
pub record Compiler : Type 0 where
  pub s_ptr : ℕ
  pub out : List ℕ
  pub p_add_sub : ℕ
  pub p_mul_div : ℕ
  pub p_cmp : ℕ
  pub var_store : Target
  pub expect_print : ℕ
  pub force_semicolon_check : Bool
  pub paren_depth : ℕ
  pub symbols : List Symbol
  pub if_stack : List ℕ
  pub while_start : List ℕ
  pub while_exit : List (Option ℕ)
  pub scopes : List Scope
  pub expecting_cond : List Bool
  pub exit_jmps : List ℕ

unfoldable pub compiler_init : Compiler
compiler_init = record {
  s_ptr = 0;
  out = [];
  p_add_sub = 0;
  p_mul_div = 0;
  p_cmp = 0;
  var_store = no_target;
  expect_print = 0;
  force_semicolon_check = false;
  paren_depth = 0;
  symbols = [];
  if_stack = [];
  while_start = [];
  while_exit = replicate 16 none;
  scopes = [];
  expecting_cond = replicate 32 false;
  exit_jmps = [];
}

-- `out[b_ptr++] = byte`, for several bytes.
abbrev pub emit : List ℕ → Compiler → Compiler
emit bytes c = record c { out = c.out ++ bytes }

abbrev pub emit_op : Op → Compiler → Compiler
emit_op op c = emit (opcode op ∷ []) c

-- An operation on the variable of an index.
abbrev pub emit_indexed : Op → ℕ → Compiler → Compiler
emit_indexed op i c = emit (opcode op ∷ u8 i ∷ []) c

-- The `n` bytes of a number, the lowest first.
unfoldable pub bytes_of : ℕ → ℕ → List ℕ
bytes_of zero w = []
bytes_of (suc n) w = w % 256 ∷ bytes_of n (w / 256)

abbrev pub emit_push : ℕ → Compiler → Compiler
emit_push word c = emit (opcode Op.push ∷ bytes_of 8 word) c

-- Both bytes stand before `b_ptr` wherever it is called.
unfoldable pub patch16 : List ℕ → ℕ → ℕ → List ℕ
patch16 out pos val = set (set out pos (val % 256)) (pos + 1) (val / 256 % 256)

abbrev pub advance : ℕ → Compiler → Compiler
advance n c = record c { s_ptr = c.s_ptr + n }

-- `if (p) { out[b_ptr++] = p; p = 0; }` for each of the three pending operations.
unfoldable pub pending : ℕ → List ℕ
pending p = if p == 0 then [] else p ∷ []

abbrev pub flush_product : Compiler → Compiler
flush_product c = record c { out = c.out ++ pending c.p_mul_div; p_mul_div = 0 }

abbrev pub flush_sum : Compiler → Compiler
flush_sum c = record c { out = c.out ++ pending c.p_add_sub; p_add_sub = 0 }

abbrev pub flush_cmp : Compiler → Compiler
flush_cmp c = record c { out = c.out ++ pending c.p_cmp; p_cmp = 0 }

-- `if (var_store != -1) error_exit(...)`.
abbrev pub no_store : Message → ℕ → Compiler → Result (Unit {0})
no_store m len c = elim c.var_store [
  | no_target ↦ done tt
  | array_target ↦ fail m c.s_ptr len
  | variable_target i ↦ fail m c.s_ptr len
]

-- `scope_stack[++scope_top] = kind`, and whether a condition is expected where that is written too.
unfoldable pub push_scope : Scope → Bool → Compiler → Result Compiler
push_scope kind expecting c =
    if leb 32 (length c.scopes)
    then fault
    else if expecting
    then done (record c {
      scopes = kind ∷ c.scopes;
      expecting_cond = set c.expecting_cond (length c.scopes) true;
    })
    else done (record c { scopes = kind ∷ c.scopes })
