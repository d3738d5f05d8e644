-- ===== src/Stellar/Compiler/Names.antt =====
-- The branch of `compile` for a word that is no keyword: a call, `++`, `--`, an array element, an
-- assignment plain or compound, or the value of a variable.
use nova64_os.Base.{ℕ, ◌+◌, Bool, true, not, leb, ◌==◌, ◌&&◌}
use nova64_os.Base.{if◌then◌else◌, List, [], ◌∷◌, ◌++◌, Option, none, some}
use nova64_os.Bits.{u8}
use nova64_os.Stellar.Fpu.{Fpu}
use nova64_os.Stellar.Opcode.{Op, opcode}
use nova64_os.Stellar.Errors.{is_similar}
use nova64_os.Stellar.Compiler.Scan.{is_digit, is_alpha, is_word_char, char_at}
use nova64_os.Stellar.Compiler.Scan.{skip_spaces, run_length, substring}
use nova64_os.Stellar.Compiler.Symbols.{Symbol, find_variable, is_int}
use nova64_os.Stellar.Compiler.Statements.{number_at, name_at}
use nova64_os.Stellar.Compiler.State.{
  missing_before_assignment, expected_bracket, unknown_function, not_declared, index_not_declared,
}
use nova64_os.Stellar.Compiler.State.{
  Result, done, error, fault, ◌>>=◌, ◌>>◌, fail, require, array_target, variable_target, Compiler,
}
use nova64_os.Stellar.Compiler.State.{emit_op, bytes_of, flush_product, flush_sum, no_store}

-- The first of `print` and `input` that the word is close to.
unfoldable pub suggestion : List ℕ → Option (List ℕ)
unfolding is_similar
suggestion word =
    let print_word = 0x70 ∷ 0x72 ∷ 0x69 ∷ 0x6E ∷ 0x74 ∷ [] in
    let input_word = 0x69 ∷ 0x6E ∷ 0x70 ∷ 0x75 ∷ 0x74 ∷ [] in
    if is_similar word print_word
    then some print_word
    else if is_similar word input_word
    then some input_word
    else none

-- What follows a variable's name, from the two characters after the spaces.
pub data Use : Type 0 where
  increment decrement element assignment add_to subtract_from multiply_by value : Use

unfoldable pub use_of : ℕ → ℕ → Use
use_of c d =
    if c == 0x2B && d == 0x2B
    then increment
    else if c == 0x2D && d == 0x2D
    then decrement
    else if c == 0x5B
    then element
    else if c == 0x3D && not (d == 0x3D)
    then assignment
    else if c == 0x2B && d == 0x3D
    then add_to
    else if c == 0x2D && d == 0x3D
    then subtract_from
    else if c == 0x2A && d == 0x3D
    then multiply_by
    else value

-- The four operations of a compound assignment, with the plain one, and which pending operation
-- the plain one becomes.
pub data Compound : Type 0 where
  adding subtracting multiplying : Compound

unfoldable pub const_op : Compound → Bool → Op
const_op adding int = if int then Op.add_const_i else Op.add_const
const_op subtracting int = if int then Op.sub_const_i else Op.sub_const
const_op multiplying int = if int then Op.mul_const_i else Op.mul_const

unfoldable pub var_op : Compound → Bool → Op
var_op adding int = if int then Op.add_var_i else Op.add_var
var_op subtracting int = if int then Op.sub_var_i else Op.sub_var
var_op multiplying int = if int then Op.mul_var_i else Op.mul_var

unfoldable pub make_pending : Compound → Compiler → Compiler
make_pending adding c = record c { p_add_sub = opcode Op.add }
make_pending subtracting c = record c { p_add_sub = opcode Op.sub }
make_pending multiplying c = record c { p_mul_div = opcode Op.mul }

-- `LOAD_I` for an `int` variable and `LOAD` for a double.
abbrev pub load_code : List Symbol → ℕ → List ℕ
load_code symbols i = (if is_int symbols i then opcode Op.load_i else opcode Op.load) ∷ u8 i ∷ []

-- `idx++` and `idx--`, whose characters end at `next`.
unfoldable pub on_step : Op → Op → ℕ → ℕ → Compiler → Compiler
unfolding is_int
on_step plain int idx next c = record c {
  out = c.out ++ (opcode (if is_int c.symbols idx then int else plain) ∷ u8 idx ∷ []);
  s_ptr = next;
  force_semicolon_check = true;
}

unfoldable pub on_assignment : ℕ → ℕ → ℕ → Compiler → Result Compiler
on_assignment idx w_len next c = do
  no_store missing_before_assignment w_len c
  done (record c { var_store = variable_target idx; s_ptr = next })

-- The value of a variable, with a pending product applied.
unfoldable pub on_value : ℕ → ℕ → Compiler → Compiler
unfolding is_int
on_value idx next c =
    flush_product (record c { out = c.out ++ load_code c.symbols idx; s_ptr = next })

module _ (source : List ℕ) (fpu : Fpu) (atof : List ℕ → ℕ) where
  -- The constant case of a compound assignment.
  unfoldable pub compound_const : Compound → ℕ → Compiler → Result Compiler
  unfolding const_op number_at is_int bytes_of
  compound_const kind idx c = do
    (val, n) ← number_at source fpu atof 32 c.s_ptr
    let int = is_int c.symbols idx
    done (record c {
      out =
          c.out
          ++ (opcode (const_op kind int)
              ∷ u8 idx
              ∷ bytes_of 8 (if int then fpu.to_long val else val));
      s_ptr = c.s_ptr + n;
      force_semicolon_check = true;
    })

  -- The general case: the variable is loaded, and the rest is an expression up to `;`.
  unfoldable pub compound_stack : Compound → ℕ → Compiler → Compiler
  unfolding make_pending is_int
  compound_stack kind idx c =
      make_pending kind
        (record c { out = c.out ++ load_code c.symbols idx; var_store = variable_target idx })

  -- The variable case; a word that is no variable is left to the general one. The word is copied
  -- whole into 32 characters.
  unfoldable pub compound_var : Compound → ℕ → Compiler → Result Compiler
  unfolding run_length find_variable var_op is_int compound_stack
  compound_var kind idx c =
      let n = run_length source is_word_char c.s_ptr in
      if leb 32 n then fault else elim (find_variable (substring source c.s_ptr n) c.symbols) [
        | none ↦ done (compound_stack kind idx c)
        | some src ↦ done (record c {
          out =
              c.out
              ++ (opcode (var_op kind (is_int c.symbols idx && is_int c.symbols src))
                  ∷ u8 idx
                  ∷ u8 src
                  ∷ []);
          s_ptr = c.s_ptr + n;
          force_semicolon_check = true;
        })
      ]

  -- `idx += ...` and its like, from the character at `next` on.
  unfoldable pub on_compound : Compound → ℕ → ℕ → Compiler → Result Compiler
  unfolding skip_spaces compound_const compound_var compound_stack
  on_compound kind idx next c =
      let at_operand = record c { s_ptr = skip_spaces source next } in
      if is_digit (char_at source at_operand.s_ptr)
      then compound_const kind idx at_operand
      else if is_alpha (char_at source at_operand.s_ptr)
      then compound_var kind idx at_operand
      else done (compound_stack kind idx at_operand)

  unfoldable pub index_number : ℕ → Result (List ℕ × ℕ)
  unfolding number_at bytes_of
  index_number i = do
    (val, len) ← number_at source fpu atof 16 i
    done (opcode Op.push ∷ bytes_of 8 val, i + len)

  -- The code of an index at `i` and where it ends; nothing where neither a number nor a name stands.
  unfoldable pub index_code : ℕ → List Symbol → Result (List ℕ × ℕ)
  unfolding index_number run_length find_variable is_int
  index_code i symbols =
      let n = run_length source is_word_char i in
      if is_digit (char_at source i)
      then index_number i
      else if not (is_alpha (char_at source i))
      then done ([], i)
      else if leb 32 n
      then fault
      else elim (find_variable (substring source i n) symbols) [
        | none ↦ fail index_not_declared (i + n) n
        | some idx ↦ done (load_code symbols idx, i + n)
      ]

  -- `idx[...]`, from the character after the bracket on.
  unfoldable pub on_element : ℕ → ℕ → Compiler → Result Compiler
  unfolding skip_spaces index_code
  on_element idx next c = do
    (code, index_end) ← index_code (skip_spaces source next) c.symbols
    let close_at = skip_spaces source index_end
    require (char_at source close_at == 0x5D) expected_bracket close_at
    let after = skip_spaces source (close_at + 1)
    let indexed = record c { out = c.out ++ (opcode Op.load ∷ u8 idx ∷ code) }
    if char_at source after == 0x3D && not (char_at source (after + 1) == 0x3D)
        then done (record indexed { s_ptr = after + 1; var_store = array_target })
        else done
            (flush_sum (flush_product (emit_op Op.array_get (record indexed { s_ptr = after }))))

  -- `chk` is where the word's spaces end.
  unfoldable pub on_use : Use → ℕ → ℕ → ℕ → Compiler → Result Compiler
  unfolding on_step on_element on_assignment on_compound on_value
  on_use increment idx w_len chk c = done (on_step Op.inc Op.inc_i idx (chk + 2) c)
  on_use decrement idx w_len chk c = done (on_step Op.dec Op.dec_i idx (chk + 2) c)
  on_use element idx w_len chk c = on_element idx (chk + 1) c
  on_use assignment idx w_len chk c = on_assignment idx w_len (chk + 1) c
  on_use add_to idx w_len chk c = on_compound adding idx (chk + 2) c
  on_use subtract_from idx w_len chk c = on_compound subtracting idx (chk + 2) c
  on_use multiply_by idx w_len chk c = on_compound multiplying idx (chk + 2) c
  on_use value idx w_len chk c = done (on_value idx chk c)

  unfoldable pub on_name : Compiler → Result Compiler
  unfolding run_length skip_spaces name_at find_variable suggestion use_of on_use
  on_name c =
      let w_len = run_length source is_word_char c.s_ptr in
      let chk = skip_spaces source (c.s_ptr + w_len) in
      let word = name_at source c.s_ptr in
      if char_at source chk == 0x28
      then error (record {
        message = unknown_function;
        ptr = c.s_ptr;
        len = w_len;
        suggest = suggestion word;
      })
      else elim (find_variable word c.symbols) [
        | none ↦ fail not_declared c.s_ptr w_len
        | some idx ↦ on_use (use_of (char_at source chk) (char_at source (chk + 1))) idx w_len chk c
      ]
