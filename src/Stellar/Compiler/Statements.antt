-- ===== src/Stellar/Compiler/Statements.antt =====
-- The branches of `compile` for declarations, `input`, texts, numbers, `;` and the comparisons.
use nova64_os.Base.{ℕ, ◌+◌, ◌%◌, ◌^◌, true, false, not, leb, ◌==◌}
use nova64_os.Base.{if◌then◌else◌, List, [], ◌∷◌, ◌++◌, none, some, length, take}
use nova64_os.Bits.{u8}
use nova64_os.Stellar.Fpu.{Fpu}
use nova64_os.Stellar.Opcode.{Op, opcode}
use nova64_os.Stellar.Compiler.Scan.{is_digit, is_word_char, is_number_char, char_at, skip_spaces}
use nova64_os.Stellar.Compiler.Scan.{run_length, substring}
use nova64_os.Stellar.Compiler.Symbols.{VarType, Symbol, find_variable, add_variable, is_int}
use nova64_os.Stellar.Compiler.State.{
  missing_before_declaration, missing_before_print, missing_before_open, too_many_variables,
  array_size_not_number, expected_bracket, expected_open_after_input, not_declared_for_input,
  expected_close_after_name,
}
use nova64_os.Stellar.Compiler.State.{
  Result, done, fault, ◌>>=◌, ◌>>◌, fail, require, Target, no_target, array_target, variable_target,
  Compiler,
}
use nova64_os.Stellar.Compiler.State.{
  bytes_of, emit_push, patch16, advance, pending, flush_product, flush_sum, flush_cmp, no_store,
}

-- What `;` stores the value on the stack to.
unfoldable pub store_code : List Symbol → Target → List ℕ
unfolding is_int
store_code symbols no_target = []
store_code symbols array_target = opcode Op.array_set ∷ []
store_code symbols (variable_target i) =
    (if is_int symbols i then opcode Op.store_i else opcode Op.store) ∷ u8 i ∷ []

unfoldable pub on_semicolon : Compiler → Compiler
unfolding store_code
on_semicolon c =
    let flushed = flush_cmp (flush_sum (flush_product c)) in
    record flushed {
      out = flushed.out ++ store_code c.symbols c.var_store;
      var_store = no_target;
      force_semicolon_check = false;
      s_ptr = c.s_ptr + 1;
    }

-- A comparison of `n` characters.
unfoldable pub on_compare : Op → ℕ → Compiler → Compiler
on_compare op n c =
    let flushed = flush_sum (flush_product c) in
    record flushed { p_cmp = opcode op; s_ptr = c.s_ptr + n }

unfoldable pub on_print : Compiler → Result Compiler
on_print c = do
  no_store missing_before_print 5 c
  done (record c { expect_print = 1; s_ptr = c.s_ptr + 5 })

unfoldable pub on_open_brace : Compiler → Result Compiler
on_open_brace c = do no_store missing_before_open 1 c; done (advance 1 c)

unfoldable pub on_sum : Op → Compiler → Compiler
on_sum op c = record c {
  out = c.out ++ pending c.p_add_sub;
  p_add_sub = opcode op;
  s_ptr = c.s_ptr + 1;
}

unfoldable pub on_product : Op → Compiler → Compiler
on_product op c = record c {
  out = c.out ++ pending c.p_mul_div;
  p_mul_div = opcode op;
  s_ptr = c.s_ptr + 1;
}

-- `find_variable(name)`, and `add_variable` where there is none.
unfoldable pub declare : List ℕ → VarType → Compiler → Result (ℕ × List Symbol)
unfolding find_variable add_variable
declare name type c = elim (find_variable name c.symbols) [
  | some id ↦ done (id, c.symbols)
  | none ↦ elim (add_variable name type c.symbols) [
    | none ↦ fail too_many_variables c.s_ptr 1
    | some added ↦ done added
  ]
]

module _ (source : List ℕ) where
  unfoldable pub on_comment : Compiler → Compiler
  unfolding run_length
  on_comment c = advance (run_length source (λ ch. not (ch == 0x0A)) c.s_ptr) c

  -- At most 31 characters of a name are kept.
  unfoldable pub name_at : ℕ → List ℕ
  unfolding run_length
  name_at i = take 31 (substring source i (run_length source is_word_char i))

  unfoldable pub on_input : Compiler → Result Compiler
  unfolding skip_spaces run_length name_at find_variable
  on_input c = do
    let open_at = skip_spaces source (c.s_ptr + 5)
    require (char_at source open_at == 0x28) expected_open_after_input open_at
    let name_from = skip_spaces source (open_at + 1)
    let name_end = name_from + run_length source is_word_char name_from
    idx ← elim (find_variable (name_at name_from) c.symbols) [
      | none ↦ fail not_declared_for_input name_end (length (name_at name_from))
      | some idx ↦ done idx
    ]
    let close_at = skip_spaces source name_end
    require (char_at source close_at == 0x29) expected_close_after_name close_at
    done (record c {
      out = c.out ++ (opcode Op.input ∷ opcode Op.store ∷ u8 idx ∷ []);
      force_semicolon_check = true;
      s_ptr = close_at + 1;
    })

  module _ (fpu : Fpu) (atof : List ℕ → ℕ) where
    -- A literal text: a jump over its bytes and a terminator, and a push of their address.
    unfoldable pub on_string : Compiler → Compiler
    unfolding run_length patch16 bytes_of
    on_string c =
        let start = c.s_ptr + 1 in
        let str_len = run_length source (λ ch. not (ch == 0x22)) start in
        let jumping = c.out ++ (opcode Op.jmp ∷ 0 ∷ 0 ∷ []) in
        let text = jumping ++ (substring source start str_len ++ (0 ∷ [])) in
        let patched = patch16 text (length c.out + 1) (length text) in
        record c {
          out = patched ++ (opcode Op.push ∷ bytes_of 8 (fpu.of_long (length jumping % 2 ^ 16)));
          expect_print = if c.expect_print == 0 then 0 else 2;
          s_ptr = start + str_len + 1;
        }

    -- The value of the number at `i`, read into a buffer of `size` characters, and its length.
    unfoldable pub number_at : ℕ → ℕ → Result (ℕ × ℕ)
    unfolding run_length
    number_at size i =
        let n = run_length source is_number_char i in
        if leb size n then fault else done (atof (substring source i n), n)

    unfoldable pub on_number : Compiler → Result Compiler
    unfolding number_at bytes_of
    on_number c = do
      (value, n) ← number_at 32 c.s_ptr
      done (flush_product (advance n (emit_push value c)))

    -- `let a = [size]`, from the bracket on.
    unfoldable pub declare_array : ℕ → Compiler → Result Compiler
    unfolding skip_spaces number_at bytes_of
    declare_array idx c = do
      let size_at = skip_spaces source (c.s_ptr + 1)
      require (is_digit (char_at source size_at)) array_size_not_number size_at
      (size, n) ← number_at 16 size_at
      let close_at = skip_spaces source (size_at + n)
      require (char_at source close_at == 0x5D) expected_bracket close_at
      done (record c {
        out =
            c.out
            ++ (opcode Op.push
                ∷ (bytes_of 8 size ++ (opcode Op.array_make ∷ opcode Op.store ∷ u8 idx ∷ [])));
        force_semicolon_check = true;
        s_ptr = close_at + 1;
      })

    -- What follows the name in a declaration.
    unfoldable pub initialise : ℕ → Compiler → Result Compiler
    unfolding skip_spaces declare_array
    initialise idx c =
        let value_at = skip_spaces source (c.s_ptr + 1) in
        if not (char_at source c.s_ptr == 0x3D)
        then done c
        else if char_at source value_at == 0x5B
        then declare_array idx (record c { s_ptr = value_at })
        else done (record c { s_ptr = value_at; var_store = variable_target idx })

    -- `let` and `int` are both three characters.
    unfoldable pub on_declaration : VarType → Compiler → Result Compiler
    unfolding skip_spaces run_length name_at declare initialise
    on_declaration type c = do
      no_store missing_before_declaration 3 c
      let name_from = skip_spaces source (c.s_ptr + 3)
      let name_end = name_from + run_length source is_word_char name_from
      (idx, symbols) ← declare (name_at name_from) type (record c { s_ptr = name_end })
      initialise idx (record c { s_ptr = skip_spaces source name_end; symbols = symbols })
