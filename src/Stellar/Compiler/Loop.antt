-- ===== src/Stellar/Compiler/Loop.antt =====
-- The loop of `compile` over the source text.
use nova64_os.Base.{ℕ, zero, suc, ◌+◌, Bool, true, false, not, ltb, ◌==◌, ◌&&◌}
use nova64_os.Base.{if◌then◌else◌, List, [], ◌∷◌, ◌++◌, length}
use nova64_os.Bits.{u32}
use nova64_os.Stellar.Fpu.{Fpu}
use nova64_os.Stellar.Opcode.{Op, opcode}
use nova64_os.Stellar.Compiler.Scan.{is_space, is_digit, is_alpha, char_at, match}
use nova64_os.Stellar.Compiler.Symbols.{VarType, ty_int, ty_double}
use nova64_os.Stellar.Compiler.Scopes.{on_close_paren, on_if, on_else, on_while, on_close_brace}
use nova64_os.Stellar.Compiler.Statements.{
  on_semicolon, on_compare, on_print, on_open_brace, on_sum,
}
use nova64_os.Stellar.Compiler.Statements.{on_product, on_comment, on_input, on_string, on_number}
use nova64_os.Stellar.Compiler.Statements.{on_declaration}
use nova64_os.Stellar.Compiler.Names.{on_name}
use nova64_os.Stellar.Compiler.State.{expected_semicolon, unexpected_token, semicolon_at_end}
use nova64_os.Stellar.Compiler.State.{
  Result, done, fault, out_of_fuel, ◌>>=◌, ◌>>◌, fail, Compiler, compiler_init,
}
use nova64_os.Stellar.Compiler.State.{advance, no_store}

-- The branches of the loop's body, in their order.
pub data Token : Type 0 where
  space semicolon unfinished comment text if_word else_word while_word : Token
  comparison : Op → ℕ → Token
  declaration : VarType → Token
  print_word input_word open_paren open_brace close_paren close_brace number name : Token
  sum product : Op → Token
  unexpected : Token

abbrev pub word_if : List ℕ
word_if = 0x69 ∷ 0x66 ∷ []

abbrev pub word_else : List ℕ
word_else = 0x65 ∷ 0x6C ∷ 0x73 ∷ 0x65 ∷ []

abbrev pub word_while : List ℕ
word_while = 0x77 ∷ 0x68 ∷ 0x69 ∷ 0x6C ∷ 0x65 ∷ []

abbrev pub word_let : List ℕ
word_let = 0x6C ∷ 0x65 ∷ 0x74 ∷ []

abbrev pub word_int : List ℕ
word_int = 0x69 ∷ 0x6E ∷ 0x74 ∷ []

abbrev pub word_print : List ℕ
word_print = 0x70 ∷ 0x72 ∷ 0x69 ∷ 0x6E ∷ 0x74 ∷ []

abbrev pub word_input : List ℕ
word_input = 0x69 ∷ 0x6E ∷ 0x70 ∷ 0x75 ∷ 0x74 ∷ []

module _ (source : List ℕ) where
  -- `match(source, s_ptr, word)` as a test.
  abbrev is_word : ℕ → List ℕ → Bool
  is_word i word = not (match source i word == 0)

  -- The characters after the keywords.
  abbrev pub token_of_char : ℕ → Token
  token_of_char c =
      if c == 0x28
      then open_paren
      else if c == 0x7B
      then open_brace
      else if c == 0x29
      then close_paren
      else if c == 0x7D
      then close_brace
      else if is_digit c
      then number
      else if is_alpha c
      then name
      else if c == 0x2B
      then sum Op.add
      else if c == 0x2D
      then sum Op.sub
      else if c == 0x2A
      then product Op.mul
      else if c == 0x2F
      then product Op.div
      else if c == 0x25
      then product Op.mod_op
      else unexpected

  -- The branch taken at `i`; `forced` is `force_semicolon_check`.
  unfoldable pub token_at : Bool → ℕ → Token
  unfolding match
  token_at forced i =
      let c = char_at source i in
      let d = char_at source (i + 1) in
      if is_space c
      then space
      else if c == 0x3B
      then semicolon
      else if forced
      then unfinished
      else if c == 0x2F && d == 0x2F
      then comment
      else if c == 0x22
      then text
      else if is_word i word_if
      then if_word
      else if is_word i word_else
      then else_word
      else if c == 0x3D && d == 0x3D
      then comparison Op.cmp_eq 2
      else if c == 0x21 && d == 0x3D
      then comparison Op.cmp_neq 2
      else if c == 0x3C
      then (if d == 0x3D then comparison Op.cmp_lte 2 else comparison Op.cmp_lt 1)
      else if c == 0x3E
      then (if d == 0x3D then comparison Op.cmp_gte 2 else comparison Op.cmp_gt 1)
      else if is_word i word_while
      then while_word
      else if is_word i word_let
      then declaration ty_double
      else if is_word i word_int
      then declaration ty_int
      else if is_word i word_print
      then print_word
      else if is_word i word_input
      then input_word
      else token_of_char c

  module _ (fpu : Fpu) (atof : List ℕ → ℕ) where
    -- What the loop's body does in each branch.
    unfoldable pub on_token : Token → Compiler → Result Compiler
    unfolding on_semicolon on_comment on_string on_if on_else on_while on_compare on_declaration
        on_print on_input on_open_brace on_close_paren on_close_brace on_number on_name on_sum
        on_product
    on_token space c = done (advance 1 c)
    on_token semicolon c = done (on_semicolon c)
    on_token unfinished c = fail expected_semicolon c.s_ptr 1
    on_token comment c = done (on_comment source c)
    on_token text c = done (on_string source fpu atof c)
    on_token if_word c = on_if source c
    on_token else_word c = on_else source c
    on_token while_word c = on_while source c
    on_token (comparison op n) c = done (on_compare op n c)
    on_token (declaration type) c = on_declaration source fpu atof type c
    on_token print_word c = on_print c
    on_token input_word c = on_input source c
    on_token open_paren c =
        done (record c { paren_depth = u32 (c.paren_depth + 1); s_ptr = c.s_ptr + 1 })
    on_token open_brace c = on_open_brace c
    on_token close_paren c = on_close_paren c
    on_token close_brace c = on_close_brace source c
    on_token number c = on_number source fpu atof c
    on_token name c = on_name source fpu atof c
    on_token (sum op) c = done (on_sum op c)
    on_token (product op) c = done (on_product op c)
    on_token unexpected c = fail unexpected_token c.s_ptr 1

    -- What is done at the end of the text.
    unfoldable pub finish : Compiler → Result (List ℕ)
    finish c = do no_store semicolon_at_end 1 c; done (c.out ++ (opcode Op.halt ∷ []))

    -- The loop, with a bound on its rounds. The text of a literal that is not closed leads past the
    -- terminator, which the loop then reads: a fault.
    unfoldable pub compile_from : ℕ → Compiler → Result (List ℕ)
    unfolding token_at on_token finish
    compile_from zero c = out_of_fuel
    compile_from (suc fuel) c = elim (ltb (length source) c.s_ptr) [
      | true ↦ fault
      | false ↦ elim (char_at source c.s_ptr == 0) [
        | true ↦ finish c
        | false ↦
            on_token (token_at c.force_semicolon_check c.s_ptr) c >>= λ next. compile_from fuel next
      ]
    ]

    -- The bytes written, of a text of no zero characters. A round for each
    -- character, one at the end and one past it are enough.
    unfoldable pub compile : Result (List ℕ)
    unfolding compiler_init compile_from
    compile = compile_from (length source + 2) compiler_init
