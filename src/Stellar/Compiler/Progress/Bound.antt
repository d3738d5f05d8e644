-- ===== src/Stellar/Compiler/Progress/Bound.antt =====
-- `compile` ends, and what it writes is bounded by the length of the text.
use nova64_os.Base.{
  ℕ, zero, suc, ◌+◌, ◌*◌, ◌≤◌, ◌<◌, ◌≡◌, refl, arith, Bool, true, false, not, ltb, ◌==◌, ◌&&◌,
}
use nova64_os.Base.{if_both, ==_iff, List, [], ◌∷◌, length, length-append}
use nova64_os.Stellar.Fpu.{Fpu}
use nova64_os.Stellar.Opcode.{Op, opcode}
use nova64_os.Stellar.Compiler.Scan.{is_digit, is_alpha, is_space, char_at, match}
use nova64_os.Stellar.Compiler.Progress.{Ends, Any, Ends-bind, Ends-no_store, size, Moved}
use nova64_os.Stellar.Compiler.Loop.{
  word_if, word_else, word_while, word_let, word_int, word_print, word_input, token_of_char, Token,
  space, semicolon, unfinished, comment, text, if_word, else_word, while_word, comparison,
  declaration, print_word, input_word, open_paren, open_brace, close_paren, close_brace, number,
  name, sum, product, unexpected, token_at, on_token, finish, compile_from, compile,
}
use nova64_os.Stellar.Compiler.Progress.Statements.{
  Moved-on_semicolon, Moved-on_compare, Moved-on_print, Moved-on_open_brace, Moved-on_sum,
  Moved-on_product,
}
use nova64_os.Stellar.Compiler.Progress.Literals.{
  Moved-on_comment, Moved-on_input, Moved-on_string, Moved-on_number, Moved-on_declaration,
}
use nova64_os.Stellar.Compiler.Progress.Scopes.{
  Moved-on_close_paren, Moved-on_if, Moved-on_else, Moved-on_while, Moved-on_close_brace,
}
use nova64_os.Stellar.Compiler.Progress.Names.{Moved-on_name}
use nova64_os.Stellar.Compiler.State.{semicolon_at_end}
use nova64_os.Stellar.Compiler.State.{fault, ◌>>=◌, Compiler, compiler_init}
use nova64_os.Stellar.Compiler.State.{pending}

and_left : (a b : Bool) → (a && b) ≡ true → a ≡ true
and_left true b h = refl
and_left false b h = h

-- What the choice of a branch says of the character it stands at.
abbrev Fits : List ℕ → ℕ → Token → Type 0
Fits source i comment = char_at source i ≡ 0x2F
Fits source i (comparison op n) = 1 ≤ n
Fits source i number = is_digit (char_at source i) ≡ true
Fits source i name = is_alpha (char_at source i) ≡ true
Fits source i token = Unit

module _ (source : List ℕ) where
  Fits-token_of_char : (i : ℕ) → Fits source i (token_of_char source (char_at source i))
  Fits-token_of_char i =
      let P : Token → Type 0 = Fits source i in
      let c = char_at source i in
      if_both P (c == 0x28) (λ h. tt)
        (λ h.
          if_both P (c == 0x7B) (λ h. tt)
            (λ h.
              if_both P (c == 0x29) (λ h. tt)
                (λ h.
                  if_both P (c == 0x7D) (λ h. tt)
                    (λ h.
                      if_both P (is_digit c) (λ h. h)
                        (λ h.
                          if_both P (is_alpha c) (λ h. h)
                            (λ h.
                              if_both P (c == 0x2B) (λ h. tt)
                                (λ h.
                                  if_both P (c == 0x2D) (λ h. tt)
                                    (λ h.
                                      if_both P (c == 0x2A) (λ h. tt)
                                        (λ h.
                                          if_both P (c == 0x2F) (λ h. tt)
                                            (λ h.
                                              if_both P (c == 0x25) (λ h. tt) (λ h. tt)))))))))))

  Fits-token_at : (forced : Bool) (i : ℕ) → Fits source i (token_at source forced i)
  unfolding token_at
  Fits-token_at forced i =
      let P : Token → Type 0 = Fits source i in
      let c = char_at source i in
      let d = char_at source (i + 1) in
      if_both P (is_space c) (λ h. tt)
        (λ h.
          if_both P (c == 0x3B) (λ h. tt)
            (λ h.
              if_both P (forced) (λ h. tt)
                (λ h.
                  if_both P (c == 0x2F && d == 0x2F)
                    (λ h. (==_iff c 0x2F).0 (and_left (c == 0x2F) (d == 0x2F) h))
                    (λ h.
                      if_both P (c == 0x22) (λ h. tt)
                        (λ h.
                          if_both P (not (match source i word_if == 0)) (λ h. tt)
                            (λ h.
                              if_both P (not (match source i word_else == 0)) (λ h. tt)
                                (λ h.
                                  if_both P (c == 0x3D && d == 0x3D) (λ h. omega arith)
                                    (λ h.
                                      if_both P (c == 0x21 && d == 0x3D) (λ h. omega arith)
                                        (λ h.
                                          if_both P (c == 0x3C)
                                            (λ h.
                                              if_both P (d == 0x3D) (λ h. omega arith)
                                                (λ h. omega arith))
                                            (λ h.
                                              if_both P (c == 0x3E)
                                                (λ h.
                                                  if_both P (d == 0x3D) (λ h. omega arith)
                                                    (λ h. omega arith))
                                                (λ h.
                                                  if_both P (not (match source i word_while == 0))
                                                    (λ h. tt)
                                                    (λ h.
                                                      if_both P (not (match source i word_let == 0))
                                                        (λ h. tt)
                                                        (λ h.
                                                          if_both P
                                                            (not (match source i word_int == 0))
                                                            (λ h. tt)
                                                            (λ h.
                                                            if_both P
                                                            (not (match source i word_print == 0))
                                                            (λ h. tt)
                                                            (λ h.
                                                            if_both P
                                                            (not (match source i word_input == 0))
                                                            (λ h. tt)
                                                            (λ h.
                                                            Fits-token_of_char i))))))))))))))))

  module _ (fpu : Fpu) (atof : List ℕ → ℕ) where
    Moved-on_token :
        (t : Token) (c : Compiler)
        → Fits source c.s_ptr t
        → Ends (Moved c.s_ptr (size c)) (on_token source fpu atof t c)
    unfolding on_token
    Moved-on_token space c fit = (omega arith, omega arith)
    Moved-on_token semicolon c fit = Moved-on_semicolon c
    Moved-on_token unfinished c fit = tt
    Moved-on_token comment c fit = Moved-on_comment source c fit
    Moved-on_token text c fit = Moved-on_string source fpu atof c
    Moved-on_token if_word c fit = Moved-on_if source c
    Moved-on_token else_word c fit = Moved-on_else source c
    Moved-on_token while_word c fit = Moved-on_while source c
    Moved-on_token (comparison op n) c fit = Moved-on_compare op n c fit
    Moved-on_token (declaration type) c fit = Moved-on_declaration source fpu atof type c
    Moved-on_token print_word c fit = Moved-on_print c
    Moved-on_token input_word c fit = Moved-on_input source c
    Moved-on_token open_paren c fit = (omega arith, omega arith)
    Moved-on_token open_brace c fit = Moved-on_open_brace c
    Moved-on_token close_paren c fit = Moved-on_close_paren c
    Moved-on_token close_brace c fit = Moved-on_close_brace source c
    Moved-on_token number c fit = Moved-on_number source fpu atof c fit
    Moved-on_token name c fit = Moved-on_name source fpu atof c fit
    Moved-on_token (sum op) c fit = Moved-on_sum op c
    Moved-on_token (product op) c fit = Moved-on_product op c
    Moved-on_token unexpected c fit = tt

    Ends-finish :
        (c : Compiler)
        → size c ≤ 9 * c.s_ptr
        → c.s_ptr ≤ length source
        → Ends (λ code. length code ≤ 9 * length source + 1) (finish source fpu atof c)
    unfolding finish
    Ends-finish c small inside =
        let e = length-append c.out (opcode Op.halt ∷ []) in
        Ends-bind Any (λ code. length code ≤ 9 * length source + 1) _ _
          (Ends-no_store semicolon_at_end 1 c) (λ u h. omega arith)

    -- With a round for each character left and two more, and nine bytes for each one taken so far.
    Ends-compile_from :
        (fuel : ℕ) (c : Compiler)
        → 1 ≤ fuel
        → length source + 1 < fuel + c.s_ptr
        → size c ≤ 9 * c.s_ptr
        → Ends (λ code. length code ≤ 9 * length source + 1) (compile_from source fpu atof fuel c)
    unfolding compile_from
    Ends-compile_from zero c some_fuel enough small = absurd (omega arith)
    Ends-compile_from (suc fuel) c some_fuel enough small =
        past (ltb (length source) c.s_ptr) (λ h. not_past h) (Ends-compile_from fuel)
      where
        not_past : ltb (length source) c.s_ptr ≡ false → c.s_ptr ≤ length source
        not_past h = ground arith

        reached :
            (b : Bool)
            → c.s_ptr ≤ length source
            → ((next : Compiler)
                → 1 ≤ fuel
                → length source + 1 < fuel + next.s_ptr
                → size next ≤ 9 * next.s_ptr
                → Ends
                    (λ code. length code ≤ 9 * length source + 1)
                    (compile_from source fpu atof fuel next))
            → Ends
                (λ code. length code ≤ 9 * length source + 1)
                (elim b [
                  | true ↦ finish source fpu atof c
                  | false ↦
                      on_token source fpu atof (token_at source c.force_semicolon_check c.s_ptr) c
                      >>= λ next. compile_from source fpu atof fuel next
                ])
        reached true inside again = Ends-finish c small inside
        reached false inside again =
            Ends-bind (Moved c.s_ptr (size c)) _
              (on_token source fpu atof (token_at source c.force_semicolon_check c.s_ptr) c) _
              (Moved-on_token (token_at source c.force_semicolon_check c.s_ptr) c
                (Fits-token_at c.force_semicolon_check c.s_ptr))
              (λ next moved. again next (omega arith) (omega arith) (omega arith))

        past :
            (b : Bool)
            → (b ≡ false → c.s_ptr ≤ length source)
            → ((next : Compiler)
                → 1 ≤ fuel
                → length source + 1 < fuel + next.s_ptr
                → size next ≤ 9 * next.s_ptr
                → Ends
                    (λ code. length code ≤ 9 * length source + 1)
                    (compile_from source fpu atof fuel next))
            → Ends
                (λ code. length code ≤ 9 * length source + 1)
                (elim b [
                  | true ↦ fault
                  | false ↦ elim (char_at source c.s_ptr == 0) [
                    | true ↦ finish source fpu atof c
                    | false ↦
                        on_token source fpu atof (token_at source c.force_semicolon_check c.s_ptr) c
                        >>= λ next. compile_from source fpu atof fuel next
                  ]
                ])
        past true h again = tt
        past false h again = reached (char_at source c.s_ptr == 0) (h refl) again

-- `compile` comes to an end on every source text: the bound on its rounds is never what stops it.
-- Where it ends with code, the code is at most nine bytes for each character of the text and one
-- more; otherwise it stops in `error_exit`, or in an access outside an array.
pub Ends-compile :
    (source : List ℕ) (fpu : Fpu) (atof : List ℕ → ℕ)
    → Ends (λ code. length code ≤ 9 * length source + 1) (compile source fpu atof)
unfolding compile compiler_init pending
Ends-compile source fpu atof =
    Ends-compile_from source fpu atof (length source + 2) compiler_init (omega arith) (omega arith)
      (omega arith)
