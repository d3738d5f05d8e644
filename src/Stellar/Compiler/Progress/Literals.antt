-- ===== src/Stellar/Compiler/Progress/Literals.antt =====
-- The branches of Stellar.Compiler.Statements that read a text, a number or a name move on within
-- the bound.
use nova64_os.Base.{
  ℕ, zero, suc, ◌+◌, ◌*◌, ◌%◌, ◌^◌, ◌≤◌, ◌≡◌, refl, arith, Bool, true, false, not, leb, ◌==◌,
}
use nova64_os.Base.{
  if_both, List, [], ◌∷◌, ◌++◌, Option, none, some, length, length-append, length-take, drop,
  get_or,
}
use nova64_os.Bits.{u8}
use nova64_os.Stellar.Fpu.{Fpu}
use nova64_os.Stellar.Opcode.{Op, opcode}
use nova64_os.Stellar.Compiler.Scan.{
  is_digit, is_word_char, is_number_char, char_at, skip_spaces, count_while,
}
use nova64_os.Stellar.Compiler.Scan.{run_length, substring}
use nova64_os.Stellar.Compiler.Symbols.{VarType, Symbol, find_variable, add_variable}
use nova64_os.Stellar.Compiler.Statements.{
  declare, on_comment, name_at, on_input, on_string, number_at, on_number, declare_array,
  initialise, on_declaration,
}
use nova64_os.Stellar.Compiler.Progress.{
  Ends, Any, weaker, Ends-bind, Ends-require, Ends-no_store, target_size, target_size-le, size,
  length-pending_zero, length-patch16, length-bytes_of, Moved,
}
use nova64_os.Stellar.Compiler.State.{
  missing_before_declaration, too_many_variables, array_size_not_number, expected_bracket,
  expected_open_after_input, not_declared_for_input, expected_close_after_name,
}
use nova64_os.Stellar.Compiler.State.{done, fail, require, variable_target, Compiler}
use nova64_os.Stellar.Compiler.State.{bytes_of, patch16, pending}

-- A character that passes the test is counted.
pub count_while-pos :
    (p : ℕ → Bool) (xs : List ℕ) (i : ℕ)
    → p (get_or xs i 0) ≡ true
    → p 0 ≡ false
    → 1 ≤ count_while p (drop i xs)
unfolding count_while
count_while-pos p [] zero h off = cc
count_while-pos p [] (suc i) h off = cc
count_while-pos p (c ∷ rest) zero h off = rw h (omega arith)
count_while-pos p (c ∷ rest) (suc i) h off = count_while-pos p rest i h off

-- A comment takes its slash.
comment_length :
    (xs : List ℕ) (i : ℕ)
    → get_or xs i 0 ≡ 0x2F
    → 1 ≤ count_while (λ ch. not (ch == 0x0A)) (drop i xs)
unfolding count_while
comment_length [] zero h = cc
comment_length [] (suc i) h = cc
comment_length (x ∷ xs) zero h = rw h (omega arith)
comment_length (x ∷ xs) (suc i) h = comment_length xs i h

length-substring : (source : List ℕ) (i n : ℕ) → length (substring source i n) ≤ n
length-substring source i n = let e = length-take n (drop i source) in omega arith

pub skip_spaces-le : (source : List ℕ) (i : ℕ) → i ≤ skip_spaces source i
unfolding skip_spaces
skip_spaces-le source i = omega arith

Ends-declare : (name : List ℕ) (type : VarType) (c : Compiler) → Ends Any (declare name type c)
unfolding declare
Ends-declare name type c = found (find_variable name c.symbols)
  where
    added :
        (o : Option (ℕ × List Symbol))
        → Ends
            (Any {A = ℕ × List Symbol})
            (elim o [ none ↦ fail too_many_variables c.s_ptr 1 | some a ↦ done a ])
    added none = tt
    added (some a) = tt

    found :
        (o : Option ℕ)
        → Ends (Any {A = ℕ × List Symbol}) (elim o [
          | some id ↦ done (id, c.symbols)
          | none ↦ elim (add_variable name type c.symbols) [
            | none ↦ fail too_many_variables c.s_ptr 1
            | some a ↦ done a
          ]
        ])
    found none = added (add_variable name type c.symbols)
    found (some id) = tt

module _ (source : List ℕ) where
  pub Moved-on_input : (c : Compiler) → Ends (Moved c.s_ptr (size c)) (on_input source c)
  unfolding on_input
  Moved-on_input c =
      let open_at = skip_spaces source (c.s_ptr + 5) in
      let name_from = skip_spaces source (open_at + 1) in
      let name_end = name_from + run_length source is_word_char name_from in
      let close_at = skip_spaces source name_end in
      let a = skip_spaces-le source (c.s_ptr + 5) in
      let b = skip_spaces-le source (open_at + 1) in
      let d = skip_spaces-le source name_end in
      Ends-bind Any _ (require (char_at source open_at == 0x28) expected_open_after_input open_at) _
        (Ends-require _ expected_open_after_input open_at)
        (λ u h. Ends-bind Any _ _ _ (found name_from name_end c) (λ idx h.
          Ends-bind Any _
            (require (char_at source close_at == 0x29) expected_close_after_name close_at) _
            (Ends-require _ expected_close_after_name close_at)
            (λ u h.
              let e : (bytes : List ℕ) → length (c.out ++ bytes) ≡ length c.out + length bytes =
                length-append c.out in
              (omega arith, omega (arith, e _)))))
    where
      found :
          (from until : ℕ) (c : Compiler)
          → Ends (Any {A = ℕ}) (elim (find_variable (name_at source from) c.symbols) [
            | none ↦ fail not_declared_for_input until (length (name_at source from))
            | some idx ↦ done idx
          ])
      found from until c = ground arith

  pub Moved-on_comment :
      (c : Compiler) → char_at source c.s_ptr ≡ 0x2F → Moved c.s_ptr (size c) (on_comment source c)
  unfolding on_comment run_length
  Moved-on_comment c slash =
      let pos = comment_length source c.s_ptr slash in (omega arith, omega arith)

  module _ (fpu : Fpu) (atof : List ℕ → ℕ) where
    pub Moved-on_string : (c : Compiler) → Moved c.s_ptr (size c) (on_string source fpu atof c)
    unfolding on_string
    Moved-on_string c =
        let n = run_length source (λ ch. not (ch == 0x22)) (c.s_ptr + 1) in
        let jumping = c.out ++ (opcode Op.jmp ∷ 0 ∷ 0 ∷ []) in
        let body = substring source (c.s_ptr + 1) n in
        let text = jumping ++ (body ++ (0 ∷ [])) in
        let a = length-append c.out (opcode Op.jmp ∷ 0 ∷ 0 ∷ []) in
        let b = length-append jumping (body ++ (0 ∷ [])) in
        let d = length-append body (0 ∷ []) in
        let short : length body ≤ n = length-substring source (c.s_ptr + 1) n in
        let e = length-patch16 text (length c.out + 1) (length text) in
        let f =
          length-append (patch16 text (length c.out + 1) (length text))
            (opcode Op.push ∷ bytes_of 8 (fpu.of_long (length jumping % 2 ^ 16))) in
        let g = length-bytes_of 8 (fpu.of_long (length jumping % 2 ^ 16)) in
        (omega arith, omega arith)

    -- A number whose first character is a digit takes at least that.
    pub Ends-number_at :
        (bound i : ℕ)
        → is_digit (char_at source i) ≡ true
        → Ends (λ r. 1 ≤ r.1) (number_at source fpu atof bound i)
    unfolding number_at run_length
    Ends-number_at bound i digit =
        if_both (Ends (λ r. 1 ≤ r.1)) (leb bound (run_length source is_number_char i)) (λ big. tt)
          (λ fits.
            count_while-pos is_number_char source i (number_char (char_at source i) digit) refl)
      where
        number_char : (c : ℕ) → is_digit c ≡ true → is_number_char c ≡ true
        number_char c d = rw (d, is_number_char) refl

    pub Moved-on_number :
        (c : Compiler)
        → is_digit (char_at source c.s_ptr) ≡ true
        → Ends (Moved c.s_ptr (size c)) (on_number source fpu atof c)
    unfolding on_number
    Moved-on_number c digit =
        Ends-bind (λ r. 1 ≤ r.1) _ _ _ (Ends-number_at 32 c.s_ptr digit)
          (λ r pos.
            let a =
              length-append (c.out ++ (opcode Op.push ∷ bytes_of 8 r.0)) (pending c.p_mul_div) in
            let b = length-append c.out (opcode Op.push ∷ bytes_of 8 r.0) in
            let d = length-bytes_of 8 r.0 in
            let z = length-pending_zero in (omega arith, omega arith))

    pub Ends-number_at_weak : (bound i : ℕ) → Ends Any (number_at source fpu atof bound i)
    unfolding number_at
    Ends-number_at_weak bound i =
        if_both (Ends Any) (leb bound (run_length source is_number_char i)) (λ big. tt) (λ fits. tt)

    Moved-declare_array :
        (idx : ℕ) (c : Compiler)
        → Ends (Moved c.s_ptr (size c)) (declare_array source fpu atof idx c)
    unfolding declare_array
    Moved-declare_array idx c =
        let size_at = skip_spaces source (c.s_ptr + 1) in
        let a = skip_spaces-le source (c.s_ptr + 1) in
        Ends-bind Any _ (require (is_digit (char_at source size_at)) array_size_not_number size_at)
          _ (Ends-require _ array_size_not_number size_at)
          (λ u h. Ends-bind Any _ _ _ (Ends-number_at_weak 16 size_at) (λ r h.
            let close_at = skip_spaces source (size_at + r.1) in
            let b = skip_spaces-le source (size_at + r.1) in
            Ends-bind Any _ (require (char_at source close_at == 0x5D) expected_bracket close_at) _
              (Ends-require _ expected_bracket close_at)
              (λ u h. (omega arith, written c idx r.0 (close_at + 1) (omega arith)))))
      where
        written :
            (c : Compiler) (idx v after : ℕ)
            → c.s_ptr + 2 ≤ after
            → length (
                  c.out
                  ++ (opcode Op.push
                      ∷ (bytes_of 8 v ++ (opcode Op.array_make ∷ opcode Op.store ∷ u8 idx ∷ []))))
                + length (pending c.p_mul_div)
                + length (pending c.p_add_sub)
                + length (pending c.p_cmp)
                + target_size c.var_store
                + 9 * c.s_ptr
              ≤ size c + 9 * after
        written c idx v after far =
            let tail = opcode Op.array_make ∷ opcode Op.store ∷ u8 idx ∷ [] in
            let d = length-append c.out (opcode Op.push ∷ (bytes_of 8 v ++ tail)) in
            let e = length-append (bytes_of 8 v) tail in let f = length-bytes_of 8 v in omega arith

    -- What follows a name need not take a character.
    Kept-initialise :
        (idx : ℕ) (c : Compiler)
        → Ends
            (λ c'. (c.s_ptr ≤ c'.s_ptr) × (size c' + 9 * c.s_ptr ≤ size c + 9 * c'.s_ptr))
            (initialise source fpu atof idx c)
    unfolding initialise
    Kept-initialise idx c =
        let P : Compiler → Type 0 =
          λ c'. (c.s_ptr ≤ c'.s_ptr) × (size c' + 9 * c.s_ptr ≤ size c + 9 * c'.s_ptr) in
        let value_at = skip_spaces source (c.s_ptr + 1) in
        let a = skip_spaces-le source (c.s_ptr + 1) in
        if_both (Ends P) (not (char_at source c.s_ptr == 0x3D))
          (λ nothing. (omega arith, omega arith))
          (λ equals.
            if_both (Ends P) (char_at source value_at == 0x5B)
              (λ bracket.
                weaker (Moved value_at (size c)) P
                  (declare_array source fpu atof idx (record c { s_ptr = value_at }))
                  (λ c' m. (omega arith, omega arith))
                  (Moved-declare_array idx (record c { s_ptr = value_at })))
              (λ plain. let t = target_size-le (variable_target idx) in (omega arith, omega arith)))

    pub Moved-on_declaration :
        (type : VarType) (c : Compiler)
        → Ends (Moved c.s_ptr (size c)) (on_declaration source fpu atof type c)
    unfolding on_declaration
    Moved-on_declaration type c =
        let name_from = skip_spaces source (c.s_ptr + 3) in
        let name_end = name_from + run_length source is_word_char name_from in
        let a = skip_spaces-le source (c.s_ptr + 3) in
        let after = skip_spaces source name_end in
        let b = skip_spaces-le source name_end in
        Ends-bind Any _ _ _ (Ends-no_store missing_before_declaration 3 c) (λ u h.
          Ends-bind Any _ _ _ (Ends-declare _ type (record c { s_ptr = name_end })) (λ r h.
            weaker (λ c'. (after ≤ c'.s_ptr) × (size c' + 9 * after ≤ size c + 9 * c'.s_ptr))
              (Moved c.s_ptr (size c))
              (initialise source fpu atof r.0 (record c { s_ptr = after; symbols = r.1 }))
              (λ c' m. (omega arith, omega arith))
              (Kept-initialise r.0
                (record c { s_ptr = skip_spaces source name_end; symbols = r.1 }))))
