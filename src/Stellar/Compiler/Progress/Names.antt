-- ===== src/Stellar/Compiler/Progress/Names.antt =====
-- The branch of Stellar.Compiler.Names moves on within the bound.
use nova64_os.Base.{ℕ, ◌+◌, ◌≤◌, ◌<◌, ◌≡◌, refl, arith, true, not, leb, ◌==◌, ◌&&◌}
use nova64_os.Base.{
  if_both, if◌then◌else◌, List, [], ◌∷◌, ◌++◌, Option, none, some, length, length-append,
}
use nova64_os.Bits.{u8}
use nova64_os.Stellar.Fpu.{Fpu}
use nova64_os.Stellar.Opcode.{Op, opcode}
use nova64_os.Stellar.Compiler.Scan.{is_digit, is_alpha, is_word_char, char_at, skip_spaces}
use nova64_os.Stellar.Compiler.Scan.{run_length, substring}
use nova64_os.Stellar.Compiler.Symbols.{Symbol, find_variable, is_int}
use nova64_os.Stellar.Compiler.Progress.{
  Ends, Any, Ends-bind, Ends-require, Ends-no_store, size, length-pending_le, length-pending_zero,
  length-bytes_of, Moved,
}
use nova64_os.Stellar.Compiler.Names.{
  Use, increment, decrement, element, assignment, add_to, subtract_from, multiply_by, value, use_of,
  Compound, adding, subtracting, multiplying, const_op, var_op, make_pending, load_code, on_step,
  on_assignment, on_value, compound_const, compound_stack, compound_var, on_compound, index_number,
  index_code, on_element, on_use, on_name,
}
use nova64_os.Stellar.Compiler.Statements.{name_at}
use nova64_os.Stellar.Compiler.Progress.Literals.{
  skip_spaces-le, count_while-pos, Ends-number_at_weak,
}
use nova64_os.Stellar.Compiler.State.{
  missing_before_assignment, expected_bracket, not_declared, index_not_declared,
}
use nova64_os.Stellar.Compiler.State.{Result, done, fail, require, Compiler}
use nova64_os.Stellar.Compiler.State.{bytes_of, pending, no_store}

-- The forms of the theorem for a branch that starts at `i` and stands at a later place.
abbrev Reaches : ℕ → Compiler → Result Compiler → Type 0
Reaches i c r = Ends (Moved i (size c)) r

Moved-on_step :
    (i : ℕ) (plain int : Op) (idx next : ℕ) (c : Compiler)
    → i < next
    → Moved i (size c) (on_step plain int idx next c)
unfolding on_step
Moved-on_step i plain int idx next c lt =
    let e =
      length-append c.out (opcode (if is_int c.symbols idx then int else plain) ∷ u8 idx ∷ []) in
    (lt, omega arith)

Moved-on_value : (i idx next : ℕ) (c : Compiler) → i < next → Moved i (size c) (on_value idx next c)
unfolding on_value
Moved-on_value i idx next c lt =
    let e = length-append (c.out ++ load_code c.symbols idx) (pending c.p_mul_div) in
    let f = length-append c.out (load_code c.symbols idx) in
    let z = length-pending_zero in (lt, omega arith)

Moved-on_assignment :
    (i idx w_len next : ℕ) (c : Compiler) → i < next → Reaches i c (on_assignment idx w_len next c)
unfolding on_assignment
Moved-on_assignment i idx w_len next c lt =
    Ends-bind Any _ (no_store missing_before_assignment w_len c) _
      (Ends-no_store missing_before_assignment w_len c) (λ u h. (lt, omega arith))

-- The general case of a compound assignment, once two characters were taken.
Moved-compound_stack :
    (source : List ℕ) (fpu : Fpu) (atof : List ℕ → ℕ) (i : ℕ) (kind : Compound) (idx : ℕ)
    (c : Compiler)
    → i + 2 ≤ c.s_ptr
    → Moved i (size c) (compound_stack source fpu atof kind idx c)
unfolding compound_stack make_pending
Moved-compound_stack source fpu atof i adding idx c lt =
    let e = length-append c.out (load_code c.symbols idx) in
    let p = length-pending_le (opcode Op.add) in (omega arith, omega arith)
Moved-compound_stack source fpu atof i subtracting idx c lt =
    let e = length-append c.out (load_code c.symbols idx) in
    let p = length-pending_le (opcode Op.sub) in (omega arith, omega arith)
Moved-compound_stack source fpu atof i multiplying idx c lt =
    let e = length-append c.out (load_code c.symbols idx) in
    let p = length-pending_le (opcode Op.mul) in (omega arith, omega arith)

module _ (source : List ℕ) (fpu : Fpu) (atof : List ℕ → ℕ) (i : ℕ) where
  Moved-compound_const :
      (kind : Compound) (idx : ℕ) (c : Compiler)
      → i + 2 ≤ c.s_ptr
      → Reaches i c (compound_const source fpu atof kind idx c)
  unfolding compound_const
  Moved-compound_const kind idx c lt =
      let int = is_int c.symbols idx in
      Ends-bind Any _ _ _ (Ends-number_at_weak source fpu atof 32 c.s_ptr) (λ r h.
        let word = if int then fpu.to_long r.0 else r.0 in
        let e = length-append c.out (opcode (const_op kind int) ∷ u8 idx ∷ bytes_of 8 word) in
        let f = length-bytes_of 8 word in (omega arith, omega arith))

  Moved-compound_var :
      (kind : Compound) (idx : ℕ) (c : Compiler)
      → i + 2 ≤ c.s_ptr
      → Reaches i c (compound_var source fpu atof kind idx c)
  unfolding compound_var
  Moved-compound_var kind idx c lt =
      let n = run_length source is_word_char c.s_ptr in
      if_both (Ends (Moved i (size c))) (leb 32 n) (λ long. tt)
        (λ short. found (find_variable (substring source c.s_ptr n) c.symbols))
    where
      found :
          (o : Option ℕ)
          → Reaches i c (elim o [
            | none ↦ done (compound_stack source fpu atof kind idx c)
            | some src ↦ done (record c {
              out =
                  c.out
                  ++ (opcode (var_op kind (is_int c.symbols idx && is_int c.symbols src))
                      ∷ u8 idx
                      ∷ u8 src
                      ∷ []);
              s_ptr = c.s_ptr + run_length source is_word_char c.s_ptr;
              force_semicolon_check = true;
            })
          ])
      found none = Moved-compound_stack source fpu atof i kind idx c lt
      found (some src) =
          let e = length-append c.out (
            opcode (var_op kind (is_int c.symbols idx && is_int c.symbols src))
            ∷ u8 idx
            ∷ u8 src
            ∷ []) in
          (omega arith, omega arith)

  Moved-on_compound :
      (kind : Compound) (idx next : ℕ) (c : Compiler)
      → i + 2 ≤ next
      → Reaches i c (on_compound source fpu atof kind idx next c)
  unfolding on_compound
  Moved-on_compound kind idx next c lt =
      let operand = record c { s_ptr = skip_spaces source next } in
      let a = skip_spaces-le source next in
      let later : i + 2 ≤ operand.s_ptr = omega arith in
      if_both (Ends (Moved i (size c))) (is_digit (char_at source operand.s_ptr))
        (λ digit. Moved-compound_const kind idx operand later)
        (λ no_digit.
          if_both (Ends (Moved i (size c))) (is_alpha (char_at source operand.s_ptr))
            (λ letter. Moved-compound_var kind idx operand later)
            (λ other. Moved-compound_stack source fpu atof i kind idx operand later))

  -- The code of an index is a push or a load.
  Ends-index_number :
      (j : ℕ)
      → Ends (λ (r : List ℕ × ℕ). (length r.0 ≤ 9) × (j ≤ r.1)) (index_number source fpu atof j)
  unfolding index_number
  Ends-index_number j =
      Ends-bind Any _ _ _ (Ends-number_at_weak source fpu atof 16 j)
        (λ r h. let f = length-bytes_of 8 r.0 in (omega arith, omega arith))

  Ends-index_code :
      (j : ℕ) (symbols : List Symbol)
      → Ends
          (λ (r : List ℕ × ℕ). (length r.0 ≤ 9) × (j ≤ r.1))
          (index_code source fpu atof j symbols)
  unfolding index_code
  Ends-index_code j symbols =
      let P : List ℕ × ℕ → Type 0 = λ r. (length r.0 ≤ 9) × (j ≤ r.1) in
      let n = run_length source is_word_char j in
      if_both (Ends P) (is_digit (char_at source j)) (λ digit. Ends-index_number j)
        (λ no_digit.
          if_both (Ends P) (not (is_alpha (char_at source j))) (λ other. (omega arith, omega arith))
            (λ letter.
              if_both (Ends P) (leb 32 n) (λ long. tt)
                (λ short. found (find_variable (substring source j n) symbols))))
    where
      found :
          (o : Option ℕ)
          → Ends
              (λ (r : List ℕ × ℕ). (length r.0 ≤ 9) × (j ≤ r.1))
              (elim o [
                | none ↦
                    fail index_not_declared
                      (j + run_length source is_word_char j)
                      (run_length source is_word_char j)
                | some idx ↦ done (load_code symbols idx, j + run_length source is_word_char j)
              ])
      found none = tt
      found (some idx) = (omega arith, omega arith)

  Moved-on_element :
      (idx next : ℕ) (c : Compiler) → i < next → Reaches i c (on_element source fpu atof idx next c)
  unfolding on_element
  Moved-on_element idx next c lt =
      let j = skip_spaces source next in
      let a = skip_spaces-le source next in
      Ends-bind (λ (r : List ℕ × ℕ). (length r.0 ≤ 9) × (j ≤ r.1)) _
        (index_code source fpu atof j c.symbols) _ (Ends-index_code j c.symbols)
        (λ r ok.
          let close_at = skip_spaces source r.1 in
          let b = skip_spaces-le source r.1 in
          let after = skip_spaces source (close_at + 1) in
          let d = skip_spaces-le source (close_at + 1) in
          let loaded = c.out ++ (opcode Op.load ∷ u8 idx ∷ r.0) in
          let e = length-append c.out (opcode Op.load ∷ u8 idx ∷ r.0) in
          let got = loaded ++ (opcode Op.array_get ∷ []) in
          let f = length-append loaded (opcode Op.array_get ∷ []) in
          let g = length-append got (pending c.p_mul_div) in
          let h = length-append (got ++ pending c.p_mul_div) (pending c.p_add_sub) in
          let z = length-pending_zero in
          Ends-bind Any _ (require (char_at source close_at == 0x5D) expected_bracket close_at) _
            (Ends-require _ expected_bracket close_at)
            (λ u h'.
              if_both (Ends (Moved i (size c)))
                (char_at source after == 0x3D && not (char_at source (after + 1) == 0x3D))
                (λ write. (omega arith, omega arith)) (λ read. (omega arith, omega arith))))

  Moved-on_use :
      (how : Use) (idx w_len chk : ℕ) (c : Compiler)
      → i < chk
      → Reaches i c (on_use source fpu atof how idx w_len chk c)
  unfolding on_use
  Moved-on_use increment idx w_len chk c lt = Moved-on_step i Op.inc Op.inc_i idx _ c (omega arith)
  Moved-on_use decrement idx w_len chk c lt = Moved-on_step i Op.dec Op.dec_i idx _ c (omega arith)
  Moved-on_use element idx w_len chk c lt = Moved-on_element idx _ c (omega arith)
  Moved-on_use assignment idx w_len chk c lt = Moved-on_assignment i idx w_len _ c (omega arith)
  Moved-on_use add_to idx w_len chk c lt = Moved-on_compound adding idx _ c (omega arith)
  Moved-on_use subtract_from idx w_len chk c lt =
      Moved-on_compound subtracting idx _ c (omega arith)
  Moved-on_use multiply_by idx w_len chk c lt = Moved-on_compound multiplying idx _ c (omega arith)
  Moved-on_use value idx w_len chk c lt = Moved-on_value i idx chk c lt

module _ (source : List ℕ) (fpu : Fpu) (atof : List ℕ → ℕ) where
  pub Moved-on_name :
      (c : Compiler)
      → is_alpha (char_at source c.s_ptr) ≡ true
      → Ends (Moved c.s_ptr (size c)) (on_name source fpu atof c)
  unfolding on_name run_length
  Moved-on_name c letter =
      let w_len = run_length source is_word_char c.s_ptr in
      let chk = skip_spaces source (c.s_ptr + w_len) in
      let a = skip_spaces-le source (c.s_ptr + w_len) in
      let pos : 1 ≤ w_len =
        count_while-pos is_word_char source c.s_ptr (word_char (char_at source c.s_ptr) letter)
          refl in
      if_both (Ends (Moved c.s_ptr (size c))) (char_at source chk == 0x28) (λ call. tt)
        (λ no_call. found chk (omega arith) (find_variable (name_at source c.s_ptr) c.symbols))
    where
      word_char : (ch : ℕ) → is_alpha ch ≡ true → is_word_char ch ≡ true
      word_char ch d = rw (d, is_word_char) refl

      found :
          (chk : ℕ)
          → c.s_ptr < chk
          → (o : Option ℕ)
          → Ends (Moved c.s_ptr (size c)) (elim o [
            | none ↦ fail not_declared c.s_ptr (run_length source is_word_char c.s_ptr)
            | some idx ↦
                on_use source fpu atof
                  (use_of (char_at source chk) (char_at source (chk + 1)))
                  idx
                  (run_length source is_word_char c.s_ptr)
                  chk
                  c
          ])
      found chk lt none = tt
      found chk lt (some idx) =
          Moved-on_use source fpu atof c.s_ptr
            (use_of (char_at source chk) (char_at source (chk + 1))) idx
            (run_length source is_word_char c.s_ptr) chk c lt
