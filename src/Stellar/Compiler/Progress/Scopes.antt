-- ===== src/Stellar/Compiler/Progress/Scopes.antt =====
-- The branches of Stellar.Compiler.Scopes move on within the bound.
use nova64_os.Base.{
  ℕ, zero, suc, ◌+◌, ◌-◌, ◌/◌, ◌%◌, ◌^◌, ◌≤◌, ◌≡◌, refl, arith, ◌∙◌, true, false, ltb, leb, ◌==◌,
  ◌&&◌,
}
use nova64_os.Base.{
  if_both, if◌then◌else◌, List, [], ◌∷◌, ◌++◌, Option, none, some, length, length-append, get_or,
  set,
}
use nova64_os.Bits.{u32}
use nova64_os.Stellar.Opcode.{Op, opcode}
use nova64_os.Stellar.Compiler.Scan.{skip_spaces, match}
use nova64_os.Stellar.Compiler.Progress.{
  Ends, Any, weaker, Ends-bind, Ends-bounded, Ends-no_store, size, length-pending_zero,
  length-patch16, Moved, Wrote, Ends-push_scope,
}
use nova64_os.Stellar.Compiler.Scopes.{
  emit_jump, patch_if, patch_all, close_while, close_condition, expects_condition, close_print,
  on_close_paren, close_chain, on_if, open_else, on_else, on_while, else_follows, close_scope,
  on_close_brace,
}
use nova64_os.Stellar.Compiler.Progress.Statements.{length-flushed}
use nova64_os.Stellar.Compiler.Progress.Literals.{skip_spaces-le}
use nova64_os.Stellar.Compiler.State.{
  missing_before_if, missing_before_else, missing_before_while, missing_before_close,
  unmatched_close,
}
use nova64_os.Stellar.Compiler.State.{
  done, fault, ◌>>=◌, fail, bounded, Scope, if_scope, while_scope, else_scope, Compiler,
}
use nova64_os.Stellar.Compiler.State.{
  patch16, advance, flush_product, flush_sum, flush_cmp, no_store, push_scope,
}

length-patch_all :
    (jumps : List ℕ) (address : ℕ) (out : List ℕ)
    → length (patch_all jumps address out) ≡ length out
unfolding patch_all
length-patch_all [] address out = refl
length-patch_all (pos ∷ rest) address out =
    length-patch_all rest address (patch16 out pos address) ∙ length-patch16 out pos address

Wrote-patch_if : (c : Compiler) → Ends (Wrote 0 c) (patch_if c)
unfolding patch_if
Wrote-patch_if c = by_stack c.if_stack
  where
    by_stack :
        (jumps : List ℕ)
        → Ends (Wrote 0 c) (elim jumps [
          | [] ↦ fault
          | pos ∷ rest ↦ done (record c { out = patch16 c.out pos (length c.out); if_stack = rest })
        ])
    by_stack [] = tt
    by_stack (pos ∷ rest) = let e = length-patch16 c.out pos (length c.out) in (refl, omega arith)

Wrote-close_while : (c : Compiler) → Ends (Wrote 3 c) (close_while c)
unfolding close_while
Wrote-close_while c = by_stack c.while_start
  where
    patched :
        (start : ℕ) (rest : List ℕ) (o : Option ℕ)
        → Ends (Wrote 3 c) (
            let looped = c.out ++ (opcode Op.jmp ∷ start % 256 ∷ start / 256 % 256 ∷ []) in
            elim o [
              | none ↦ fault
              | some pos ↦
                  done (record c { out = patch16 looped pos (length looped); while_start = rest })
            ])
    patched start rest none = tt
    patched start rest (some pos) =
        let jump = opcode Op.jmp ∷ start % 256 ∷ start / 256 % 256 ∷ [] in
        let e = length-patch16 (c.out ++ jump) pos (length (c.out ++ jump)) in
        let f = length-append c.out jump in (refl, omega arith)

    by_stack :
        (starts : List ℕ)
        → Ends (Wrote 3 c) (elim starts [
          | [] ↦ fault
          | start ∷ rest ↦
              let looped = c.out ++ (opcode Op.jmp ∷ start % 256 ∷ start / 256 % 256 ∷ []) in
              elim (get_or c.while_exit (length rest) none) [
                | none ↦ fault
                | some pos ↦
                    done (record c { out = patch16 looped pos (length looped); while_start = rest })
              ]
        ])
    by_stack [] = tt
    by_stack (start ∷ rest) = patched start rest (get_or c.while_exit (length rest) none)

-- The jump of a condition, wherever its place is kept.
abbrev jumped : Compiler → Compiler
jumped c = record c {
  out = c.out ++ (opcode Op.jz ∷ 0 ∷ 0 ∷ []);
  expecting_cond = set c.expecting_cond (length c.scopes - 1) false;
}

Wrote-close_condition : (c : Compiler) → Ends (Wrote 3 c) (close_condition c)
unfolding close_condition
Wrote-close_condition c = by_scopes c.scopes
  where
    grown : length (c.out ++ (opcode Op.jz ∷ 0 ∷ 0 ∷ [])) ≡ length c.out + 3
    grown = length-append c.out (opcode Op.jz ∷ 0 ∷ 0 ∷ [])

    loop_exit : Ends (Wrote 3 c) (
        if leb (length c.while_start) 0
        then fault
        else done (record (jumped c) {
          while_exit = set c.while_exit (length c.while_start - 1) (some (length c.out + 1));
        }))
    loop_exit =
        if_both (Ends (Wrote 3 c)) (leb (length c.while_start) 0) (λ out. tt)
          (λ inside. let g = grown in (refl, omega arith))

    by_scopes :
        (scopes : List Scope)
        → Ends (Wrote 3 c) (elim scopes [
          | [] ↦ done c
          | if_scope ∷ below ↦
              if leb 16 (length c.if_stack)
              then fault
              else done (record (jumped c) { if_stack = (length c.out + 1) ∷ c.if_stack })
          | _ ∷ below ↦
              if leb (length c.while_start) 0
              then fault
              else done (record (jumped c) {
                while_exit = set c.while_exit (length c.while_start - 1) (some (length c.out + 1));
              })
        ])
    by_scopes [] = (refl, omega arith)
    by_scopes (if_scope ∷ below) =
        if_both (Ends (Wrote 3 c)) (leb 16 (length c.if_stack)) (λ full. tt)
          (λ room. let g = grown in (refl, omega arith))
    by_scopes (while_scope ∷ below) = loop_exit
    by_scopes (else_scope ∷ below) = loop_exit

Wrote-close_print : (c : Compiler) → Wrote 1 c (close_print c)
unfolding close_print
Wrote-close_print c =
    if_both (Wrote 1 c) (c.expect_print == 0) (λ not_printing. (refl, omega arith))
      (λ printing.
        let e =
          length-append c.out
            ((if c.expect_print == 2 then opcode Op.print_str else opcode Op.print) ∷ []) in
        (refl, omega arith))

pub Moved-on_close_paren : (c : Compiler) → Ends (Moved c.s_ptr (size c)) (on_close_paren c)
unfolding on_close_paren
Moved-on_close_paren c =
    let depth = u32 (c.paren_depth + 2 ^ 32 - 1) in
    let flushed = flush_cmp (flush_sum (flush_product (record c { paren_depth = depth }))) in
    let f = length-flushed c.out c.p_mul_div c.p_add_sub c.p_cmp in
    let z = length-pending_zero in
    let same : size flushed ≡ size c = omega arith in
    let chosen : Ends (Wrote 3 flushed) (
        if depth == 0 && expects_condition flushed then close_condition flushed else done flushed) =
      if_both (Ends (Wrote 3 flushed)) (depth == 0 && expects_condition flushed)
        (λ expected. Wrote-close_condition flushed) (λ not_expected. (refl, omega arith)) in
    Ends-bind (Wrote 3 flushed) (Moved c.s_ptr (size c)) _ _ chosen
      (λ c' w. let p = Wrote-close_print c' in (omega arith, omega arith))

module _ (source : List ℕ) where
  pub Moved-on_if : (c : Compiler) → Ends (Moved c.s_ptr (size c)) (on_if source c)
  unfolding on_if
  Moved-on_if c =
      Ends-bind Any _ (no_store missing_before_if 2 c) _ (Ends-no_store missing_before_if 2 c)
        (λ u h.
          Ends-bind (Wrote 0 c) _ (push_scope if_scope true c) _ (Ends-push_scope if_scope true c)
            (λ c' w. (omega arith, omega arith)))

  pub Moved-on_while : (c : Compiler) → Ends (Moved c.s_ptr (size c)) (on_while source c)
  unfolding on_while
  Moved-on_while c =
      let started = record c { while_start = length c.out ∷ c.while_start } in
      Ends-bind Any _ (no_store missing_before_while 5 c) _ (Ends-no_store missing_before_while 5 c)
        (λ u h. Ends-bind Any _ (bounded (ltb (length c.while_start) 16)) _ (Ends-bounded _) (λ u h.
          Ends-bind (Wrote 0 started) _ (push_scope while_scope true started) _
            (Ends-push_scope while_scope true started) (λ c' w. (omega arith, omega arith))))

  Kept-open_else :
      (c : Compiler) → Ends (λ c'. (c.s_ptr ≤ c'.s_ptr) × (size c' ≤ size c)) (open_else source c)
  unfolding open_else
  Kept-open_else c = by_length (match source c.s_ptr (0x69 ∷ 0x66 ∷ []))
    where
      by_length :
          (n : ℕ)
          → Ends
              (λ c'. (c.s_ptr ≤ c'.s_ptr) × (size c' ≤ size c))
              (elim n [
                | zero ↦ push_scope else_scope false c
                | suc k ↦ do scoped ← push_scope if_scope true c; done (advance (suc k) scoped)
              ])
      by_length zero =
          weaker (Wrote 0 c) _ (push_scope else_scope false c) (λ c' w. (omega arith, omega arith))
            (Ends-push_scope else_scope false c)
      by_length (suc k) =
          Ends-bind (Wrote 0 c) _ (push_scope if_scope true c) _ (Ends-push_scope if_scope true c)
            (λ c' w. (omega arith, omega arith))

  pub Moved-on_else : (c : Compiler) → Ends (Moved c.s_ptr (size c)) (on_else source c)
  unfolding on_else
  Moved-on_else c =
      let jumping = record (emit_jump Op.jmp c) { exit_jmps = (length c.out + 1) ∷ c.exit_jmps } in
      let e = length-append c.out (opcode Op.jmp ∷ 0 ∷ 0 ∷ []) in
      Ends-bind Any _ (no_store missing_before_else 4 c) _ (Ends-no_store missing_before_else 4 c)
        (λ u h. Ends-bind Any _ (bounded (ltb (length c.exit_jmps) 32)) _ (Ends-bounded _) (λ u h.
          Ends-bind (Wrote 0 jumping) _ (patch_if jumping) _ (Wrote-patch_if jumping) (λ p w.
            let after = skip_spaces source (p.s_ptr + 4) in
            let b = skip_spaces-le source (p.s_ptr + 4) in
            weaker (λ c'. (after ≤ c'.s_ptr) × (size c' ≤ size p)) (Moved c.s_ptr (size c))
              (open_else source (record p { s_ptr = after })) (λ c' m. (omega arith, omega arith))
              (Kept-open_else (record p { s_ptr = after })))))

  Wrote-close_chain : (kind : Scope) (c : Compiler) → Ends (Wrote 0 c) (close_chain kind c)
  unfolding close_chain
  Wrote-close_chain kind c =
      Ends-bind (Wrote 0 c) _ (elim kind [ if_scope ↦ patch_if c | _ ↦ done c ]) _ (by_kind kind)
        (λ p w. let e = length-patch_all p.exit_jmps (length p.out) p.out in (w.0, omega arith))
    where
      by_kind : (k : Scope) → Ends (Wrote 0 c) (elim k [ if_scope ↦ patch_if c | _ ↦ done c ])
      by_kind if_scope = Wrote-patch_if c
      by_kind while_scope = (refl, omega arith)
      by_kind else_scope = (refl, omega arith)

  Wrote-close_scope : (kind : Scope) (c : Compiler) → Ends (Wrote 3 c) (close_scope source kind c)
  unfolding close_scope
  Wrote-close_scope while_scope c = Wrote-close_while c
  Wrote-close_scope if_scope c =
      if_both (Ends (Wrote 3 c)) (else_follows source c) (λ follows. (refl, omega arith))
        (λ ends.
          weaker (Wrote 0 c) (Wrote 3 c) (close_chain if_scope c) (λ c' w. (w.0, omega arith))
            (Wrote-close_chain if_scope c))
  Wrote-close_scope else_scope c =
      if_both (Ends (Wrote 3 c)) (else_follows source c) (λ follows. (refl, omega arith))
        (λ ends.
          weaker (Wrote 0 c) (Wrote 3 c) (close_chain else_scope c) (λ c' w. (w.0, omega arith))
            (Wrote-close_chain else_scope c))

  pub Moved-on_close_brace :
      (c : Compiler) → Ends (Moved c.s_ptr (size c)) (on_close_brace source c)
  unfolding on_close_brace
  Moved-on_close_brace c =
      Ends-bind Any _ (no_store missing_before_close 1 c) _ (Ends-no_store missing_before_close 1 c)
        (λ u h. by_scopes c.scopes)
    where
      by_scopes :
          (scopes : List Scope)
          → Ends (Moved c.s_ptr (size c)) (elim scopes [
            | [] ↦ fail unmatched_close c.s_ptr 1
            | kind ∷ below ↦ do
              closed ← close_scope source kind (record c { scopes = below })
              done (advance 1 closed)
          ])
      by_scopes [] = tt
      by_scopes (kind ∷ below) =
          Ends-bind (Wrote 3 c) _ (close_scope source kind (record c { scopes = below })) _
            (Wrote-close_scope kind (record c { scopes = below }))
            (λ c' w. (omega arith, omega arith))
