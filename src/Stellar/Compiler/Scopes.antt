-- ===== src/Stellar/Compiler/Scopes.antt =====
-- The branches of `compile` for if, else, while and the brackets: the jumps and their addresses.
use nova64_os.Base.{
  ℕ, zero, suc, ◌+◌, ◌-◌, ◌/◌, ◌%◌, ◌^◌, Bool, true, false, not, ltb, leb, ◌==◌, ◌&&◌,
}
use nova64_os.Base.{if◌then◌else◌, List, [], ◌∷◌, ◌++◌, none, some, length, set, get_or}
use nova64_os.Bits.{u32}
use nova64_os.Stellar.Opcode.{Op, opcode}
use nova64_os.Stellar.Compiler.Scan.{match, skip_spaces}
use nova64_os.Stellar.Compiler.State.{
  missing_before_if, missing_before_else, missing_before_while, missing_before_close,
  unmatched_close,
}
use nova64_os.Stellar.Compiler.State.{
  Result, done, fault, ◌>>=◌, ◌>>◌, fail, bounded, Scope, if_scope, while_scope, else_scope,
  Compiler,
}
use nova64_os.Stellar.Compiler.State.{
  emit, patch16, advance, flush_product, flush_sum, flush_cmp, no_store, push_scope,
}

-- A jump whose address is filled in later.
abbrev pub emit_jump : Op → Compiler → Compiler
emit_jump op c = emit (opcode op ∷ 0 ∷ 0 ∷ []) c

-- `patch16(out, if_stack[if_top--], b_ptr)`.
unfoldable pub patch_if : Compiler → Result Compiler
unfolding patch16
patch_if c = elim c.if_stack [
  | [] ↦ fault
  | pos ∷ rest ↦ done (record c { out = patch16 c.out pos (length c.out); if_stack = rest })
]

-- `patch16(out, exit_jmp_stack[exit_jmp_top--], b_ptr)` until the stack is empty.
unfoldable pub patch_all : List ℕ → ℕ → List ℕ → List ℕ
unfolding patch16
patch_all [] address out = out
patch_all (pos ∷ rest) address out = patch_all rest address (patch16 out pos address)

-- `out[b_ptr++] = OP_JMP` with the address of the loop, and the address of the loop's exit.
unfoldable pub close_while : Compiler → Result Compiler
unfolding patch16
close_while c = elim c.while_start [
  | [] ↦ fault
  | start ∷ rest ↦
      let looped = c.out ++ (opcode Op.jmp ∷ start % 256 ∷ start / 256 % 256 ∷ []) in
      elim (get_or c.while_exit (length rest) none) [
        | none ↦ fault
        | some pos ↦
            done (record c { out = patch16 looped pos (length looped); while_start = rest })
      ]
]

-- The end of a condition: a jump past the block, whose place is kept.
unfoldable pub close_condition : Compiler → Result Compiler
close_condition c =
    let pos = length c.out + 1 in
    let jumping = record c {
      out = c.out ++ (opcode Op.jz ∷ 0 ∷ 0 ∷ []);
      expecting_cond = set c.expecting_cond (length c.scopes - 1) false;
    } in
    elim c.scopes [
      | [] ↦ done c
      | if_scope ∷ below ↦
          if leb 16 (length c.if_stack)
          then fault
          else done (record jumping { if_stack = pos ∷ c.if_stack })
      | _ ∷ below ↦
          if leb (length c.while_start) 0
          then fault
          else done (record jumping {
            while_exit = set c.while_exit (length c.while_start - 1) (some pos);
          })
    ]

-- `scope_top >= 0 && expecting_cond_stack[scope_top]`.
unfoldable pub expects_condition : Compiler → Bool
expects_condition c = elim c.scopes [
  | [] ↦ false
  | kind ∷ below ↦ get_or c.expecting_cond (length below) false
]

unfoldable pub close_print : Compiler → Compiler
close_print c = if c.expect_print == 0 then c else record c {
  out = c.out ++ ((if c.expect_print == 2 then opcode Op.print_str else opcode Op.print) ∷ []);
  expect_print = 0;
  force_semicolon_check = true;
}

unfoldable pub on_close_paren : Compiler → Result Compiler
unfolding close_condition expects_condition close_print
on_close_paren c =
    let depth = u32 (c.paren_depth + 2 ^ 32 - 1) in
    let flushed = flush_cmp (flush_sum (flush_product (record c { paren_depth = depth }))) in
    do
      conditioned ←
          (if depth == 0 && expects_condition flushed
            then close_condition flushed
            else done flushed)
      done (advance 1 (close_print conditioned))

-- The end of a chain of blocks: the last condition and the jumps out of the blocks lead here.
unfoldable pub close_chain : Scope → Compiler → Result Compiler
unfolding patch_if patch_all
close_chain kind c = do
  patched ← elim kind [ if_scope ↦ patch_if c | _ ↦ done c ]
  done (record patched {
    out = patch_all patched.exit_jmps (length patched.out) patched.out;
    exit_jmps = [];
  })

module _ (source : List ℕ) where
  unfoldable pub on_if : Compiler → Result Compiler
  unfolding push_scope
  on_if c = do
    no_store missing_before_if 2 c
    scoped ← push_scope if_scope true c
    done (advance 2 scoped)

  -- `else if` opens an if, a plain `else` its own scope; `c` stands at the word after the spaces.
  unfoldable pub open_else : Compiler → Result Compiler
  unfolding push_scope match
  open_else c = elim (match source c.s_ptr (0x69 ∷ 0x66 ∷ [])) [
    | zero ↦ push_scope else_scope false c
    | suc n ↦ do scoped ← push_scope if_scope true c; done (advance (suc n) scoped)
  ]

  unfoldable pub on_else : Compiler → Result Compiler
  unfolding open_else patch_if skip_spaces
  on_else c = do
    no_store missing_before_else 4 c
    bounded (ltb (length c.exit_jmps) 32)
    patched ←
        patch_if (record (emit_jump Op.jmp c) { exit_jmps = (length c.out + 1) ∷ c.exit_jmps })
    open_else (record patched { s_ptr = skip_spaces source (patched.s_ptr + 4) })

  unfoldable pub on_while : Compiler → Result Compiler
  unfolding push_scope
  on_while c = do
    no_store missing_before_while 5 c
    bounded (ltb (length c.while_start) 16)
    scoped ← push_scope while_scope true (record c { while_start = length c.out ∷ c.while_start })
    done (advance 5 scoped)

  -- Whether the next word is `else`.
  unfoldable pub else_follows : Compiler → Bool
  unfolding match skip_spaces
  else_follows c =
      not (match source (skip_spaces source (c.s_ptr + 1)) (0x65 ∷ 0x6C ∷ 0x73 ∷ 0x65 ∷ []) == 0)

  unfoldable pub close_scope : Scope → Compiler → Result Compiler
  unfolding close_while close_chain else_follows
  close_scope while_scope c = close_while c
  close_scope kind c = if else_follows c then done c else close_chain kind c

  unfoldable pub on_close_brace : Compiler → Result Compiler
  unfolding close_scope
  on_close_brace c = do
    no_store missing_before_close 1 c
    elim c.scopes [
      | [] ↦ fail unmatched_close c.s_ptr 1
      | kind ∷ below ↦ do
        closed ← close_scope kind (record c { scopes = below })
        done (advance 1 closed)
    ]
