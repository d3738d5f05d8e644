-- ===== src/Stellar/Compiler/Progress/Statements.antt =====
-- The branches of Stellar.Compiler.Statements move on within the bound.
use nova64_os.Base.{ℕ, ◌+◌, ◌≤◌, ◌≡◌, refl, arith}
use nova64_os.Base.{List, ◌++◌, length, length-append}
use nova64_os.Stellar.Opcode.{Op, opcode}
use nova64_os.Stellar.Compiler.Scan.{}
use nova64_os.Stellar.Compiler.Symbols.{Symbol}
use nova64_os.Stellar.Compiler.Statements.{
  store_code, on_semicolon, on_compare, on_print, on_open_brace, on_sum, on_product,
}
use nova64_os.Stellar.Compiler.Progress.{
  Ends, Any, Ends-bind, Ends-no_store, target_size, size, length-pending_le, length-pending_zero,
  Moved,
}
use nova64_os.Stellar.Compiler.State.{missing_before_print, missing_before_open}
use nova64_os.Stellar.Compiler.State.{Target, no_target, array_target, variable_target, Compiler}
use nova64_os.Stellar.Compiler.State.{pending, no_store}

length-store_code :
    (symbols : List Symbol) (t : Target) → length (store_code symbols t) ≡ target_size t
unfolding store_code
length-store_code symbols no_target = refl
length-store_code symbols array_target = refl
length-store_code symbols (variable_target i) = refl

-- The bytes after the flush of all that is pending.
pub length-flushed :
    (out : List ℕ) (p q r : ℕ)
    → length (((out ++ pending p) ++ pending q) ++ pending r)
      ≡ length out + length (pending p) + length (pending q) + length (pending r)
length-flushed out p q r =
    let e = length-append ((out ++ pending p) ++ pending q) (pending r) in
    let f = length-append (out ++ pending p) (pending q) in
    let g = length-append out (pending p) in omega arith

pub Moved-on_semicolon : (c : Compiler) → Moved c.s_ptr (size c) (on_semicolon c)
unfolding on_semicolon
Moved-on_semicolon c =
    let e =
      length-append (((c.out ++ pending c.p_mul_div) ++ pending c.p_add_sub) ++ pending c.p_cmp)
        (store_code c.symbols c.var_store) in
    let f = length-flushed c.out c.p_mul_div c.p_add_sub c.p_cmp in
    let g = length-store_code c.symbols c.var_store in
    let z = length-pending_zero in (omega arith, omega arith)

pub Moved-on_compare :
    (op : Op) (n : ℕ) (c : Compiler) → 1 ≤ n → Moved c.s_ptr (size c) (on_compare op n c)
unfolding on_compare
Moved-on_compare op n c pos =
    let e = length-append (c.out ++ pending c.p_mul_div) (pending c.p_add_sub) in
    let f = length-append c.out (pending c.p_mul_div) in
    let z = length-pending_zero in
    let le = length-pending_le (opcode op) in (omega arith, omega arith)

pub Moved-on_print : (c : Compiler) → Ends (Moved c.s_ptr (size c)) (on_print c)
unfolding on_print
Moved-on_print c =
    Ends-bind Any _ (no_store missing_before_print 5 c) _ (Ends-no_store missing_before_print 5 c)
      (λ u h. (omega arith, omega arith))

pub Moved-on_open_brace : (c : Compiler) → Ends (Moved c.s_ptr (size c)) (on_open_brace c)
unfolding on_open_brace
Moved-on_open_brace c =
    Ends-bind Any _ (no_store missing_before_open 1 c) _ (Ends-no_store missing_before_open 1 c)
      (λ u h. (omega arith, omega arith))

pub Moved-on_sum : (op : Op) (c : Compiler) → Moved c.s_ptr (size c) (on_sum op c)
unfolding on_sum
Moved-on_sum op c =
    let e = length-append c.out (pending c.p_add_sub) in
    let le = length-pending_le (opcode op) in (omega arith, omega arith)

pub Moved-on_product : (op : Op) (c : Compiler) → Moved c.s_ptr (size c) (on_product op c)
unfolding on_product
Moved-on_product op c =
    let e = length-append c.out (pending c.p_mul_div) in
    let le = length-pending_le (opcode op) in (omega arith, omega arith)
