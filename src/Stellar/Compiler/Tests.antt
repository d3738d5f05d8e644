-- ===== src/Stellar/Compiler/Tests.antt =====
-- Programs compiled and run, with a toy arithmetic in which a double is a whole number.
use nova64_os.Base.{
  ℕ, ◌+◌, ◌-◌, ◌*◌, ◌^◌, ◌≡◌, ◌≢◌, ◌≤◌, refl, arith, ap, get_or, List, [], ◌∷◌, Option, none, some,
  length, replicate,
}
use nova64_os.Stellar.Fpu.{long_sub}
use nova64_os.Stellar.Opcode.{opcode}
use nova64_os.Stellar.Errors.{is_similar}
use nova64_os.Stellar.Vm.{
  Vm, vm_init, Line, number, fetch_word, push_value, pop, set_variable, variable, fetch_address,
  emit_line, jump,
}
use nova64_os.Stellar.Vm.Exec.{vm_run}
use nova64_os.Stellar.Vm.Tests.{toy, output_of}
use nova64_os.Stellar.Compiler.Symbols.{Symbol, ty_int, ty_double}
use nova64_os.Stellar.Compiler.Symbols.Lookup.{IsTable, IsDeclared, declare_lem}
use nova64_os.Stellar.Compiler.State.{
  Result, done, error, not_declared, unknown_function, expected_semicolon, Compiler, compiler_init,
  bytes_of, patch16, pending,
}
use nova64_os.Stellar.Compiler.Statements.{declare}
use nova64_os.Stellar.Compiler.Loop.{compile}
use nova64_os.Stellar.Compiler.Progress.{Ends}
use nova64_os.Stellar.Compiler.Progress.Bound.{Ends-compile}
use nova64_os.Stellar.Compiler.Encoding.{fetch_word-bytes_of, fetch_address-patch16}

-- The whole part of a decimal number.
abbrev digits_value : ℕ → List ℕ → ℕ
digits_value v [] = v
digits_value v (c ∷ rest) = digits_value (v * 10 + (c - 0x30)) rest

abbrev pub toy_atof : List ℕ → ℕ
toy_atof text = digits_value 0 text

-- let x=7;
abbrev pub one_let : List ℕ
one_let = 0x6C ∷ 0x65 ∷ 0x74 ∷ 0x20 ∷ 0x78 ∷ 0x3D ∷ 0x37 ∷ 0x3B ∷ []

-- let x = 2; x = x * 3 + 4; print(x);
abbrev arithmetic : List ℕ
arithmetic =
    0x6C ∷ 0x65 ∷ 0x74 ∷ 0x20 ∷ 0x78 ∷ 0x20 ∷ 0x3D ∷ 0x20 ∷ 0x32 ∷ 0x3B ∷ 0x20 ∷ 0x78 ∷ 0x20 ∷ 0x3D
    ∷ 0x20 ∷ 0x78 ∷ 0x20 ∷ 0x2A ∷ 0x20 ∷ 0x33 ∷ 0x20 ∷ 0x2B ∷ 0x20 ∷ 0x34 ∷ 0x3B ∷ 0x20 ∷ 0x70
    ∷ 0x72 ∷ 0x69 ∷ 0x6E ∷ 0x74 ∷ 0x28 ∷ 0x78 ∷ 0x29 ∷ 0x3B ∷ []

-- int n = 3; while (n > 0) { print(n); n -= 1; }
abbrev countdown_source : List ℕ
countdown_source =
    0x69 ∷ 0x6E ∷ 0x74 ∷ 0x20 ∷ 0x6E ∷ 0x20 ∷ 0x3D ∷ 0x20 ∷ 0x33 ∷ 0x3B ∷ 0x20 ∷ 0x77 ∷ 0x68 ∷ 0x69
    ∷ 0x6C ∷ 0x65 ∷ 0x20 ∷ 0x28 ∷ 0x6E ∷ 0x20 ∷ 0x3E ∷ 0x20 ∷ 0x30 ∷ 0x29 ∷ 0x20 ∷ 0x7B ∷ 0x20
    ∷ 0x70 ∷ 0x72 ∷ 0x69 ∷ 0x6E ∷ 0x74 ∷ 0x28 ∷ 0x6E ∷ 0x29 ∷ 0x3B ∷ 0x20 ∷ 0x6E ∷ 0x20 ∷ 0x2D
    ∷ 0x3D ∷ 0x20 ∷ 0x31 ∷ 0x3B ∷ 0x20 ∷ 0x7D ∷ []

-- let x = 5; if (x == 1) { print(1); } else if (x == 5) { print(2); } else { print(3); }
abbrev branches : List ℕ
branches =
    0x6C ∷ 0x65 ∷ 0x74 ∷ 0x20 ∷ 0x78 ∷ 0x20 ∷ 0x3D ∷ 0x20 ∷ 0x35 ∷ 0x3B ∷ 0x20 ∷ 0x69 ∷ 0x66 ∷ 0x20
    ∷ 0x28 ∷ 0x78 ∷ 0x20 ∷ 0x3D ∷ 0x3D ∷ 0x20 ∷ 0x31 ∷ 0x29 ∷ 0x20 ∷ 0x7B ∷ 0x20 ∷ 0x70 ∷ 0x72
    ∷ 0x69 ∷ 0x6E ∷ 0x74 ∷ 0x28 ∷ 0x31 ∷ 0x29 ∷ 0x3B ∷ 0x20 ∷ 0x7D ∷ 0x20 ∷ 0x65 ∷ 0x6C ∷ 0x73
    ∷ 0x65 ∷ 0x20 ∷ 0x69 ∷ 0x66 ∷ 0x20 ∷ 0x28 ∷ 0x78 ∷ 0x20 ∷ 0x3D ∷ 0x3D ∷ 0x20 ∷ 0x35 ∷ 0x29
    ∷ 0x20 ∷ 0x7B ∷ 0x20 ∷ 0x70 ∷ 0x72 ∷ 0x69 ∷ 0x6E ∷ 0x74 ∷ 0x28 ∷ 0x32 ∷ 0x29 ∷ 0x3B ∷ 0x20
    ∷ 0x7D ∷ 0x20 ∷ 0x65 ∷ 0x6C ∷ 0x73 ∷ 0x65 ∷ 0x20 ∷ 0x7B ∷ 0x20 ∷ 0x70 ∷ 0x72 ∷ 0x69 ∷ 0x6E
    ∷ 0x74 ∷ 0x28 ∷ 0x33 ∷ 0x29 ∷ 0x3B ∷ 0x20 ∷ 0x7D ∷ []

-- let x = 2*(3+4); print(x);
abbrev parenthesised : List ℕ
parenthesised =
    0x6C ∷ 0x65 ∷ 0x74 ∷ 0x20 ∷ 0x78 ∷ 0x20 ∷ 0x3D ∷ 0x20 ∷ 0x32 ∷ 0x2A ∷ 0x28 ∷ 0x33 ∷ 0x2B ∷ 0x34
    ∷ 0x29 ∷ 0x3B ∷ 0x20 ∷ 0x70 ∷ 0x72 ∷ 0x69 ∷ 0x6E ∷ 0x74 ∷ 0x28 ∷ 0x78 ∷ 0x29 ∷ 0x3B ∷ []

-- print(2*(3+4));
abbrev nested : List ℕ
nested =
    0x70 ∷ 0x72 ∷ 0x69 ∷ 0x6E ∷ 0x74 ∷ 0x28 ∷ 0x32 ∷ 0x2A ∷ 0x28 ∷ 0x33 ∷ 0x2B ∷ 0x34 ∷ 0x29 ∷ 0x29
    ∷ 0x3B ∷ []

-- y = 1;
abbrev undeclared : List ℕ
undeclared = 0x79 ∷ 0x20 ∷ 0x3D ∷ 0x20 ∷ 0x31 ∷ 0x3B ∷ []

-- prit(1);
abbrev misspelled : List ℕ
misspelled = 0x70 ∷ 0x72 ∷ 0x69 ∷ 0x74 ∷ 0x28 ∷ 0x31 ∷ 0x29 ∷ 0x3B ∷ []

-- print(1) print(2);
abbrev no_semicolon : List ℕ
no_semicolon =
    0x70 ∷ 0x72 ∷ 0x69 ∷ 0x6E ∷ 0x74 ∷ 0x28 ∷ 0x31 ∷ 0x29 ∷ 0x20 ∷ 0x70 ∷ 0x72 ∷ 0x69 ∷ 0x6E ∷ 0x74
    ∷ 0x28 ∷ 0x32 ∷ 0x29 ∷ 0x3B ∷ []

pub let_compiles :
    compile one_let toy toy_atof ≡ done (1 ∷ 7 ∷ 0 ∷ 0 ∷ 0 ∷ 0 ∷ 0 ∷ 0 ∷ 0 ∷ 7 ∷ 0 ∷ 0 ∷ [])
unfolding compile opcode pending
let_compiles = refl

abbrev output_after : Result (List ℕ) → Option (List Line)
output_after (done code) = output_of (vm_run toy 60 (vm_init code (replicate 8 0) [] []))
output_after _ = none

arithmetic_prints : output_after (compile arithmetic toy toy_atof) ≡ some (number 10 ∷ [])
unfolding compile opcode pending patch16 vm_run vm_init fetch_word push_value pop set_variable
    variable fetch_address emit_line jump long_sub
arithmetic_prints = refl

countdown_runs :
    output_after (compile countdown_source toy toy_atof)
    ≡ some (number 3 ∷ number 2 ∷ number 1 ∷ [])
unfolding compile opcode pending patch16 vm_run vm_init fetch_word push_value pop set_variable
    variable fetch_address emit_line jump long_sub
countdown_runs = refl

second_branch : output_after (compile branches toy toy_atof) ≡ some (number 2 ∷ [])
unfolding compile opcode pending patch16 vm_run vm_init fetch_word push_value pop set_variable
    variable fetch_address emit_line jump long_sub
second_branch = refl

-- Brackets do not group: the product is taken first.
brackets_ignored : output_after (compile parenthesised toy toy_atof) ≡ some (number 10 ∷ [])
unfolding compile opcode pending patch16 vm_run vm_init fetch_word push_value pop set_variable
    variable fetch_address emit_line jump long_sub
brackets_ignored = refl

-- The inner bracket already prints, and the outer one then stands where `;` is wanted.
nested_stops :
    compile nested toy toy_atof
    ≡ error (record { message = expected_semicolon; ptr = 13; len = 1; suggest = none })
unfolding compile opcode pending
nested_stops = refl

undeclared_stops :
    compile undeclared toy toy_atof
    ≡ error (record { message = not_declared; ptr = 0; len = 1; suggest = none })
unfolding compile opcode pending
undeclared_stops = refl

misspelled_stops :
    compile misspelled toy toy_atof
    ≡ error (record {
      message = unknown_function;
      ptr = 0;
      len = 4;
      suggest = some (0x70 ∷ 0x72 ∷ 0x69 ∷ 0x6E ∷ 0x74 ∷ []);
    })
unfolding compile opcode pending is_similar
misspelled_stops = refl

semicolon_wanted :
    compile no_semicolon toy toy_atof
    ≡ error (record { message = expected_semicolon; ptr = 9; len = 1; suggest = none })
unfolding compile opcode pending
semicolon_wanted = refl

Ends-compile_example :
    Ends
      (λ code. length code ≤ 9 * length countdown_source + 1)
      (compile countdown_source toy toy_atof)
Ends-compile_example = Ends-compile countdown_source toy toy_atof

-- A machine at a place in its code.
abbrev reading : List ℕ → ℕ → Vm
reading code pc = record (vm_init code (0 ∷ []) [] []) { pc = pc }

fetch_word-bytes_of_example :
    fetch_word (reading (1 ∷ bytes_of 8 (2 ^ 63 + 5)) 1)
    ≡ some (2 ^ 63 + 5, record (reading (1 ∷ bytes_of 8 (2 ^ 63 + 5)) 1) { pc = 1 + 8 })
unfolding bytes_of vm_init
fetch_word-bytes_of_example =
    fetch_word-bytes_of (2 ^ 63 + 5) (reading (1 ∷ bytes_of 8 (2 ^ 63 + 5)) 1) (omega arith)
      (refl, (refl, (refl, (refl, (refl, (refl, (refl, (refl, tt))))))))

fetch_address-patch16_example :
    (fetch_address (reading (patch16 (0x0D ∷ 0 ∷ 0 ∷ []) 1 0x1234) 1)
      ≡ some (0x1234, record (reading (patch16 (0x0D ∷ 0 ∷ 0 ∷ []) 1 0x1234) 1) { pc = 1 + 2 }))
    × (length (patch16 (0x0D ∷ 0 ∷ 0 ∷ []) 1 0x1234) ≡ 3)
unfolding vm_init
fetch_address-patch16_example =
    fetch_address-patch16 (0x0D ∷ 0 ∷ 0 ∷ []) 1 0x1234
      (reading (patch16 (0x0D ∷ 0 ∷ 0 ∷ []) 1 0x1234) 1) (omega arith) (omega arith) refl refl

-- A table with `x`, and the declaration of `y`.
abbrev with_x : Compiler
with_x = record compiler_init { symbols = record { name = 0x78 ∷ []; id = 0; type = ty_int } ∷ [] }

with_x-IsTable : IsTable with_x.symbols
with_x-IsTable = record { in_order = (refl, tt); bounded = omega arith }

abbrev name_x : List ℕ
name_x = 0x78 ∷ []

abbrev name_y : List ℕ
name_y = 0x79 ∷ []

x_not_y : name_x ≢ name_y
x_not_y e =
    let heads : get_or name_x 0 0 ≡ get_or name_y 0 0 = ap (λ (name : List ℕ). get_or name 0 0) e in
    absurd (omega (arith, heads))

declare_lem_example :
    Ends
      (λ (r : ℕ × List Symbol). IsDeclared name_y name_x with_x.symbols r.1 r.0)
      (declare name_y ty_double with_x)
declare_lem_example =
    declare_lem name_y name_x ty_double with_x (omega arith) x_not_y with_x-IsTable
