-- ===== src/Stellar/Compiler/Symbols.antt =====
-- The symbol table: `find_variable` and `add_variable`.
pub mod Lookup
use nova64_os.Base.{ℕ, suc, ◌+◌, Bool, true, false, leb, ◌==◌, ◌&&◌, if◌then◌else◌}
use nova64_os.Base.{List, [], ◌∷◌, ◌++◌, Option, none, some, length, take, get_elem?}

pub data VarType : Type 0 where
  ty_double ty_int : VarType

pub record Symbol : Type 0 where
  pub name : List ℕ
  pub id : ℕ
  pub type : VarType

-- `strcmp(a, b) == 0`.
unfoldable pub same_name : List ℕ → List ℕ → Bool
same_name [] [] = true
same_name [] (d ∷ ds) = false
same_name (c ∷ cs) [] = false
same_name (c ∷ cs) (d ∷ ds) = (c == d) && same_name cs ds

-- -1 is `none`.
unfoldable pub find_variable : List ℕ → List Symbol → Option ℕ
unfolding same_name
find_variable name [] = none
find_variable name (s ∷ rest) =
    let later = find_variable name rest in if same_name s.name name then some s.id else later

unfoldable pub add_variable : List ℕ → VarType → List Symbol → Option (ℕ × List Symbol)
add_variable name type symbols =
    if leb 256 (length symbols)
    then none
    else some (
      length symbols,
      symbols ++ (record { name = take 31 name; id = length symbols; type = type } ∷ []),
    )

-- `symbol_table[i].type == TY_INT`; an entry that was never written is a zero.
unfoldable pub is_int : List Symbol → ℕ → Bool
is_int symbols i = elim (get_elem? symbols i) [
  | none ↦ false
  | some s ↦ elim s.type [ ty_int ↦ true | ty_double ↦ false ]
]
