-- ===== src/Stellar/Compiler/Symbols/Lookup.antt =====
-- A declared variable is found again under its index, and no other name is disturbed.
use mathlib.Core.Option.{some-injective}
use nova64_os.Base.{
  ◌⊎◌, ℕ, zero, suc, ◌+◌, ◌≤◌, ◌<◌, ◌≡◌, ◌≢◌, refl, arith, ap, ap₂, sym, ◌∙◌, Bool, true, false,
  leb, ◌==◌, ◌&&◌,
}
use nova64_os.Base.{
  if◌then◌else◌, List, [], ◌∷◌, ◌++◌, Option, none, some, length, length-append, take, Bool-cases,
  inl, inr, ==_refl, ==_iff,
}
use nova64_os.Stellar.Compiler.Symbols.{VarType, Symbol, same_name, find_variable, add_variable}
use nova64_os.Stellar.Compiler.State.{Compiler, Result, done, fail, too_many_variables}
use nova64_os.Stellar.Compiler.Statements.{declare}
use nova64_os.Stellar.Compiler.Progress.{Ends}

same_name_refl : (name : List ℕ) → same_name name name ≡ true
unfolding same_name
same_name_refl [] = refl
same_name_refl (c ∷ cs) = rw (==_refl c) (same_name_refl cs)

and_both : (a b : Bool) → (a && b) ≡ true → (a ≡ true) × (b ≡ true)
and_both true b h = (refl, h)
and_both false b h = cc

same_name_sound : (a b : List ℕ) → same_name a b ≡ true → a ≡ b
unfolding same_name
same_name_sound [] [] h = refl
same_name_sound [] (d ∷ ds) h = cc
same_name_sound (c ∷ cs) [] h = cc
same_name_sound (c ∷ cs) (d ∷ ds) h =
    let (heads, tails) = and_both (c == d) (same_name cs ds) h in
    ap₂ (λ (x : ℕ) (xs : List ℕ). x ∷ xs) ((==_iff c d).0 heads) (same_name_sound cs ds tails)

same_name_ne : (a b : List ℕ) → a ≢ b → same_name a b ≡ false
same_name_ne a b ne = elim (Bool-cases (same_name a b)) [
  | inl same ↦ absurd (ne (same_name_sound a b same))
  | inr differ ↦ differ
]

-- The rest of a table, after an entry that is not the one looked for.
not_here :
    (b : Bool) (id : ℕ) (o o' r : Option ℕ)
    → (o ≡ none → o' ≡ r)
    → (if b then some id else o) ≡ none
    → (if b then some id else o') ≡ r
not_here true id o o' r h e = cc
not_here false id o o' r h e = h e

-- An entry that is found is the first or one of the rest.
found_in :
    (b : Bool) (first id : ℕ) (o : Option ℕ)
    → (if b then some first else o) ≡ some id
    → (id ≡ first) ⊎ (o ≡ some id)
found_in true first id o e = inl (sym (some-injective _ _ e))
found_in false first id o e = inr e

find_variable-new :
    (name : List ℕ) (symbols : List Symbol) (s : Symbol)
    → find_variable name symbols ≡ none
    → s.name ≡ name
    → find_variable name (symbols ++ (s ∷ [])) ≡ some s.id
unfolding find_variable
find_variable-new name [] s missing is = rw (is, same_name_refl) refl
find_variable-new name (t ∷ rest) s missing is =
    not_here (same_name t.name name) t.id (find_variable name rest) _ _
      (λ none_yet. find_variable-new name rest s none_yet is) missing

find_variable-other :
    (name : List ℕ) (symbols : List Symbol) (s : Symbol)
    → s.name ≢ name
    → find_variable name (symbols ++ (s ∷ [])) ≡ find_variable name symbols
unfolding find_variable
find_variable-other name [] s differs = rw (same_name_ne s.name name differs) refl
find_variable-other name (t ∷ rest) s differs = rw (find_variable-other name rest s differs) refl

take_short : {A : Type 0} (n : ℕ) (xs : List A) → length xs ≤ n → take n xs ≡ xs
take_short zero [] h = refl
take_short zero (x ∷ xs) h = absurd (omega arith)
take_short (suc n) [] h = refl
take_short (suc n) (x ∷ xs) h = ap (λ ys. x ∷ ys) (take_short n xs (omega arith))

-- The entries, from number `k` on, have their numbers as ids.
abbrev pub InOrder : ℕ → List Symbol → Type 0
InOrder k [] = Unit
InOrder k (s ∷ rest) = (s.id ≡ k) × InOrder (k + 1) rest

InOrder-append :
    (k : ℕ) (symbols : List Symbol) (s : Symbol)
    → InOrder k symbols
    → s.id ≡ k + length symbols
    → InOrder k (symbols ++ (s ∷ []))
InOrder-append k [] s ok is = (omega arith, tt)
InOrder-append k (t ∷ rest) s (here, ok) is = (here, InOrder-append (k + 1) rest s ok (omega arith))

find_variable-lt :
    (name : List ℕ) (k : ℕ) (symbols : List Symbol) {id : ℕ}
    → InOrder k symbols
    → find_variable name symbols ≡ some id
    → id < k + length symbols
unfolding find_variable
find_variable-lt name k [] ok e = cc
find_variable-lt name k (s ∷ rest) {id} (here, ok) e =
    elim (found_in (same_name s.name name) s.id id (find_variable name rest) e) [
      | inl first ↦ omega arith
      | inr later ↦ let lt = find_variable-lt name (k + 1) rest ok later in omega arith
    ]

-- A table of at most 256 entries whose ids are their places.
pub record IsTable (symbols : List Symbol) : Type 0 where
  pub in_order : InOrder 0 symbols
  pub bounded : length symbols ≤ 256

-- What a declaration of `name` promises of the index and the table it gives.
pub record IsDeclared (name : List ℕ) (other : List ℕ) (before after : List Symbol) (id : ℕ)
    : Type 0 where
  pub table : IsTable after
  pub found : find_variable name after ≡ some id
  pub fits : id < 256
  pub kept : find_variable other after ≡ find_variable other before

-- The error where no entry was added.
abbrev or_too_many : ℕ → Option (ℕ × List Symbol) → Result (ℕ × List Symbol)
or_too_many ptr o = elim o [ none ↦ fail too_many_variables ptr 1 | some a ↦ done a ]

-- A declaration of a name of at most 31 characters, in a table of at most 256 entries whose ids are
-- their places, gives such a table, in which the name is found under the index given, which fits in a
-- byte, and any other name is found as before; or it stops in `error_exit`.
pub declare_lem :
    (name other : List ℕ) (type : VarType) (c : Compiler)
    → length name ≤ 31
    → other ≢ name
    → IsTable c.symbols
    → Ends (λ (r : ℕ × List Symbol). IsDeclared name other c.symbols r.1 r.0) (declare name type c)
unfolding declare add_variable
declare_lem name other type c short differs ok = by_lookup (find_variable name c.symbols) refl
  where
    entry : Symbol
    entry = record { name = take 31 name; id = length c.symbols; type = type }

    whole : entry.name ≡ name
    whole = take_short 31 name short

    grown : length (c.symbols ++ (entry ∷ [])) ≡ length c.symbols + 1
    grown = length-append c.symbols (entry ∷ [])

    added :
        (full : Bool)
        → leb 256 (length c.symbols) ≡ full
        → find_variable name c.symbols ≡ none
        → Ends
            (λ (r : ℕ × List Symbol). IsDeclared name other c.symbols r.1 r.0)
            (or_too_many c.s_ptr
              (if full then none else some (length c.symbols, c.symbols ++ (entry ∷ []))))
    added true full missing = tt
    added false full missing =
        let g = grown in
        let room : length c.symbols < 256 = ground arith in
        record {
          table = record {
            in_order = InOrder-append 0 c.symbols entry ok.in_order (omega arith);
            bounded = omega arith;
          };
          found = find_variable-new name c.symbols entry missing whole;
          fits = room;
          kept = find_variable-other other c.symbols entry (λ same. differs (sym same ∙ whole));
        }

    by_lookup :
        (o : Option ℕ)
        → find_variable name c.symbols ≡ o
        → Ends
            (λ (r : ℕ × List Symbol). IsDeclared name other c.symbols r.1 r.0)
            (elim o [
              | some id ↦ done (id, c.symbols)
              | none ↦ elim (add_variable name type c.symbols) [
                | none ↦ fail too_many_variables c.s_ptr 1
                | some a ↦ done a
              ]
            ])
    by_lookup none missing = added (leb 256 (length c.symbols)) refl missing
    by_lookup (some id) here =
        let lt = find_variable-lt name 0 c.symbols ok.in_order here in
        record { table = ok; found = here; fits = let b = ok.bounded in omega arith; kept = refl }
