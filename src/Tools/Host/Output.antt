-- ===== src/Tools/Host/Output.antt =====
-- What the launcher writes, removes and runs.
use nova64_os.Base.{
  ℕ, ◌≤◌, ◌<◌, ◌≡◌, refl, arith, sym, subst, ◌∙◌, Bool, true, false, ltb, lt→ltb, ◌&&◌, ◌||◌, not,
  if◌then◌else◌, if_both, List, [], ◌∷◌, length, length-append, take, Option, none, some,
  Bool-cases, Option-cases, inl, inr,
}
use mathlib.Core.Option.{some-injective}
use nova64_os.Stellar.Compiler.Symbols.{same_name}
use nova64_os.Base.Text.{codes}
use nova64_os.Utils.Strings.Compare.{c_text}
use nova64_os.Stellar.Fpu.{Fpu}
use nova64_os.Stellar.Compiler.State.{Result, done, error, fault, out_of_fuel, Diagnostic}
use nova64_os.Stellar.Compiler.Loop.{compile}
use nova64_os.Stellar.Errors.Report.{last_dot, get_bin_name}
use nova64_os.Tools.Host.{
  Options, no_options, parse_args, is_exe, Host, Ending, use_code, output_name, name_fits,
  compile_file, host_main, nothing_done, plain_option, compile_error, compile_fault, overrun, usage,
  cannot_open, cannot_write,
}

-- What holds of both arms of a choice by an option holds of the choice.
option_both :
    {A B : Type 0} (P : B → Type 0) (o : Option A) {x : B} {f : A → B}
    → (o ≡ none → P x)
    → ((a : A) → o ≡ some a → P (f a))
    → P (elim o [ none ↦ x | some a ↦ f a ])
option_both P none hx hf = hx refl
option_both P (some a) hx hf = hf a refl

result_both :
    {B : Type 0} (P : B → Type 0) (r : Result (List ℕ)) {x y : B} {f : List ℕ → B}
    {g : Diagnostic → B}
    → ((code : List ℕ) → r ≡ done code → P (f code))
    → ((d : Diagnostic) → r ≡ error d → P (g d))
    → P x
    → P y
    → P (elim r [ done code ↦ f code | error d ↦ g d | fault ↦ x | out_of_fuel ↦ y ])
result_both P (done code) hf hg hx hy = hf code refl
result_both P (error d) hf hg hx hy = hg d refl
result_both P fault hf hg hx hy = hx
result_both P out_of_fuel hf hg hx hy = hy

get_bin_name_some : (filename : List ℕ) → 0 < length (get_bin_name filename)
unfolding get_bin_name
get_bin_name_some filename = elim (Option-cases (last_dot filename)) [
  | inl whole ↦ rw (whole, get_bin_name) (omega (arith, length-append filename (codes ".exe")))
  | inr (i, at) ↦
      rw (at, get_bin_name) (omega (arith, length-append (take i filename) (codes ".exe")))
]

output_name_some : (filename : List ℕ) (o : Options) → 0 < length (output_name filename o)
output_name_some filename o =
    if_both (λ (name : List ℕ). 0 < length name) (ltb 0 (length o.out_name))
      (λ custom. ground arith) (λ none_given. get_bin_name_some filename)

-- The words ask for a binary `name` with `code`: they name a source that compiles to `code`, which
-- fits the buffer, and `name` is not empty, fits its array and may be written.
abbrev pub Builds :
    (fpu : Fpu) (atof : List ℕ → ℕ) → Host → List (List ℕ) → Options → List ℕ → List ℕ → Type 0
Builds fpu atof h words o name code =
    (filename : List ℕ) × (args : List (List ℕ)) × (bytes : List ℕ) × (words ≡ filename ∷ args)
    × (parse_args h args no_options ≡ some o)
    × (h.read_file filename ≡ some bytes)
    × (compile (c_text bytes) fpu atof ≡ done code)
    × ((o.force_run || is_exe filename) ≡ false)
    × (name ≡ output_name filename o)
    × (h.can_write name ≡ true)
    × ((0 < length name) × (length name < 256) × (length code ≤ 65536))

-- What the ending did with the code: nothing is removed, the code is run unless `--quiet` was given or
-- the stack was refused, and dumped where `-d` was given.
abbrev pub Uses : Host → Options → List ℕ → Ending → Type 0
Uses h o code e =
    (e.removed ≡ none)
    × (e.ran ≡ (if not o.quiet_mode && h.has_memory o.stack_size then some code else none))
    × (e.dumped ≡ (if o.dump_bytecode then some (length code) else none))

use_code-wrote :
    (h : Host) (o : Options) (is_binary : Bool) (bin : List ℕ) (sz : ℕ)
    (wrote : Option (List ℕ × List ℕ))
    → (use_code h o is_binary bin sz wrote).wrote ≡ wrote
unfolding use_code
use_code-wrote h o is_binary bin sz wrote =
    let Keeps : Ending → Type 0 = λ e. e.wrote ≡ wrote in
    if_both Keeps (o.dump_bytecode && ltb 65536 sz) (λ past. refl)
      (λ within.
        if_both Keeps o.quiet_mode (λ quiet. refl)
          (λ loud. if_both Keeps (h.has_memory o.stack_size) (λ given. refl) (λ refused. refl)))

-- Code that fits the buffer, of a source whose binary has a name.
use_code-Uses :
    (h : Host) (o : Options) (code : List ℕ) (wrote : Option (List ℕ × List ℕ))
    → 0 < length o.out_name
    → length code ≤ 65536
    → Uses h o code (use_code h o false code (length code) wrote)
unfolding use_code
use_code-Uses h o code wrote named fits =
    let name = lt→ltb 0 (length o.out_name) named in
    let within : (o.dump_bytecode && ltb 65536 (length code)) ≡ false = ground arith in
    elim (Bool-cases o.quiet_mode) [
      | inl quiet ↦ rw (name, within, quiet) (refl, refl, refl)
      | inr loud ↦ elim (Bool-cases (h.has_memory o.stack_size)) [
        | inl given ↦ rw (name, within, loud, given) (refl, refl, refl)
        | inr refused ↦ rw (name, within, loud, refused) (refl, refl, refl)
      ]
    ]

plain_option-out_name : (arg : List ℕ) (o : Options) → (plain_option arg o).out_name ≡ o.out_name
unfolding plain_option
plain_option-out_name arg o = elim (Bool-cases (same_name arg (codes "--bytecode"))) [
  | inl is ↦ rw is refl
  | inr not₁ ↦ elim (Bool-cases (same_name arg (codes "-d"))) [
    | inl is ↦ rw (not₁, is) refl
    | inr not₂ ↦ elim (Bool-cases (same_name arg (codes "--quiet"))) [
      | inl is ↦ rw (not₁, not₂, is) refl
      | inr not₃ ↦ elim (Bool-cases (same_name arg (codes "--run"))) [
        | inl is ↦ rw (not₁, not₂, not₃, is) refl
        | inr not₄ ↦ rw (not₁, not₂, not₃, not₄) refl
      ]
    ]
  ]
]

-- A name that the options leave fits its array.
abbrev Named : Option Options → Type 0
Named r = (o : Options) → r ≡ some o → length o.out_name < 256

Named-none : Named none
Named-none o e = cc

Named-some : (o : Options) → length o.out_name < 256 → Named (some o)
Named-some o fits o' e =
    subst (λ (p : Options). length p.out_name < 256) (some-injective _ _ e) fits

parse_args-Named :
    (h : Host) (args : List (List ℕ)) (o : Options)
    → length o.out_name < 256
    → Named (parse_args h args o)
unfolding parse_args
parse_args-Named h [] o fits = Named-some o fits
parse_args-Named h (arg ∷ []) o fits =
    Named-some (plain_option arg o)
      (subst (λ (l : List ℕ). length l < 256) (sym (plain_option-out_name arg o)) fits)
parse_args-Named h (arg ∷ value ∷ rest) o fits =
    if_both Named (same_name arg (codes "-o"))
      (λ named.
        if_both Named (ltb (length value) 256)
          (λ short. parse_args-Named h rest (record o { out_name = value }) (ground arith))
          (λ long. Named-none))
      (λ other.
        if_both Named (same_name arg (codes "--stack-size"))
          (λ sized. parse_args-Named h rest (record o { stack_size = h.atoi value }) fits)
          (λ single.
            parse_args-Named h (value ∷ rest) (plain_option arg o)
              (subst (λ (l : List ℕ). length l < 256) (sym (plain_option-out_name arg o)) fits)))

output_name-fits :
    (filename : List ℕ) (o : Options)
    → length o.out_name < 256
    → (ltb 0 (length o.out_name) || name_fits filename) ≡ true
    → length (output_name filename o) < 256
output_name-fits filename o fits named =
    if_both (λ (name : List ℕ). length name < 256) (ltb 0 (length o.out_name)) (λ custom. fits)
      (λ none_given. ground arith)

module _ (fpu : Fpu) (atof : List ℕ → ℕ) (h : Host) where
  -- Whatever the ending wrote was asked for.
  abbrev Accounts : List (List ℕ) → Ending → Type 0
  Accounts words e =
      (name code : List ℕ)
      → e.wrote ≡ some (name, code)
      → (o : Options) × Builds fpu atof h words o name code × Uses h o code e

  unwritten : (words : List (List ℕ)) (e : Ending) → e.wrote ≡ none → Accounts words e
  unwritten words e nothing name code wrote = cc

  compile_file-Accounts :
      (filename bytes : List ℕ) (args : List (List ℕ)) (o : Options)
      → parse_args h args no_options ≡ some o
      → h.read_file filename ≡ some bytes
      → (o.force_run || is_exe filename) ≡ false
      → Accounts (filename ∷ args) (compile_file fpu atof h o filename bytes)
  unfolding compile_file
  compile_file-Accounts filename bytes args o parsed read source =
      let words = filename ∷ args in
      let name : List ℕ = output_name filename o in
      let some_name = output_name_some filename o in
      result_both (Accounts words) (compile (c_text bytes) fpu atof)
        (λ code compiled.
          if_both (Accounts words) (ltb 65536 (length code))
            (λ past. unwritten words (nothing_done overrun) refl)
            (λ fits.
              if_both (Accounts words) (ltb 0 (length o.out_name) || name_fits filename)
                (λ named.
                  if_both (Accounts words) (h.can_write name)
                    (λ writable n c e.
                      let named_o : Options = record o { out_name = name } in
                      let wrote = some (name, code) in
                      let within : length code ≤ 65536 = ground arith in
                      let ending : Ending = use_code h named_o false code (length code) wrote in
                      subst
                        (λ (p : List ℕ × List ℕ).
                          (o : Options) × Builds fpu atof h words o p.0 p.1 × Uses h o p.1 ending)
                        (some-injective _ _
                          (sym (use_code-wrote h named_o false code (length code) wrote) ∙ e))
                        (
                          o,
                          (
                            filename,
                            args,
                            bytes,
                            refl,
                            parsed,
                            read,
                            compiled,
                            source,
                            refl,
                            writable,
                            (
                              some_name,
                              output_name-fits filename o
                                  (parse_args-Named h args no_options (omega arith) o parsed) named,
                              within,
                            ),
                          ),
                          use_code-Uses h named_o code wrote some_name within,
                        ))
                    (λ refused. unwritten words (nothing_done (cannot_write name)) refl))
                (λ long. unwritten words (nothing_done overrun) refl)))
        (λ d failed.
          if_both (Accounts words) (name_fits filename)
            (λ short.
              unwritten words
                (record (nothing_done (compile_error d)) { removed = some (get_bin_name filename) })
                refl)
            (λ long. unwritten words (nothing_done overrun) refl))
        (unwritten words (nothing_done compile_fault) refl)
        (unwritten words (nothing_done compile_fault) refl)

  host_main-Accounts : (words : List (List ℕ)) → Accounts words (host_main fpu atof h words)
  unfolding host_main
  host_main-Accounts [] = unwritten [] (nothing_done usage) refl
  host_main-Accounts (filename ∷ args) =
      let words = filename ∷ args in
      option_both (Accounts words) (parse_args h args no_options)
        (λ long. unwritten words (nothing_done overrun) refl)
        (λ o parsed.
          option_both (Accounts words) (h.read_file filename)
            (λ missing. unwritten words (nothing_done (cannot_open filename)) refl)
            (λ bytes read.
              if_both (Accounts words) (o.force_run || is_exe filename)
                (λ binary.
                  unwritten words (use_code h o true (take 65536 bytes) (length bytes) none)
                    (use_code-wrote h o true (take 65536 bytes) (length bytes) none))
                (λ source. compile_file-Accounts filename bytes args o parsed read source)))

-- Whatever words the launcher is called with, a file that it writes is the binary of the source that
-- they name: the code to which that compiles, of at most 65536 bytes, under a name of 1 to 255
-- characters, that of `-o` or the source's with `.exe`. With or without `--bytecode` it is not
-- removed; that code and no other is run, unless `--quiet` was given or the stack was refused, and its
-- length is dumped where `-d` was given.
pub host_main-output :
    (fpu : Fpu) (atof : List ℕ → ℕ) (h : Host) (words : List (List ℕ)) (name code : List ℕ)
    → (host_main fpu atof h words).wrote ≡ some (name, code)
    → (o : Options) × Builds fpu atof h words o name code
      × Uses h o code (host_main fpu atof h words)
host_main-output fpu atof h words name code wrote =
    host_main-Accounts fpu atof h words name code wrote
