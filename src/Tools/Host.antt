-- ===== src/Tools/Host.antt =====
-- src/tools/host_open.c: the command `stellar`. Files, the memory of the stack, `atoi` and what the
-- machine does are outside; what `main` asks of them is its result.
pub mod Output
mod Tests
use nova64_os.Base.{
  ℕ, ◌+◌, ◌-◌, ◌^◌, Bool, true, false, ltb, ◌==◌, ◌&&◌, ◌||◌, not, if◌then◌else◌, List, [], ◌∷◌,
  ◌++◌, length, take, drop, Option, none, some,
}
use nova64_os.Base.Text.{codes}
use nova64_os.Utils.Strings.Compare.{c_text}
use nova64_os.Stellar.Fpu.{Fpu}
use nova64_os.Stellar.Compiler.Symbols.{same_name}
use nova64_os.Stellar.Compiler.State.{Result, done, error, fault, out_of_fuel, Diagnostic}
use nova64_os.Stellar.Compiler.Loop.{compile}
use nova64_os.Stellar.Errors.Report.{last_dot, get_bin_name}

-- The local variables that the options set.
pub record Options : Type 0 where
  pub keep_bytecode : Bool
  pub dump_bytecode : Bool
  pub quiet_mode : Bool
  pub force_run : Bool
  pub stack_size : ℕ
  pub out_name : List ℕ

abbrev pub no_options : Options
no_options = record {
  keep_bytecode = false;
  dump_bytecode = false;
  quiet_mode = false;
  force_run = false;
  stack_size = 8192;
  out_name = [];
}

-- An option that stands alone; another word is passed over.
unfoldable pub plain_option : List ℕ → Options → Options
unfolding same_name
plain_option arg o =
    if same_name arg (codes "--bytecode")
    then record o { keep_bytecode = true }
    else if same_name arg (codes "-d")
    then record o { dump_bytecode = true }
    else if same_name arg (codes "--quiet")
    then record o { quiet_mode = true }
    else if same_name arg (codes "--run")
    then record o { force_run = true }
    else o

-- What `main` finds outside: a file's bytes by its name, whether a file can be written, whether the
-- stack is given, and `atoi`.
pub record Host : Type 0 where
  pub read_file : List ℕ → Option (List ℕ)
  pub can_write : List ℕ → Bool
  pub has_memory : ℕ → Bool
  pub atoi : List ℕ → ℕ

-- The loop over `argv`: the two options with a value take the next word, where there is one. A name
-- that does not fit into `out_name[256]` overruns it: `none`.
unfoldable pub parse_args : Host → List (List ℕ) → Options → Option Options
unfolding plain_option
parse_args h [] o = some o
parse_args h (arg ∷ []) o = some (plain_option arg o)
parse_args h (arg ∷ value ∷ rest) o =
    let copied = parse_args h rest (record o { out_name = value }) in
    let named = if ltb (length value) 256 then copied else none in
    let sized = parse_args h rest (record o { stack_size = h.atoi value }) in
    let single = parse_args h (value ∷ rest) (plain_option arg o) in
    if same_name arg (codes "-o")
    then named
    else if same_name arg (codes "--stack-size")
    then sized
    else single

-- `dot && strcmp(dot, ".exe") == 0`.
unfoldable pub is_exe : List ℕ → Bool
unfolding last_dot
is_exe filename = elim (last_dot filename) [
  | some i ↦ same_name (drop i filename) (codes ".exe")
  | none ↦ false
]

-- How `main` ends, and what it did: the file written, the file removed, the code run and the number of
-- bytes dumped. `overrun` is no branch of the source: it marks an access past the end of one of its
-- arrays, after which C defines nothing.
pub data Stop : Type 0 where
  usage finished : Stop
  cannot_open cannot_write : List ℕ → Stop
  no_memory : Stop
  compile_error : Diagnostic → Stop
  compile_fault overrun : Stop

pub record Ending : Type 0 where
  pub stop : Stop
  pub wrote : Option (List ℕ × List ℕ)
  pub removed : Option (List ℕ)
  pub ran : Option (List ℕ)
  pub dumped : Option ℕ

abbrev pub nothing_done : Stop → Ending
nothing_done stop = record { stop = stop; wrote = none; removed = none; ran = none; dumped = none }

-- After the code is there: `out_name` is the name of the binary. The dump reads `sz` bytes of `bin`.
unfoldable pub use_code : Host → Options → Bool → List ℕ → ℕ → Option (List ℕ × List ℕ) → Ending
use_code h o is_binary bin sz wrote =
    let dumped = if o.dump_bytecode then some sz else none in
    let used_custom_output = ltb 0 (length o.out_name) in
    let removed =
      if not is_binary && not used_custom_output && not o.keep_bytecode
      then some o.out_name
      else none in
    if o.dump_bytecode && ltb 65536 sz
    then record { stop = overrun; wrote = wrote; removed = none; ran = none; dumped = none }
    else if o.quiet_mode
    then record { stop = finished; wrote = wrote; removed = none; ran = none; dumped = dumped }
    else if h.has_memory o.stack_size
    then record {
      stop = finished;
      wrote = wrote;
      removed = removed;
      ran = some bin;
      dumped = dumped;
    }
    else record { stop = no_memory; wrote = wrote; removed = none; ran = none; dumped = dumped }

-- The name of the binary: that of `-o`, or the source's with the extension `.exe`.
abbrev pub output_name : List ℕ → Options → List ℕ
output_name filename o = if ltb 0 (length o.out_name) then o.out_name else get_bin_name filename

-- The source's name and the one made of it fit into an array of 256 bytes, with the terminator.
abbrev pub name_fits : List ℕ → Bool
name_fits filename = ltb (length filename) 256 && ltb (length (get_bin_name filename)) 256

module _ (fpu : Fpu) (atof : List ℕ → ℕ) where
  -- The branch of a source: `compile` writes into `bin[65536]`, and the name is made in
  -- `out_name[256]`. `error_exit` makes the binary's name in an array of 256 bytes and removes it.
  unfoldable pub compile_file : Host → Options → List ℕ → List ℕ → Ending
  unfolding use_code get_bin_name
  compile_file h o filename src = elim (compile (c_text src) fpu atof) [
    | done code ↦
        let name = output_name filename o in
        let named : Options = record o { out_name = name } in
        let used = use_code h named false code (length code) (some (name, code)) in
        if ltb 65536 (length code)
        then nothing_done overrun
        else if ltb 0 (length o.out_name) || name_fits filename
        then if h.can_write name then used else nothing_done (cannot_write name)
        else nothing_done overrun
    | error d ↦
        if name_fits filename
        then record (nothing_done (compile_error d)) { removed = some (get_bin_name filename) }
        else nothing_done overrun
    | fault ↦ nothing_done compile_fault
    | out_of_fuel ↦ nothing_done compile_fault
  ]

  -- `main`, from the words after the command's own.
  unfoldable pub host_main : Host → List (List ℕ) → Ending
  unfolding parse_args is_exe use_code compile_file
  host_main h [] = nothing_done usage
  host_main h (filename ∷ args) = elim (parse_args h args no_options) [
    | none ↦ nothing_done overrun
    | some o ↦ elim (h.read_file filename) [
      | none ↦ nothing_done (cannot_open filename)
      | some bytes ↦
          if o.force_run || is_exe filename
          then use_code h o true (take 65536 bytes) (length bytes) none
          else compile_file h o filename bytes
    ]
  ]
