-- ===== src/Tools/Host/Tests.antt =====
-- `stellar a.ste --bytecode -o b` on a program of one declaration.
use nova64_os.Base.{replicate}
use nova64_os.Base.{ℕ, ◌≡◌, refl, true, List, [], ◌∷◌, none, some}
use nova64_os.Base.Text.{codes}
use nova64_os.Stellar.Vm.Tests.{toy}
use nova64_os.Stellar.Compiler.Tests.{toy_atof, one_let}
use nova64_os.Stellar.Errors.Report.{get_bin_name}
use nova64_os.Tools.Host.{
  Options, no_options, parse_args, is_exe, Host, use_code, compile_file, host_main,
}
use nova64_os.Stellar.Compiler.Loop.{compile}
use nova64_os.Stellar.Compiler.State.{pending}
use nova64_os.Stellar.Opcode.{opcode}
use nova64_os.Tools.Host.Output.{Builds, Uses, host_main-output}

-- A host with one file, which may write everywhere.
abbrev host : Host
host = record {
  read_file = λ name. some one_let;
  can_write = λ name. true;
  has_memory = λ size. true;
  atoi = λ text. 8192;
}

abbrev source_name : List ℕ
source_name = codes "a.ste"

abbrev words : List (List ℕ)
words = codes "--bytecode" ∷ codes "-o" ∷ codes "b" ∷ []

abbrev options : Options
options = record no_options { keep_bytecode = true; out_name = codes "b" }

options_parsed : parse_args host words no_options ≡ some options
unfolding parse_args
options_parsed = refl

abbrev code : List ℕ
code = 1 ∷ 7 ∷ 0 ∷ 0 ∷ 0 ∷ 0 ∷ 0 ∷ 0 ∷ 0 ∷ 7 ∷ 0 ∷ 0 ∷ []

b_written : (host_main toy toy_atof host (source_name ∷ words)).wrote ≡ some (codes "b", code)
unfolding host_main parse_args is_exe compile_file use_code compile opcode pending
b_written = refl

host_main-output_example :
    (o : Options) × Builds toy toy_atof host (source_name ∷ words) o (codes "b") code
    × Uses host o code (host_main toy toy_atof host (source_name ∷ words))
host_main-output_example =
    host_main-output toy toy_atof host (source_name ∷ words) (codes "b") code b_written

-- A name of 256 characters does not fit.
too_long : parse_args host (codes "-o" ∷ replicate 256 0x61 ∷ []) no_options ≡ none
unfolding parse_args
too_long = refl

-- A dot in the path and none in the name: the path is cut there.
path_cut : get_bin_name (codes "./prog") ≡ codes ".exe"
unfolding get_bin_name
path_cut = refl
