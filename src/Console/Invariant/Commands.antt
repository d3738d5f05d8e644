-- ===== src/Console/Invariant/Commands.antt =====
-- The commands of src/shell/shell.c keep the console.
use nova64_os.Base.{replicate}
use nova64_os.Base.{
  ℕ, ◌+◌, refl, arith, false, ltb, ◌==◌, if_both, List, Bool-cases, inl, inr, drop, get_or,
}
use nova64_os.Utils.Strings.{String}
use nova64_os.Utils.Strings.Compare.{c_text}
use nova64_os.Drivers.Rtc.{get_time}
use nova64_os.Console.{Console, Machine, write, wipe}
use nova64_os.Drivers.Fat32.{format_to_fat, fat32_find_file_cluster}
use nova64_os.Console.Shell.{
  skip_blanks, Command, time, cls, free, exit, neofetch, restart, off, run, usage, unknown,
  run_command, parse_command, two_digits, leave, run_stellar_from_disk, display_neofetch,
  print_formatted_time, exe_command,
}
use nova64_os.Console.Invariant.{IsConsole, Keeps, Good, moved, bashinit-IsConsole}

two_digits-IsConsole : (n x y : ℕ) (c : Console) → IsConsole c → IsConsole (two_digits n x y c)
two_digits-IsConsole n x y c ok = if_both IsConsole (ltb n 10) (λ one. ok) (λ two. ok)

pub print_formatted_time-IsConsole :
    (hh mm ss x y : ℕ) (c : Console) → IsConsole c → IsConsole (print_formatted_time hh mm ss x y c)
unfolding print_formatted_time
print_formatted_time-IsConsole hh mm ss x y c ok =
    two_digits-IsConsole ss _ y _ (two_digits-IsConsole mm _ y _ (two_digits-IsConsole hh x y c ok))

run_stellar_from_disk-IsConsole :
    (m : Machine) (name : List ℕ) (c : Console)
    → Keeps m
    → IsConsole c
    → IsConsole (run_stellar_from_disk m name c)
unfolding run_stellar_from_disk
run_stellar_from_disk-IsConsole m name c keeps ok =
    if_both IsConsole (ltb (fat32_find_file_cluster m.root_dir name) 2) (λ none. ok)
      (λ found. keeps _ _ ok)

-- `exit` makes the console that of the system again.
leave-IsConsole : (c : Console) → IsConsole c → IsConsole (leave c)
leave-IsConsole c ok = elim (Bool-cases (c.config_status == 3)) [
  | inl done ↦ rw done at_prompt
  | inr more ↦ rw more at_prompt
]
  where
    at_prompt :
        Good c.key_buffer c.user c.time_zone false c.config_active c.config_status
          c.current_tz_offset 2
    at_prompt = record {
      typed = ok.typed;
      named = ok.named;
      zoned = ok.zoned;
      one_mode = refl;
      staged = ok.staged;
      near = ok.near;
      column = omega arith;
    }

run_command-IsConsole :
    (m : Machine) (cmd : Command) (key : List ℕ) (c : Console)
    → Keeps m
    → IsConsole c
    → IsConsole (run_command m cmd key c)
unfolding run_command display_neofetch
run_command-IsConsole m time key c keeps ok =
    let now = get_time m.rtc_h m.rtc_m m.rtc_s c.current_tz_offset in
    print_formatted_time-IsConsole now.h now.m now.s 14 c.cursor_y
      (write (c_text c.time_zone.chars) 0x02 0 c.cursor_y c) ok
run_command-IsConsole m cls key c keeps ok = bashinit-IsConsole (wipe c) ok
run_command-IsConsole m free key c keeps ok = ok
run_command-IsConsole m exit key c keeps ok = leave-IsConsole c ok
run_command-IsConsole m neofetch key c keeps ok = ok
run_command-IsConsole m restart key c keeps ok = ok
run_command-IsConsole m off key c keeps ok = ok
run_command-IsConsole m run key c keeps ok =
    let file = skip_blanks (drop 8 key) in
    if_both IsConsole (get_or file 0 0 == 0) (λ none. ok)
      (λ some.
        run_stellar_from_disk-IsConsole m (format_to_fat (c_text file) (replicate 11 0)) c keeps ok)
run_command-IsConsole m usage key c keeps ok = ok
run_command-IsConsole m unknown key c keeps ok = ok

pub exe_command-IsConsole :
    (m : Machine) (key : String) (c : Console)
    → Keeps m
    → IsConsole c
    → IsConsole (exe_command m key c)
unfolding exe_command
exe_command-IsConsole m key c keeps ok =
    run_command-IsConsole m (parse_command key.chars) key.chars
      (record c { cursor_y = c.cursor_y + 1; cursor_x = 0 }) keeps (moved c 0 ok (omega arith))
