-- ===== src/Console/Invariant.antt =====
-- What holds of the console between two keys, and that the steps of src/utils/config.c keep it.
pub mod Commands
pub mod Handler
use nova64_os.Base.{
  ℕ, zero, suc, ◌+◌, ◌-◌, ◌*◌, ◌≤◌, ◌<◌, ◌≡◌, ◌≢◌, refl, arith, ap, sym, ◌∙◌, subst, Bool, true,
  false, ltb, ltb→lt, leb, ◌==◌, ◌&&◌, not, if◌then◌else◌, if_both, List, [], ◌∷◌, All, length,
  Bool-cases, inl, inr, bit_and, drop, get_or,
}
use nova64_os.Base.Text.{codes}
use nova64_os.Base.Int.{is_zero}
use nova64_os.Utils.Strings.{String, strncmp, strlen, strcmp, string_clear, string_append}
use nova64_os.Utils.Strings.Laws.{IsString, strlen-text, string_append_lem}
use nova64_os.Utils.Strings.Compare.{c_text}
use nova64_os.Utils.Strings.Copy.{strcpy_lem, string_clear-IsString}
use nova64_os.Drivers.Rtc.{get_time, Offset, ahead, behind, magnitude}
use nova64_os.Console.{Console, Machine, write, wipe, key_is, clear_buffer, draw}
use nova64_os.Console.Config.{
  TimeZone, tz_table, store, update_tz_from, update_tz_by_name, update_user, start_config,
}
use nova64_os.Drivers.Fat32.{format_to_fat, fat32_find_file_cluster}
use nova64_os.Console.Shell.{
  skip_blanks, Command, time, cls, free, exit, neofetch, restart, off, run, usage, unknown,
  run_command, parse_command, two_digits, leave, run_stellar_from_disk, display_neofetch,
  print_formatted_time, bashinit, exe_command,
}
use nova64_os.Console.Keyboard.{
  is_shift, enter, erase_last, backspace, insert, on_char, key_char, keyboard_handler, bar, prompt,
  run_line, leave_config, hint,
}
use nova64_os.Console.Keys.{erase_last_lem}

-- The buffers are terminated, the shell and the dialogue are not both active, the dialogue is in one
-- of its three stages, the offset is at most twelve hours, and the cursor is not further right than
-- behind the prompt of the longest name.
pub record Good (key user zone : String) (shell config : Bool) (status : ℕ) (offset : Offset)
    (x : ℕ) : Type 0 where
  pub typed : IsString key
  pub named : IsString user
  pub zoned : IsString zone
  pub one_mode : (shell && config) ≡ false
  pub staged : (1 ≤ status) × (status ≤ 3)
  pub near : magnitude offset ≤ 12
  pub column : x ≤ 257

abbrev pub IsConsole : Console → Type 0
IsConsole c =
    Good c.key_buffer c.user c.time_zone c.shell_active c.config_active c.config_status
      c.current_tz_offset c.cursor_x

-- Programs that the shell starts keep the console.
abbrev pub Keeps : Machine → Type 0
Keeps m = (src : List ℕ) (c : Console) → IsConsole c → IsConsole (m.run_source src c)

abbrev AtColumn : (c : Console) (x : ℕ) → Type 0
AtColumn c x =
    Good c.key_buffer c.user c.time_zone c.shell_active c.config_active c.config_status
      c.current_tz_offset x

pub moved : (c : Console) (x : ℕ) → IsConsole c → x ≤ 257 → AtColumn c x
moved c x ok near = record {
  typed = ok.typed;
  named = ok.named;
  zoned = ok.zoned;
  one_mode = ok.one_mode;
  staged = ok.staged;
  near = ok.near;
  column = near;
}

pub clear_buffer-IsConsole : (c : Console) → IsConsole c → IsConsole (clear_buffer c)
clear_buffer-IsConsole c ok = record {
  typed = (string_clear-IsString c.key_buffer ok.typed.sized).0;
  named = ok.named;
  zoned = ok.zoned;
  one_mode = ok.one_mode;
  staged = ok.staged;
  near = ok.near;
  column = ok.column;
}

pub start_config-IsConsole : (c : Console) → IsConsole c → IsConsole (start_config c)
unfolding start_config
start_config-IsConsole c ok =
    if_both IsConsole (c.config_status == 1) (λ one. moved c 22 ok (omega arith))
      (λ other.
        if_both IsConsole (c.config_status == 2) (λ two. moved c 38 ok (omega arith))
          (λ more.
            if_both IsConsole (c.config_status == 3) (λ three. moved c 22 ok (omega arith))
              (λ none. ok)))

pub update_user-IsConsole :
    (c : Console) → IsConsole c → IsConsole (update_user c.key_buffer.chars c)
unfolding update_user
update_user-IsConsole c ok =
    let measured =
      strlen-text c.key_buffer.chars c.key_buffer.length ok.typed.filled ok.typed.ended in
    record {
      typed = ok.typed;
      named =
          (strcpy_lem c.key_buffer.chars c.user ok.named.sized
            (omega (arith, measured, ok.typed.short))).0;
      zoned = ok.zoned;
      one_mode = ok.one_mode;
      staged = (omega arith, omega arith);
      near = ok.near;
      column = ok.column;
    }

-- A row of the table: a short name and an offset of at most twelve hours.
abbrev pub IsZone : TimeZone → Type 0
IsZone tz = (strlen tz.name ≤ 254) × (magnitude tz.offset ≤ 12)

update_tz_from-IsConsole :
    (zones : List TimeZone) (name : List ℕ) (c : Console)
    → All IsZone zones
    → IsConsole c
    → IsConsole (update_tz_from zones name c)
unfolding update_tz_from
update_tz_from-IsConsole [] name c rows ok = ok
update_tz_from-IsConsole (tz ∷ zones) name c ((short, near), rows) ok =
    if_both IsConsole (is_zero (strcmp name tz.name))
      (λ same. record {
        typed = ok.typed;
        named = ok.named;
        zoned = (strcpy_lem tz.name c.time_zone ok.zoned.sized short).0;
        one_mode = ok.one_mode;
        staged = (omega arith, omega arith);
        near = near;
        column = ok.column;
      })
      (λ other. update_tz_from-IsConsole zones name c rows ok)

-- Every row is one.
check_zones : List TimeZone → Bool
check_zones [] = true
check_zones (tz ∷ zones) =
    leb (strlen tz.name) 254 && leb (magnitude tz.offset) 12 && check_zones zones

check_zones_lem : (zones : List TimeZone) → check_zones zones ≡ true → All IsZone zones
unfolding check_zones
check_zones_lem [] h = tt
check_zones_lem (tz ∷ zones) h =
    ((ground arith, ground arith), check_zones_lem zones (ground arith))

all_zones : check_zones tz_table ≡ true
unfolding check_zones strlen
all_zones = refl

pub tz_table-IsZone : All IsZone tz_table
tz_table-IsZone = check_zones_lem tz_table all_zones

pub update_tz_by_name-IsConsole :
    (name : List ℕ) (c : Console) → IsConsole c → IsConsole (update_tz_by_name name c)
unfolding update_tz_by_name
update_tz_by_name-IsConsole name c ok = update_tz_from-IsConsole tz_table name c tz_table-IsZone ok

pub bashinit-IsConsole : (c : Console) → IsConsole c → IsConsole (bashinit c)
unfolding bashinit
bashinit-IsConsole c ok = moved c (c.user.length + 3) ok (omega (arith, ok.named.short))
