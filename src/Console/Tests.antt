-- ===== src/Console/Tests.antt =====
-- A console in the middle of its set-up, and the theorems about it.
use nova64_os.Base.{ℕ, ◌≡◌, refl, arith, true, false, List, [], ◌∷◌, ◌++◌, replicate, All}
use nova64_os.Base.Text.{codes}
use nova64_os.Utils.Strings.{String, strcmp, strncmp}
use nova64_os.Utils.Strings.Laws.{IsString, text}
use nova64_os.Utils.Strings.Copy.{All-c_text}
use nova64_os.Drivers.Rtc.{ahead}
use nova64_os.Memory.Heap.{heap_start}
use nova64_os.Memory.Pmm.Tests.{untouched}
use nova64_os.Console.{Console, Machine}
use nova64_os.Console.Shell.{parse_command, run}
use nova64_os.Console.Keyboard.{keyboard_handler, handle_all}
use nova64_os.Console.Invariant.{IsConsole, Keeps}
use nova64_os.Console.Invariant.Handler.{keyboard_handler-IsConsole}
use nova64_os.Console.Editor.{view, settings, edit_all, IsTyping}
use nova64_os.Console.Editor.Typing.{handle_all-edit_all}
use nova64_os.Console.Dialogue.{answer, dialogue}
use nova64_os.Console.Dialogue.Enter.{enter-answer}
use nova64_os.Console.Dialogue.Leave.{Leaves, handle_all-Leaves}

-- A command with a file.
runs_file : parse_command (codes "stellar demo.ste") ≡ run
unfolding parse_command strcmp strncmp
runs_file = refl

abbrev typed_zone : String
typed_zone = record { chars = codes "GMT-3" ++ replicate 251 0; length = 5 }

typed_zone-IsString : IsString typed_zone
typed_zone-IsString = record {
  sized = refl;
  short = omega arith;
  ended = refl;
  filled = All-c_text (codes "GMT-3");
}

abbrev empty_buffer : String
empty_buffer = record { chars = replicate 256 0; length = 0 }

empty_buffer-IsString : IsString empty_buffer
empty_buffer-IsString = record { sized = refl; short = omega arith; ended = refl; filled = tt }

-- The second question was asked, and a zone is typed.
abbrev asked : Console
asked = record {
  vram = λ b. 0;
  cursor_x = 43;
  cursor_y = 1;
  last_char = 0x33;
  key_pressed_now = true;
  shift_pressed = false;
  shell_active = false;
  config_active = true;
  config_status = 2;
  key_buffer = typed_zone;
  user = empty_buffer;
  time_zone = empty_buffer;
  current_tz_offset = ahead 0;
  heap = record { current = heap_start; mapped_limit = heap_start; pmm = untouched };
  ports = [];
}

asked-IsConsole : IsConsole asked
asked-IsConsole = record {
  typed = typed_zone-IsString;
  named = empty_buffer-IsString;
  zoned = empty_buffer-IsString;
  one_mode = refl;
  staged = (omega arith, omega arith);
  near = omega arith;
  column = omega arith;
}

-- A machine with an empty disk, at noon, whose programs do nothing.
abbrev pub machine : Machine
machine = record {
  rtc_h = 0x12;
  rtc_m = 0;
  rtc_s = 0;
  root_dir = [];
  sector = λ lba. [];
  data_region_start = 32;
  sectors_per_cluster = 1;
  run_source = λ src c. c;
}

pub machine-Keeps : Keeps machine
machine-Keeps = λ src c ok. ok

keyboard_handler-IsConsole_example : IsConsole (keyboard_handler machine 0x1C asked)
keyboard_handler-IsConsole_example =
    keyboard_handler-IsConsole machine 0x1C asked machine-Keeps asked-IsConsole

-- A backspace and a one.
abbrev correction : List ℕ
correction = 0x0E ∷ 0x8E ∷ 0x02 ∷ []

correction-IsTyping : All IsTyping correction
correction-IsTyping = (
  (omega arith, λ e. absurd (omega (arith, e))),
  (
    (omega arith, λ e. absurd (omega (arith, e))),
    ((omega arith, λ e. absurd (omega (arith, e))), tt),
  ),
)

handle_all-edit_all_example :
    IsString (handle_all machine correction asked).key_buffer
    × (view (handle_all machine correction asked) ≡ edit_all correction (view asked))
    × (settings (handle_all machine correction asked) ≡ settings asked)
handle_all-edit_all_example =
    handle_all-edit_all machine correction asked correction-IsTyping typed_zone-IsString

corrected : edit_all correction (view asked) ≡ record { typed = codes "GMT-1"; shift = false }
corrected = refl

enter-answer_example :
    (dialogue (keyboard_handler machine 0x1C asked)
      ≡ answer (text asked.key_buffer) (dialogue asked))
    × (text (keyboard_handler machine 0x1C asked).key_buffer ≡ [])
enter-answer_example = enter-answer machine asked asked-IsConsole refl

handle_all-Leaves_example : Leaves machine asked
handle_all-Leaves_example = handle_all-Leaves machine asked machine-Keeps asked-IsConsole refl
