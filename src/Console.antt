-- ===== src/Console.antt =====
-- The console: what the keyboard handler, the shell and the set-up dialogue share, which the sources
-- keep in globals of src/kernel/kernel.c, src/drivers/keyboard/kbdriver.c,
-- src/drivers/VGA/videodriver.c and src/utils/config.c.
pub mod Config
pub mod Shell
pub mod Keyboard
pub mod Keys
pub mod Invariant
pub mod Editor
pub mod Dialogue
pub mod Tests
use nova64_os.Base.{ℕ, Bool, ◌≡◌, true, List}
use nova64_os.Base.Int.{is_zero}
use nova64_os.Utils.Strings.{String, strcmp, string_clear}
use nova64_os.Drivers.Screen.{Vram, putc, print, print_int, clear_screen}
use nova64_os.Drivers.Rtc.{Offset}
use nova64_os.Drivers.Fat32.{DirEntry}
use nova64_os.Memory.Heap.{Heap}

-- `ports` is what was written to the ports by `reboot` and `shutdown`, the last write first.
pub record Console : Type 0 where
  pub vram : Vram
  pub cursor_x : ℕ
  pub cursor_y : ℕ
  pub last_char : ℕ
  pub key_pressed_now : Bool
  pub shift_pressed : Bool
  pub shell_active : Bool
  pub config_active : Bool
  pub config_status : ℕ
  pub key_buffer : String
  pub user : String
  pub time_zone : String
  pub current_tz_offset : Offset
  pub heap : Heap
  pub ports : List (ℕ × ℕ)

-- What the console meets outside the sources: the registers of the clock, the sectors of the disk
-- (`sector lba` is the memory from the buffer on, after the read), the values that the boot sector
-- gave, and `stellar_compile`, `stellar_init` and `stellar_run`, which no file defines, as one step.
pub record Machine : Type 0 where
  pub rtc_h : ℕ
  pub rtc_m : ℕ
  pub rtc_s : ℕ
  pub root_dir : List DirEntry
  pub sector : ℕ → List ℕ
  pub data_region_start : ℕ
  pub sectors_per_cluster : ℕ
  pub run_source : List ℕ → Console → Console

abbrev pub draw : ℕ → ℕ → ℕ → ℕ → Console → Console
draw letter color x y c = record c { vram = putc letter color x y c.vram }

abbrev pub write : List ℕ → ℕ → ℕ → ℕ → Console → Console
write str color x y c = record c { vram = print str color x y c.vram }

abbrev pub write_int : ℕ → ℕ → ℕ → ℕ → Console → Console
write_int n color x y c = record c { vram = print_int n color x y c.vram }

abbrev pub wipe : Console → Console
wipe c = record c { vram = clear_screen c.vram }

-- `strcmp(key_buffer.data, word) == 0`.
abbrev pub key_is : List ℕ → Console → Bool
key_is word c = is_zero (strcmp c.key_buffer.chars word)

abbrev pub clear_buffer : Console → Console
clear_buffer c = record c { key_buffer = string_clear c.key_buffer }
