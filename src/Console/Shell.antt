-- ===== src/Console/Shell.antt =====
-- src/shell/shell.c. The globals `h`, `m` and `s`, which only `exeCommand` reads, are its own.
use nova64_os.Base.{replicate}
use nova64_os.Base.{
  ℕ, ◌+◌, ◌-◌, ◌*◌, ◌/◌, false, ltb, ◌==◌, if◌then◌else◌, List, [], ◌∷◌, drop, get_or,
}
use nova64_os.Base.Text.{codes}
use nova64_os.Base.Int.{is_zero}
use nova64_os.Bits.{u32, u64}
use nova64_os.Utils.Strings.{String, strcmp, strncmp}
use nova64_os.Utils.Strings.Compare.{c_text}
use nova64_os.Drivers.Rtc.{get_time}
use nova64_os.Drivers.Fat32.{format_to_fat, fat32_find_file_cluster}
use nova64_os.Memory.Heap.{kmalloc}
use nova64_os.Console.{Console, Machine, draw, write, write_int, wipe}

-- The address that `kmalloc` returns is not kept: a buffer's content is an argument here.
abbrev pub allocate : ℕ → Console → Console
allocate size c = record c { heap = (kmalloc size c.heap).1 }

-- `fat32_find_file_cluster` takes its buffer of 512 bytes.
unfoldable pub run_stellar_from_disk : Machine → List ℕ → Console → Console
run_stellar_from_disk m fat_name c =
    let ready = allocate 512 (allocate 1024 (allocate 1024 c)) in
    let cluster = fat32_find_file_cluster m.root_dir fat_name in
    let lba = u32 (m.data_region_start + (cluster - 2) * m.sectors_per_cluster) in
    if ltb cluster 2
    then write (codes "Source file not found.") 0x0C 0 ready.cursor_y ready
    else m.run_source (m.sector lba) ready

-- `print(str, color, 0, cursor_y++)`.
abbrev pub line : List ℕ → Console → Console
line str c =
    let printed = write str 0x0B 0 c.cursor_y c in record printed { cursor_y = c.cursor_y + 1 }

-- `print(title, 0x0B, 0, cursor_y)` and `print(value, 0x07, x, cursor_y++)`.
abbrev pub pair : List ℕ → List ℕ → ℕ → Console → Console
pair title value x c =
    let printed = write value 0x07 x c.cursor_y (write title 0x0B 0 c.cursor_y c) in
    record printed { cursor_y = c.cursor_y + 1 }

abbrev pub skip : Console → Console
skip c = record c { cursor_y = c.cursor_y + 1 }

-- `free_pages * 4 / 1024` as an `int`.
unfoldable pub free_mb : Console → ℕ
free_mb c = u32 (u64 (c.heap.pmm.free_pages * 4) / 1024)

abbrev pub logo : Console → Console
logo c =
    let c1 = line (codes "  _   _                  ") (skip c) in
    let c2 = line (codes " | \\ | |               ") c1 in
    let c3 = line (codes " |  \\| | _____   ____  ") c2 in
    let c4 = line (codes " | . ` |/ _ \\ \\ / / _`| ") c3 in
    let c5 = line (codes " | |\\  | (_) \\ V / (_|| ") c4 in
    line (codes " |_| \\_|\\___/ \\_/ \\__, ") c5

unfoldable pub display_neofetch : Console → Console
unfolding free_mb
display_neofetch c =
    let c1 = pair (codes " OS: ") (codes "Nova64 OS Aurora v0.1.0S") 5 (skip (logo c)) in
    let c2 = pair (codes " KERNEL: ") (codes "x86_64 Monolithic") 9 c1 in
    let c3 = pair (codes " SHELL: ") (codes "NovaBash (shell32)") 8 c2 in
    let c4 = write (codes " MEMORY: ") 0x0B 0 c3.cursor_y c3 in
    let c5 = write_int 128 0x07 9 c4.cursor_y c4 in
    let c6 = write (codes " MB / Free: ") 0x07 13 c5.cursor_y c5 in
    let c7 = write_int (free_mb c6) 0x07 25 c6.cursor_y c6 in
    let c8 = write (codes " MB") 0x07 28 c7.cursor_y c7 in skip c8

-- A number of `print_formatted_time`, with a zero before it where it has one digit.
abbrev pub two_digits : ℕ → ℕ → ℕ → Console → Console
two_digits n x y c =
    if ltb n 10 then write_int n 0xF0 (x + 1) y (draw 0x30 0xF0 x y c) else write_int n 0xF0 x y c

-- Where `x` stands behind it.
abbrev after : ℕ → ℕ → ℕ
after n x = if ltb n 10 then x + 1 + 1 else x + 2

unfoldable pub print_formatted_time : ℕ → ℕ → ℕ → ℕ → ℕ → Console → Console
print_formatted_time hh mm ss x y c =
    let x1 = after hh x in
    let x2 = after mm (x1 + 1) in
    let c1 = draw 0x3A 0xF0 x1 y (two_digits hh x y c) in
    let c2 = draw 0x3A 0xF0 x2 y (two_digits mm (x1 + 1) y c1) in two_digits ss (x2 + 1) y c2

unfoldable pub bashinit : Console → Console
bashinit c =
    let c1 = write (codes "Nova64 Bash") 0x0B 0 0 (wipe c) in
    let c2 = draw 0x24 0x0F 0 1 (draw 0x3E 0x0F 0 1 c1) in
    let c3 = write (c_text c2.user.chars) 0x0F 2 1 c2 in
    let c4 = draw 0x3E 0x0F (c3.user.length + 2) 1 c3 in
    record c4 { cursor_y = 1; cursor_x = c4.user.length + 3 }

-- `time`.
abbrev pub show_time : Machine → Console → Console
show_time m c =
    let now = get_time m.rtc_h m.rtc_m m.rtc_s c.current_tz_offset in
    let zoned = write (c_text c.time_zone.chars) 0x02 0 c.cursor_y c in
    print_formatted_time now.h now.m now.s 14 zoned.cursor_y zoned

-- `free`.
abbrev pub show_free : Console → Console
show_free c =
    let c1 = write (codes "Memory Free: ") 0x0A 0 c.cursor_y c in
    let c2 = write_int (free_mb c1) 0x07 13 c.cursor_y c1 in
    write (codes " MB") 0x07 16 c.cursor_y c2

-- `exit`.
abbrev pub leave : Console → Console
leave c =
    let titled = write (codes "Nova64 OS") 0x0B 0 0 (wipe (record c { shell_active = false })) in
    let offered =
      if titled.config_status == 3
      then titled
      else write (codes "> [1] Start Configuration") 0x0F 0 1 titled in
    let prompted = draw 0x3E 0x02 0 2 offered in record prompted { cursor_x = 2; cursor_y = 2 }

-- `while (*filename == ' ') filename++`.
unfoldable pub skip_blanks : List ℕ → List ℕ
skip_blanks [] = []
skip_blanks (ch ∷ rest) = let later = skip_blanks rest in if ch == 0x20 then later else ch ∷ rest

-- `stellar file`, with the text behind the command. `fat_name` is a local array that is not
-- initialised; `format_to_fat` writes every byte of it.
abbrev pub run_file : Machine → List ℕ → Console → Console
run_file m filename c =
    if get_or filename 0 0 == 0
    then write (codes "Fatal Error: No file specified!") 0x04 0 c.cursor_y c
    else run_stellar_from_disk m (format_to_fat (c_text filename) (replicate 11 0)) c

-- What `reboot` (after a wait for the controller) and `shutdown` of utils/io.c write to ports.
abbrev pub out : ℕ → ℕ → Console → Console
out port value c = record c { ports = (port, value) ∷ c.ports }

-- The branches of `exeCommand`.
pub data Command : Type 0 where
  time cls free exit neofetch restart off run usage unknown : Command

-- The tests of `exeCommand`, in their order.
unfoldable pub parse_command : List ℕ → Command
parse_command key =
    let typed = λ (word : List ℕ). is_zero (strcmp key word) in
    if typed (codes "time")
    then time
    else if typed (codes "cls")
    then cls
    else if typed (codes "free")
    then free
    else if typed (codes "exit")
    then exit
    else if typed (codes "neofetch")
    then neofetch
    else if typed (codes "power --restart")
    then restart
    else if typed (codes "power --off")
    then off
    else if is_zero (strncmp key (codes "stellar ") 8)
    then run
    else if typed (codes "stellar")
    then usage
    else unknown

-- What each branch does, with the line that was typed.
unfoldable pub run_command : Machine → Command → List ℕ → Console → Console
unfolding bashinit print_formatted_time free_mb display_neofetch skip_blanks run_stellar_from_disk
run_command m time key c = show_time m c
run_command m cls key c = bashinit (wipe c)
run_command m free key c = show_free c
run_command m exit key c = leave c
run_command m neofetch key c = display_neofetch c
run_command m restart key c = out 0x64 0xFE c
run_command m off key c = out 0x4004 0x3400 (out 0x604 0x2000 c)
run_command m run key c = run_file m (skip_blanks (drop 8 key)) c
run_command m usage key c = write (codes "Usage: stellar file.ste") 0x0E 0 c.cursor_y c
run_command m unknown key c = write (codes "COMMAND NOT FOUND!") 0x0C 0 c.cursor_y c

unfoldable pub exe_command : Machine → String → Console → Console
unfolding parse_command run_command
exe_command m key_buffer c =
    run_command m (parse_command key_buffer.chars) key_buffer.chars
      (record c { cursor_y = c.cursor_y + 1; cursor_x = 0 })
