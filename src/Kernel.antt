-- ===== src/Kernel.antt =====
-- `main` of src/kernel/kernel.c with `fat32_init` of src/fs/fat32.c and src/animations/animations.c.
-- Keys may come as soon as interrupts are on: `during i` are those that come in the i-th wait.
pub mod Running
mod Tests
use nova64_os.Base.{
  ℕ, zero, suc, ◌+◌, ◌-◌, ◌*◌, ◌/◌, ◌%◌, ◌^◌, Bool, true, false, leb, ◌==◌, ◌||◌, not,
  if◌then◌else◌, List, [], ◌∷◌, replicate, Option, none, some,
}
use nova64_os.Base.Text.{codes}
use nova64_os.Bits.{u32}
use nova64_os.Utils.Strings.{String, string_create}
use nova64_os.Drivers.Screen.{Vram, draw_cursor}
use nova64_os.Drivers.Rtc.{get_time, ahead}
use nova64_os.Memory.Pmm.{Pmm, pmm_init, pmm_alloc_page}
use nova64_os.Memory.Heap.{Heap, heap_start, kmalloc}
use nova64_os.Console.{Console, Machine, draw, write, wipe, clear_buffer}
use nova64_os.Console.Shell.{allocate, print_formatted_time}
use nova64_os.Console.Keyboard.{keyboard_handler, handle_all}

-- The fields of the boot sector that the sources read.
pub record Bpb : Type 0 where
  pub sectors_per_cluster : ℕ
  pub reserved_sectors : ℕ
  pub fat_count : ℕ
  pub fat_size_32 : ℕ
  pub boot_sig : ℕ

-- The console, and `data_region_start`, which is 0 before.
unfoldable pub fat32_init : Bpb → Console → Console × ℕ
fat32_init bpb c =
    let ready = allocate 512 c in
    let failed = write (codes "FAT32: Error - Invalid Signature") 0x0C 0 ready.cursor_y ready in
    if bpb.boot_sig == 0x29 || bpb.boot_sig == 0x28
    then (ready, u32 (bpb.reserved_sectors + u32 (bpb.fat_count * bpb.fat_size_32)))
    else (record failed { cursor_y = failed.cursor_y + 1 }, 0)

-- The first loop of `welcome_animation`, with the rounds left.
unfoldable pub greet : Machine → (ℕ → List ℕ) → ℕ → ℕ → Console → Console
greet m during zero i c = c
greet m during (suc n) i c =
    greet m during n (i + 1) (handle_all m (during i) (write (codes "Hello!") (0x09 + i) 37 10 c))

-- The letters one by one, each with its colour and its wait.
unfoldable pub spell : Machine → (ℕ → List ℕ) → List ℕ → ℕ → Console → Console
spell m during [] i c = c
spell m during (letter ∷ rest) i c =
    spell m during rest (i + 1)
      (handle_all m (during (6 + i)) (draw letter (0x09 + i) (37 + i) 10 c))

unfoldable pub welcome_animation : Machine → (ℕ → List ℕ) → Console → Console
unfolding greet spell
welcome_animation m during c = spell m during (codes "Hello!") 0 (wipe (greet m during 6 0 c))

-- A `String` before anything was written to it.
abbrev pub no_text : String
no_text = record { chars = replicate 256 0; length = 0 }

-- The globals after the first lines of `main`.
abbrev pub at_start : Vram → Pmm → Console
at_start vram pmm = record {
  vram = vram;
  cursor_x = 0;
  cursor_y = 0;
  last_char = 0;
  key_pressed_now = false;
  shift_pressed = false;
  shell_active = false;
  config_active = false;
  config_status = 1;
  key_buffer = no_text;
  user = no_text;
  time_zone = no_text;
  current_tz_offset = ahead 0;
  heap = record { current = heap_start; mapped_limit = heap_start; pmm = pmm };
  ports = [];
}

-- `string_create` of the two texts, from memory of any content.
abbrev pub name_texts : List ℕ → List ℕ → Console → Console
name_texts memory1 memory2 c = record c {
  user = string_create memory1 (codes "UNDEFINED USER");
  time_zone = string_create memory2 (codes "GMT +0");
}

-- From `keyboard_init` to the loop.
abbrev pub open_menu : Console → Console
open_menu c =
    let cleared = clear_buffer (wipe c) in
    let c1 = write (codes "Nova64 OS") 0x0B 0 0 cleared in
    let c2 = write (codes "> [1] Start Configuration") 0x0F 0 1 c1 in
    let c3 = draw 0x3E 0x02 0 2 c2 in
    let heap = record c3.heap { pmm = (pmm_alloc_page c3.heap.pmm).1 } in
    record c3 { cursor_x = 2; cursor_y = 2; heap = heap }

-- `main` up to its loop, at the end of the kernel, from the content of the screen and of the memory of
-- the two texts. The keys of `during 12` come right after `sti`.
unfoldable pub start_up : Machine → (ℕ → List ℕ) → Bpb → ℕ → Vram → List ℕ → List ℕ → Option Console
unfolding fat32_init welcome_animation
start_up m during bpb kernel_end vram memory1 memory2 = elim (pmm_init kernel_end) [
  | none ↦ none
  | some pmm ↦
      let (mounted, data_region_start) = fat32_init bpb (wipe (at_start vram pmm)) in
      some (
        open_menu (
          welcome_animation m during
            (name_texts memory1 memory2 (handle_all m (during 12) mounted))))
]

-- The loop's own variables.
pub record Screen : Type 0 where
  pub console : Console
  pub cursor_visible : Bool
  pub last_blink : ℕ

-- One round of the loop, with the counter of the timer.
unfoldable pub main_round : Machine → ℕ → Screen → Screen
main_round m timer_ticks s =
    let c = s.console in
    let now = get_time m.rtc_h m.rtc_m m.rtc_s c.current_tz_offset in
    let shown = print_formatted_time now.h now.m now.s 72 24 c in
    let visible = not s.cursor_visible in
    let drawn = draw_cursor shown.cursor_x shown.cursor_y visible shown.vram in
    if leb 50 (u32 (timer_ticks + 2 ^ 32 - s.last_blink))
    then record {
      console = record shown { vram = drawn };
      cursor_visible = visible;
      last_blink = timer_ticks;
    }
    else record s { console = shown }

-- What wakes the loop: a key, or a tick after which it goes round.
pub data Event : Type 0 where
  key round : ℕ → Event

abbrev pub run_events : Machine → List Event → Screen → Screen
run_events m [] s = s
run_events m (key scancode ∷ rest) s =
    run_events m rest (record s { console = keyboard_handler m scancode s.console })
run_events m (round timer_ticks ∷ rest) s = run_events m rest (main_round m timer_ticks s)
