-- ===== src/Kernel/Running.antt =====
-- What holds from the start of the kernel on.
use nova64_os.Base.{
  ℕ, zero, suc, ◌+◌, ◌-◌, ◌^◌, ◌≤◌, ◌<◌, ◌≡◌, refl, arith, false, leb, ◌==◌, ◌||◌, if_both, List,
  [], ◌∷◌, length, some,
}
use nova64_os.Base.Text.{codes}
use nova64_os.Bits.{u32}
use nova64_os.Utils.Strings.{strlen, string_create}
use nova64_os.Utils.Strings.Laws.{IsString}
use nova64_os.Utils.Strings.Copy.{strcpy_lem}
use nova64_os.Drivers.Screen.{Vram}
use nova64_os.Drivers.Rtc.{get_time}
use nova64_os.Memory.Pmm.{Pmm, used_pages}
use nova64_os.Memory.Pmm.Init.{pmm_init_lem}
use nova64_os.Console.{Console, Machine, draw, write, wipe, clear_buffer}
use nova64_os.Console.Keyboard.{keyboard_handler, handle_all}
use nova64_os.Console.Invariant.{IsConsole, Keeps, moved, clear_buffer-IsConsole}
use nova64_os.Console.Invariant.Commands.{print_formatted_time-IsConsole}
use nova64_os.Console.Invariant.Handler.{keyboard_handler-IsConsole, handle_all-IsConsole}
use nova64_os.Kernel.{
  Bpb, fat32_init, greet, spell, welcome_animation, no_text, at_start, name_texts, open_menu,
  start_up, Screen, main_round, Event, key, round, run_events,
}

no_text-IsString : IsString no_text
no_text-IsString = record { sized = refl; short = omega arith; ended = refl; filled = tt }

at_start-IsConsole : (vram : Vram) (pmm : Pmm) → IsConsole (at_start vram pmm)
at_start-IsConsole vram pmm = record {
  typed = no_text-IsString;
  named = no_text-IsString;
  zoned = no_text-IsString;
  one_mode = refl;
  staged = (omega arith, omega arith);
  near = omega arith;
  column = omega arith;
}

fat32_init-IsConsole : (bpb : Bpb) (c : Console) → IsConsole c → IsConsole (fat32_init bpb c).0
unfolding fat32_init
fat32_init-IsConsole bpb c ok =
    if_both (λ (r : Console × ℕ). IsConsole r.0) (bpb.boot_sig == 0x29 || bpb.boot_sig == 0x28)
      (λ known. ok) (λ unknown. ok)

greet-IsConsole :
    (m : Machine) (during : ℕ → List ℕ) (n i : ℕ) (c : Console)
    → Keeps m
    → IsConsole c
    → IsConsole (greet m during n i c)
unfolding greet
greet-IsConsole m during zero i c keeps ok = ok
greet-IsConsole m during (suc n) i c keeps ok =
    let shown = write (codes "Hello!") (0x09 + i) 37 10 c in
    greet-IsConsole m during n (i + 1) (handle_all m (during i) shown) keeps
      (handle_all-IsConsole m (during i) shown keeps ok)

spell-IsConsole :
    (m : Machine) (during : ℕ → List ℕ) (letters : List ℕ) (i : ℕ) (c : Console)
    → Keeps m
    → IsConsole c
    → IsConsole (spell m during letters i c)
unfolding spell
spell-IsConsole m during [] i c keeps ok = ok
spell-IsConsole m during (letter ∷ rest) i c keeps ok =
    let shown = draw letter (0x09 + i) (37 + i) 10 c in
    spell-IsConsole m during rest (i + 1) (handle_all m (during (6 + i)) shown) keeps
      (handle_all-IsConsole m (during (6 + i)) shown keeps ok)

welcome_animation-IsConsole :
    (m : Machine) (during : ℕ → List ℕ) (c : Console)
    → Keeps m
    → IsConsole c
    → IsConsole (welcome_animation m during c)
unfolding welcome_animation
welcome_animation-IsConsole m during c keeps ok =
    spell-IsConsole m during (codes "Hello!") 0 (wipe (greet m during 6 0 c)) keeps
      (greet-IsConsole m during 6 0 c keeps ok)

string_create-IsString :
    (memory s : List ℕ) → length memory ≡ 256 → strlen s ≤ 254 → IsString (string_create memory s)
unfolding string_create
string_create-IsString memory s sized short =
    (strcpy_lem s (record { chars = memory; length = 0 }) sized short).0

short_texts : (strlen (codes "UNDEFINED USER") ≤ 254) × (strlen (codes "GMT +0") ≤ 254)
unfolding strlen
short_texts = (omega arith, omega arith)

name_texts-IsConsole :
    (memory1 memory2 : List ℕ) (c : Console)
    → length memory1 ≡ 256
    → length memory2 ≡ 256
    → IsConsole c
    → IsConsole (name_texts memory1 memory2 c)
name_texts-IsConsole memory1 memory2 c sized1 sized2 ok = record {
  typed = ok.typed;
  named = string_create-IsString memory1 (codes "UNDEFINED USER") sized1 short_texts.0;
  zoned = string_create-IsString memory2 (codes "GMT +0") sized2 short_texts.1;
  one_mode = ok.one_mode;
  staged = ok.staged;
  near = ok.near;
  column = ok.column;
}

open_menu-IsConsole : (c : Console) → IsConsole c → IsConsole (open_menu c)
open_menu-IsConsole c ok =
    moved (clear_buffer (wipe c)) 2 (clear_buffer-IsConsole (wipe c) ok) (omega arith)

start_up-IsConsole :
    (m : Machine) (during : ℕ → List ℕ) (bpb : Bpb) (kernel_end : ℕ) (vram : Vram)
    (memory1 memory2 : List ℕ)
    → Keeps m
    → 0xFF000 ≤ kernel_end
    → used_pages kernel_end ≤ 32768
    → kernel_end < 2 ^ 63
    → length memory1 ≡ 256
    → length memory2 ≡ 256
    → (c : Console) × (start_up m during bpb kernel_end vram memory1 memory2 ≡ some c) × IsConsole c
unfolding start_up
start_up-IsConsole m during bpb kernel_end vram memory1 memory2 keeps lo fits hi sized1 sized2 =
    let (pmm, result, good, used, count) = pmm_init_lem kernel_end lo fits hi in
    let mounted : Console = (fat32_init bpb (wipe (at_start vram pmm))).0 in
    let woken : Console = handle_all m (during 12) mounted in
    let named : Console = name_texts memory1 memory2 woken in
    let greeted : Console = welcome_animation m during named in
    (
      open_menu greeted,
      rw (result, start_up) refl,
      open_menu-IsConsole greeted (
          welcome_animation-IsConsole m during named keeps (
            name_texts-IsConsole memory1 memory2 woken sized1 sized2 (
              handle_all-IsConsole m (during 12) mounted keeps (
                fat32_init-IsConsole bpb (wipe (at_start vram pmm))
                  (at_start-IsConsole vram pmm))))),
    )

main_round-IsConsole :
    (m : Machine) (timer_ticks : ℕ) (s : Screen)
    → IsConsole s.console
    → IsConsole (main_round m timer_ticks s).console
unfolding main_round
main_round-IsConsole m timer_ticks s ok =
    let now = get_time m.rtc_h m.rtc_m m.rtc_s s.console.current_tz_offset in
    let shown = print_formatted_time-IsConsole now.h now.m now.s 72 24 s.console ok in
    if_both (λ (r : Screen). IsConsole r.console)
      (leb 50 (u32 (timer_ticks + 2 ^ 32 - s.last_blink))) (λ blink. shown) (λ still. shown)

run_events-IsConsole :
    (m : Machine) (events : List Event) (s : Screen)
    → Keeps m
    → IsConsole s.console
    → IsConsole (run_events m events s).console
run_events-IsConsole m [] s keeps ok = ok
run_events-IsConsole m (key scancode ∷ rest) s keeps ok =
    run_events-IsConsole m rest (record s { console = keyboard_handler m scancode s.console }) keeps
      (keyboard_handler-IsConsole m scancode s.console keeps ok)
run_events-IsConsole m (round timer_ticks ∷ rest) s keeps ok =
    run_events-IsConsole m rest (main_round m timer_ticks s) keeps
      (main_round-IsConsole m timer_ticks s ok)

-- A kernel that ends where its pages fit starts up, whatever the disk, the memory of the texts and the
-- keys that come during the animation, and after every sequence of keys and rounds of the loop the
-- console is in order: its three buffers terminated, at most one of the shell and the set-up active,
-- the set-up in one of its stages. The programs that the shell starts are to keep it so.
pub run_events-start_up :
    (m : Machine) (during : ℕ → List ℕ) (bpb : Bpb) (kernel_end : ℕ) (vram : Vram)
    (memory1 memory2 : List ℕ) (events : List Event)
    → Keeps m
    → 0xFF000 ≤ kernel_end
    → used_pages kernel_end ≤ 32768
    → kernel_end < 2 ^ 63
    → length memory1 ≡ 256
    → length memory2 ≡ 256
    → (c : Console) × (start_up m during bpb kernel_end vram memory1 memory2 ≡ some c)
      × IsConsole
          (run_events m events
            (record { console = c; cursor_visible = false; last_blink = 0 })).console
run_events-start_up m during bpb kernel_end vram memory1 memory2 events keeps lo fits hi sized1
      sized2 =
    let (c, started, ok) =
      start_up-IsConsole m during bpb kernel_end vram memory1 memory2 keeps lo fits hi sized1
        sized2 in
    (
      c,
      started,
      run_events-IsConsole m events (record { console = c; cursor_visible = false; last_blink = 0 })
          keeps ok,
    )
