-- ===== src/Kernel/Tests.antt =====
-- A start with a kernel that ends at 0x110000.
use nova64_os.Base.{
  ℕ, ◌≤◌, ◌≡◌, refl, arith, true, false, List, [], ◌∷◌, replicate, length-replicate, some,
}
use nova64_os.Memory.Pmm.{used_pages, Pmm}
use nova64_os.Utils.Strings.{strcmp}
use nova64_os.Console.Tests.{machine, machine-Keeps}
use nova64_os.Console.{Console}
use nova64_os.Console.Invariant.{IsConsole}
use nova64_os.Console.Keyboard.{handle_all, keyboard_handler}
use nova64_os.Kernel.{Bpb, open_menu, at_start, start_up, Screen, Event, key, round, run_events}
use nova64_os.Kernel.Running.{run_events-start_up}

abbrev disk : Bpb
disk = record {
  sectors_per_cluster = 1;
  reserved_sectors = 32;
  fat_count = 2;
  fat_size_32 = 100;
  boot_sig = 0x29;
}

-- No key during the animation.
abbrev silence : ℕ → List ℕ
silence i = []

abbrev zeros : List ℕ
zeros = replicate 256 0

-- A tick, a letter typed, and a second round.
abbrev events : List Event
events = round 60 ∷ key 0x1E ∷ key 0x9E ∷ round 61 ∷ []

abbrev before_loop : Console → Screen
before_loop c = record { console = c; cursor_visible = false; last_blink = 0 }

pages_fit : used_pages 0x110000 ≤ 32768
unfolding used_pages
pages_fit = omega arith

run_events-start_up_example :
    (c : Console) × (start_up machine silence disk 0x110000 (λ b. 0) zeros zeros ≡ some c)
    × IsConsole (run_events machine events (before_loop c)).console
run_events-start_up_example =
    run_events-start_up machine silence disk 0x110000 (λ b. 0) zeros zeros events machine-Keeps
      (omega arith) pages_fit (omega arith) (length-replicate {A = ℕ} 256 0)
      (length-replicate {A = ℕ} 256 0)

-- `1` and Enter while the kernel still greets: the menu is drawn, and the set-up is active behind it.
early_keys :
    (pmm : Pmm)
    → (open_menu (handle_all machine (0x02 ∷ 0x1C ∷ []) (at_start (λ b. 0) pmm))).config_active
      ≡ true
unfolding keyboard_handler strcmp
early_keys pmm = refl
