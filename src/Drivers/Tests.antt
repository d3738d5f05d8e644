-- ===== src/Drivers/Tests.antt =====
-- The clock and the names of files on concrete values.
use nova64_os.Base.{◌⊎◌}
use nova64_os.Base.{
  some, drop, replicate, length-replicate, ◌||◌, ◌/◌, ℕ, ◌+◌, ◌%◌, ◌≡◌, refl, arith, List, [], ◌∷◌,
  ◌++◌, map, get_or, ◌==◌, if◌then◌else◌,
}
use nova64_os.Drivers.Disk.{Disk}
use nova64_os.Drivers.Timer.{Interrupt, timer, keyboard, ticks, sleep, sleep_lem}
use nova64_os.Drivers.Interrupts.{Gate, address, empty_gate, idt_init, idt_init_lem}
use nova64_os.Drivers.Rtc.{get_time, get_time_lem, to_bcd, behind, hours}
use nova64_os.Drivers.Fat32.{format_to_fat, DirEntry, fat32_find_file_cluster}
use nova64_os.Drivers.Fat32.Names.{capital, padded, before_dot, behind_dot, format_to_fat_lem}
use nova64_os.Drivers.Fat32.Search.{Finds, Misses, fat32_find_file_cluster_lem}

-- 01:30:59 three hours behind is 22:30:59 of the day before.
get_time_lem_example :
    get_time (to_bcd 1) (to_bcd 30) (to_bcd 59) (behind 3)
    ≡ record { h = (1 + hours (behind 3)) % 24; m = 30; s = 59 }
get_time_lem_example =
    get_time_lem 1 30 59 (behind 3) (omega arith) (omega arith) (omega arith) (omega arith)

-- "boot.st"
abbrev boot_st : List ℕ
boot_st = 0x62 ∷ 0x6F ∷ 0x6F ∷ 0x74 ∷ 0x2E ∷ 0x73 ∷ 0x74 ∷ []

-- "BOOT    ST "
abbrev boot_name : List ℕ
boot_name = 0x42 ∷ 0x4F ∷ 0x4F ∷ 0x54 ∷ 0x20 ∷ 0x20 ∷ 0x20 ∷ 0x20 ∷ 0x53 ∷ 0x54 ∷ 0x20 ∷ []

-- Two bytes more than the name needs.
abbrev memory : List ℕ
memory = replicate 13 0xCC

boot_formatted : format_to_fat boot_st memory ≡ boot_name ++ (0xCC ∷ 0xCC ∷ [])
unfolding format_to_fat
boot_formatted = refl

format_to_fat_lem_example :
    format_to_fat boot_st memory
    ≡ padded 8 (map capital (before_dot boot_st))
      ++ (padded 3 (map capital (behind_dot boot_st)) ++ drop 11 memory)
format_to_fat_lem_example = format_to_fat_lem boot_st memory (omega arith)

abbrev kernel_entry : DirEntry
kernel_entry = record { name = 0x4B ∷ drop 1 boot_name; cluster_high = 0; cluster_low = 7 }

abbrev boot_entry : DirEntry
boot_entry = record { name = boot_name; cluster_high = 1; cluster_low = 9 }

abbrev root_dir : List DirEntry
root_dir = kernel_entry ∷ boot_entry ∷ []

boot_found : fat32_find_file_cluster root_dir boot_name ≡ 0x10009
unfolding fat32_find_file_cluster
boot_found = refl

fat32_find_file_cluster_lem_example :
    Finds 16 root_dir boot_name (fat32_find_file_cluster root_dir boot_name)
    ⊎ Misses 16 root_dir boot_name (fat32_find_file_cluster root_dir boot_name)
fat32_find_file_cluster_lem_example =
    fat32_find_file_cluster_lem root_dir boot_name ((refl, omega arith), ((refl, omega arith), tt))
      refl

-- A key between two ticks, and one tick more than 20 ms need.
abbrev interrupts : List Interrupt
interrupts = timer ∷ keyboard ∷ timer ∷ timer ∷ []

sleep_lem_example :
    (rest : List Interrupt) × (sleep 20 7 interrupts ≡ some (7 + 20 / 10, rest))
    × (ticks interrupts ≡ ticks rest + 20 / 10)
sleep_lem_example = sleep_lem 20 7 interrupts (omega arith) (omega arith)

-- At the end of its range the counter is past the wrapped target: no wait.
no_sleep : sleep 20 0xFFFFFFFF interrupts ≡ some (0xFFFFFFFF, interrupts)
unfolding sleep
no_sleep = refl

abbrev old_table : List Gate
old_table = replicate 256 empty_gate

idt_init_lem_example :
    let g : Gate = get_or (idt_init 0x100200 0x100300 old_table).0 33 empty_gate in
    (address g ≡ (if 33 == 32 then 0x100200 else if 33 == 33 then 0x100300 else 0))
    × (g.flags ≡ (if 33 == 32 || 33 == 33 then 0x8E else 0))
idt_init_lem_example =
    idt_init_lem 0x100200 0x100300 old_table 33 (omega arith) (omega arith)
      (length-replicate 256 empty_gate) (omega arith)

-- A disk that is busy once, then serves one sector of 256 words.
abbrev disk : Disk
disk = record {
  status = 0x80 ∷ 0x50 ∷ 0x50 ∷ 0x50 ∷ 0x58 ∷ [];
  words = replicate 256 0xAA55;
  written = [];
}
