-- ===== src/Lib.antt =====
-- Verification of Nova64_OS, a hobby x86_64 kernel in C with a language of its own, Stellar.
--
-- Parts modelled, and where:
--   src/tools/encrypt.c    Tools: `Salt`, `Kdf`, `Cipher` and `Mac` are stellar_generate_salt,
--                          stellar_derive_key, stellar_stream_cipher and stellar_compute_mac;
--                          `Container` is the file format, stellar_encrypt, stellar_decrypt and
--                          stellar_is_encrypted.
--   src/utils/pmm.c        Memory.Pmm: the bitmap of pages, pmm_init and pmm_alloc_page.
--   src/utils/malloc.c     Memory.Heap: kmalloc, which takes its pages from pmm_alloc_page.
--   src/stellar/stellar.c  Stellar.Vm and Stellar.Vm.Exec: vm_init and vm_run, each label of the
--                          dispatch table a clause of `exec`. Stellar.Opcode is the opcodes of
--                          include/stellar/stellar.h with the table.
--   src/stellar/stellar_compiler.c
--                          Stellar.Compiler: `Scan` reads the text (match and the ctype tests),
--                          `Symbols` is the symbol table, `State` the local variables of compile,
--                          `Scopes`, `Statements` and `Names` its branches, `Loop` the choice among
--                          them and the loop. Its code is what `Stellar.Vm` runs; `Encoding` relates
--                          what one writes and the other reads.
--   src/stellar/stellar_errors.c
--                          Stellar.Errors: is_similar, by which compile suggests a name; `Report` is
--                          error_exit.
--   src/tools/host_open.c  Tools.Host: the options and main of the command `stellar`, which compiles
--                          by `Stellar.Compiler`.
--   src/drivers/RTC/rtcdriver.c
--                          Drivers.Rtc: get_time, from the bytes of the clock's registers.
--   src/fs/fat32.c         Drivers.Fat32: format_to_fat, stellar_name_check and
--                          fat32_find_file_cluster, over the sixteen entries of the sector that is read.
--                          fat32_init is in `Kernel`.
--   src/utils/string.c     Utils.Strings: every function; `Atof` is atof.
--   src/drivers/VGA/videodriver.c
--                          Drivers.Screen: the memory of the screen as a function, and the numbers
--                          that are printed.
--   src/drivers/timer/pit.c
--                          Drivers.Timer: the counter and `sleep`, over a sequence of interrupts.
--   src/drivers/disk/ata.c Drivers.Disk: read_sectors, over what the ports give.
--   utils/idt.c            Drivers.Interrupts: the interrupt table.
--   src/drivers/keyboard/kbdriver.c, src/shell/shell.c, src/utils/config.c
--                          Console: the globals that these three share as one record. `Keyboard` is
--                          keyboard_handler, which calls `Shell` (exeCommand and bashinit) and
--                          `Config` (start_config, update_user and update_tz_by_name). `Invariant` is
--                          what they keep; `Editor` and `Dialogue` are what they mean to the person at
--                          the keyboard.
--   src/kernel/kernel.c, src/animations/animations.c
--                          Kernel: main, from the page allocator on, and its loop, with the keys that
--                          come meanwhile.
--
-- How they are modelled. Numbers are natural numbers with the wrap-around of their C type written
-- out; a buffer is a list of bytes; a function that changes state returns the new state. A
-- `double`, a `long` and the union of both are their 64 bits, and the arithmetic of doubles is a
-- parameter, `Stellar.Fpu.Fpu`, of which the widths are assumed (`IsFpu`), and in one place that whole
-- numbers up to 2^53 are exact (`IsExact`); `atof` of the host is another. What `malloc` and `scanf` return is given as a list of results. An operation of the machine
-- faults where the source would read or write outside the code, the stack or an array; `none`,
-- `fault` and `faulted` stand for that: they are no checks of the source, which makes
-- none on its stack, but mark undefined behaviour. So does `overrun` of the launcher, for its arrays of
-- 256 and 65536 bytes; code that `compile` writes past the end of the buffer before it reports an error
-- is not marked. A call of error_exit is the result `error` with its
-- arguments. A source text is its characters without the terminator, none of them zero.
--
-- Loops. Most go over a list or a number of rounds. `compile` takes two more rounds than its text
-- has characters, which is enough for every text, since each round moves on. `kmalloc` has a round
-- for each page of the gap. `vm_run` may go on for ever: it takes a bound on the dispatches and
-- says `out_of_fuel` at the bound.
--
-- What the console meets from outside is `Console.Machine`: the clock, the disk, and the functions
-- stellar_compile, stellar_init and stellar_run, which the shell calls and no file defines. Of these
-- it is only assumed, by `Keeps`, that they leave the console well formed. Interrupts come between
-- the rounds of a loop, one after the other. The waits for the timer and for the disk go over the
-- interrupts and the answers that come, and do not end where these do not suffice. The cursor is a
-- natural number: its overflow after 2^31 lines is not modelled.
--
-- Not modelled: assembly and port instructions, print_double, and what only prints. What a sector
-- holds is an argument of the file system and the shell. The compiler and the machine are those of
-- the build with STELLAR_HOST.
pub mod Base
pub mod Bits
pub mod Tools
pub mod Memory
pub mod Stellar
pub mod Console
pub mod Drivers
pub mod Kernel
pub mod Utils
