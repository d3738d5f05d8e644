-- ===== src/Console/Keyboard.antt =====
-- src/drivers/keyboard/kbdriver.c. The byte that the keyboard's port gives is an argument.
use nova64_os.Base.{
  ℕ, ◌+◌, ◌-◌, Bool, true, false, ltb, leb, not, ◌&&◌, ◌||◌, ◌==◌, if◌then◌else◌, List, [], ◌∷◌,
  ◌++◌, set, get_or, bit_and,
}
use nova64_os.Base.Text.{codes}
use nova64_os.Utils.Strings.{String, string_append}
use nova64_os.Console.{Console, Machine, draw, write, wipe, key_is, clear_buffer}
use nova64_os.Console.Config.{start_config, update_user, update_tz_by_name}
use nova64_os.Console.Shell.{bashinit, exe_command}

-- Behind the space the table of 128 characters is zero.
abbrev pub keyboard_map : List ℕ
keyboard_map =
    0 ∷ 27 ∷ codes "1234567890-="
    ++ (0x08 ∷ 0x09 ∷ codes "qwertyuiop[]")
    ++ (0x0A ∷ 0 ∷ codes "asdfghjkl;'`")
    ++ (0 ∷ codes "\\zxcvbnm,./")
    ++ (0 ∷ 0x2A ∷ 0 ∷ 0x20 ∷ [])

abbrev pub keyboard_map_shift : List ℕ
keyboard_map_shift =
    0 ∷ 27 ∷ codes "!@#$%^&*()_+"
    ++ (0x08 ∷ 0x09 ∷ codes "QWERTYUIOP{}")
    ++ (0x0A ∷ 0 ∷ codes "ASDFGHJKL:\"~")
    ++ (0 ∷ codes "|ZXCVBNM<>?")
    ++ (0 ∷ 0x2A ∷ 0 ∷ 0x20 ∷ [])

abbrev pub is_shift : ℕ → Bool
is_shift scancode = scancode == 0x2A || scancode == 0x36

abbrev pub key_char : Bool → ℕ → ℕ
key_char shift_pressed scancode =
    if shift_pressed then get_or keyboard_map_shift scancode 0 else get_or keyboard_map scancode 0

-- `putc('|', 0x0F, cursor_x, cursor_y)`.
abbrev pub bar : Console → Console
bar c = draw 0x7C 0x0F c.cursor_x c.cursor_y c

-- `exit` at the end of the dialogue.
abbrev pub leave_config : Console → Console
leave_config c =
    let titled = write (codes "Nova64 OS") 0x0B 0 0 (wipe (record c { config_active = false })) in
    let cleared = clear_buffer (record titled { cursor_x = 0; cursor_y = 1 }) in
    let prompted = draw 0x3E 0x0F cleared.cursor_x cleared.cursor_y cleared in
    bar (record prompted { cursor_x = prompted.cursor_x + 1 })

abbrev pub hint : Console → Console
hint c =
    let at = record c { cursor_y = c.cursor_y + 1; cursor_x = 0 } in
    write (codes "Type 'shell32.start' to use the terminal.") 0x07 at.cursor_x at.cursor_y at

-- `string_clear`, and the prompt of the next line.
abbrev pub prompt : Console → Console
prompt c =
    let cleared = clear_buffer c in
    let at = record cleared { cursor_x = 0; cursor_y = cleared.cursor_y + 1 } in
    let prompted = draw 0x3E 0x02 at.cursor_x at.cursor_y at in
    record prompted { cursor_x = prompted.cursor_x + 1 }

-- A line that no dialogue takes: a command, or the hint.
abbrev pub run_line : Machine → Console → Console
run_line m c =
    if c.shell_active && not c.config_active
    then exe_command m c.key_buffer c
    else if not c.config_active
    then hint c
    else c

-- The branches of `'\n'`, each of its returns one of them.
pub data Entry : Type 0 where
  open_shell open_setup give_name give_zone leave_setup plain : Entry

-- Which one a line meets.
unfoldable pub entry_of : Console → Entry
entry_of c =
    if key_is (codes "shell32.start") c && not c.config_active
    then open_shell
    else if key_is (codes "1") c && not c.shell_active && not c.config_active
    then open_setup
    else if c.config_active && c.config_status == 1
    then give_name
    else if c.config_active && c.config_status == 2
    then give_zone
    else if c.config_active && c.config_status == 3 && key_is (codes "exit") c
    then leave_setup
    else plain

unfoldable pub on_entry : Machine → Entry → Console → Console
unfolding exe_command bashinit start_config update_user update_tz_by_name
on_entry m open_shell c = clear_buffer (bashinit (record c { shell_active = true }))
on_entry m open_setup c = clear_buffer (record (start_config c) { config_active = true })
on_entry m give_name c = start_config (clear_buffer (update_user c.key_buffer.chars c))
on_entry m give_zone c = start_config (clear_buffer (update_tz_by_name c.key_buffer.chars c))
on_entry m leave_setup c = leave_config c
on_entry m plain c = bar (prompt (run_line m c))

unfoldable pub enter : Machine → Console → Console
unfolding entry_of on_entry
enter m c = on_entry m (entry_of c) c

-- `key_buffer.length--; key_buffer.data[key_buffer.length] = '\0'`.
unfoldable pub erase_last : String → String
erase_last str = record { chars = set str.chars (str.length - 1) 0; length = str.length - 1 }

-- The branch of `'\b'`.
unfoldable pub backspace : Console → Console
unfolding erase_last
backspace c =
    let erased = record c { key_buffer = erase_last c.key_buffer; key_pressed_now = true } in
    if ltb 0 c.key_buffer.length
    then (if ltb 0 c.cursor_x
        then (let back = record erased { cursor_x = erased.cursor_x - 1 } in
            draw 0x20 0x02 back.cursor_x back.cursor_y back)
        else erased)
    else c

-- The branch of the other characters.
unfoldable pub insert : ℕ → Console → Console
unfolding string_append
insert ch c =
    let typed = record c { key_buffer = string_append c.key_buffer ch } in
    let shown = draw ch 0x02 typed.cursor_x typed.cursor_y typed in
    if leb 80 (shown.cursor_x + 1)
    then record shown { cursor_x = 0; cursor_y = shown.cursor_y + 1 }
    else record shown { cursor_x = shown.cursor_x + 1 }

-- What the handler does with the character of a key that was pressed.
unfoldable pub on_char : Machine → ℕ → Console → Console
unfolding enter backspace insert
on_char m ch c =
    let hidden = draw 0x20 0x00 c.cursor_x c.cursor_y c in
    let noted =
      if ltb 0 ch then record hidden { last_char = ch; key_pressed_now = true } else hidden in
    if ch == 0x0A
    then enter m noted
    else if ch == 0x08
    then bar (backspace noted)
    else if ltb 0 ch
    then bar (insert ch noted)
    else bar noted

unfoldable pub keyboard_handler : Machine → ℕ → Console → Console
unfolding on_char
keyboard_handler m scancode c =
    if not (bit_and scancode 0x80 == 0)
    then (if is_shift (bit_and scancode 0x7F) then record c { shift_pressed = false } else c)
    else if is_shift scancode
    then record c { shift_pressed = true }
    else on_char m (key_char c.shift_pressed scancode) c

-- The keys in the order of their interrupts.
abbrev pub handle_all : Machine → List ℕ → Console → Console
handle_all m [] c = c
handle_all m (scancode ∷ rest) c = handle_all m rest (keyboard_handler m scancode c)
