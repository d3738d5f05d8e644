-- ===== src/Console/Invariant/Handler.antt =====
-- The keyboard handler keeps the console.
use nova64_os.Base.{
  List, [], ◌∷◌, ℕ, ◌+◌, ◌-◌, ◌≤◌, ◌<◌, ◌≡◌, refl, arith, Bool, true, false, ltb, ltb→lt, leb, ◌==◌,
  ◌&&◌, not, if◌then◌else◌, if_both, bit_and,
}
use nova64_os.Base.Text.{codes}
use nova64_os.Utils.Strings.{String, string_append}
use nova64_os.Utils.Strings.Laws.{IsString, string_append_lem}
use nova64_os.Console.{Console, Machine, key_is, clear_buffer, draw}
use nova64_os.Console.Config.{update_tz_by_name, update_user, start_config}
use nova64_os.Console.Shell.{bashinit}
use nova64_os.Console.Keyboard.{
  is_shift, enter, erase_last, backspace, insert, on_char, key_char, keyboard_handler, handle_all,
  run_line,
}
use nova64_os.Console.Keys.{erase_last_lem}
use nova64_os.Console.Invariant.{
  IsConsole, Keeps, Good, moved, clear_buffer-IsConsole, start_config-IsConsole,
  update_user-IsConsole, update_tz_by_name-IsConsole, bashinit-IsConsole,
}
use nova64_os.Console.Invariant.Commands.{exe_command-IsConsole}
use nova64_os.Console.Keyboard.{
  Entry, open_shell, open_setup, give_name, give_zone, leave_setup, plain, entry_of, on_entry,
}

start_config-shell : (c : Console) → (start_config c).shell_active ≡ c.shell_active
unfolding start_config
start_config-shell c =
    if_both Same (c.config_status == 1) (λ one. refl)
      (λ other.
        if_both Same (c.config_status == 2) (λ two. refl)
          (λ more. if_both Same (c.config_status == 3) (λ three. refl) (λ none. refl)))
  where
    Same : Console → Type 0
    Same d = d.shell_active ≡ c.shell_active

run_line-IsConsole : (m : Machine) (c : Console) → Keeps m → IsConsole c → IsConsole (run_line m c)
run_line-IsConsole m c keeps ok =
    if_both IsConsole (c.shell_active && not c.config_active)
      (λ shell. exe_command-IsConsole m c.key_buffer c keeps ok)
      (λ none.
        if_both IsConsole (not c.config_active) (λ free. moved c 0 ok (omega arith)) (λ busy. ok))

-- The two modes of the console set anew.
with_modes :
    (c : Console) (shell config : Bool)
    → IsConsole c
    → (shell && config) ≡ false
    → IsConsole (record c { shell_active = shell; config_active = config })
with_modes c shell config ok one = record {
  typed = ok.typed;
  named = ok.named;
  zoned = ok.zoned;
  one_mode = one;
  staged = ok.staged;
  near = ok.near;
  column = ok.column;
}

-- The branches that change a mode are taken where the other mode is off.
Free : Entry → Console → Type 0
Free open_shell c = c.config_active ≡ false
Free open_setup c = c.shell_active ≡ false
Free give_name c = Unit
Free give_zone c = Unit
Free leave_setup c = Unit
Free plain c = Unit

entry_of-Free : (c : Console) → Free (entry_of c) c
unfolding entry_of Free
entry_of-Free c =
    if_both At (key_is (codes "shell32.start") c && not c.config_active) (λ y. ground arith)
      (λ n.
        if_both At (key_is (codes "1") c && not c.shell_active && not c.config_active)
          (λ y. ground arith)
          (λ n.
            if_both At (c.config_active && c.config_status == 1) (λ y. tt)
              (λ n.
                if_both At (c.config_active && c.config_status == 2) (λ y. tt)
                  (λ n.
                    if_both At (c.config_active && c.config_status == 3 && key_is (codes "exit") c)
                      (λ y. tt) (λ n. tt)))))
  where
    At : Entry → Type 0
    At e = Free e c

on_entry-IsConsole :
    (m : Machine) (e : Entry) (c : Console)
    → Keeps m
    → IsConsole c
    → Free e c
    → IsConsole (on_entry m e c)
unfolding on_entry Free
on_entry-IsConsole m open_shell c keeps ok h =
    let shell : Console = record c { shell_active = true } in
    clear_buffer-IsConsole (bashinit shell)
      (bashinit-IsConsole shell (with_modes c true c.config_active ok (ground arith)))
on_entry-IsConsole m open_setup c keeps ok h =
    let asked : Console = record (start_config c) { config_active = true } in
    clear_buffer-IsConsole asked (
      with_modes (start_config c) (start_config c).shell_active true (start_config-IsConsole c ok)
        (ground (arith, start_config-shell c)))
on_entry-IsConsole m give_name c keeps ok h =
    let named : Console = update_user c.key_buffer.chars c in
    start_config-IsConsole (clear_buffer named)
      (clear_buffer-IsConsole named (update_user-IsConsole c ok))
on_entry-IsConsole m give_zone c keeps ok h =
    let zoned : Console = update_tz_by_name c.key_buffer.chars c in
    start_config-IsConsole (clear_buffer zoned)
      (clear_buffer-IsConsole zoned (update_tz_by_name-IsConsole c.key_buffer.chars c ok))
on_entry-IsConsole m leave_setup c keeps ok h =
    let left : Console = record c { config_active = false } in
    moved (clear_buffer left) 1
      (clear_buffer-IsConsole left (with_modes c c.shell_active false ok (ground arith)))
      (omega arith)
on_entry-IsConsole m plain c keeps ok h =
    moved (clear_buffer (run_line m c)) 1
      (clear_buffer-IsConsole (run_line m c) (run_line-IsConsole m c keeps ok)) (omega arith)

enter-IsConsole : (m : Machine) (c : Console) → Keeps m → IsConsole c → IsConsole (enter m c)
unfolding enter
enter-IsConsole m c keeps ok = on_entry-IsConsole m (entry_of c) c keeps ok (entry_of-Free c)

with_key :
    (c : Console) (key : String) (x : ℕ)
    → IsConsole c
    → IsString key
    → x ≤ 257
    → Good key c.user c.time_zone c.shell_active c.config_active c.config_status c.current_tz_offset
        x
with_key c key x ok typed near = record {
  typed = typed;
  named = ok.named;
  zoned = ok.zoned;
  one_mode = ok.one_mode;
  staged = ok.staged;
  near = ok.near;
  column = near;
}

backspace-IsConsole : (c : Console) → IsConsole c → IsConsole (backspace c)
unfolding backspace
backspace-IsConsole c ok =
    if_both IsConsole (ltb 0 c.key_buffer.length)
      (λ some.
        let typed = (erase_last_lem c.key_buffer ok.typed (ltb→lt 0 _ some)).0 in
        if_both IsConsole (ltb 0 c.cursor_x)
          (λ left.
            with_key c (erase_last c.key_buffer) (c.cursor_x - 1) ok typed
              (omega (arith, ok.column)))
          (λ edge. with_key c (erase_last c.key_buffer) c.cursor_x ok typed ok.column))
      (λ none. ok)

insert-IsConsole : (ch : ℕ) (c : Console) → 0 < ch → IsConsole c → IsConsole (insert ch c)
unfolding insert
insert-IsConsole ch c some ok =
    let typed = (string_append_lem c.key_buffer ch ok.typed (λ e. absurd (omega arith))).0 in
    if_both IsConsole (leb 80 (c.cursor_x + 1))
      (λ wrap. with_key c (string_append c.key_buffer ch) 0 ok typed (omega arith))
      (λ fits. with_key c (string_append c.key_buffer ch) (c.cursor_x + 1) ok typed (ground arith))

on_char-IsConsole :
    (m : Machine) (ch : ℕ) (c : Console) → Keeps m → IsConsole c → IsConsole (on_char m ch c)
unfolding on_char
on_char-IsConsole m ch c keeps ok =
    let hidden = draw 0x20 0x00 c.cursor_x c.cursor_y c in
    let noted : Console =
      if ltb 0 ch then record hidden { last_char = ch; key_pressed_now = true } else hidden in
    let same : IsConsole noted = if_both IsConsole (ltb 0 ch) (λ some. ok) (λ none. ok) in
    if_both IsConsole (ch == 0x0A) (λ line. enter-IsConsole m noted keeps same)
      (λ a.
        if_both IsConsole (ch == 0x08) (λ back. backspace-IsConsole noted same)
          (λ b.
            if_both IsConsole (ltb 0 ch) (λ some. insert-IsConsole ch noted (ltb→lt 0 ch some) same)
              (λ none. same)))

-- Whatever key is pressed or released, the handler keeps the console: its buffers terminated, at most
-- one of the shell and the set-up active, the set-up in one of its three stages, the offset within
-- twelve hours and the cursor at most 257 columns right. The programs that the shell starts are to
-- keep it too.
pub keyboard_handler-IsConsole :
    (m : Machine) (scancode : ℕ) (c : Console)
    → Keeps m
    → IsConsole c
    → IsConsole (keyboard_handler m scancode c)
unfolding keyboard_handler
keyboard_handler-IsConsole m scancode c keeps ok =
    if_both IsConsole (not (bit_and scancode 0x80 == 0))
      (λ up. if_both IsConsole (is_shift (bit_and scancode 0x7F)) (λ shift. ok) (λ other. ok))
      (λ down.
        if_both IsConsole (is_shift scancode) (λ shift. ok)
          (λ key. on_char-IsConsole m (key_char c.shift_pressed scancode) c keeps ok))

pub handle_all-IsConsole :
    (m : Machine) (keys : List ℕ) (c : Console)
    → Keeps m
    → IsConsole c
    → IsConsole (handle_all m keys c)
handle_all-IsConsole m [] c keeps ok = ok
handle_all-IsConsole m (k ∷ keys) c keeps ok =
    handle_all-IsConsole m keys (keyboard_handler m k c) keeps
      (keyboard_handler-IsConsole m k c keeps ok)
