-- ===== src/Console/Editor.antt =====
-- The keyboard as an editor of one line: what the keys other than Enter do to the text, without a
-- screen, a buffer or a terminator.
pub mod Scancodes
pub mod Typing
use nova64_os.Base.{
  ℕ, zero, suc, ◌+◌, ◌-◌, ◌<◌, ◌≡◌, ◌≢◌, refl, arith, ap, sym, ◌∙◌, subst, Bool, true, false, ltb,
  leb, ltb→lt, ◌==◌, ◌&&◌, ◌||◌, not, if◌then◌else◌, if_both, List, [], ◌∷◌, ◌++◌, All, length,
  length-take, Bool-cases, inl, inr, bit_and, take,
}
use nova64_os.Utils.Strings.{String, string_append}
use nova64_os.Utils.Strings.Laws.{nonzero, text, IsString, string_append_lem}
use nova64_os.Drivers.Rtc.{Offset}
use nova64_os.Console.{Console, Machine, draw}
use nova64_os.Console.Keyboard.{
  is_shift, key_char, backspace, insert, on_char, keyboard_handler, handle_all,
}
use nova64_os.Console.Keys.{drop_last, erase_last_lem}

pub record Editor : Type 0 where
  pub typed : List ℕ
  pub shift : Bool

-- A character is written at the end of a line of at most 254, a backspace takes the last one away,
-- and a key without a character does nothing.
abbrev pub type_char : ℕ → Editor → Editor
type_char ch e =
    if ch == 0x08
    then record e { typed = drop_last e.typed }
    else if ch == 0
    then e
    else if ltb (length e.typed) 254
    then record e { typed = e.typed ++ (ch ∷ []) }
    else e

-- A code below 128 is a key that goes down, and 128 more the same key that goes up.
abbrev pub edit : ℕ → Editor → Editor
edit scancode e =
    if ltb scancode 128
    then (if is_shift scancode
        then record e { shift = true }
        else type_char (key_char e.shift scancode) e)
    else (if is_shift (scancode - 128) then record e { shift = false } else e)

abbrev pub edit_all : List ℕ → Editor → Editor
edit_all [] e = e
edit_all (scancode ∷ rest) e = edit_all rest (edit scancode e)

-- What the editor is of a console, and what the editor leaves alone.
abbrev pub view : Console → Editor
view c = record { typed = text c.key_buffer; shift = c.shift_pressed }

pub record Settings : Type 0 where
  pub shell : Bool
  pub config : Bool
  pub status : ℕ
  pub user : String
  pub time_zone : String
  pub offset : Offset

abbrev pub settings : Console → Settings
settings c = record {
  shell = c.shell_active;
  config = c.config_active;
  status = c.config_status;
  user = c.user;
  time_zone = c.time_zone;
  offset = c.current_tz_offset;
}

-- A key other than Enter, up or down.
abbrev pub IsTyping : ℕ → Type 0
IsTyping scancode = (scancode < 256) × (scancode ≢ 0x1C)
