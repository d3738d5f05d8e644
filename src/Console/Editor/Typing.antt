-- ===== src/Console/Editor/Typing.antt =====
-- The keyboard handler follows the editor.
use nova64_os.Base.{
  ℕ, zero, suc, ◌+◌, ◌-◌, ◌≡◌, ◌≢◌, refl, arith, ap, sym, ◌∙◌, Bool, true, false, ltb, leb, ltb→lt,
  ◌==◌, if◌then◌else◌, if_both, List, [], ◌∷◌, ◌++◌, All, length, length-take, Bool-cases, inl, inr,
  take,
}
use nova64_os.Utils.Strings.{String, string_append}
use nova64_os.Utils.Strings.Laws.{nonzero, text, IsString, string_append_lem}
use nova64_os.Console.{Console, Machine, draw}
use nova64_os.Console.Keyboard.{
  is_shift, key_char, backspace, insert, on_char, keyboard_handler, handle_all,
}
use nova64_os.Console.Keys.{drop_last, erase_last_lem}
use nova64_os.Console.Editor.{Editor, type_char, edit, edit_all, view, settings, IsTyping}
use nova64_os.Console.Editor.Scancodes.{high_bit, low_bits, key_char-line}

-- The console `d` after a key at `c` that the editor answers by `e`.
abbrev Follows : Console → Editor → Console → Type 0
Follows c e d = IsString d.key_buffer × (view d ≡ e) × (settings d ≡ settings c)

length-text : (str : String) → IsString str → length (text str) ≡ str.length
length-text str ok = length-take str.length str.chars ∙ omega (arith, ok.sized, ok.short)

-- The buffer after a character other than the line feed.
typed_buffer :
    (ch : ℕ) (str : String) (shift : Bool)
    → IsString str
    → ch ≢ 0
    → IsString (string_append str ch)
      × (text (string_append str ch)
          ≡ (if ltb (length (text str)) 254 then text str ++ (ch ∷ []) else text str))
typed_buffer ch str shift ok ne =
    let (fine, measured, held) = string_append_lem str ch ok ne in
    (
      fine,
      held
          ∙ ap (λ (n : ℕ). if ltb n 254 then text str ++ (ch ∷ []) else text str)
              (sym (length-text str ok)),
    )

insert-Follows :
    (ch : ℕ) (d : Console)
    → IsString d.key_buffer
    → ch ≢ 0
    → (ch == 0x08) ≡ false
    → Follows d (type_char ch (view d)) (insert ch d)
unfolding insert
insert-Follows ch d ok ne other =
    let (fine, held) = typed_buffer ch d.key_buffer d.shift_pressed ok ne in
    let seen : view (record d { key_buffer = string_append d.key_buffer ch })
        ≡ type_char ch (view d) =
      rw (other, nonzero ch ne)
        (elim (Bool-cases (ltb (length (text d.key_buffer)) 254)) [
          | inl room ↦ rw room (ap line (held ∙ rw room refl))
          | inr full ↦ rw full (ap line (held ∙ rw full refl))
        ]) in
    if_both (Follows d (type_char ch (view d))) (leb 80 (d.cursor_x + 1))
      (λ wrap. (fine, seen, refl)) (λ fits. (fine, seen, refl))
  where
    line : List ℕ → Editor
    line str = record { typed = str; shift = d.shift_pressed }

backspace-Follows :
    (d : Console) → IsString d.key_buffer → Follows d (type_char 0x08 (view d)) (backspace d)
unfolding backspace
backspace-Follows d ok =
    if_both (Follows d (type_char 0x08 (view d))) (ltb 0 d.key_buffer.length)
      (λ some.
        let (fine, held) = erase_last_lem d.key_buffer ok (ltb→lt 0 _ some) in
        if_both (Follows d (type_char 0x08 (view d))) (ltb 0 d.cursor_x)
          (λ left. (fine, ap line held, refl)) (λ edge. (fine, ap line held, refl)))
      (λ none. (ok, ap line (empty d.key_buffer.length (ground arith)), refl))
  where
    line : List ℕ → Editor
    line str = record { typed = str; shift = d.shift_pressed }

    empty : (n : ℕ) → n ≡ 0 → take n d.key_buffer.chars ≡ drop_last (take n d.key_buffer.chars)
    empty zero h = refl
    empty (suc n) h = absurd (omega arith)

on_char-Follows :
    (m : Machine) (ch : ℕ) (c : Console)
    → IsString c.key_buffer
    → (ch == 0x0A) ≡ false
    → Follows c (type_char ch (view c)) (on_char m ch c)
unfolding on_char
on_char-Follows m ch c ok other =
    let hidden = draw 0x20 0x00 c.cursor_x c.cursor_y c in
    let noted : Console = record hidden { last_char = ch; key_pressed_now = true } in
    elim (Bool-cases (ltb 0 ch)) [
      | inl some ↦
          rw (some, other)
            (if_both (Follows c (type_char ch (view c))) (ch == 0x08)
              (λ back. rw back (backspace-Follows noted ok))
              (λ letter. insert-Follows ch noted ok (λ e. absurd (ground arith)) letter))
      | inr none ↦ let is_none : ch ≡ 0 = ground arith in rw is_none (ok, refl, refl)
    ]

step-Follows :
    (m : Machine) (scancode : ℕ) (c : Console)
    → IsTyping scancode
    → IsString c.key_buffer
    → Follows c (edit scancode (view c)) (keyboard_handler m scancode c)
unfolding keyboard_handler
step-Follows m scancode c (small, ne) ok =
    let key : Console = on_char m (key_char c.shift_pressed scancode) c in
    let typed : Editor = type_char (key_char c.shift_pressed scancode) (view c) in
    elim (Bool-cases (ltb scancode 128)) [
      | inl down ↦
          rw (high_bit scancode small, down)
            (both (is_shift scancode) (record c { shift_pressed = true }) key (held true) typed
              (ok, refl, refl)
              (on_char-Follows m (key_char c.shift_pressed scancode) c ok
                (key_char-line c.shift_pressed scancode (ltb→lt _ _ down) ne)))
      | inr up ↦
          rw (high_bit scancode small, low_bits scancode small up, up)
            (both (is_shift (scancode - 128)) (record c { shift_pressed = false }) c (held false)
              (view c) (ok, refl, refl) (ok, refl, refl))
    ]
  where
    held : Bool → Editor
    held shift = record { typed = text c.key_buffer; shift = shift }

    both :
        (b : Bool) (d1 d2 : Console) (e1 e2 : Editor)
        → Follows c e1 d1
        → Follows c e2 d2
        → Follows c (if b then e1 else e2) (if b then d1 else d2)
    both true d1 d2 e1 e2 h1 h2 = h1
    both false d1 d2 e1 e2 h1 h2 = h2

-- Keys other than Enter, in any order, change the line that stands in the buffer and the shift as the
-- editor does, leave the buffer terminated, and change neither the modes nor the settings.
pub handle_all-edit_all :
    (m : Machine) (keys : List ℕ) (c : Console)
    → All IsTyping keys
    → IsString c.key_buffer
    → IsString (handle_all m keys c).key_buffer
      × (view (handle_all m keys c) ≡ edit_all keys (view c))
      × (settings (handle_all m keys c) ≡ settings c)
handle_all-edit_all m [] c typing ok = (ok, refl, refl)
handle_all-edit_all m (scancode ∷ keys) c (first, typing) ok =
    let (fine, seen, kept) = step-Follows m scancode c first ok in
    let (fine', seen', kept') =
      handle_all-edit_all m keys (keyboard_handler m scancode c) typing fine in
    (fine', seen' ∙ ap (edit_all keys) seen, kept' ∙ kept)
