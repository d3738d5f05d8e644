-- ===== src/Console/Dialogue/Enter.antt =====
-- Enter while the set-up is active.
use nova64_os.Base.{
  ℕ, ◌≤◌, ◌≡◌, refl, arith, ap, sym, ◌∙◌, subst, true, ◌==◌, if_both, List, [], ◌∷◌, Bool-cases,
  inl, inr,
}
use nova64_os.Base.Text.{codes}
use nova64_os.Base.Int.{is_zero}
use nova64_os.Utils.Strings.{String, strcmp, string_clear}
use nova64_os.Utils.Strings.Compare.{c_text}
use nova64_os.Utils.Strings.Laws.{text, IsString, strlen-text}
use nova64_os.Utils.Strings.Copy.{strcpy_lem, string_clear-IsString, c_text-text}
use nova64_os.Console.{Console, Machine, draw, clear_buffer}
use nova64_os.Console.Config.{
  TimeZone, tz_table, update_tz_from, update_tz_by_name, update_user, start_config,
}
use nova64_os.Console.Keyboard.{
  give_name, give_zone, leave_setup, plain, entry_of, on_entry, enter, on_char, keyboard_handler,
  run_line, bar, prompt,
}
use nova64_os.Console.Invariant.{IsConsole, tz_table-IsZone}
use nova64_os.Console.Dialogue.{
  Dialogue, same_text, find_zone, choose, answer, dialogue, strcmp-text, tidy_table,
  update_tz_from-choose,
}

start_config-same :
    (c : Console)
    → (dialogue (start_config c) ≡ dialogue c)
      × ((start_config c).key_buffer ≡ c.key_buffer)
      × ((start_config c).shift_pressed ≡ c.shift_pressed)
unfolding start_config
start_config-same c =
    if_both Same (c.config_status == 1) (λ one. (refl, refl, refl))
      (λ other.
        if_both Same (c.config_status == 2) (λ two. (refl, refl, refl))
          (λ more.
            if_both Same (c.config_status == 3) (λ three. (refl, refl, refl))
              (λ none. (refl, refl, refl))))
  where
    Same : Console → Type 0
    Same d =
        (dialogue d ≡ dialogue c)
        × (d.key_buffer ≡ c.key_buffer)
        × (d.shift_pressed ≡ c.shift_pressed)

update_tz_from-key_buffer :
    (zones : List TimeZone) (name : List ℕ) (c : Console)
    → (update_tz_from zones name c).key_buffer ≡ c.key_buffer
unfolding update_tz_from
update_tz_from-key_buffer [] name c = refl
update_tz_from-key_buffer (tz ∷ zones) name c =
    if_both (λ (d : Console). d.key_buffer ≡ c.key_buffer) (is_zero (strcmp name tz.name))
      (λ same. refl) (λ other. update_tz_from-key_buffer zones name c)

-- After a line was answered: the dialogue is `st` and the buffer is empty.
abbrev Answered : Dialogue → Console → Type 0
Answered st d = (dialogue d ≡ st) × (text d.key_buffer ≡ [])

-- The console as the branches of Enter find it.
abbrev noted : Console → Console
noted c = record (draw 0x20 0x00 c.cursor_x c.cursor_y c) {
  last_char = 0x0A;
  key_pressed_now = true;
}

enter_key : (m : Machine) (c : Console) → keyboard_handler m 0x1C c ≡ enter m (noted c)
unfolding keyboard_handler on_char
enter_key m c = elim (Bool-cases c.shift_pressed) [ inl down ↦ rw down refl | inr up ↦ rw up refl ]

cleared : (str : String) → IsString str → text (string_clear str) ≡ []
cleared str ok = (string_clear-IsString str ok.sized).1

give_name-answer :
    (m : Machine) (c : Console)
    → IsConsole c
    → c.config_active ≡ true
    → c.config_status ≡ 1
    → Answered (answer (text c.key_buffer) (dialogue c)) (enter m c)
unfolding enter on_entry entry_of update_user
give_name-answer m c ok on stage =
    let branch : entry_of c ≡ give_name = ground arith in
    let named : Console = clear_buffer (update_user c.key_buffer.chars c) in
    let (same, buffer, shift) = start_config-same named in
    let measured =
      strlen-text c.key_buffer.chars c.key_buffer.length ok.typed.filled ok.typed.ended in
    let kept =
      (strcpy_lem c.key_buffer.chars c.user ok.named.sized
        (omega (arith, measured, ok.typed.short))).1
      ∙ c_text-text c.key_buffer.chars c.key_buffer.length ok.typed.filled ok.typed.ended in
    rw (branch, stage) (same ∙ ap line kept, ap text buffer ∙ cleared c.key_buffer ok.typed)
  where
    line : List ℕ → Dialogue
    line l = record {
      active = c.config_active;
      status = 2;
      user = l;
      zone = text c.time_zone;
      offset = c.current_tz_offset;
    }

update_tz_by_name-choose :
    (c : Console)
    → IsConsole c
    → (dialogue (update_tz_by_name c.key_buffer.chars c)
        ≡ choose (find_zone tz_table (text c.key_buffer)) (text c.key_buffer) (dialogue c))
      × ((update_tz_by_name c.key_buffer.chars c).key_buffer ≡ c.key_buffer)
unfolding update_tz_by_name
update_tz_by_name-choose c ok = (
  update_tz_from-choose tz_table c tz_table-IsZone tidy_table ok,
  update_tz_from-key_buffer tz_table c.key_buffer.chars c,
)

give_zone-answer :
    (m : Machine) (c : Console)
    → IsConsole c
    → c.config_active ≡ true
    → c.config_status ≡ 2
    → Answered (answer (text c.key_buffer) (dialogue c)) (enter m c)
unfolding enter on_entry entry_of
give_zone-answer m c ok on stage =
    let branch : entry_of c ≡ give_zone = ground arith in
    let zoned : Console = update_tz_by_name c.key_buffer.chars c in
    let (same, buffer, shift) = start_config-same (clear_buffer zoned) in
    let (chosen, kept) = update_tz_by_name-choose c ok in
    rw branch (
      same ∙ chosen ∙ second stage,
      ap text buffer
          ∙ ap (λ (str : String). text (string_clear str)) kept
          ∙ cleared c.key_buffer ok.typed,
    )
  where
    line : List ℕ
    line = text c.key_buffer

    second :
        c.config_status ≡ 2
        → choose (find_zone tz_table line) line (dialogue c) ≡ answer line (dialogue c)
    second stage = ground arith

word_exit : c_text (codes "exit") ≡ codes "exit"
word_exit = refl

run_line_busy : (m : Machine) (c : Console) → c.config_active ≡ true → run_line m c ≡ c
run_line_busy m c on = elim (Bool-cases c.shell_active) [
  | inl shell ↦ rw (shell, on) refl
  | inr off ↦ rw (off, on) refl
]

third-answer :
    (m : Machine) (c : Console)
    → IsConsole c
    → c.config_active ≡ true
    → c.config_status ≡ 3
    → Answered (answer (text c.key_buffer) (dialogue c)) (enter m c)
unfolding enter on_entry entry_of
third-answer m c ok on stage =
    let test = strcmp-text c.key_buffer (codes "exit") ok.typed word_exit in
    elim (Bool-cases (same_text (text c.key_buffer) (codes "exit"))) [
      | inl same ↦
          let branch : entry_of c ≡ leave_setup = ground (arith, test) in
          rw (branch, stage, same) (refl, cleared c.key_buffer ok.typed)
      | inr differ ↦
          let branch : entry_of c ≡ plain = ground (arith, test) in
          let busy = run_line_busy m c on in
          let st : Dialogue = answer (text c.key_buffer) (dialogue c) in
          let still : dialogue c ≡ st = rw (stage, differ) refl in
          rw branch (
            subst (λ (d : Console). Answered st (bar (prompt d))) (sym busy)
              (still, cleared c.key_buffer ok.typed))
    ]

-- While the set-up is active, Enter answers the dialogue by the line in the buffer, a name, a zone of
-- the table or the word `exit` by the stage it is in, and leaves an empty line.
pub enter-answer :
    (m : Machine) (c : Console)
    → IsConsole c
    → c.config_active ≡ true
    → (dialogue (keyboard_handler m 0x1C c) ≡ answer (text c.key_buffer) (dialogue c))
      × (text (keyboard_handler m 0x1C c).key_buffer ≡ [])
enter-answer m c ok on =
    subst (Answered (answer (text c.key_buffer) (dialogue c))) (sym (enter_key m c))
      (by_stage ok.staged)
  where
    by_stage :
        (1 ≤ c.config_status) × (c.config_status ≤ 3)
        → Answered (answer (text c.key_buffer) (dialogue c)) (enter m (noted c))
    by_stage (from, to) = elim (Bool-cases (c.config_status == 1)) [
      | inl one ↦ give_name-answer m (noted c) ok on (ground arith)
      | inr more ↦ elim (Bool-cases (c.config_status == 2)) [
        | inl two ↦ give_zone-answer m (noted c) ok on (ground arith)
        | inr three ↦ third-answer m (noted c) ok on (ground arith)
      ]
    ]
