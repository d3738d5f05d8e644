-- ===== src/Console/Dialogue/Leave.antt =====
-- The set-up can always be left from the keyboard.
use nova64_os.Base.{
  ℕ, ◌<◌, ◌≡◌, refl, arith, ap, sym, ◌∙◌, subst, Bool, true, false, ◌==◌, ◌&&◌, ltb, not, List, [],
  ◌∷◌, ◌++◌, All, All-append, Bool-cases, Option-cases, inl, inr,
}
use nova64_os.Base.Text.{codes}
use nova64_os.Utils.Strings.Laws.{text}
use nova64_os.Console.{Console, Machine}
use nova64_os.Console.Config.{tz_table}
use nova64_os.Console.Keyboard.{keyboard_handler, handle_all}
use nova64_os.Console.Invariant.{IsConsole, Keeps}
use nova64_os.Console.Invariant.Handler.{keyboard_handler-IsConsole, handle_all-IsConsole}
use nova64_os.Console.Editor.{Editor, Settings, edit_all, view, IsTyping}
use nova64_os.Console.Editor.Typing.{handle_all-edit_all}
use nova64_os.Console.Dialogue.{Dialogue, same_text, find_zone, answer, dialogue}
use nova64_os.Console.Dialogue.Enter.{enter-answer}

handle_all-append :
    (m : Machine) (xs ys : List ℕ) (c : Console)
    → handle_all m (xs ++ ys) c ≡ handle_all m ys (handle_all m xs c)
handle_all-append m [] ys c = refl
handle_all-append m (x ∷ xs) ys c = handle_all-append m xs ys (keyboard_handler m x c)

-- Some keys lead out of the set-up.
abbrev pub Leaves : Machine → Console → Type 0
Leaves m c =
    (keys : List ℕ) × All (λ k. k < 256) keys × ((handle_all m keys c).config_active ≡ false)

after_keys :
    (m : Machine) (keys : List ℕ) (c : Console)
    → All (λ k. k < 256) keys
    → Leaves m (handle_all m keys c)
    → Leaves m c
after_keys m keys c bytes (more, fine, left) = (
  keys ++ more,
  All-append (λ k. k < 256) keys more bytes fine,
  ap (λ (d : Console). d.config_active) (handle_all-append m keys more c) ∙ left,
)

-- The console with the set-up active, in the stage `n`, and the line empty.
pub record At (n : ℕ) (c : Console) : Type 0 where
  pub good : IsConsole c
  pub on : c.config_active ≡ true
  pub stage : c.config_status ≡ n
  pub blank : text c.key_buffer ≡ []

-- A word that is typed on the empty line, and Enter.
word-answer :
    (m : Machine) (keys word : List ℕ) (shift : Bool) (c : Console)
    → All IsTyping keys
    → edit_all keys (record { typed = []; shift = c.shift_pressed })
      ≡ record { typed = word; shift = shift }
    → Keeps m
    → IsConsole c
    → c.config_active ≡ true
    → text c.key_buffer ≡ []
    → (dialogue (handle_all m (keys ++ (0x1C ∷ [])) c) ≡ answer word (dialogue c))
      × (text (handle_all m (keys ++ (0x1C ∷ [])) c).key_buffer ≡ [])
word-answer m keys word shift c typing edited keeps ok on blank =
    let (fine, seen, kept) = handle_all-edit_all m keys c typing ok.typed in
    let d : Console = handle_all m keys c in
    let start : view c ≡ record { typed = []; shift = c.shift_pressed } =
      ap (λ (l : List ℕ). record { typed = l; shift = c.shift_pressed }) blank in
    let written : text d.key_buffer ≡ word =
      ap (λ (e : Editor). e.typed) (seen ∙ ap (edit_all keys) start ∙ edited) in
    let same : dialogue d ≡ dialogue c = ap of_settings kept in
    let active : d.config_active ≡ true = ap (λ (s : Settings). s.config) kept ∙ on in
    let (told, cleared) = enter-answer m d (handle_all-IsConsole m keys c keeps ok) active in
    subst (λ (e : Console). (dialogue e ≡ answer word (dialogue c)) × (text e.key_buffer ≡ []))
      (sym (handle_all-append m keys (0x1C ∷ []) c))
      (told ∙ ap (λ (l : List ℕ). answer l (dialogue d)) written ∙ ap (answer word) same, cleared)
  where
    of_settings : Settings → Dialogue
    of_settings s = record {
      active = s.config;
      status = s.status;
      user = text s.user;
      zone = text s.time_zone;
      offset = s.offset;
    }

abbrev exit_keys : List ℕ
exit_keys = 0xAA ∷ 0x12 ∷ 0x2D ∷ 0x17 ∷ 0x14 ∷ []

-- With the shift held for the letters and the plus.
abbrev zone_keys : List ℕ
zone_keys = 0xAA ∷ 0x2A ∷ 0x22 ∷ 0x32 ∷ 0x14 ∷ 0x0D ∷ 0xAA ∷ 0x0B ∷ []

all_typing : List ℕ → Bool
all_typing [] = true
all_typing (k ∷ keys) = ltb k 256 && not (k == 0x1C) && all_typing keys

all_typing_lem : (keys : List ℕ) → all_typing keys ≡ true → All IsTyping keys
unfolding all_typing
all_typing_lem [] h = tt
all_typing_lem (k ∷ keys) h =
    ((ground arith, λ e. absurd (ground arith)), all_typing_lem keys (ground arith))

exit_keys-IsTyping : All IsTyping exit_keys
unfolding all_typing
exit_keys-IsTyping = all_typing_lem exit_keys refl

zone_keys-IsTyping : All IsTyping zone_keys
unfolding all_typing
zone_keys-IsTyping = all_typing_lem zone_keys refl

with_enter : (keys : List ℕ) → All IsTyping keys → All (λ k. k < 256) (keys ++ (0x1C ∷ []))
with_enter [] typing = (omega arith, tt)
with_enter (k ∷ keys) ((lt, ne), typing) = (lt, with_enter keys typing)

third-Leaves : (m : Machine) (c : Console) → Keeps m → At 3 c → Leaves m c
third-Leaves m c keeps at =
    let (told, blank) =
      word-answer m exit_keys (codes "exit") false c exit_keys-IsTyping refl keeps at.good at.on
        at.blank in
    let left : (answer (codes "exit") (dialogue c)).active ≡ false = rw at.stage refl in
    (
      exit_keys ++ (0x1C ∷ []),
      with_enter exit_keys exit_keys-IsTyping,
      ap (λ (st : Dialogue). st.active) told ∙ left,
    )

-- After an answer: the console stands where the answer says.
answered-At :
    (n : ℕ) (st : Dialogue) (d : Console)
    → IsConsole d
    → (dialogue d ≡ st) × (text d.key_buffer ≡ [])
    → st.active ≡ true
    → st.status ≡ n
    → At n d
answered-At n st d good (told, blank) on stage = record {
  good = good;
  on = ap (λ (s : Dialogue). s.active) told ∙ on;
  stage = ap (λ (s : Dialogue). s.status) told ∙ stage;
  blank = blank;
}

second-Leaves : (m : Machine) (c : Console) → Keeps m → At 2 c → Leaves m c
second-Leaves m c keeps at =
    let keys = zone_keys ++ (0x1C ∷ []) in
    let bytes = with_enter zone_keys zone_keys-IsTyping in
    let told =
      word-answer m zone_keys (codes "GMT+0") false c zone_keys-IsTyping refl keeps at.good at.on
        at.blank in
    after_keys m keys c bytes (
      third-Leaves m (handle_all m keys c) keeps (
        answered-At 3 (answer (codes "GMT+0") (dialogue c)) (handle_all m keys c)
          (handle_all-IsConsole m keys c keeps at.good) told (rw at.stage at.on)
          (rw at.stage refl)))

-- One Enter, which answers by whatever stands in the buffer.
module _ (m : Machine) (c : Console) (keeps : Keeps m) (ok : IsConsole c)
    (on : c.config_active ≡ true) where
  press : Leaves m (keyboard_handler m 0x1C c) → Leaves m c
  press left = after_keys m (0x1C ∷ []) c (omega arith, tt) left

  stands :
      (n : ℕ)
      → (answer (text c.key_buffer) (dialogue c)).active ≡ true
      → (answer (text c.key_buffer) (dialogue c)).status ≡ n
      → At n (keyboard_handler m 0x1C c)
  stands n active stage =
      answered-At n (answer (text c.key_buffer) (dialogue c)) (keyboard_handler m 0x1C c)
        (keyboard_handler-IsConsole m 0x1C c keeps ok) (enter-answer m c ok on) active stage

  from_third : c.config_status ≡ 3 → Leaves m c
  from_third stage = elim (Bool-cases (same_text (text c.key_buffer) (codes "exit"))) [
    | inl same ↦ (
      0x1C ∷ [],
      (omega arith, tt),
      ap (λ (st : Dialogue). st.active) (enter-answer m c ok on).0 ∙ (rw (stage, same) refl),
    )
    | inr differ ↦ press (
        third-Leaves m (keyboard_handler m 0x1C c) keeps
          (stands 3 (rw (stage, differ) on) (rw (stage, differ) refl)))
  ]

  from_second : c.config_status ≡ 2 → Leaves m c
  from_second stage = elim (Option-cases (find_zone tz_table (text c.key_buffer))) [
    | inl unknown ↦ press (
        second-Leaves m (keyboard_handler m 0x1C c) keeps
          (stands 2 (rw (stage, unknown) on) (rw (stage, unknown) refl)))
    | inr (offset, known) ↦ press (
        third-Leaves m (keyboard_handler m 0x1C c) keeps
          (stands 3 (rw (stage, known) on) (rw (stage, known) refl)))
  ]

  from_first : c.config_status ≡ 1 → Leaves m c
  from_first stage =
      press
        (second-Leaves m (keyboard_handler m 0x1C c) keeps (stands 2 (rw stage on) (rw stage refl)))

-- From every console in which the set-up is active, in whatever stage and with whatever on the line,
-- there are keys after which it is not. The programs that the shell starts are to keep the console.
pub handle_all-Leaves :
    (m : Machine) (c : Console) → Keeps m → IsConsole c → c.config_active ≡ true → Leaves m c
handle_all-Leaves m c keeps ok on = elim (Bool-cases (c.config_status == 1)) [
  | inl one ↦ from_first m c keeps ok on (ground arith)
  | inr more ↦ elim (Bool-cases (c.config_status == 2)) [
    | inl two ↦ from_second m c keeps ok on (ground arith)
    | inr three ↦ from_third m c keeps ok on (ground (arith, ok.staged.0, ok.staged.1))
  ]
]
