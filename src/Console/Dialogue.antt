-- ===== src/Console/Dialogue.antt =====
-- The set-up dialogue of src/utils/config.c as a person answers it: each line is a name, a zone or the
-- word that ends it.
pub mod Enter
pub mod Leave
use nova64_os.Base.{
  ℕ, zero, suc, ◌+◌, ◌-◌, ◌*◌, ◌≤◌, ◌<◌, ◌≡◌, ◌≢◌, refl, arith, ap, ap₂, sym, ◌∙◌, subst, Bool,
  true, false, ltb, leb, ltb→lt, ◌==◌, ==_iff, ◌&&◌, ◌||◌, not, if◌then◌else◌, if_both, List, [],
  ◌∷◌, ◌++◌, All, length, Bool-cases, inl, inr, take, Option, none, some,
}
use nova64_os.Base.Text.{codes}
use nova64_os.Base.Int.{is_zero}
use nova64_os.Utils.Strings.{String, strlen, strcmp, string_clear}
use nova64_os.Utils.Strings.Compare.{c_text, strcmp_iff}
use nova64_os.Utils.Strings.Laws.{text, IsString, strlen-text}
use nova64_os.Utils.Strings.Copy.{strcpy_lem, string_clear-IsString, c_text-text}
use nova64_os.Drivers.Rtc.{Offset}
use nova64_os.Console.{Console, Machine, draw, key_is, clear_buffer}
use nova64_os.Console.Config.{
  TimeZone, tz_table, store, update_tz_from, update_tz_by_name, update_user, start_config,
}
use nova64_os.Console.Keyboard.{
  Entry, give_name, give_zone, leave_setup, plain, entry_of, on_entry, enter, on_char, key_char,
  keyboard_handler, handle_all, run_line, bar, prompt,
}
use nova64_os.Console.Invariant.{IsConsole, Keeps, IsZone, tz_table-IsZone}

pub record Dialogue : Type 0 where
  pub active : Bool
  pub status : ℕ
  pub user : List ℕ
  pub zone : List ℕ
  pub offset : Offset

abbrev pub same_text : List ℕ → List ℕ → Bool
same_text [] [] = true
same_text [] (d ∷ t) = false
same_text (c ∷ s) [] = false
same_text (c ∷ s) (d ∷ t) = c == d && same_text s t

abbrev pub find_zone : List TimeZone → List ℕ → Option Offset
find_zone [] line = none
find_zone (tz ∷ rest) line = if same_text line tz.name then some tz.offset else find_zone rest line

-- A zone that the table does not name leaves the dialogue where it is.
abbrev pub choose : Option Offset → List ℕ → Dialogue → Dialogue
choose none line st = st
choose (some offset) line st = record st { status = 3; zone = line; offset = offset }

-- The answer to a line.
abbrev pub answer : List ℕ → Dialogue → Dialogue
answer line st =
    if st.status == 1
    then record st { status = 2; user = line }
    else if st.status == 2
    then choose (find_zone tz_table line) line st
    else if same_text line (codes "exit")
    then record st { active = false }
    else st

abbrev pub dialogue : Console → Dialogue
dialogue c = record {
  active = c.config_active;
  status = c.config_status;
  user = text c.user;
  zone = text c.time_zone;
  offset = c.current_tz_offset;
}

same_text_lem : (s t : List ℕ) → same_text s t ≡ true → s ≡ t
same_text_lem [] [] h = refl
same_text_lem [] (d ∷ t) h = absurd (ground arith)
same_text_lem (c ∷ s) [] h = absurd (ground arith)
same_text_lem (c ∷ s) (d ∷ t) h =
    ap₂ (λ (x : ℕ) (l : List ℕ). x ∷ l) (ground arith) (same_text_lem s t (ground arith))

same_text_refl : (s : List ℕ) → same_text s s ≡ true
same_text_refl [] = refl
same_text_refl (c ∷ s) = ground (arith, same_text_refl s)

-- What `strcmp` decides of a terminated buffer and a word without a zero.
pub strcmp-text :
    (str : String) (word : List ℕ)
    → IsString str
    → c_text word ≡ word
    → is_zero (strcmp str.chars word) ≡ same_text (text str) word
strcmp-text str word ok plain_word =
    let (to, from) = (strcmp_iff str.chars word 0).0 in
    let read : c_text str.chars ≡ text str = c_text-text str.chars str.length ok.filled ok.ended in
    elim (Bool-cases (same_text (text str) word)) [
      | inl same ↦ from (read ∙ same_text_lem (text str) word same ∙ sym plain_word) ∙ sym same
      | inr differ ↦ elim (Bool-cases (is_zero (strcmp str.chars word))) [
        | inl zero_found ↦
            let equal : text str ≡ word = sym read ∙ to zero_found ∙ plain_word in
            absurd (clash (text str) word equal differ)
        | inr nonzero_found ↦ nonzero_found ∙ sym differ
      ]
    ]
  where
    clash : (s t : List ℕ) → s ≡ t → same_text s t ≡ false → ⊥
    clash s t e h =
        let yes_same = subst (λ (l : List ℕ). same_text s l ≡ true) e (same_text_refl s) in
        ground arith

-- The rows of the table hold names without a zero.
pub tidy : List TimeZone → Bool
tidy [] = true
tidy (tz ∷ rest) = same_text (c_text tz.name) tz.name && tidy rest

pub tidy_table : tidy tz_table ≡ true
unfolding tidy
tidy_table = refl

pub update_tz_from-choose :
    (zones : List TimeZone) (c : Console)
    → All IsZone zones
    → tidy zones ≡ true
    → IsConsole c
    → dialogue (update_tz_from zones c.key_buffer.chars c)
      ≡ choose (find_zone zones (text c.key_buffer)) (text c.key_buffer) (dialogue c)
unfolding update_tz_from tidy
update_tz_from-choose [] c rows neat ok = refl
update_tz_from-choose (tz ∷ zones) c ((short, near), rows) neat ok =
    let name : c_text tz.name ≡ tz.name = same_text_lem (c_text tz.name) tz.name (ground arith) in
    let test = strcmp-text c.key_buffer tz.name ok.typed name in
    let later = update_tz_from-choose zones c rows (ground arith) ok in
    elim (Bool-cases (same_text (text c.key_buffer) tz.name)) [
      | inl same ↦
          let line : text (store tz.name c.time_zone) ≡ text c.key_buffer =
            (strcpy_lem tz.name c.time_zone ok.zoned.sized short).1
            ∙ name
            ∙ sym (same_text_lem (text c.key_buffer) tz.name same) in
          rw (test, same)
            (ap
              (λ (l : List ℕ). record {
                active = c.config_active;
                status = 3;
                user = text c.user;
                zone = l;
                offset = tz.offset;
              })
              line)
      | inr differ ↦ rw (test, differ) later
    ]
