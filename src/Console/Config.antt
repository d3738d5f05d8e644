-- ===== src/Console/Config.antt =====
-- src/utils/config.c: the name of the user and the time zone.
use nova64_os.Base.{ℕ, ◌==◌, if◌then◌else◌, List, [], ◌∷◌}
use nova64_os.Base.Text.{codes}
use nova64_os.Base.Int.{is_zero}
use nova64_os.Utils.Strings.{String, strcmp, strcpy, strlen}
use nova64_os.Utils.Strings.Compare.{c_text}
use nova64_os.Drivers.Rtc.{Offset, ahead, behind}
use nova64_os.Console.{Console, write, wipe}

pub record TimeZone : Type 0 where
  pub name : List ℕ
  pub offset : Offset

abbrev zone : List ℕ → Offset → TimeZone
zone name offset = record { name = name; offset = offset }

abbrev pub tz_table : List TimeZone
tz_table =
    zone (codes "GMT-12") (behind 12)
    ∷ zone (codes "GMT-11") (behind 11)
    ∷ zone (codes "GMT-10") (behind 10)
    ∷ zone (codes "GMT-9") (behind 9)
    ∷ zone (codes "GMT-8") (behind 8)
    ∷ zone (codes "GMT-7") (behind 7)
    ∷ zone (codes "GMT-6") (behind 6)
    ∷ zone (codes "GMT-5") (behind 5)
    ∷ zone (codes "GMT-4") (behind 4)
    ∷ zone (codes "GMT-3") (behind 3)
    ∷ zone (codes "GMT-2") (behind 2)
    ∷ zone (codes "GMT-1") (behind 1)
    ∷ zone (codes "GMT+0") (ahead 0)
    ∷ zone (codes "GMT+1") (ahead 1)
    ∷ zone (codes "GMT+2") (ahead 2)
    ∷ zone (codes "GMT+3") (ahead 3)
    ∷ zone (codes "GMT+4") (ahead 4)
    ∷ zone (codes "GMT+5") (ahead 5)
    ∷ zone (codes "GMT+6") (ahead 6)
    ∷ zone (codes "GMT+7") (ahead 7)
    ∷ zone (codes "GMT+8") (ahead 8)
    ∷ zone (codes "GMT+9") (ahead 9)
    ∷ zone (codes "GMT+10") (ahead 10)
    ∷ zone (codes "GMT+11") (ahead 11)
    ∷ zone (codes "GMT+12") (ahead 12)
    ∷ []

-- `strcpy` into the buffer, and the length that `strlen` finds.
abbrev pub store : List ℕ → String → String
store s str = record { chars = strcpy str.chars s; length = strlen s }

-- The loop of `update_tz_by_name` over the rest of the table.
unfoldable pub update_tz_from : List TimeZone → List ℕ → Console → Console
update_tz_from [] input_name c = c
update_tz_from (tz ∷ rest) input_name c =
    let later = update_tz_from rest input_name c in
    if is_zero (strcmp input_name tz.name)
    then record c {
      current_tz_offset = tz.offset;
      time_zone = store tz.name c.time_zone;
      config_status = 3;
    }
    else later

unfoldable pub update_tz_by_name : List ℕ → Console → Console
unfolding update_tz_from
update_tz_by_name input_name c = update_tz_from tz_table input_name c

unfoldable pub update_user : List ℕ → Console → Console
update_user input_name c = record c { user = store input_name c.user; config_status = 2 }

abbrev ask_user : Console → Console
ask_user c =
    let asked = write (codes "Choose your username: ") 0x09 0 1 c in
    record asked { cursor_x = 22; cursor_y = 1 }

abbrev ask_zone : Console → Console
ask_zone c =
    let asked = write (codes "Choose your time zone (GMT FORMAT!): ") 0x09 0 1 c in
    record asked { cursor_x = 38; cursor_y = 1 }

abbrev summary : Console → Console
summary c =
    let c1 = write (codes "Setup Complete!") 0x0A 0 1 c in
    let c2 = write (codes "User: ") 0x0B 0 2 c1 in
    let c3 = write (c_text c2.user.chars) 0x07 6 2 c2 in
    let c4 = write (codes "TZ:   ") 0x0B 0 3 c3 in
    let c5 = write (c_text c4.time_zone.chars) 0x07 6 3 c4 in
    let c6 = write (codes "To exit, type 'exit': ") 0x0E 0 5 c5 in
    record c6 { cursor_x = 22; cursor_y = 5 }

unfoldable pub start_config : Console → Console
start_config c =
    let titled = write (codes "Nova64 Initial Setup") 0x0B 30 0 (wipe c) in
    if titled.config_status == 1
    then ask_user titled
    else if titled.config_status == 2
    then ask_zone titled
    else if titled.config_status == 3
    then summary titled
    else titled
