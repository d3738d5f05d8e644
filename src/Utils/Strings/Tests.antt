-- ===== src/Utils/Strings/Tests.antt =====
-- Texts that agree at the start.
use nova64_os.Base.{◌↔◌, take, true, ◌≡◌, refl}
use nova64_os.Base.Text.{codes}
use nova64_os.Base.Int.{is_zero, negsuc}
use nova64_os.Utils.Strings.Compare.{c_text, strcmp_iff}
use nova64_os.Utils.Strings.{strcmp, strncmp}

-- A text against one that goes on.
strcmp_iff_example :
    ((is_zero (strcmp (codes "free") (codes "freeze")) ≡ true)
      ↔ (c_text (codes "free") ≡ c_text (codes "freeze")))
    × ((is_zero (strncmp (codes "free") (codes "freeze") 4) ≡ true)
        ↔ (take 4 (c_text (codes "free")) ≡ take 4 (c_text (codes "freeze"))))
strcmp_iff_example = strcmp_iff (codes "free") (codes "freeze") 4

same_start : is_zero (strncmp (codes "free") (codes "freeze") 4) ≡ true
unfolding strncmp
same_start = refl

differ_later : strcmp (codes "free") (codes "freeze") ≡ negsuc 121
unfolding strcmp
differ_later = refl
