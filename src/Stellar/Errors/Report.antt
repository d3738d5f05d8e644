-- ===== src/Stellar/Errors/Report.antt =====
-- What `error_exit` of src/stellar/stellar_errors.c prints, and the file that it removes.
use nova64_os.Base.{
  ℕ, zero, suc, ◌+◌, ◌-◌, ◌≡◌, ◌≢◌, refl, arith, ap, ap₂, sym, ◌∙◌, false, ltb, ◌==◌, ◌||◌,
  if◌then◌else◌, List, [], ◌∷◌, ◌++◌, length, length-append, take, drop, drop-append, take-append,
  All, Option, none, some, Bool-cases, inl, inr,
}
use mathlib.Core.List.{append_assoc}
use nova64_os.Base.Text.{codes}

-- `strrchr(name, '.')`, as the distance to the start.
unfoldable pub last_dot : List ℕ → Option ℕ
last_dot [] = none
last_dot (c ∷ rest) = elim (last_dot rest) [
  | some i ↦ some (i + 1)
  | none ↦ if c == 0x2E then some 0 else none
]

-- `get_bin_name`: the last extension replaced by `.exe`, or `.exe` put behind.
unfoldable pub get_bin_name : List ℕ → List ℕ
unfolding last_dot
get_bin_name filename = elim (last_dot filename) [
  | some i ↦ take i filename ++ codes ".exe"
  | none ↦ filename ++ codes ".exe"
]

-- The first loop, over the characters before `ptr`: the line, and where it starts.
unfoldable pub place_from : List ℕ → ℕ → ℕ → ℕ → ℕ → ℕ × ℕ
place_from src zero i line l_start = (line, l_start)
place_from [] (suc n) i line l_start = (line, l_start)
place_from (c ∷ src) (suc n) i line l_start =
    place_from src n (i + 1) (if c == 0x0A then line + 1 else line)
      (if c == 0x0A then i + 1 else l_start)

-- The characters up to the end of the line.
unfoldable pub line_rest : List ℕ → List ℕ
line_rest [] = []
line_rest (c ∷ src) = let rest = line_rest src in if c == 0x0A || c == 0 then [] else c ∷ rest

-- The numbers printed, the line of the source, the spaces before the marks and the marks.
pub record Report : Type 0 where
  pub line : ℕ
  pub col : ℕ
  pub text : List ℕ
  pub spaces : ℕ
  pub marks : ℕ

unfoldable pub error_exit : List ℕ → ℕ → ℕ → Report
unfolding place_from line_rest
error_exit src ptr len =
    let (line, l_start) = place_from src ptr 0 1 0 in
    record {
      line = line;
      col = ptr - l_start + 1;
      text = take (ptr - l_start) (drop l_start src) ++ line_rest (drop ptr src);
      spaces = ptr - l_start;
      marks = if ltb 0 len then len else 1;
    }

-- The line feeds of a text.
abbrev pub line_feeds : List ℕ → ℕ
line_feeds [] = 0
line_feeds (c ∷ src) = if c == 0x0A then suc (line_feeds src) else line_feeds src

abbrev IsInline : ℕ → Type 0
IsInline c = c ≢ 0x0A

-- Along a part of a line the place stays.
place-inline :
    (cur rest : List ℕ) (n i line l_start : ℕ)
    → All IsInline cur
    → n ≡ length cur
    → place_from (cur ++ rest) n i line l_start ≡ (line, l_start)
unfolding place_from
place-inline [] rest zero i line l_start chars e = refl
place-inline [] rest (suc n) i line l_start chars e = absurd (omega arith)
place-inline (c ∷ cur) rest zero i line l_start chars e = absurd (omega arith)
place-inline (c ∷ cur) rest (suc n) i line l_start (char, chars) e =
    rw (plain c char) (place-inline cur rest n (i + 1) line l_start chars (omega arith))
  where
    plain : (c : ℕ) → IsInline c → (c == 0x0A) ≡ false
    plain c h = elim (Bool-cases (c == 0x0A)) [
      | inl feed ↦ absurd (h (ground arith))
      | inr other ↦ other
    ]

-- Past a line feed the next line begins.
place-next :
    (before cur rest : List ℕ) (n i line l_start : ℕ)
    → All IsInline cur
    → n ≡ length before + 1 + length cur
    → place_from (before ++ (0x0A ∷ (cur ++ rest))) n i line l_start
      ≡ (line + line_feeds before + 1, i + length before + 1)
unfolding place_from
place-next [] cur rest zero i line l_start chars e = absurd (omega arith)
place-next [] cur rest (suc n) i line l_start chars e =
    place-inline cur rest n (i + 1) (line + 1) (i + 1) chars (omega arith)
    ∙ ap₂ (λ (a b : ℕ). (a, b)) (omega arith) (omega arith)
place-next (c ∷ before) cur rest zero i line l_start chars e = absurd (omega arith)
place-next (c ∷ before) cur rest (suc n) i line l_start chars e =
    place-next before cur rest n (i + 1) (if c == 0x0A then line + 1 else line)
      (if c == 0x0A then i + 1 else l_start) chars (omega arith)
    ∙ ap₂ (λ (a b : ℕ). (a, b)) (ground arith) (omega arith)

-- The report of an error behind `cur` in a line that goes on with `rest`.
abbrev pub Reports : Report → ℕ → List ℕ → List ℕ → ℕ → Type 0
Reports report line cur rest len =
    (report.line ≡ line)
    × (report.col ≡ length cur + 1)
    × (report.text ≡ cur ++ line_rest rest)
    × (report.spaces ≡ length cur)
    × (report.marks ≡ (if ltb 0 len then len else 1))

error_exit-Reports :
    (src cur rest : List ℕ) (ptr len line l_start : ℕ)
    → place_from src ptr 0 1 0 ≡ (line, l_start)
    → drop l_start src ≡ cur ++ rest
    → drop ptr src ≡ rest
    → ptr ≡ l_start + length cur
    → Reports (error_exit src ptr len) line cur rest len
unfolding error_exit
error_exit-Reports src cur rest ptr len line l_start place from_line from_ptr is =
    let started : take (ptr - l_start) (drop l_start src) ≡ cur =
      ap (take (ptr - l_start)) from_line ∙ take-append cur rest (ptr - l_start) (omega arith) in
    rw place (
      refl,
      omega arith,
      ap₂ (λ (a b : List ℕ). a ++ line_rest b) started from_ptr,
      omega arith,
      refl,
    )

-- Where an error is behind the part `cur` of a line, `error_exit` prints the number of the line and
-- the column behind `cur`, both counted from 1, the whole line, up to the next line feed or the end
-- of the text, as many spaces as `cur` has characters, and as many marks as the error is long, but
-- at least one: in the first line of the text, and in a line after `before` and a line feed.
pub error_exit_lem :
    (before cur rest : List ℕ) (len : ℕ)
    → All IsInline cur
    → Reports (error_exit (cur ++ rest) (length cur) len) 1 cur rest len
      × Reports
          (error_exit (before ++ (0x0A ∷ (cur ++ rest))) (length before + 1 + length cur) len)
          (line_feeds before + 2)
          cur
          rest
          len
error_exit_lem before cur rest len chars =
    let src : List ℕ = before ++ (0x0A ∷ (cur ++ rest)) in
    let ptr : ℕ = length before + 1 + length cur in
    (
      error_exit-Reports (cur ++ rest) cur rest (length cur) len 1 0
          (place-inline cur rest (length cur) 0 1 0 chars refl) refl
          (drop-append cur rest (length cur) refl) (omega arith),
      error_exit-Reports src cur rest ptr len (line_feeds before + 2) (length before + 1)
          (place-next before cur rest ptr 0 1 0 chars refl
            ∙ ap₂ (λ (a b : ℕ). (a, b)) (omega arith) (omega arith))
          (ap (drop (length before + 1)) (sym (append_assoc before (0x0A ∷ []) (cur ++ rest)))
            ∙ drop-append (before ++ (0x0A ∷ [])) (cur ++ rest) (length before + 1)
                (length-append before (0x0A ∷ []) ∙ omega arith))
          (ap (drop ptr) (sym (append_assoc before (0x0A ∷ cur) rest))
            ∙ drop-append (before ++ (0x0A ∷ cur)) rest ptr
                (length-append before (0x0A ∷ cur) ∙ omega arith))
          (omega arith),
    )
