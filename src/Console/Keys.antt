-- ===== src/Console/Keys.antt =====
-- The key buffer of src/drivers/keyboard/kbdriver.c under a backspace, and a line of text as a
-- person at the keyboard sees it.
use nova64_os.Base.{
  ℕ, zero, suc, ◌-◌, ◌<◌, ◌≡◌, ◌≢◌, refl, arith, ap, sym, ◌∙◌, subst, List, [], ◌∷◌, All, length,
  length-set, take, get_or-set_self,
}
use nova64_os.Utils.Strings.{String}
use nova64_os.Utils.Strings.Laws.{text, IsString, take-set_past}
use nova64_os.Console.Keyboard.{erase_last}

abbrev pub drop_last : List ℕ → List ℕ
drop_last [] = []
drop_last (c ∷ []) = []
drop_last (c ∷ d ∷ str) = c ∷ drop_last (d ∷ str)

drop_last-take : (xs : List ℕ) (n : ℕ) → n < length xs → take n xs ≡ drop_last (take (suc n) xs)
drop_last-take [] n h = absurd (omega arith)
drop_last-take (x ∷ xs) zero h = refl
drop_last-take (x ∷ []) (suc n) h = absurd (omega arith)
drop_last-take (x ∷ y ∷ xs) (suc n) h =
    ap (λ (l : List ℕ). x ∷ l) (drop_last-take (y ∷ xs) n (omega arith))

All-drop_last : (xs : List ℕ) → All (λ c. c ≢ 0) xs → All (λ c. c ≢ 0) (drop_last xs)
All-drop_last [] h = tt
All-drop_last (c ∷ []) h = tt
All-drop_last (c ∷ d ∷ str) (ne, h) = (ne, All-drop_last (d ∷ str) h)

-- A backspace on a buffer that is not empty leaves a terminated buffer without the last character.
pub erase_last_lem :
    (str : String)
    → IsString str
    → 0 < str.length
    → IsString (erase_last str) × (text (erase_last str) ≡ drop_last (text str))
unfolding erase_last
erase_last_lem str ok some =
    let n = str.length - 1 in
    let held : text (erase_last str) ≡ drop_last (text str) =
      take-set_past str.chars n n 0 (omega arith)
      ∙ drop_last-take str.chars n (omega (arith, ok.sized, ok.short))
      ∙ ap (λ (k : ℕ). drop_last (take k str.chars)) (back str.length some) in
    (
      record {
        sized = length-set str.chars n 0 ∙ ok.sized;
        short = omega (arith, ok.short);
        ended = get_or-set_self str.chars n 0 1 (omega (arith, ok.sized, ok.short));
        filled = subst (All (λ c. c ≢ 0)) (sym held) (All-drop_last (text str) ok.filled);
      },
      held,
    )
  where
    back : (n : ℕ) → 0 < n → suc (n - 1) ≡ n
    back n h = omega arith
