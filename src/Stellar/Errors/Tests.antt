-- ===== src/Stellar/Errors/Tests.antt =====
-- Two names and an error on a second line.
use nova64_os.Base.{ℕ, ◌+◌, ◌≤◌, ◌≡◌, ◌↔◌, refl, arith, true, ◌∷◌, ◌++◌, length}
use nova64_os.Base.Text.{codes}
use nova64_os.Stellar.Errors.{is_similar}
use nova64_os.Stellar.Errors.Distance.{Edits}
use nova64_os.Stellar.Errors.Distance.Matrix.{is_similar_iff}
use nova64_os.Stellar.Errors.Report.{Reports, error_exit, error_exit_lem, line_feeds}

is_similar_iff_example : (is_similar (codes "prnit") (codes "print") ≡ true) ↔ (
    (length (codes "prnit") ≤ 32)
    × (length (codes "print") ≤ 32)
    × (n : ℕ) × (n ≤ 2)
    × Edits (codes "prnit") (codes "print") 5 5 n)
is_similar_iff_example = is_similar_iff (codes "prnit") (codes "print")

swapped_letters : is_similar (codes "prnit") (codes "print") ≡ true
unfolding is_similar
swapped_letters = refl

-- "let a=1;" and on the next line "b=2; c=3;", with the error at `c`.
error_exit_lem_example :
    Reports
      (error_exit (codes "b=2; " ++ codes "c=3;") (length (codes "b=2; ")) 1)
      1
      (codes "b=2; ")
      (codes "c=3;")
      1
    × Reports
        (error_exit
          (codes "let a=1;" ++ (0x0A ∷ (codes "b=2; " ++ codes "c=3;")))
          (length (codes "let a=1;") + 1 + length (codes "b=2; "))
          1)
        (line_feeds (codes "let a=1;") + 2)
        (codes "b=2; ")
        (codes "c=3;")
        1
error_exit_lem_example = error_exit_lem (codes "let a=1;") (codes "b=2; ") (codes "c=3;") 1 (
  (λ e. absurd (omega (arith, e))),
  (
    (λ e. absurd (omega (arith, e))),
    (
      (λ e. absurd (omega (arith, e))),
      ((λ e. absurd (omega (arith, e))), ((λ e. absurd (omega (arith, e))), tt)),
    ),
  ),
)
