-- ===== src/Examples/Formats.antt =====
-- Runs of `vprintfmt` and `vsnprintf`.
use arch.Base.{ℕ, ◌≤◌, ◌<◌, ◌≡◌, ◌≢◌, refl, ◌⊎◌, some, List, [], ◌∷◌, arith, update}
use arch.Text.Numbers.{printnum, print_digits}
use arch.Text.Format.{word, chars, out_of_rounds, vprintfmt, print_format, escape, convert}
use arch.Text.Format.Fuel.{vprintfmt-ends}
use arch.Text.Buffer.{vsnprintf, place, vsnprintf_lem}

-- "n=%04d;"
abbrev number_format : List ℕ
number_format = 110 ∷ 61 ∷ 37 ∷ 48 ∷ 52 ∷ 100 ∷ 59 ∷ []

-- "n=0042;"
printed_number :
    vprintfmt number_format (word 42 ∷ []) ≡ chars (110 ∷ 61 ∷ 48 ∷ 48 ∷ 52 ∷ 50 ∷ 59 ∷ [])
unfolding vprintfmt print_format escape convert printnum print_digits
printed_number = refl

-- "%-4d" of 42 puts "--42": the padding stands on the left.
dashes : vprintfmt (37 ∷ 45 ∷ 52 ∷ 100 ∷ []) (word 42 ∷ []) ≡ chars (45 ∷ 45 ∷ 52 ∷ 50 ∷ [])
unfolding vprintfmt print_format escape convert printnum print_digits
dashes = refl

vprintfmt-ends_example : vprintfmt number_format (word 42 ∷ []) ≢ out_of_rounds
vprintfmt-ends_example = vprintfmt-ends number_format (word 42 ∷ [])

abbrev zeros : ℕ → ℕ
zeros j = 0

-- A buffer of four bytes at 100 takes three of the seven characters.
vsnprintf_lem_example :
    let mem' = update (place 100 (110 ∷ 61 ∷ 48 ∷ []) zeros) 103 0 in
    (vsnprintf (some 100) 4 number_format (word 42 ∷ []) zeros ≡ some (7, mem'))
    × ((j : ℕ) → (j < 100) ⊎ (104 ≤ j) → mem' j ≡ 0)
vsnprintf_lem_example =
    vsnprintf_lem 100 4 number_format (word 42 ∷ []) zeros (110 ∷ 61 ∷ 48 ∷ 48 ∷ 52 ∷ 50 ∷ 59 ∷ [])
      (omega arith) (omega arith) printed_number
