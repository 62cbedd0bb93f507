-- ===== src/Examples/Lines.antt =====
-- Lines for `runcmd`.
use arch.Base.{ℕ, zero, suc, ◌≡◌, refl, List, [], ◌∷◌, arith}
use arch.Text.Strings.{strchr, strcmp}
use arch.Monitor.{
  is_space, Buffer, gobble, scan, parse_args, unknown, find_command, run_parsed, runcmd,
}
use arch.Monitor.Words.{words}
use arch.Monitor.Commands.{Performs, runcmd_lem}

abbrev buffer_of : List ℕ → Buffer
buffer_of [] p = 0
buffer_of (c ∷ s) zero = c
buffer_of (c ∷ s) (suc p) = buffer_of s p

-- " help  x"
abbrev help_line : List ℕ
help_line = 32 ∷ 104 ∷ 101 ∷ 108 ∷ 112 ∷ 32 ∷ 32 ∷ 120 ∷ []

-- "hi"
abbrev hi_line : List ℕ
hi_line = 104 ∷ 105 ∷ []

help_words : words help_line ≡ (104 ∷ 101 ∷ 108 ∷ 112 ∷ []) ∷ (120 ∷ []) ∷ []
unfolding is_space strchr
help_words = refl

hi_unknown : runcmd 8 (buffer_of hi_line) ≡ unknown
unfolding runcmd run_parsed parse_args gobble scan find_command strcmp is_space strchr
hi_unknown = refl

runcmd_lem_example : Performs 8 (runcmd 16 (buffer_of help_line)) (words help_line)
runcmd_lem_example =
    runcmd_lem 16 (buffer_of help_line) help_line (omega arith) (omega arith) (omega arith)
