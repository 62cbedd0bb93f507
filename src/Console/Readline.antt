-- ===== src/Console/Readline.antt =====
-- `readline` of lib/readline.c, with the keys that `getchar` returns. A negative one is an error.
pub mod Editing
use arch.Base.{
  ℕ, zero, suc, ◌+◌, ◌-◌, ◌%◌, Bool, ◌&&◌, ◌||◌, List, [], ◌∷◌, ◌==◌, ltb, leb, if◌then◌else◌,
  update,
}
use arch.Kern.Layout.{is_neg}

-- BUFLEN
abbrev pub buflen : ℕ
buflen = 1024

-- `buf` and `i`, and what was echoed, the last character first.
pub record Edit : Type 0 where
  pub buf : ℕ → ℕ
  pub i : ℕ
  pub echoed : List ℕ

-- How `readline` comes out of the keys there are: it still waits for one, it returns NULL, or it
-- returns the buffer.
pub data Outcome (A : Type 0) : Type 0 where
  waiting null line : A → Outcome A

abbrev pub is_erase : ℕ → Bool
is_erase c = c == 8 || c == 127

abbrev pub is_newline : ℕ → Bool
is_newline c = c == 10 || c == 13

abbrev pub erase : Edit → Edit
erase s = record s { echoed = 8 ∷ s.echoed; i = s.i - 1 }

abbrev pub append : ℕ → Edit → Edit
append c s = record s { echoed = c ∷ s.echoed; buf = update s.buf s.i (c % 256); i = s.i + 1 }

abbrev pub terminated : Edit → Edit
terminated s = record s { echoed = 10 ∷ s.echoed; buf = update s.buf s.i 0 }

-- The loop of `readline`, behind the prompt; `iscons` says yes.
unfoldable pub readline : List ℕ → Edit → Outcome Edit
readline [] s = waiting s
readline (c ∷ cs) s =
    if is_neg c
    then null s
    else if is_erase c && ltb 0 s.i
    then readline cs (erase s)
    else if leb 32 c && ltb s.i (buflen - 1)
    then readline cs (append c s)
    else if is_newline c
    then line (terminated s)
    else readline cs s
