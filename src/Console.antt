-- ===== src/Console.antt =====
-- The input buffer of kern/console.c: `cons_intr` and `cons_getc`.
pub mod Queue
pub mod Screen
pub mod Readline
pub mod Keymaps
pub mod Keyboard
use arch.Base.{ℕ, ◌+◌, ◌%◌, Bool, List, [], ◌∷◌, ◌==◌, if◌then◌else◌, update}

-- CONSBUFSIZE
abbrev pub consbufsize : ℕ
consbufsize = 512

-- `cons`
pub record Cons : Type 0 where
  pub buf : ℕ → ℕ
  pub rpos : ℕ
  pub wpos : ℕ

-- A position moved on, round the buffer.
abbrev pub advance : ℕ → ℕ
advance p = if p + 1 == consbufsize then 0 else p + 1

-- The body of the loop of `cons_intr`: a 0 is no input, and the buffer is of bytes.
unfoldable pub put_char : ℕ → Cons → Cons
put_char c s =
    if c == 0 then s else record s { buf = update s.buf s.wpos (c % 256); wpos = advance s.wpos }

-- `cons_intr`, with what the device's function returns before it returns -1.
unfoldable pub cons_intr : List ℕ → Cons → Cons
cons_intr [] s = s
cons_intr (c ∷ cs) s = cons_intr cs (put_char c s)

-- The end of `cons_getc`: the next character, or 0 if none waits.
unfoldable pub take_char : Cons → ℕ × Cons
take_char s =
    if s.rpos == s.wpos then (0, s) else (s.buf s.rpos, record s { rpos = advance s.rpos })

-- `serial` and `kbd` are what the two devices have to give.
unfoldable pub cons_getc : (serial kbd : List ℕ) → Cons → ℕ × Cons
cons_getc serial kbd s = take_char (cons_intr kbd (cons_intr serial s))
