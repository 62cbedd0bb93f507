-- ===== src/Examples/Devices.antt =====
-- Runs of the console's buffer and of the functions on text.
use arch.Base.{ℕ, ◌+◌, ◌%◌, ◌≡◌, refl, inr, some, List, [], ◌∷◌, ◌++◌, arith}
use arch.Console.{Cons, cons_getc, put_char}
use arch.Console.Screen.{Screen, cga_putc, OnScreen, cga_putc-OnScreen}
use arch.Console.Readline.{Edit, line, readline}
use arch.Console.Readline.Editing.{text_of, Keeps, readline-edit, readline-Keeps}
use arch.Console.Queue.{IsQueue, typed, first, rest, cons_getc_lem, put_char-full, window}
use arch.Text.Numbers.{strtol, printnum}
use arch.Text.RoundTrip.{strtol-printnum}

-- A buffer in which the characters wrap round: 97 at the last place, 98 at the first one.
abbrev wrapped : Cons
wrapped = record { buf = λ i. 97 + (i + 1) % 512; rpos = 511; wpos = 1 }

wrapped-IsQueue : IsQueue wrapped (97 ∷ 98 ∷ [])
wrapped-IsQueue = record { start = omega arith; content = refl; short = omega arith; end = refl }

cons_getc_lem_example :
    let ys = (97 ∷ 98 ∷ []) ++ typed (99 ∷ 0 ∷ []) ++ typed (10 ∷ []) in
    let r = cons_getc (99 ∷ 0 ∷ []) (10 ∷ []) wrapped in (r.0 ≡ first ys) × IsQueue r.1 (rest ys)
cons_getc_lem_example = cons_getc_lem (99 ∷ 0 ∷ []) (10 ∷ []) wrapped-IsQueue (omega arith)

-- A buffer with 511 characters, each of them 97.
abbrev full : Cons
full = record { buf = λ i. 97; rpos = 0; wpos = 511 }

full-IsQueue : IsQueue full (window full.buf 0 511)
full-IsQueue = record { start = omega arith; content = refl; short = omega arith; end = refl }

put_char-full_example : IsQueue (put_char 98 full) []
put_char-full_example = put_char-full 98 full-IsQueue refl (omega arith)

-- "hi" and "ho"
abbrev hi : List ℕ
hi = 104 ∷ 105 ∷ []

abbrev ho : List ℕ
ho = 104 ∷ 111 ∷ []

strtol-printnum_example : strtol (printnum 255 16 8 32 ++ (0 ∷ [])) 16 ≡ some (255, 0 ∷ [])
strtol-printnum_example = strtol-printnum 16 255 8 (inr (inr refl)) (omega arith)

-- A screen with the cursor in its last cell.
abbrev bottom : Screen
bottom = record { crt_buf = λ i. 0x720; crt_pos = 1999 }

cga_putc-OnScreen_example : OnScreen bottom (cga_putc 9 bottom)
cga_putc-OnScreen_example = cga_putc-OnScreen 9 bottom (omega arith)

-- The keys of "ab", the erase key, "c" and a newline, in an empty buffer.
abbrev keys : List ℕ
keys = 97 ∷ 98 ∷ 8 ∷ 99 ∷ 10 ∷ []

abbrev blank : Edit
blank = record { buf = λ j. 0; i = 0; echoed = [] }

readline-edit_example : text_of (readline keys blank) ≡ line (99 ∷ 97 ∷ [])
readline-edit_example = readline-edit keys blank

readline-Keeps_example : Keeps blank (readline keys blank)
readline-Keeps_example = readline-Keeps keys blank (omega arith)
