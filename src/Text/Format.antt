-- ===== src/Text/Format.antt =====
-- `vprintfmt` of lib/printfmt.c: the characters that it puts, for a format without its final 0 and a
-- list of arguments. A width or precision of more than 31 bits overflows an `int`, and `%e` of the
-- least `int` reads outside the table of messages: the model ends there, as it does where an argument
-- is missing. A negative `*` argument stands for any negative width: the code counts it down once for
-- each character of the conversion, and the model leaves out that this can pass the least `int`.
pub mod Fuel
use arch.Base.{
  ℕ, zero, suc, ◌+◌, ◌-◌, ◌*◌, ◌%◌, ◌^◌, min, Bool, true, false, ◌&&◌, ◌||◌, not, Option, none,
  some, List, [], ◌∷◌, ◌++◌, ◌==◌, if◌then◌else◌, leb, ltb, length, take, replicate,
}
use arch.Kern.Layout.{is_neg}
use arch.Text.Messages.{error_string}
use arch.Text.Numbers.{printnum}

-- An argument: a 32-bit word, a 64-bit one, or a string, which may be NULL.
pub data Arg : Type 0 where
  word long_long : ℕ → Arg
  string : Option (List ℕ) → Arg

-- The local variables for one escape sequence; a width or precision is none where it is negative.
pub record Spec : Type 0 where
  pub padc : ℕ
  pub width : Option ℕ
  pub precision : Option ℕ
  pub lflag : ℕ
  pub altflag : Bool

abbrev pub fresh_spec : Spec
fresh_spec = record { padc = 32; width = none; precision = none; lflag = 0; altflag = false }

-- `process_precision`
abbrev pub process_precision : Option ℕ → Spec → Spec
process_precision n s = elim s.width [
  | none ↦ record s { width = n; precision = none }
  | some w ↦ record s { precision = n }
]

-- What `printnum` makes of a negative width
abbrev pub width_of : Spec → ℕ
width_of s = elim s.width [ none ↦ 0 | some w ↦ w ]

-- How an escape sequence ends: it put characters, or is to be printed literally, or the C code does
-- not say how it goes on, since an argument is not there or an `int` overflows.
pub data Escape : Type 0 where
  put : (out rest : List ℕ) → (args : List Arg) → Escape
  literal : (args : List Arg) → Escape
  undefined : Escape

abbrev pub put_number : (base num : ℕ) → Spec → (sign rest : List ℕ) → List Arg → Escape
put_number base num s sign rest args = put (sign ++ printnum num base (width_of s) s.padc) rest args

-- `getuint`
abbrev pub getuint : (base : ℕ) → Spec → (rest : List ℕ) → List Arg → Escape
getuint base s rest (word v ∷ args) =
    if leb 2 s.lflag then undefined else put_number base v s [] rest args
getuint base s rest (long_long v ∷ args) =
    if leb 2 s.lflag then put_number base v s [] rest args else undefined
getuint base s rest args = undefined

-- A signed number of `bits` bits in decimal
abbrev pub put_signed : (half v : ℕ) → Spec → (rest : List ℕ) → List Arg → Escape
put_signed half v s rest args =
    if leb half v
    then put_number 10 (half * 2 - v) s (45 ∷ []) rest args
    else put_number 10 v s [] rest args

-- `getint` and the decimal case. The least `long long` has no negative.
abbrev pub getint : Spec → (rest : List ℕ) → List Arg → Escape
getint s rest (word v ∷ args) =
    if leb 2 s.lflag then undefined else put_signed (2 ^ 31) v s rest args
getint s rest (long_long v ∷ args) =
    if leb 2 s.lflag && not (v == 2 ^ 63) then put_signed (2 ^ 63) v s rest args else undefined
getint s rest args = undefined

abbrev pub filtered : Bool → List ℕ → List ℕ
filtered alt [] = []
filtered alt (c ∷ cs) = (if alt && (ltb c 32 || ltb 126 c) then 63 else c) ∷ filtered alt cs

-- The characters of a string that the precision lets through
abbrev pub shown : Option ℕ → List ℕ → List ℕ
shown none p = p
shown (some n) p = take n p

-- The string case: padding on the left, the characters, padding on the right
abbrev pub put_string : Spec → List ℕ → List ℕ
put_string s p =
    let out = shown s.precision p in
    let gap = width_of s - length out in
    if s.padc == 45
    then filtered s.altflag out ++ replicate gap 32
    else replicate gap s.padc ++ filtered s.altflag out

-- "(null)"
abbrev pub null_text : List ℕ
null_text = 40 ∷ 110 ∷ 117 ∷ 108 ∷ 108 ∷ 41 ∷ []

-- The error case: the message, or "error " and the number. The least `int` has no negative, and is
-- no index of the table.
abbrev pub put_error : ℕ → List ℕ
put_error v =
    let err = if is_neg v then 2 ^ 32 - v else v in
    elim (error_string err) [
      | none ↦ 101 ∷ 114 ∷ 114 ∷ 111 ∷ 114 ∷ 32 ∷ printnum err 10 0 32
      | some p ↦ p
    ]

-- `va_arg` of an `int`, and of a `char *`, where NULL stands for "(null)"
abbrev pub on_word : (ℕ → List Arg → Escape) → List Arg → Escape
on_word f (word v ∷ args) = f v args
on_word f args = undefined

abbrev pub on_string : (List ℕ → List Arg → Escape) → List Arg → Escape
on_string f (string none ∷ args) = f null_text args
on_string f (string (some p) ∷ args) = f p args
on_string f args = undefined

-- The cases that end an escape sequence
unfoldable pub convert : (ch : ℕ) → Spec → (rest : List ℕ) → List Arg → Escape
convert ch s rest args =
    if ch == 99
    then on_word (λ v. put (v ∷ []) rest) args
    else if ch == 101
    then on_word (λ v args'. if v == 2 ^ 31 then undefined else put (put_error v) rest args') args
    else if ch == 115
    then on_string (λ p. put (put_string s p) rest) args
    else if ch == 100
    then getint s rest args
    else if ch == 117
    then getuint 10 s rest args
    else if ch == 111
    then getuint 8 s rest args
    else if ch == 112
    then on_word (λ v. put_number 16 v s (48 ∷ 120 ∷ []) rest) args
    else if ch == 120
    then getuint 16 s rest args
    else if ch == 37
    then put (37 ∷ []) rest args
    else literal args

abbrev pub is_digit : ℕ → Bool
is_digit ch = leb 48 ch && leb ch 57

-- The cases that go on with the next character, `next` behind a flag and `number` behind the first
-- digit of a number; `ch` is not in a number.
abbrev pub flag :
    (ch : ℕ)
    → Spec
    → (rest : List ℕ) → List Arg
    → (next : Spec → List Arg → Escape) (number : ℕ → Escape) → Escape
flag ch s rest args next number =
    if ch == 45
    then next (record s { padc = 45 }) args
    else if ch == 48
    then next (record s { padc = 48 }) args
    else if is_digit ch
    then number (ch - 48)
    else if ch == 42
    then on_word (λ v. next (process_precision (if is_neg v then none else some v) s)) args
    else if ch == 46
    then next (record s { width = elim s.width [ none ↦ some 0 | some w ↦ some w ] }) args
    else if ch == 35
    then next (record s { altflag = true }) args
    else if ch == 108
    then next (record s { lflag = s.lflag + 1 }) args
    else convert ch s rest args

-- The escape sequence behind a `%`: from `reswitch` on, or in the loop that reads a number, an `int`.
unfoldable pub escape : List ℕ → (number : Option ℕ) → Spec → List Arg → Escape
escape [] number s args = literal args
escape (ch ∷ rest) none s args =
    flag ch s rest args (λ s'. escape rest none s') (λ d. escape rest (some d) s args)
escape (ch ∷ rest) (some n) s args =
    let s' = process_precision (some n) s in
    let more = escape rest (some (n * 10 + (ch - 48))) s args in
    if is_digit ch
    then (if leb (2 ^ 31) (n * 10 + ch) then undefined else more)
    else flag ch s' rest args (λ t. escape rest none t) (λ d. escape rest (some d) s' args)

-- The characters put, or an escape sequence that is undefined, or the model's own bound.
pub data Printed : Type 0 where
  chars : List ℕ → Printed
  missing : Printed
  out_of_rounds : Printed

abbrev pub prepend : List ℕ → Printed → Printed
prepend out (chars cs) = chars (out ++ cs)
prepend out missing = missing
prepend out out_of_rounds = out_of_rounds

-- What follows an escape sequence. An unknown one is printed as it stands, from behind its `%` on.
abbrev pub after : (go : List ℕ → List Arg → Printed) → (rest : List ℕ) → Escape → Printed
after go rest (put out rest' args) = prepend out (go rest' args)
after go rest (literal args) = prepend (37 ∷ []) (go rest args)
after go rest undefined = missing

-- The outer loop, for at most `fuel` characters and escape sequences.
unfoldable pub print_format : (fuel : ℕ) → List ℕ → List Arg → Printed
print_format zero fmt args = out_of_rounds
print_format (suc fuel) [] args = chars []
print_format (suc fuel) (c ∷ rest) args =
    if c == 37
    then after (print_format fuel) rest (escape rest none fresh_spec args)
    else prepend (c ∷ []) (print_format fuel rest args)

unfoldable pub vprintfmt : List ℕ → List Arg → Printed
vprintfmt fmt args = print_format (length fmt + 1) fmt args
