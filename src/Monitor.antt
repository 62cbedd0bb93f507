-- ===== src/Monitor.antt =====
-- `runcmd` of kern/monitor.c: how it takes a line apart and finds the command. A pointer into the line
-- is the position in it.
pub mod Words
pub mod Arguments
pub mod Commands
use arch.Base.{
  ℕ, zero, suc, ◌+◌, ◌-◌, Bool, true, false, ◌&&◌, not, Option, none, some, List, [], ◌∷◌, ◌++◌,
  ◌==◌, length, if◌then◌else◌, update, is_null,
}
use arch.Text.Strings.{strchr, strcmp}

-- MAXARGS
abbrev pub maxargs : ℕ
maxargs = 16

-- WHITESPACE, with its final 0
abbrev pub whitespace : List ℕ
whitespace = 9 ∷ 13 ∷ 10 ∷ 32 ∷ 0 ∷ []

-- `strchr(WHITESPACE, c)` as a condition
unfoldable pub is_space : ℕ → Bool
is_space c = elim (strchr whitespace c) [ none ↦ false | some found ↦ not (is_null found) ]

abbrev pub Buffer : Type 0
Buffer = ℕ → ℕ

-- "gobble whitespace", with the rounds that the model allows
unfoldable pub gobble : (rounds : ℕ) → Buffer → (p : ℕ) → Option (Buffer × ℕ)
gobble zero buf p = none
gobble (suc rounds) buf p =
    let rest = gobble rounds (update buf p 0) (p + 1) in
    if not (buf p == 0) && is_space (buf p) then rest else some (buf, p)

-- "scan past next arg"
unfoldable pub scan : (rounds : ℕ) → Buffer → (p : ℕ) → Option ℕ
scan zero buf p = none
scan (suc rounds) buf p =
    let rest = scan rounds buf (p + 1) in
    if not (buf p == 0) && not (is_space (buf p)) then rest else some p

-- What the loop finds: the arguments, with the line as it is then; more than MAXARGS - 1 of them; or
-- the model's own bound.
pub data Parsed : Type 0 where
  args : (argv : List ℕ) → Buffer → Parsed
  too_many out_of_rounds : Parsed

-- The loop, with the arguments so far.
unfoldable pub parse_args : (rounds : ℕ) → Buffer → (p : ℕ) → (argv : List ℕ) → Parsed
parse_args zero buf p argv = out_of_rounds
parse_args (suc rounds) buf p argv = elim (gobble (suc rounds) buf p) [
  | none ↦ out_of_rounds
  | some (b, q) ↦
      let next : Parsed = elim (scan (suc rounds) b q) [
        | none ↦ out_of_rounds
        | some r ↦ parse_args rounds b r (argv ++ (q ∷ []))
      ] in
      if b q == 0 then args argv b else if length argv == maxargs - 1 then too_many else next
]

-- What `runcmd` does with the line: it returns 0, or it calls the command with that index.
pub data Action : Type 0 where
  nothing too_many_args unknown undefined : Action
  invoke : (command : ℕ) → (argv : List ℕ) → Buffer → Action

abbrev pub bytes_at : Buffer → (p n : ℕ) → List ℕ
bytes_at buf p zero = []
bytes_at buf p (suc n) = buf p ∷ bytes_at buf (p + 1) n

-- "help", "kerninfo" and "backtrace", in the order of `commands`
abbrev pub command_names : List (List ℕ)
command_names =
    (104 ∷ 101 ∷ 108 ∷ 112 ∷ 0 ∷ [])
    ∷ (107 ∷ 101 ∷ 114 ∷ 110 ∷ 105 ∷ 110 ∷ 102 ∷ 111 ∷ 0 ∷ [])
    ∷ (98 ∷ 97 ∷ 99 ∷ 107 ∷ 116 ∷ 114 ∷ 97 ∷ 99 ∷ 101 ∷ 0 ∷ [])
    ∷ []

-- The loop over the commands from the index `i` on, for the bytes of `argv[0]`.
unfoldable pub find_command : (names : List (List ℕ)) → (i : ℕ) → List ℕ → Option (Option ℕ)
find_command [] i name = some none
find_command (n ∷ ns) i name =
    let rest = find_command ns (i + 1) name in
    elim (strcmp name n) [ none ↦ none | some r ↦ if r == 0 then some (some i) else rest ]

-- The line lies in a buffer of `size` bytes.
unfoldable pub run_parsed : (size : ℕ) → Parsed → Action
run_parsed size (args [] b) = nothing
run_parsed size (args (p ∷ ps) b) = elim (find_command command_names 0 (bytes_at b p (size - p))) [
  | none ↦ undefined
  | some none ↦ unknown
  | some (some i) ↦ invoke i (p ∷ ps) b
]
run_parsed size too_many = too_many_args
run_parsed size out_of_rounds = undefined

unfoldable pub runcmd : (size : ℕ) → Buffer → Action
runcmd size buf = run_parsed size (parse_args (size + 1) buf 0 [])
