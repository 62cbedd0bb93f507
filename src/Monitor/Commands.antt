-- ===== src/Monitor/Commands.antt =====
-- Which command `runcmd` of kern/monitor.c calls.
use arch.Base.{
  ℕ, zero, suc, ◌+◌, ◌-◌, ◌≤◌, ◌<◌, ◌≡◌, ◌≢◌, refl, Option, none, some, List, [], ◌∷◌, ◌++◌, ◌==◌,
  ==_iff, length, arith, Bool-cases, inl, inr,
}
use arch.Text.Compare.{IsText, strcmp_lem}
use arch.Monitor.{
  is_space, Buffer, parse_args, Parsed, args, too_many, out_of_rounds, maxargs, Action, nothing,
  too_many_args, unknown, undefined, invoke, bytes_at, find_command, run_parsed, runcmd,
}
use arch.Monitor.Words.{Holds, words, at_break, cons_first}
use arch.Monitor.Arguments.{AllHold, AreWords, parse_args_lem}

-- The index of a name in a list of names that is counted from `i`, or `none`
pub data IsIndex (w : List ℕ) : (names : List (List ℕ)) → (i : ℕ) → Option ℕ → Type 0 where
  nowhere : (i : ℕ) → IsIndex w [] i none
  here : (n : List ℕ) (names : List (List ℕ)) (i : ℕ) → w ≡ n → IsIndex w (n ∷ names) i (some i)
  later :
      (n : List ℕ) (names : List (List ℕ)) (i : ℕ) (r : Option ℕ)
      → w ≢ n
      → IsIndex w names (i + 1) r
      → IsIndex w (n ∷ names) i r

-- "help", "kerninfo" and "backtrace"
abbrev pub command_texts : List (List ℕ)
command_texts =
    (104 ∷ 101 ∷ 108 ∷ 112 ∷ [])
    ∷ (107 ∷ 101 ∷ 114 ∷ 110 ∷ 105 ∷ 110 ∷ 102 ∷ 111 ∷ [])
    ∷ (98 ∷ 97 ∷ 99 ∷ 107 ∷ 116 ∷ 114 ∷ 97 ∷ 99 ∷ 101 ∷ [])
    ∷ []

abbrev ended : List (List ℕ) → List (List ℕ)
ended [] = []
ended (n ∷ ns) = (n ++ (0 ∷ [])) ∷ ended ns

abbrev AllText : List (List ℕ) → Type 0
AllText [] = Unit {0}
AllText (n ∷ ns) = IsText n × AllText ns

find_command-IsIndex :
    (ns : List (List ℕ)) (i : ℕ) (w x : List ℕ)
    → AllText ns
    → IsText w
    → (r : Option ℕ) × (find_command (ended ns) i (w ++ (0 ∷ x)) ≡ some r) × IsIndex w ns i r
unfolding find_command
find_command-IsIndex [] i w x all t = (none, refl, nowhere i)
find_command-IsIndex (n ∷ ns) i w x (tn, all) t =
    let (d, run, zero_iff) = strcmp_lem w n x [] t tn in
    elim (Bool-cases (d == 0)) [
      | inl same ↦ (
        some i,
        rw (find_command, run, same) refl,
        here n ns i (zero_iff.0 ((==_iff d 0).0 same)),
      )
      | inr differ ↦
          let (r, rest, index) = find_command-IsIndex ns (i + 1) w x all t in
          (
            r,
            rw (find_command, run, differ) rest,
            later n ns i r (λ e. ground (arith, zero_iff.1 e, differ)) index,
          )
    ]

AllText-cons_first :
    (c : ℕ) (ws : List (List ℕ)) → 0 < c → c < 256 → AllText ws → AllText (cons_first c ws)
AllText-cons_first c [] pos byte t = ((pos, byte, tt), tt)
AllText-cons_first c (w ∷ ws) pos byte (t, ts) = ((pos, byte, t), ts)

words-AllText : (s : List ℕ) → IsText s → AllText (words s)
words-AllText [] t = tt
words-AllText (c ∷ s) (pos, byte, t) =
    let rest = words-AllText s t in
    elim (Bool-cases (is_space c)) [
      | inl blank ↦ rw blank rest
      | inr word ↦ elim (Bool-cases (at_break s)) [
        | inl last ↦ rw (word, last) ((pos, byte, tt), rest)
        | inr more ↦ rw (word, more) (AllText-cons_first c (words s) pos byte rest)
      ]
    ]

bytes_at-Holds :
    (b : Buffer) (w : List ℕ) (p n : ℕ)
    → Holds b p w
    → length w < n
    → (x : List ℕ) × (bytes_at b p n ≡ w ++ (0 ∷ x))
bytes_at-Holds b w p zero h lt = absurd (omega arith)
bytes_at-Holds b [] p (suc n) h lt = (bytes_at b (p + 1) n, rw h refl)
bytes_at-Holds b (c ∷ w) p (suc n) (e, ne, h) lt =
    let (x, same) = bytes_at-Holds b w (p + 1) n h (omega arith) in (x, rw (e, same) refl)

command_texts-AllText : AllText command_texts
command_texts-AllText = (omega arith)

-- What is done with a line of the words `ws`: nothing without words, a message if they are too many or the
-- first is no command, and else the command of that name with the words for its arguments.
abbrev pub Performs : (bound : ℕ) → Action → (ws : List (List ℕ)) → Type 0
Performs bound nothing ws = ws ≡ []
Performs bound too_many_args ws = maxargs ≤ length ws
Performs bound unknown [] = ⊥
Performs bound unknown (w ∷ ws) = (length ws + 1 < maxargs) × IsIndex w command_texts 0 none
Performs bound undefined ws = ⊥
Performs bound (invoke i argv b) [] = ⊥
Performs bound (invoke i argv b) (w ∷ ws) =
    (length ws + 1 < maxargs) × IsIndex w command_texts 0 (some i) × AllHold b bound argv (w ∷ ws)

run_parsed-Performs :
    (size bound : ℕ) (r : Parsed) (ws : List (List ℕ))
    → bound < size
    → AllText ws
    → AreWords bound r ws
    → Performs bound (run_parsed size r) ws
unfolding run_parsed
run_parsed-Performs size bound (args [] b) [] lt t (all, few) = refl
run_parsed-Performs size bound (args [] b) (w ∷ ws) lt t (all, few) = absurd all
run_parsed-Performs size bound (args (p ∷ ps) b) [] lt t (all, few) = absurd all
run_parsed-Performs size bound (args (p ∷ ps) b) (w ∷ ws) lt (t, ts) ((k, in_it, all), few) =
    let (x, bytes) = bytes_at-Holds b w p (size - p) k (omega arith) in
    let (r, run, index) = find_command-IsIndex command_texts 0 w x command_texts-AllText t in
    rw (run_parsed, bytes, run) (dispatch r index)
  where
    dispatch :
        (r : Option ℕ)
        → IsIndex w command_texts 0 r
        → Performs bound (elim r [ none ↦ unknown | some i ↦ invoke i (p ∷ ps) b ]) (w ∷ ws)
    dispatch none index = (omega (arith, few), index)
    dispatch (some i) index = (omega (arith, few), index, (k, in_it, all))
run_parsed-Performs size bound too_many ws lt t many = many
run_parsed-Performs size bound out_of_rounds ws lt t undone = absurd undone

-- `runcmd` of a line that is shorter than its buffer: without words it returns 0, a line of more than 15
-- words or whose first word is no command gets a message, and any other calls the command that the first
-- word names, with the words for its arguments in order, each ended by a 0 inside the line.
pub runcmd_lem :
    (size : ℕ) (buf : Buffer) (line : List ℕ)
    → IsText line
    → Holds buf 0 line
    → length line < size
    → Performs (length line) (runcmd size buf) (words line)
unfolding runcmd
runcmd_lem size buf line t h fits =
    run_parsed-Performs size (length line) (parse_args (size + 1) buf 0 []) (words line) fits
      (words-AllText line t) (parse_args_lem size buf line h fits)
