-- ===== src/Monitor/Arguments.antt =====
-- What `runcmd` of kern/monitor.c takes a line for: its words, in order.
use mathlib.Core.List.{append_assoc, append-nil}
use arch.Base.{
  ℕ, zero, suc, ◌+◌, ◌-◌, ◌≤◌, ◌<◌, ◌≡◌, ◌≢◌, refl, ◌∙◌, sym, subst, true, false, none, some, List,
  [], ◌∷◌, ◌++◌, ◌==◌, ==_ne, ==_iff, length, length-append, if◌then◌else◌, arith, Bool-cases, inl,
  inr,
}
use arch.Monitor.{
  is_space, Buffer, gobble, scan, Parsed, args, too_many, out_of_rounds, parse_args, maxargs,
}
use arch.Monitor.Words.{
  Holds, at_break, words, first_word, after_word, gobble-Gobbled, scan_lem, Holds-after_word,
  Holds-first_word, at_break-after_word, length-first_word, words-first_word,
}

-- Each argument is the text of its word, with a 0 behind it that is not past `bound`.
abbrev pub AllHold : Buffer → (bound : ℕ) → (argv : List ℕ) → (ws : List (List ℕ)) → Type 0
AllHold b bound [] [] = Unit {0}
AllHold b bound [] (w ∷ ws) = ⊥
AllHold b bound (p ∷ ps) [] = ⊥
AllHold b bound (p ∷ ps) (w ∷ ws) = Holds b p w × (p + length w ≤ bound) × AllHold b bound ps ws

-- The words are at most 15 and the arguments are their texts, or they are more and are refused.
abbrev pub AreWords : (bound : ℕ) → Parsed → (ws : List (List ℕ)) → Type 0
AreWords bound (args argv b) ws = AllHold b bound argv ws × (length ws < maxargs)
AreWords bound too_many ws = maxargs ≤ length ws
AreWords bound out_of_rounds ws = ⊥

Holds-below :
    (b b' : Buffer) (w : List ℕ) (p : ℕ)
    → ((a : ℕ) → a ≤ p + length w → b' a ≡ b a)
    → Holds b p w
    → Holds b' p w
Holds-below b b' [] p same h = same p (omega arith) ∙ h
Holds-below b b' (c ∷ w) p same (e, ne, h) =
    (same p (omega arith) ∙ e, ne, Holds-below b b' w (p + 1) (λ a le. same a (omega arith)) h)

AllHold-snoc :
    (b b' : Buffer) (m n : ℕ) (argv : List ℕ) (ws : List (List ℕ)) (q : ℕ) (w : List ℕ)
    → ((a : ℕ) → a ≤ m → b' a ≡ b a)
    → m ≤ n
    → AllHold b m argv ws
    → Holds b' q w
    → q + length w ≤ n
    → AllHold b' n (argv ++ (q ∷ [])) (ws ++ (w ∷ []))
AllHold-snoc b b' m n [] [] q w same le all h at = (h, at, tt)
AllHold-snoc b b' m n [] (v ∷ ws) q w same le all h at = absurd all
AllHold-snoc b b' m n (p ∷ ps) [] q w same le all h at = absurd all
AllHold-snoc b b' m n (p ∷ ps) (v ∷ ws) q w same le (k, in_it, all) h at = (
  Holds-below b b' v p (λ a l. same a (omega arith)) k,
  omega arith,
  AllHold-snoc b b' m n ps ws q w same le all h at,
)

AllHold-weaken :
    (b : Buffer) (m n : ℕ) (argv : List ℕ) (ws : List (List ℕ))
    → m ≤ n
    → AllHold b m argv ws
    → AllHold b n argv ws
AllHold-weaken b m n [] [] le all = all
AllHold-weaken b m n [] (v ∷ ws) le all = absurd all
AllHold-weaken b m n (p ∷ ps) [] le all = absurd all
AllHold-weaken b m n (p ∷ ps) (v ∷ ws) le (k, in_it, all) =
    (k, omega arith, AllHold-weaken b m n ps ws le all)

length-AllHold :
    (b : Buffer) (m : ℕ) (argv : List ℕ) (ws : List (List ℕ))
    → AllHold b m argv ws
    → length argv ≡ length ws
length-AllHold b m [] [] all = refl
length-AllHold b m [] (v ∷ ws) all = absurd all
length-AllHold b m (p ∷ ps) [] all = absurd all
length-AllHold b m (p ∷ ps) (v ∷ ws) (k, in_it, all) = omega (arith, length-AllHold b m ps ws all)

-- The arguments so far are texts as soon as there is a 0 where the loop stands.
abbrev Ready : Buffer → (p : ℕ) → (s : List ℕ) → (argv : List ℕ) → (ws : List (List ℕ)) → Type 0
Ready buf p s argv ws =
    (b : Buffer)
    → ((a : ℕ) → a < p → b a ≡ buf a)
    → (at_break s ≡ true → b p ≡ 0)
    → AllHold b p argv ws

is_other : (a b : ℕ) → (a == b) ≡ false → a ≢ b
is_other a b h = ground arith

-- That the loop finds the words, in `rounds` rounds
abbrev Finds : ℕ → Type 0
Finds rounds =
    (buf : Buffer) (p bound : ℕ) (s : List ℕ) (argv : List ℕ) (ws : List (List ℕ))
    → Holds buf p s
    → length s < rounds
    → Ready buf p s argv ws
    → length ws < maxargs
    → p + length s ≤ bound
    → AreWords bound (parse_args rounds buf p argv) (ws ++ words s)

-- The rest of a round of the loop, behind the blanks
abbrev resume : (rounds : ℕ) → Buffer → (q : ℕ) → (argv : List ℕ) → Parsed
resume rounds b q argv =
    let next : Parsed = elim (scan (suc rounds) b q) [
      | none ↦ out_of_rounds
      | some r ↦ parse_args rounds b r (argv ++ (q ∷ []))
    ] in
    if b q == 0 then args argv b else if length argv == maxargs - 1 then too_many else next

parse_args-resume :
    (rounds : ℕ) (buf : Buffer) (p : ℕ) (b : Buffer) (q : ℕ) (argv : List ℕ)
    → gobble (suc rounds) buf p ≡ some (b, q)
    → parse_args (suc rounds) buf p argv ≡ resume rounds b q argv
unfolding parse_args
parse_args-resume rounds buf p b q argv run = rw (parse_args, run) refl

module _ (rounds : ℕ) (b : Buffer) (p q bound : ℕ) (argv : List ℕ) (ws : List (List ℕ))
    (onward : p ≤ q) (all : AllHold b p argv ws) where
  Ready-snoc :
      (s : List ℕ)
      → Holds b q s
      → 0 < length (first_word s)
      → Ready b
          (q + length (first_word s))
          (after_word s)
          (argv ++ (q ∷ []))
          (ws ++ (first_word s ∷ []))
  Ready-snoc s h some_word b' same ends =
      AllHold-snoc b b' p (q + length (first_word s)) argv ws q (first_word s)
        (λ a le. same a (omega (arith, le, onward, some_word))) (omega (arith, onward)) all
        (Holds-first_word b b' q s h same (ends (at_break-after_word s))) (omega arith)

  resume-word :
      (s : List ℕ)
      → Finds rounds
      → Holds b q s
      → b q ≢ 0
      → 0 < length (first_word s)
      → length s < suc rounds
      → length ws < maxargs
      → q + length s ≤ bound
      → AreWords bound (resume rounds b q argv) (ws ++ (first_word s ∷ words (after_word s)))
  resume-word s rec h ne some_word enough few fits =
      let w = first_word s in
      let rest = words (after_word s) in
      let size = length-append ws (w ∷ rest) in
      let same_size = length-AllHold b p argv ws all in
      elim (Bool-cases (length argv == maxargs - 1)) [
        | inl full ↦
            rw (==_ne (b q) 0 ne, full) omega
              (arith, size, same_size, (==_iff (length argv) 15).0 full)
        | inr room ↦
            rw (==_ne (b q) 0 ne, room, scan_lem (suc rounds) b q s h enough)
              (subst (λ v. AreWords bound (parse_args rounds b (q + length w) (argv ++ (q ∷ []))) v)
                (append_assoc ws (w ∷ []) rest)
                (rec b (q + length w) bound (after_word s) (argv ++ (q ∷ [])) (ws ++ (w ∷ []))
                  (Holds-after_word b q s h) (omega (arith, length-first_word s))
                  (Ready-snoc s h some_word)
                  (omega
                    (arith, length-append ws (w ∷ []), same_size, is_other (length argv) 15 room))
                  (omega (arith, fits, length-first_word s))))
      ]

  resume-AreWords :
      (s : List ℕ)
      → Finds rounds
      → Holds b q s
      → ((c : ℕ) (t : List ℕ) → s ≡ c ∷ t → is_space c ≡ false)
      → length s < suc rounds
      → length ws < maxargs
      → q + length s ≤ bound
      → AreWords bound (resume rounds b q argv) (ws ++ words s)
  resume-AreWords [] rec h no_blank enough few fits =
      rw (h, append-nil ws)
        (AllHold-weaken b p bound argv ws (omega (arith, onward, fits)) all, few)
  resume-AreWords (c ∷ t) rec (e, ne, h) no_blank enough few fits =
      let word = no_blank c t refl in
      let some_word : 0 < length (first_word (c ∷ t)) = (rw word omega arith) in
      subst (λ v. AreWords bound (resume rounds b q argv) (ws ++ v))
        (sym (words-first_word c t word))
        (resume-word (c ∷ t) rec (e, ne, h) (rw e ne) some_word enough few fits)

parse_args-AreWords :
    (rounds : ℕ) (buf : Buffer) (p bound : ℕ) (s : List ℕ) (argv : List ℕ) (ws : List (List ℕ))
    → Holds buf p s
    → length s < rounds
    → Ready buf p s argv ws
    → length ws < maxargs
    → p + length s ≤ bound
    → AreWords bound (parse_args rounds buf p argv) (ws ++ words s)
parse_args-AreWords zero buf p bound s argv ws h enough ready few fits = absurd (omega arith)
parse_args-AreWords (suc rounds) buf p bound s argv ws h enough ready few fits =
    let (b, q, s', run, g) = gobble-Gobbled (suc rounds) buf p s h enough in
    let all = ready b g.before g.ends in
    rw (parse_args-resume rounds buf p b q argv run) (
      subst (λ v. AreWords bound (resume rounds b q argv) (ws ++ v)) g.same_words
        (resume-AreWords rounds b p q bound argv ws g.onward all s' (parse_args-AreWords rounds)
          g.holds g.no_blank (omega (arith, g.place, g.onward)) few (omega (arith, g.place))))

-- The loop takes a line for its words in order, each argument the text of its word with a 0 behind it
-- inside the line, and refuses a line exactly if it has more than 15 words.
pub parse_args_lem :
    (size : ℕ) (buf : Buffer) (line : List ℕ)
    → Holds buf 0 line
    → length line < size
    → AreWords (length line) (parse_args (size + 1) buf 0 []) (words line)
parse_args_lem size buf line h fits =
    parse_args-AreWords (size + 1) buf 0 (length line) line [] [] h (omega arith)
      (λ b same ends. tt) (omega arith) (omega arith)
