-- ===== src/Monitor/Words.antt =====
-- The words of a line, and what the two inner loops of `runcmd` of kern/monitor.c do to it.
use arch.Base.{
  ℕ, zero, suc, ◌+◌, ◌≤◌, ◌<◌, ◌≡◌, ◌≢◌, refl, ◌∙◌, ap, sym, Bool, true, false, some, List, [], ◌∷◌,
  ==_ne, ==_refl, length, if◌then◌else◌, update, subst, arith, Bool-cases, inl, inr,
}
use arch.Monitor.{is_space, Buffer, gobble, scan}

-- The characters from `p` on are those of a text, and a 0 is behind them.
abbrev pub Holds : Buffer → (p : ℕ) → List ℕ → Type 0
Holds buf p [] = buf p ≡ 0
Holds buf p (c ∷ s) = (buf p ≡ c) × (c ≢ 0) × Holds buf (p + 1) s

-- A first character put in front of the first word, or a word of its own if the text goes on with a
-- blank.
abbrev pub cons_first : ℕ → List (List ℕ) → List (List ℕ)
cons_first c [] = (c ∷ []) ∷ []
cons_first c (w ∷ ws) = (c ∷ w) ∷ ws

abbrev pub at_break : List ℕ → Bool
at_break [] = true
at_break (c ∷ s) = is_space c

-- The words of a text, the longest runs of characters that are not blank
abbrev pub words : List ℕ → List (List ℕ)
words [] = []
words (c ∷ s) =
    if is_space c
    then words s
    else if at_break s
    then (c ∷ []) ∷ words s
    else cons_first c (words s)

pub Holds-frame :
    (b b' : Buffer) (s : List ℕ) (p : ℕ)
    → ((a : ℕ) → p ≤ a → b' a ≡ b a)
    → Holds b p s
    → Holds b' p s
Holds-frame b b' [] p same h = same p (omega arith) ∙ h
Holds-frame b b' (c ∷ s) p same (e, ne, h) =
    (same p (omega arith) ∙ e, ne, Holds-frame b b' s (p + 1) (λ a le. same a (omega arith)) h)

-- What `gobble` leaves: the text behind the blanks, the same words, and a 0 in place of each blank.
pub record Gobbled (buf : Buffer) (p : ℕ) (s : List ℕ) (b : Buffer) (q : ℕ) (s' : List ℕ)
    : Type 0 where
  pub holds : Holds b q s'
  pub same_words : words s' ≡ words s
  pub no_blank : (c : ℕ) (t : List ℕ) → s' ≡ c ∷ t → is_space c ≡ false
  pub before : (a : ℕ) → a < p → b a ≡ buf a
  pub ends : at_break s ≡ true → b p ≡ 0
  pub onward : p ≤ q
  pub place : q + length s' ≡ p + length s

pub gobble-Gobbled :
    (rounds : ℕ) (buf : Buffer) (p : ℕ) (s : List ℕ)
    → Holds buf p s
    → length s < rounds
    → (b : Buffer) × (q : ℕ) × (s' : List ℕ) × (gobble rounds buf p ≡ some (b, q))
      × Gobbled buf p s b q s'
unfolding gobble
gobble-Gobbled zero buf p s h enough = absurd (omega arith)
gobble-Gobbled (suc rounds) buf p [] h enough = (
  buf,
  p,
  [],
  rw h refl,
  record {
    holds = h;
    same_words = refl;
    no_blank = λ c t e. cc e;
    before = λ a lt. refl;
    ends = λ e. h;
    onward = omega arith;
    place = refl;
  },
)
gobble-Gobbled (suc rounds) buf p (c ∷ s) (e, ne, h) enough = elim (Bool-cases (is_space c)) [
  | inr word ↦ (
    buf,
    p,
    c ∷ s,
    rw (e, ==_ne c 0 ne, word) refl,
    record {
      holds = (e, ne, h);
      same_words = refl;
      no_blank = λ d t q. let same : c ≡ d = (cc q) in rw (← same) word;
      before = λ a lt. refl;
      ends = λ q. cc (word, q);
      onward = omega arith;
      place = refl;
    },
  )
  | inl blank ↦
      let buf1 : Buffer = update buf p 0 in
      let off : (a : ℕ) → a ≢ p → buf1 a ≡ buf a = λ a q. rw (==_ne a p q) refl in
      let (b, q, s', run, g) =
        gobble-Gobbled rounds buf1 (p + 1) s
          (Holds-frame buf buf1 s (p + 1) (λ a le. off a (omega arith)) h) (omega arith) in
      (
        b,
        q,
        s',
        rw (e, ==_ne c 0 ne, blank) run,
        record {
          holds = g.holds;
          same_words = g.same_words ∙ rw blank refl;
          no_blank = g.no_blank;
          before = λ a lt. g.before a (omega arith) ∙ off a (omega arith);
          ends = λ q. g.before p (omega arith) ∙ rw (==_refl p) refl;
          onward = omega (arith, g.onward);
          place = omega (arith, g.place);
        },
      )
]

-- The first word of a text that does not begin with a blank, and what is behind it
abbrev pub first_word : List ℕ → List ℕ
first_word [] = []
first_word (c ∷ s) = if is_space c then [] else c ∷ first_word s

abbrev pub after_word : List ℕ → List ℕ
after_word [] = []
after_word (c ∷ s) = if is_space c then c ∷ s else after_word s

-- `scan` stops behind the first word.
pub scan_lem :
    (rounds : ℕ) (buf : Buffer) (p : ℕ) (s : List ℕ)
    → Holds buf p s
    → length s < rounds
    → scan rounds buf p ≡ some (p + length (first_word s))
unfolding scan
scan_lem zero buf p s h enough = absurd (omega arith)
scan_lem (suc rounds) buf p [] h enough = rw h (ap some (omega arith))
scan_lem (suc rounds) buf p (c ∷ s) (e, ne, h) enough = elim (Bool-cases (is_space c)) [
  | inl blank ↦ rw (e, ==_ne c 0 ne, blank) (ap some (omega arith))
  | inr word ↦
      rw (e, ==_ne c 0 ne, word)
        (scan_lem rounds buf (p + 1) s h (omega arith) ∙ ap some (omega arith))
]

pub Holds-after_word :
    (buf : Buffer) (p : ℕ) (s : List ℕ)
    → Holds buf p s
    → Holds buf (p + length (first_word s)) (after_word s)
Holds-after_word buf p [] h = subst (λ n. buf n ≡ 0) (omega arith) h
Holds-after_word buf p (c ∷ s) (e, ne, h) = elim (Bool-cases (is_space c)) [
  | inl blank ↦ rw blank (subst (λ n. Holds buf n (c ∷ s)) (omega arith) (e, ne, h))
  | inr word ↦
      rw word
        (subst (λ n. Holds buf n (after_word s)) (omega arith) (Holds-after_word buf (p + 1) s h))
]

pub Holds-first_word :
    (buf b : Buffer) (p : ℕ) (s : List ℕ)
    → Holds buf p s
    → ((a : ℕ) → a < p + length (first_word s) → b a ≡ buf a)
    → b (p + length (first_word s)) ≡ 0
    → Holds b p (first_word s)
Holds-first_word buf b p [] h same end = subst (λ n. b n ≡ 0) (omega arith) end
Holds-first_word buf b p (c ∷ s) (e, ne, h) same end = elim (Bool-cases (is_space c)) [
  | inl blank ↦
      let size : length (first_word (c ∷ s)) ≡ 0 = (rw blank refl) in
      rw blank (subst (λ n. b n ≡ 0) (omega (arith, size)) end)
  | inr word ↦
      let size : length (first_word (c ∷ s)) ≡ suc (length (first_word s)) = (rw word refl) in
      rw word (
        same p (omega (arith, size)) ∙ e,
        ne,
        Holds-first_word buf b (p + 1) s h (λ a lt. same a (omega (arith, size)))
            (subst (λ n. b n ≡ 0) (omega (arith, size)) end),
      )
]

pub at_break-after_word : (s : List ℕ) → at_break (after_word s) ≡ true
at_break-after_word [] = refl
at_break-after_word (c ∷ s) = elim (Bool-cases (is_space c)) [
  | inl blank ↦ rw blank (rw blank refl)
  | inr word ↦ let rest = at_break-after_word s in rw word rest
]

pub length-first_word : (s : List ℕ) → length (first_word s) + length (after_word s) ≡ length s
length-first_word [] = refl
length-first_word (c ∷ s) = elim (Bool-cases (is_space c)) [
  | inl blank ↦ rw blank omega arith
  | inr word ↦ let rest = length-first_word s in rw word omega (arith, rest)
]

pub words-first_word :
    (c : ℕ) (s : List ℕ)
    → is_space c ≡ false
    → words (c ∷ s) ≡ first_word (c ∷ s) ∷ words (after_word (c ∷ s))
words-first_word c [] word = rw word refl
words-first_word c (d ∷ s) word = elim (Bool-cases (is_space d)) [
  | inl blank ↦ rw (word, blank) (rw blank refl)
  | inr next ↦
      let step : words (c ∷ d ∷ s) ≡ cons_first c (words (d ∷ s)) = (rw (word, next) refl) in
      let split : first_word (c ∷ d ∷ s) ∷ words (after_word (c ∷ d ∷ s))
          ≡ cons_first c (first_word (d ∷ s) ∷ words (after_word (d ∷ s))) =
        (rw word refl) in
      step ∙ ap (cons_first c) (words-first_word d s next) ∙ sym split
]
