-- ===== src/Console/Queue.antt =====
-- The input buffer of kern/console.c is a queue of characters.
use arch.Base.{
  ℕ, zero, suc, ◌+◌, ◌%◌, ◌<◌, ◌≡◌, refl, ◌≢◌, true, false, List, [], ◌∷◌, ◌++◌, arith, ◌∙◌, ap,
  sym,
}
use native.Mathlib.Nat.{add-zero}
use mathlib.Core.List.{append_assoc, append-nil}
use arch.Base.{
  ==_ne, ==_refl, ◌==◌, if◌then◌else◌, update, length, length-append, Bool-cases, inl, inr,
}
use arch.Console.{Cons, consbufsize, advance, put_char, cons_intr, take_char, cons_getc}

-- `n` characters from position `p` on, round the buffer.
abbrev pub window : (ℕ → ℕ) → (p n : ℕ) → List ℕ
window buf p zero = []
window buf p (suc n) = buf (p % consbufsize) ∷ window buf (p + 1) n

-- The buffer holds the characters `xs`, the oldest first.
pub record IsQueue (s : Cons) (xs : List ℕ) : Type 0 where
  pub start : s.rpos < consbufsize
  pub content : window s.buf s.rpos (length xs) ≡ xs
  pub short : length xs < consbufsize
  pub end : s.wpos ≡ (s.rpos + length xs) % consbufsize

-- What a device types: its characters but for 0, as bytes.
abbrev pub typed : List ℕ → List ℕ
typed [] = []
typed (c ∷ cs) = if c == 0 then typed cs else c % 256 ∷ typed cs

window-mod :
    (buf : ℕ → ℕ) (n p q : ℕ) → p % consbufsize ≡ q % consbufsize → window buf p n ≡ window buf q n
window-mod buf zero p q e = refl
window-mod buf (suc n) p q e = rw (e, window-mod buf n (p + 1) (q + 1) (omega arith)) refl

window-snoc :
    (buf : ℕ → ℕ) (n p : ℕ)
    → window buf p (suc n) ≡ window buf p n ++ (buf ((p + n) % consbufsize) ∷ [])
window-snoc buf zero p = ap (λ q. buf (q % consbufsize) ∷ []) (sym (add-zero p))
window-snoc buf (suc n) p =
    ap (λ ys. buf (p % consbufsize) ∷ ys)
      (window-snoc buf n (p + 1)
        ∙ ap (λ q. window buf (p + 1) n ++ (buf (q % consbufsize) ∷ [])) (next p n))
  where
    next : (a b : ℕ) → a + 1 + b ≡ a + suc b
    next a b = omega arith

window-update :
    (buf : ℕ → ℕ) (w c n p : ℕ)
    → ((i : ℕ) → i < n → (p + i) % consbufsize ≢ w)
    → window (update buf w c) p n ≡ window buf p n
window-update buf w c zero p off = refl
window-update buf w c (suc n) p off =
    rw (==_ne (p % consbufsize) w here)
      (ap (λ ys. buf (p % consbufsize) ∷ ys) (window-update buf w c n (p + 1) later))
  where
    here : p % consbufsize ≢ w
    here e = off 0 (omega arith) (rw add-zero e)

    next : (a b : ℕ) → a + 1 + b ≡ a + suc b
    next a b = omega arith

    later : (i : ℕ) → i < n → (p + 1 + i) % consbufsize ≢ w
    later i lt e = off (suc i) (omega arith) (ap (λ q. q % consbufsize) (sym (next p i)) ∙ e)

-- A character put in a buffer with room for it becomes the last one.
IsQueue-put_char :
    {s : Cons} {xs : List ℕ} (c : ℕ)
    → IsQueue s xs
    → c ≢ 0
    → length xs + 1 < consbufsize
    → IsQueue (put_char c s) (xs ++ (c % 256 ∷ []))
unfolding put_char
IsQueue-put_char {s} {xs} c q ne room = rw (==_ne c 0 ne) record {
  start = q.start;
  content =
      rw
        (
          longer,
          window-snoc _ (length xs) s.rpos,
          window-update s.buf s.wpos (c % 256) (length xs) s.rpos apart,
          ← q.end,
          ==_refl s.wpos,
          q.content,
        )
        refl;
  short = rw longer (omega arith);
  end = rw longer (ground (arith, q.end, q.start));
}
  where
    longer : length (xs ++ (c % 256 ∷ [])) ≡ suc (length xs)
    longer = omega (arith, length-append xs (c % 256 ∷ []))

    apart : (i : ℕ) → i < length xs → (s.rpos + i) % consbufsize ≢ s.wpos
    apart i lt e = absurd (omega (arith, q.end, q.start, e, lt, room))

put_char-zero : (c : ℕ) (s : Cons) → (c == 0) ≡ true → put_char c s ≡ s
unfolding put_char
put_char-zero c s z = rw z refl

-- The characters that a device types go behind those that wait, if they all fit.
IsQueue-cons_intr :
    (cs : List ℕ) {s : Cons} {xs : List ℕ}
    → IsQueue s xs
    → length xs + length (typed cs) < consbufsize
    → IsQueue (cons_intr cs s) (xs ++ typed cs)
unfolding cons_intr
IsQueue-cons_intr [] {s} {xs} q room = rw (append-nil xs) q
IsQueue-cons_intr (c ∷ cs) {s} {xs} q room = elim (Bool-cases (c == 0)) [
  | inl z ↦ rw (z, put_char-zero c s z) (IsQueue-cons_intr cs q (rw z at room))
  | inr some_char ↦
      let ne : c ≢ 0 = ground (arith, some_char) in
      let fits : length xs + suc (length (typed cs)) < consbufsize = rw some_char at room in
      let one : IsQueue (put_char c s) (xs ++ (c % 256 ∷ [])) =
        IsQueue-put_char c q ne (omega arith) in
      rw (some_char, ← append_assoc xs (c % 256 ∷ []) (typed cs))
        (IsQueue-cons_intr cs one (omega (arith, length-append xs (c % 256 ∷ []), fits)))
]

-- What `cons_getc` gives back for the waiting characters, and what then waits.
abbrev pub first : List ℕ → ℕ
first [] = 0
first (x ∷ xs) = x

abbrev pub rest : List ℕ → List ℕ
rest [] = []
rest (x ∷ xs) = xs

take_char-eq :
    {s : Cons} (xs : List ℕ)
    → IsQueue s xs
    → ((take_char s).0 ≡ first xs) × IsQueue (take_char s).1 (rest xs)
unfolding take_char
take_char-eq {s} [] q = rw same (refl, q)
  where
    same : (s.rpos == s.wpos) ≡ true
    same = ground (arith, q.end, q.start)
take_char-eq {s} (x ∷ xs) q = rw differ (
  ap s.buf (sym inside) ∙ ap first q.content,
  record {
    start = ground (arith, q.start);
    content = window-mod s.buf (length xs) _ _ moved ∙ ap rest q.content;
    short = omega (arith, q.short);
    end = ground (arith, q.end, q.start);
  },
)
  where
    differ : (s.rpos == s.wpos) ≡ false
    differ = ground (arith, q.end, q.start, q.short)

    inside : s.rpos % consbufsize ≡ s.rpos
    inside = omega (arith, q.start)

    moved : advance s.rpos % consbufsize ≡ (s.rpos + 1) % consbufsize
    moved = ground (arith, q.start)

-- The console is a queue: where the characters that wait and those that the devices now give fit
-- into the buffer, `cons_getc` returns the oldest of them, or 0 if there is none, and the others
-- wait in their order.
pub cons_getc_lem :
    {s : Cons} {xs : List ℕ} (serial kbd : List ℕ)
    → IsQueue s xs
    → length xs + length (typed serial) + length (typed kbd) < consbufsize
    → let ys = xs ++ typed serial ++ typed kbd in
      let r = cons_getc serial kbd s in (r.0 ≡ first ys) × IsQueue r.1 (rest ys)
unfolding cons_getc
cons_getc_lem {s} {xs} serial kbd q room = take_char-eq _ (
    IsQueue-cons_intr kbd (IsQueue-cons_intr serial q (omega arith))
      (omega (arith, length-append xs (typed serial), room)))

-- A buffer that holds 511 characters, the most that it can, is empty after the next one that is
-- not 0: they are all lost.
pub put_char-full :
    {s : Cons} {xs : List ℕ} (c : ℕ)
    → IsQueue s xs
    → length xs + 1 ≡ consbufsize
    → c ≢ 0
    → IsQueue (put_char c s) []
unfolding put_char
put_char-full {s} {xs} c q full ne = rw (==_ne c 0 ne) record {
  start = q.start;
  content = refl;
  short = omega arith;
  end = ground (arith, q.end, q.start, full);
}
