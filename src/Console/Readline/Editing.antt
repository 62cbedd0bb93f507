-- ===== src/Console/Readline/Editing.antt =====
-- `readline` of lib/readline.c as an editor of a list of characters.
use arch.Base.{
  ℕ, zero, suc, ◌+◌, ◌-◌, ◌%◌, ◌≤◌, ◌<◌, ◌≡◌, refl, ◌∙◌, ap, true, false, Bool, ◌&&◌, List, [], ◌∷◌,
  length, ==_ne, ==_refl, ltb, leb, arith, if◌then◌else◌, update,
}
use arch.Kern.Layout.{is_neg}
use arch.Console.Readline.{
  Edit, Outcome, waiting, null, line, buflen, is_erase, is_newline, erase, append, terminated,
  readline,
}

-- The text without its last character.
abbrev pub shorter : List ℕ → List ℕ
shorter [] = []
shorter (x ∷ xs) = xs

-- The editor: the text is the list of its characters, the last one first.
abbrev pub edit : List ℕ → List ℕ → Outcome (List ℕ)
edit [] xs = waiting xs
edit (c ∷ cs) xs =
    if is_neg c
    then null xs
    else if is_erase c && ltb 0 (length xs)
    then edit cs (shorter xs)
    else if leb 32 c && ltb (length xs) (buflen - 1)
    then edit cs ((c % 256) ∷ xs)
    else if is_newline c
    then line xs
    else edit cs xs

-- The text of the buffer below `n`.
abbrev pub text_below : (ℕ → ℕ) → ℕ → List ℕ
text_below buf zero = []
text_below buf (suc n) = buf n ∷ text_below buf n

abbrev pub text : Edit → List ℕ
text s = text_below s.buf s.i

abbrev pub text_of : Outcome Edit → Outcome (List ℕ)
text_of (waiting s) = waiting (text s)
text_of (null s) = null (text s)
text_of (line s) = line (text s)

length-text_below : (buf : ℕ → ℕ) (n : ℕ) → length (text_below buf n) ≡ n
length-text_below buf zero = refl
length-text_below buf (suc n) = ap suc (length-text_below buf n)

text_below-update :
    (buf : ℕ → ℕ) (n j v : ℕ) → n ≤ j → text_below (update buf j v) n ≡ text_below buf n
text_below-update buf zero j v h = refl
text_below-update buf (suc n) j v h =
    rw (==_ne n j (omega arith), text_below-update buf n j v (omega arith)) refl

text_below-pred : (buf : ℕ → ℕ) (n : ℕ) → text_below buf (n - 1) ≡ shorter (text_below buf n)
text_below-pred buf zero = refl
text_below-pred buf (suc n) = ap (text_below buf) (pred n)
  where
    pred : (n : ℕ) → suc n - 1 ≡ n
    pred n = omega arith

text-append : (c : ℕ) (s : Edit) → text (append c s) ≡ c % 256 ∷ text s
text-append c s =
    ap (text_below (append c s).buf) next
    ∙ rw (==_refl s.i, text_below-update s.buf s.i s.i (c % 256) (omega arith)) refl
  where
    next : s.i + 1 ≡ suc s.i
    next = omega arith

text_of-if :
    (x y : Outcome Edit) {x' y' : Outcome (List ℕ)} (b : Bool)
    → text_of x ≡ x'
    → text_of y ≡ y'
    → text_of (if b then x else y) ≡ (if b then x' else y')
text_of-if x y true e e' = e
text_of-if x y false e e' = e'

-- `readline` does what the editor does with the text in its buffer: a character that is not a
-- control character goes to the end while there are fewer than 1023, the erase keys take the last
-- one away where there is one, and a newline ends the line.
pub readline-edit : (cs : List ℕ) (s : Edit) → text_of (readline cs s) ≡ edit cs (text s)
unfolding readline
readline-edit [] s = refl
readline-edit (c ∷ cs) s =
    let erased = readline-edit cs (erase s) ∙ ap (edit cs) (text_below-pred s.buf s.i) in
    let appended = readline-edit cs (append c s) ∙ ap (edit cs) (text-append c s) in
    let ended : text_of (line (terminated s)) ≡ line (text s) =
      ap line (text_below-update s.buf s.i s.i 0 (omega arith)) in
    rw (length-text_below s.buf s.i) (
      text_of-if _ _ (is_neg c) refl (
        text_of-if _ _ (is_erase c && ltb 0 s.i) erased (
          text_of-if _ _ (leb 32 c && ltb s.i (buflen - 1)) appended
            (text_of-if _ _ (is_newline c) ended (readline-edit cs s)))))

-- The buffer is long enough for the text and the 0 behind it.
abbrev pub InBuffer : Edit → Edit → Type 0
InBuffer s t = (t.i < buflen) × ((j : ℕ) → buflen ≤ j → t.buf j ≡ s.buf j)

abbrev pub Keeps : Edit → Outcome Edit → Type 0
Keeps s (waiting t) = InBuffer s t
Keeps s (null t) = InBuffer s t
Keeps s (line t) = InBuffer s t × (t.buf t.i ≡ 0)

Keeps-if :
    (x y : Outcome Edit) (s : Edit) (b : Bool)
    → (b ≡ true → Keeps s x)
    → Keeps s y
    → Keeps s (if b then x else y)
Keeps-if x y s true h h' = h refl
Keeps-if x y s false h h' = h'

Keeps-after : (s t : Edit) (o : Outcome Edit) → InBuffer s t → Keeps t o → Keeps s o
Keeps-after s t (waiting u) (h, r) (h', r') = (h', λ j le. r' j le ∙ r j le)
Keeps-after s t (null u) (h, r) (h', r') = (h', λ j le. r' j le ∙ r j le)
Keeps-after s t (line u) (h, r) ((h', r'), z) = ((h', λ j le. r' j le ∙ r j le), z)

-- Whatever the keys are, `readline` keeps its index below 1024 and writes nothing behind its
-- buffer, and the line that it returns is terminated.
pub readline-Keeps : (cs : List ℕ) (s : Edit) → s.i < buflen → Keeps s (readline cs s)
unfolding readline
readline-Keeps [] s h = (h, λ j le. refl)
readline-Keeps (c ∷ cs) s h =
    let erased : InBuffer s (erase s) = (omega arith, λ j le. refl) in
    Keeps-if _ _ s (is_neg c) (λ e. (h, λ j le. refl))
      (Keeps-if _ _ s (is_erase c && ltb 0 s.i)
        (λ e. Keeps-after s (erase s) _ erased (readline-Keeps cs (erase s) erased.0))
        (Keeps-if _ _ s (leb 32 c && ltb s.i (buflen - 1))
          (λ e.
            let added : InBuffer s (append c s) = (ground arith, λ j le. ground arith) in
            Keeps-after s (append c s) _ added (readline-Keeps cs (append c s) added.0))
          (Keeps-if _ _ s (is_newline c) (λ e. ((h, λ j le. ground arith), ground arith))
            (readline-Keeps cs s h))))
