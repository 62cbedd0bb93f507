-- ===== src/Text/Print.antt =====
-- `vcprintf` of lib/printf.c, which prints through a buffer in as few system calls as fit.
use arch.Base.{
  ℕ, zero, suc, ◌+◌, ◌%◌, ◌^◌, ◌≤◌, ◌<◌, ◌≡◌, refl, ◌∙◌, ap, sym, Option, none, some, List, [], ◌∷◌,
  ◌++◌, ◌==◌, ==_ne, ==_refl, if◌then◌else◌, update, length, length-append, arith, Bool-cases, inl,
  inr,
}
use mathlib.Core.List.{append_assoc, append-nil}
use arch.Text.Format.{Arg, Printed, chars, vprintfmt}

-- `struct printbuf`, with the texts of the calls of `sys_cputs` so far.
pub record Printbuf : Type 0 where
  pub idx : ℕ
  pub cnt : ℕ
  pub buf : ℕ → ℕ
  pub calls : List (List ℕ)

-- The bytes of the buffer below an index
abbrev pub bytes_below : (ℕ → ℕ) → ℕ → List ℕ
bytes_below buf zero = []
bytes_below buf (suc n) = bytes_below buf n ++ (buf n ∷ [])

-- `sys_cputs(b->buf, b->idx)`
abbrev pub cputs : Printbuf → Printbuf
cputs b = record b { calls = b.calls ++ (bytes_below b.buf b.idx ∷ []) }

unfoldable pub putch : ℕ → Printbuf → Printbuf
putch ch b =
    let b1 = record b {
      buf = update b.buf b.idx (ch % 256);
      idx = b.idx + 1;
      cnt = (b.cnt + 1) % 2 ^ 32;
    } in
    if b1.idx == 255 then record (cputs b1) { idx = 0 } else b1

unfoldable pub putch_all : List ℕ → Printbuf → Printbuf
putch_all [] b = b
putch_all (c ∷ cs) b = putch_all cs (putch c b)

-- The result and the texts printed, or none where an argument is missing or the format is undefined.
unfoldable pub print_all : Printed → Option (ℕ × List (List ℕ))
print_all (chars cs) =
    let b = cputs (putch_all cs (record { idx = 0; cnt = 0; buf = λ i. 0; calls = [] })) in
    some (b.cnt, b.calls)
print_all others = none

unfoldable pub vcprintf : List ℕ → List Arg → Option (ℕ × List (List ℕ))
vcprintf fmt args = print_all (vprintfmt fmt args)

abbrev pub join : List (List ℕ) → List ℕ
join [] = []
join (xs ∷ xss) = xs ++ join xss

abbrev pub as_bytes : List ℕ → List ℕ
as_bytes [] = []
as_bytes (c ∷ cs) = c % 256 ∷ as_bytes cs

-- No call prints more than 255 bytes.
abbrev pub AllShort : List (List ℕ) → Type 0
AllShort [] = Unit {0}
AllShort (xs ∷ xss) = (length xs ≤ 255) × AllShort xss

join-snoc : (xss : List (List ℕ)) (ys : List ℕ) → join (xss ++ (ys ∷ [])) ≡ join xss ++ ys
join-snoc [] ys = append-nil ys
join-snoc (xs ∷ xss) ys =
    ap (λ zs. xs ++ zs) (join-snoc xss ys) ∙ sym (append_assoc xs (join xss) ys)

AllShort-snoc :
    (xss : List (List ℕ)) (ys : List ℕ)
    → AllShort xss
    → length ys ≤ 255
    → AllShort (xss ++ (ys ∷ []))
AllShort-snoc [] ys h le = (le, tt)
AllShort-snoc (xs ∷ xss) ys (short, h) le = (short, AllShort-snoc xss ys h le)

bytes_below-update :
    (buf : ℕ → ℕ) (i c n : ℕ) → n ≤ i → bytes_below (update buf i c) n ≡ bytes_below buf n
bytes_below-update buf i c zero le = refl
bytes_below-update buf i c (suc n) le =
    rw (bytes_below-update buf i c n (omega arith), ==_ne n i (omega arith)) refl

bytes_below-append :
    (buf : ℕ → ℕ) (i c : ℕ) → bytes_below (update buf i c) (i + 1) ≡ bytes_below buf i ++ (c ∷ [])
bytes_below-append buf i c =
    rw next (rw (bytes_below-update buf i c i (omega arith), ==_refl i) refl)
  where
    next : i + 1 ≡ suc i
    next = omega arith

length-bytes_below : (buf : ℕ → ℕ) (n : ℕ) → length (bytes_below buf n) ≡ n
length-bytes_below buf zero = refl
length-bytes_below buf (suc n) =
    omega (arith, length-append (bytes_below buf n) (buf n ∷ []), length-bytes_below buf n)

-- What is printed already, and what waits in the buffer
abbrev put_so_far : Printbuf → List ℕ
put_so_far b = join b.calls ++ bytes_below b.buf b.idx

record IsOpen (b : Printbuf) : Type 0 where
  room : b.idx < 255
  short : AllShort b.calls

-- The character is in the buffer, which may be full then.
abbrev added : ℕ → Printbuf → Printbuf
added c b = record b {
  buf = update b.buf b.idx (c % 256);
  idx = b.idx + 1;
  cnt = (b.cnt + 1) % 2 ^ 32;
}

added-text : (c : ℕ) (b : Printbuf) → put_so_far (added c b) ≡ put_so_far b ++ (c % 256 ∷ [])
added-text c b =
    ap (λ zs. join b.calls ++ zs) (bytes_below-append b.buf b.idx (c % 256))
    ∙ sym (append_assoc (join b.calls) (bytes_below b.buf b.idx) (c % 256 ∷ []))

putch-put :
    (c : ℕ) (b : Printbuf)
    → IsOpen b
    → IsOpen (putch c b)
      × (put_so_far (putch c b) ≡ put_so_far b ++ (c % 256 ∷ []))
      × ((putch c b).cnt ≡ (b.cnt + 1) % 2 ^ 32)
unfolding putch
putch-put c b o = elim (Bool-cases (b.idx + 1 == 255)) [
  | inl full ↦
      let b1 = added c b in
      let all : length (bytes_below b1.buf b1.idx) ≤ 255 =
        omega (arith, length-bytes_below b1.buf b1.idx, o.room) in
      rw full (
        record {
          room = omega arith;
          short = AllShort-snoc b.calls (bytes_below b1.buf b1.idx) o.short all;
        },
        append-nil _ ∙ join-snoc b.calls (bytes_below b1.buf b1.idx) ∙ added-text c b,
        refl,
      )
  | inr more ↦
      rw more
        (record { room = ground (arith, o.room, more); short = o.short }, added-text c b, refl)
]

putch_all-put :
    (cs : List ℕ) (b : Printbuf)
    → IsOpen b
    → b.cnt < 2 ^ 32
    → IsOpen (putch_all cs b)
      × (put_so_far (putch_all cs b) ≡ put_so_far b ++ as_bytes cs)
      × ((putch_all cs b).cnt ≡ (b.cnt + length cs) % 2 ^ 32)
unfolding putch_all
putch_all-put [] b o c32 = (o, sym (append-nil (put_so_far b)), omega arith)
putch_all-put (c ∷ cs) b o c32 =
    let (o1, text, count) = putch-put c b o in
    let (o2, text2, count2) = putch_all-put cs (putch c b) o1 (omega (arith, count)) in
    (
      o2,
      text2
          ∙ ap (λ zs. zs ++ as_bytes cs) text
          ∙ append_assoc (put_so_far b) (c % 256 ∷ []) (as_bytes cs),
      omega (arith, count, count2),
    )

-- For a format and arguments for which `vprintfmt` puts the characters `cs`: `vcprintf` returns the
-- number of characters modulo 2^32, the texts of its system calls one behind the other are those characters, as bytes, and none is longer than
-- 255 bytes.
vcprintf_lem :
    (fmt : List ℕ) (args : List Arg) (cs : List ℕ)
    → vprintfmt fmt args ≡ chars cs
    → (calls : List (List ℕ)) × (vcprintf fmt args ≡ some (length cs % 2 ^ 32, calls))
      × (join calls ≡ as_bytes cs)
      × AllShort calls
unfolding vcprintf print_all
vcprintf_lem fmt args cs e =
    let b0 : Printbuf = record { idx = 0; cnt = 0; buf = λ i. 0; calls = [] } in
    let (o, text, count) =
      putch_all-put cs b0 (record { room = omega arith; short = tt }) (omega arith) in
    let b = putch_all cs b0 in
    let number : b.cnt ≡ length cs % 2 ^ 32 = count ∙ omega arith in
    (
      b.calls ++ (bytes_below b.buf b.idx ∷ []),
      rw (e, number) refl,
      join-snoc b.calls (bytes_below b.buf b.idx) ∙ text,
      AllShort-snoc b.calls _ o.short (omega (arith, length-bytes_below b.buf b.idx, o.room)),
    )
