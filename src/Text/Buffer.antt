-- ===== src/Text/Buffer.antt =====
-- `vsnprintf` of lib/printfmt.c, which formats into a buffer.
use arch.Base.{
  ℕ, zero, suc, ◌+◌, ◌-◌, ◌%◌, ◌^◌, ◌≤◌, ◌<◌, ◌≡◌, refl, ◌∙◌, ap, true, false, ◌||◌, Option, none,
  some, List, [], ◌∷◌, ◌==◌, ==_ne, ltb, if◌then◌else◌, update, take, length, length-take, arith,
  ◌⊎◌, inl, inr,
}
use arch.Kern.Layout.{is_neg, e_inval}
use arch.Text.Format.{Arg, Printed, chars, vprintfmt}

-- `struct sprintbuf`, with the memory that it points into
pub record Sprintbuf : Type 0 where
  pub mem : ℕ → ℕ
  pub buf : ℕ
  pub ebuf : ℕ
  pub cnt : ℕ

unfoldable pub sprintputch : ℕ → Sprintbuf → Sprintbuf
sprintputch ch b =
    if ltb b.buf b.ebuf
    then record b {
      cnt = (b.cnt + 1) % 2 ^ 32;
      mem = update b.mem b.buf (ch % 256);
      buf = b.buf + 1;
    }
    else record b { cnt = (b.cnt + 1) % 2 ^ 32 }

unfoldable pub put_all : List ℕ → Sprintbuf → Sprintbuf
put_all [] b = b
put_all (c ∷ cs) b = put_all cs (sprintputch c b)

-- The last two lines of `vsnprintf`, on what `vprintfmt` put.
unfoldable pub finish : (buf n : ℕ) → (ℕ → ℕ) → Printed → Option (ℕ × (ℕ → ℕ))
finish buf n mem (chars cs) =
    let b = put_all cs (record { mem = mem; buf = buf; ebuf = buf + n - 1; cnt = 0 }) in
    some (b.cnt, update b.mem b.buf 0)
finish buf n mem others = none

-- The result and the memory, or none where an argument is missing or the format is undefined.
unfoldable pub vsnprintf :
    (buf : Option ℕ) (n : ℕ) → List ℕ → List Arg → (ℕ → ℕ) → Option (ℕ × (ℕ → ℕ))
vsnprintf none n fmt args mem = some (e_inval, mem)
vsnprintf (some buf) n fmt args mem =
    if is_neg n || n == 0 then some (e_inval, mem) else finish buf n mem (vprintfmt fmt args)

-- The memory with the bytes of a list from `p` on.
abbrev pub place : (p : ℕ) → List ℕ → (ℕ → ℕ) → ℕ → ℕ
place p [] mem = mem
place p (c ∷ cs) mem = place (p + 1) cs (update mem p (c % 256))

place-other :
    (p : ℕ) (cs : List ℕ) (mem : ℕ → ℕ) (j : ℕ)
    → (j < p) ⊎ (p + length cs ≤ j)
    → place p cs mem j ≡ mem j
place-other p [] mem j out = refl
place-other p (c ∷ cs) mem j (inl lt) =
    place-other (p + 1) cs (update mem p (c % 256)) j (inl (omega arith))
    ∙ rw (==_ne j p (omega arith)) refl
place-other p (c ∷ cs) mem j (inr le) =
    place-other (p + 1) cs (update mem p (c % 256)) j (inr (omega arith))
    ∙ rw (==_ne j p (omega arith)) refl

sprintputch-full :
    (c : ℕ) (b : Sprintbuf)
    → ltb b.buf b.ebuf ≡ false
    → sprintputch c b ≡ record b { cnt = (b.cnt + 1) % 2 ^ 32 }
unfolding sprintputch
sprintputch-full c b h = rw h refl

sprintputch-fits :
    (c : ℕ) (b : Sprintbuf)
    → ltb b.buf b.ebuf ≡ true
    → sprintputch c b
      ≡ record b { cnt = (b.cnt + 1) % 2 ^ 32; mem = update b.mem b.buf (c % 256); buf = b.buf + 1 }
unfolding sprintputch
sprintputch-fits c b h = rw h refl

-- What the buffer gets, with `room` places left for characters.
put_all-place :
    (room : ℕ) (cs : List ℕ) (b : Sprintbuf)
    → b.ebuf ≡ b.buf + room
    → b.cnt < 2 ^ 32
    → ((put_all cs b).mem ≡ place b.buf (take room cs) b.mem)
      × ((put_all cs b).buf ≡ b.buf + length (take room cs))
      × ((put_all cs b).cnt ≡ (b.cnt + length cs) % 2 ^ 32)
unfolding put_all
put_all-place zero [] b e c32 = (refl, omega arith, omega arith)
put_all-place (suc room) [] b e c32 = (refl, omega arith, omega arith)
put_all-place zero (c ∷ cs) b e c32 =
    let full : ltb b.buf b.ebuf ≡ false = ground arith in
    let (m, p, n) =
      put_all-place zero cs (record b { cnt = (b.cnt + 1) % 2 ^ 32 }) e (omega arith) in
    rw (put_all, sprintputch-full c b full) (m, p, n ∙ omega arith)
put_all-place (suc room) (c ∷ cs) b e c32 =
    let fits : ltb b.buf b.ebuf ≡ true = ground arith in
    let b' : Sprintbuf = record b {
      cnt = (b.cnt + 1) % 2 ^ 32;
      mem = update b.mem b.buf (c % 256);
      buf = b.buf + 1;
    } in
    let (m, p, n) = put_all-place room cs b' (omega arith) (omega arith) in
    rw (put_all, sprintputch-fits c b fits) (m, p ∙ omega arith, n ∙ omega arith)

-- For a buffer of `n` bytes, `n` positive as an `int`, and a format and arguments for which
-- `vprintfmt` puts the characters `cs` (the arguments are there, and no `int` overflows in it):
-- `vsnprintf` returns the number of characters modulo 2^32, since its count is an `int`, leaves the
-- first `n - 1` of them in the buffer, with a 0 behind them, and changes no byte outside the buffer.
pub vsnprintf_lem :
    (buf n : ℕ) (fmt : List ℕ) (args : List Arg) (mem : ℕ → ℕ) (cs : List ℕ)
    → 0 < n
    → n < 2 ^ 31
    → vprintfmt fmt args ≡ chars cs
    → let kept = take (n - 1) cs in
      let mem' = update (place buf kept mem) (buf + length kept) 0 in
      (vsnprintf (some buf) n fmt args mem ≡ some (length cs % 2 ^ 32, mem'))
      × ((j : ℕ) → (j < buf) ⊎ (buf + n ≤ j) → mem' j ≡ mem j)
unfolding vsnprintf finish
vsnprintf_lem buf n fmt args mem cs pos small e =
    let valid : (is_neg n || n == 0) ≡ false = ground arith in
    let start : Sprintbuf = record { mem = mem; buf = buf; ebuf = buf + n - 1; cnt = 0 } in
    let (m, p, c) = put_all-place (n - 1) cs start (omega arith) (omega arith) in
    let kept = take (n - 1) cs in
    let short = length-take (n - 1) cs in
    (
      rw (valid, e, m, p, c)
          (ap (λ x. some (x, update (place buf kept mem) (buf + length kept) 0)) plus_zero),
      λ j out. elim out [
        | inl lt ↦
            rw (==_ne j (buf + length kept) (omega arith)) (place-other buf kept mem j (inl lt))
        | inr le ↦
            rw (==_ne j (buf + length kept) (omega arith))
              (place-other buf kept mem j (inr (omega arith)))
      ],
    )
  where
    plus_zero : (0 + length cs) % 2 ^ 32 ≡ length cs % 2 ^ 32
    plus_zero = omega arith
