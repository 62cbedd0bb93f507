-- ===== src/Smp/Search.antt =====
-- What `mpsearch1` of kern/mpconfig.c finds.
use arch.Base.{
  ℕ, zero, suc, ◌+◌, ◌-◌, ◌*◌, ◌/◌, ◌%◌, ◌≤◌, ◌<◌, ◌≡◌, refl, true, false, arith, ◌⊎◌, inl, inr, ap,
  sym, ◌∙◌, Bool-cases, ltb, lt→ltb, leb, ◌||◌,
}
use native.Mathlib.Decide.{dec_lt}
use arch.Kern.Layout.{u32, pgnum}
use arch.Boot.{Memory}
use arch.Smp.{Found, found, null, is_mp, search_from, mpsearch1}

-- The places from `a` on before the `n`th hold no structure.
abbrev pub NoneBefore : Memory → (a n : ℕ) → Type 0
NoneBefore mem a n = (j : ℕ) → j < n → is_mp mem (a + j * 16) ≡ false

-- The first structure at a distance of a multiple of 16 from `a`, below `end`; or there is none.
abbrev pub IsFirst : Memory → (a end : ℕ) → Found ℕ → Type 0
IsFirst mem a end r =
    ((n : ℕ) × (r ≡ found (a + n * 16))
      × (a + n * 16 < end)
      × (is_mp mem (a + n * 16) ≡ true)
      × NoneBefore mem a n)
    ⊎ ((r ≡ null) × ((j : ℕ) → a + j * 16 < end → is_mp mem (a + j * 16) ≡ false))

IsFirst-found :
    (mem : Memory) (a end : ℕ) → a < end → is_mp mem a ≡ true → IsFirst mem a end (found a)
IsFirst-found mem a end lt e =
    let here : a + 0 * 16 ≡ a = omega arith in
    inl (0, ap found (sym here), omega arith, rw here e, λ j no. absurd (omega arith))

IsFirst-next :
    (mem : Memory) (a end : ℕ) (r : Found ℕ)
    → is_mp mem a ≡ false
    → IsFirst mem (a + 16) end r
    → IsFirst mem a end r
IsFirst-next mem a end r e f = elim f [
  | inl (n, result, lt, hit, before) ↦
      let shift : a + 16 + n * 16 ≡ a + suc n * 16 = omega arith in
      inl (
        suc n,
        result ∙ ap found shift,
        omega arith,
        rw (← shift) hit,
        λ j below. misses j (λ i e'. before i (omega arith)),
      )
  | inr (result, none_there) ↦
      inr (result, λ j below. misses j (λ i e'. none_there i (omega arith)))
]
  where
    misses :
        (j : ℕ)
        → ((i : ℕ) → j ≡ suc i → is_mp mem (a + 16 + i * 16) ≡ false)
        → is_mp mem (a + j * 16) ≡ false
    misses zero h = let here : a + 0 * 16 ≡ a = omega arith in rw here e
    misses (suc i) h =
        let shift : a + 16 + i * 16 ≡ a + suc i * 16 = omega arith in rw (← shift) (h i refl)

search_from-step :
    (r : ℕ) (mem : Memory) (a end : ℕ)
    → (a < end → IsFirst mem (a + 16) end (search_from r mem (a + 16) end))
    → IsFirst mem a end (search_from (suc r) mem a end)
unfolding search_from
search_from-step r mem a end rest = elim (dec_lt a end) [
  | no ge ↦
      let past : ltb a end ≡ false = ground arith in
      rw past (inr (refl, λ j lt. absurd (omega arith)))
  | yes lt ↦ rw (lt→ltb a end lt) (elim (Bool-cases (is_mp mem a)) [
    | inl hit ↦ rw hit (IsFirst-found mem a end lt hit)
    | inr miss ↦ rw miss (IsFirst-next mem a end _ miss (rest lt))
  ])
]

search_from-IsFirst :
    (r : ℕ) (mem : Memory) (a end : ℕ)
    → end ≤ a + r * 16
    → IsFirst mem a end (search_from (suc r) mem a end)
search_from-IsFirst zero mem a end enough =
    search_from-step zero mem a end (λ lt. absurd (omega arith))
search_from-IsFirst (suc r) mem a end enough =
    search_from-step (suc r) mem a end (λ lt. search_from-IsFirst r mem (a + 16) end (omega arith))

-- For a range in physical memory that ends below 2^32, `mpsearch1` returns the first floating
-- pointer structure at a multiple of 16 bytes from the start of the range, and NULL if there is none.
mpsearch1-IsFirst :
    (npages : ℕ) (mem : Memory) (a len : ℕ)
    → a + len < u32
    → pgnum (a + len) < npages
    → IsFirst mem a (a + len) (mpsearch1 npages mem a len)
unfolding mpsearch1
mpsearch1-IsFirst npages mem a len small fits =
    let end : (a + len) % u32 ≡ a + len = omega arith in
    let inside : (leb npages (pgnum a) || leb npages (pgnum (a + len))) ≡ false = ground arith in
    let rounds : (a + len - a) / 16 + 2 ≡ suc (len / 16 + 1) = omega arith in
    rw (end, inside, rounds) (search_from-IsFirst (len / 16 + 1) mem a (a + len) (omega arith))
