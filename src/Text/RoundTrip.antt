-- ===== src/Text/RoundTrip.antt =====
-- `strtol` reads what `printnum` prints.
use native.Mathlib.Nat.{pow-suc}
use mathlib.Core.List.{append_assoc}
use arch.Base.{
  ℕ, zero, suc, ◌+◌, ◌-◌, ◌*◌, ◌/◌, ◌%◌, ◌^◌, ◌≤◌, ◌<◌, ◌≡◌, refl, ◌≢◌, ◌⊎◌, inl, inr, Bool, true,
  false, ◌&&◌, not, some, List, [], ◌∷◌, ◌++◌, ◌==◌, leb, replicate, arith, ◌∙◌, ap, Bool-cases,
}
use arch.Kern.Layout.{u32}
use arch.Text.Numbers.{
  digit_of, scan_digits, skip_blanks, take_sign, take_prefix, strtol, hex_digit, print_digits,
  printnum,
}

digit_of-hex_digit : (base d : ℕ) → base ≤ 16 → d < base → digit_of base (hex_digit d) ≡ some d
unfolding digit_of
digit_of-hex_digit base d small lt = ground arith

-- A character that is neither a sign nor a blank nor the letter x.
abbrev plain : ℕ → Bool
plain c = not (c == 43) && (not (c == 45) && (not (c == 120) && (not (c == 32) && not (c == 9))))

abbrev all_plain : List ℕ → Bool
all_plain [] = true
all_plain (c ∷ s) = plain c && all_plain s

plain-hex_digit : (d : ℕ) → d < 16 → plain (hex_digit d) ≡ true
plain-hex_digit d lt = ground arith

skip_blanks-plain : (s : List ℕ) → all_plain s ≡ true → skip_blanks s ≡ s
unfolding skip_blanks
skip_blanks-plain [] h = refl
skip_blanks-plain (c ∷ s) h = ground (arith, h)

skip_blanks-replicate : (n : ℕ) (s : List ℕ) → skip_blanks (replicate n 32 ++ s) ≡ skip_blanks s
unfolding skip_blanks
skip_blanks-replicate zero s = refl
skip_blanks-replicate (suc n) s = skip_blanks-replicate n s

take_sign-plain : (s : List ℕ) → all_plain s ≡ true → take_sign s ≡ (false, s)
unfolding take_sign
take_sign-plain [] h = refl
take_sign-plain (c ∷ s) h = ground (arith, h)

take_prefix-plain :
    (base : ℕ) (s : List ℕ) → base ≢ 0 → all_plain s ≡ true → take_prefix base s ≡ (base, s)
unfolding take_prefix
take_prefix-plain base [] ne h = ground arith
take_prefix-plain base (c ∷ []) ne h = ground arith
take_prefix-plain base (c ∷ x ∷ s) ne h = ground (arith, h)

scan_digits-some :
    (base v c d : ℕ) (rest : List ℕ)
    → digit_of base c ≡ some d
    → scan_digits base v (c ∷ rest) ≡ scan_digits base ((v * base + d) % u32) rest
unfolding scan_digits
scan_digits-some base v c d rest h = rw (scan_digits, h) refl

scan_digits-stop : (base v : ℕ) → scan_digits base v (0 ∷ []) ≡ some (v, 0 ∷ [])
unfolding scan_digits digit_of
scan_digits-stop base v = refl

module _ (base : ℕ) (small : base ≤ 16) (rem : (n : ℕ) → n % base < base)
    (whole : (n : ℕ) → n < base → n % base ≡ n) (div : (b n : ℕ) → n < b * 2 → n / base < b)
    (wrap : (n : ℕ) → (n / base % u32 * base + n % base) % u32 ≡ n % u32) where
  scan_digits-step :
      (v d : ℕ) (rest : List ℕ)
      → d < base
      → scan_digits base v (hex_digit d ∷ rest) ≡ scan_digits base ((v * base + d) % u32) rest
  scan_digits-step v d rest lt =
      scan_digits-some base v (hex_digit d) d rest (digit_of-hex_digit base d small lt)

  first_digit : (n : ℕ) → n % base ≡ n → (0 * base + n % base) % u32 ≡ n % u32
  first_digit n e = rw e (omega arith)

  -- Behind the digits of `n` the loop of `strtol` has the value `n`.
  scan_digits-print_digits :
      (f n p : ℕ) (rest : List ℕ)
      → n < 2 ^ f
      → scan_digits base 0 (print_digits f n base 0 p ++ rest) ≡ scan_digits base (n % u32) rest
  unfolding print_digits
  scan_digits-print_digits zero n p rest lt = ap (λ v. scan_digits base v rest) (omega arith)
  scan_digits-print_digits (suc f) n p rest lt = elim (Bool-cases (leb base n)) [
    | inl more ↦
        rw
          (more, append_assoc (print_digits f (n / base) base 0 p) (hex_digit (n % base) ∷ []) rest)
          (scan_digits-print_digits f (n / base) p (hex_digit (n % base) ∷ rest)
              (div (2 ^ f) n (rw (← pow-suc 2 f) lt))
            ∙ scan_digits-step (n / base % u32) (n % base) rest (rem n)
            ∙ ap (λ v. scan_digits base v rest) (wrap n))
    | inr last ↦ rw last (
        scan_digits-step 0 (n % base) rest (rem n)
        ∙ ap (λ v. scan_digits base v rest) (first_digit n (whole n (ground (arith, last)))))
  ]

  all_plain-print_digits :
      (f n p : ℕ) (rest : List ℕ)
      → all_plain rest ≡ true
      → all_plain (print_digits f n base 0 p ++ rest) ≡ true
  unfolding print_digits
  all_plain-print_digits zero n p rest h = h
  all_plain-print_digits (suc f) n p rest h = elim (Bool-cases (leb base n)) [
    | inl more ↦
        rw
          (more, append_assoc (print_digits f (n / base) base 0 p) (hex_digit (n % base) ∷ []) rest)
          (all_plain-print_digits f (n / base) p (hex_digit (n % base) ∷ rest)
            (rw (plain-hex_digit (n % base) (omega (arith, rem n))) h))
    | inr last ↦ rw last (rw (plain-hex_digit (n % base) (omega (arith, rem n))) h)
  ]

  -- The blanks that pad the digits are skipped.
  skip_blanks-print_digits :
      (f n width : ℕ) (rest : List ℕ)
      → all_plain rest ≡ true
      → skip_blanks (print_digits f n base width 32 ++ rest) ≡ print_digits f n base 0 32 ++ rest
  unfolding print_digits
  skip_blanks-print_digits zero n width rest h = skip_blanks-plain rest h
  skip_blanks-print_digits (suc f) n width rest h = elim (Bool-cases (leb base n)) [
    | inl more ↦
        rw
          (
            more,
            append_assoc (print_digits f (n / base) base (width - 1) 32) (hex_digit (n % base) ∷ [])
                rest,
            append_assoc (print_digits f (n / base) base 0 32) (hex_digit (n % base) ∷ []) rest,
          )
          (skip_blanks-print_digits f (n / base) (width - 1) (hex_digit (n % base) ∷ rest)
            (rw (plain-hex_digit (n % base) (omega (arith, rem n))) h))
    | inr last ↦
        rw (last, append_assoc (replicate (width - 1) 32) (hex_digit (n % base) ∷ []) rest)
          (skip_blanks-replicate (width - 1) (hex_digit (n % base) ∷ rest)
            ∙ skip_blanks-plain (hex_digit (n % base) ∷ rest)
                (rw (plain-hex_digit (n % base) (omega (arith, rem n))) h))
  ]

  strtol-print_digits :
      (n width : ℕ)
      → base ≢ 0
      → n < u32
      → strtol (printnum n base width 32 ++ (0 ∷ [])) base ≡ some (n, 0 ∷ [])
  unfolding strtol printnum
  strtol-print_digits n width ne lt =
      let s = print_digits 64 n base 0 32 ++ (0 ∷ []) in
      let fine : all_plain s ≡ true = all_plain-print_digits 64 n 32 (0 ∷ []) refl in
      let scanned : scan_digits base 0 s ≡ some (n % u32, 0 ∷ []) =
        scan_digits-print_digits 64 n 32 (0 ∷ []) (omega arith) ∙ scan_digits-stop base (n % u32) in
      let small_n : n % u32 ≡ n = omega arith in
      rw
        (
          skip_blanks-print_digits 64 n width (0 ∷ []) refl,
          take_sign-plain s fine,
          take_prefix-plain base s ne fine,
          scanned,
          small_n,
        )
        refl

-- The round trip: in base 8, 10 or 16, `strtol` reads a 32-bit number that `printnum` printed,
-- padded with blanks to any width, back to that number, and stops at the null character behind it.
pub strtol-printnum :
    (base n width : ℕ)
    → (base ≡ 8) ⊎ ((base ≡ 10) ⊎ (base ≡ 16))
    → n < u32
    → strtol (printnum n base width 32 ++ (0 ∷ [])) base ≡ some (n, 0 ∷ [])
strtol-printnum base n width (inl e) lt = rw e (
    strtol-print_digits 8 (omega arith) (λ m. omega arith) (λ m h. omega arith)
      (λ b m h. omega arith) (λ m. omega arith) n width (omega arith) lt)
strtol-printnum base n width (inr (inl e)) lt = rw e (
    strtol-print_digits 10 (omega arith) (λ m. omega arith) (λ m h. omega arith)
      (λ b m h. omega arith) (λ m. omega arith) n width (omega arith) lt)
strtol-printnum base n width (inr (inr e)) lt = rw e (
    strtol-print_digits 16 (omega arith) (λ m. omega arith) (λ m h. omega arith)
      (λ b m h. omega arith) (λ m. omega arith) n width (omega arith) lt)
