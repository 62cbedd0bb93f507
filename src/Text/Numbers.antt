-- ===== src/Text/Numbers.antt =====
-- `strtol` of lib/string.c and `printnum` of lib/printfmt.c.
use arch.Base.{
  ℕ, zero, suc, ◌+◌, ◌-◌, ◌*◌, ◌/◌, ◌%◌, Bool, true, false, ◌&&◌, ◌||◌, Option, none, some, List,
  [], ◌∷◌, ◌++◌, ◌==◌, if◌then◌else◌, leb, ltb, replicate,
}
use arch.Kern.Layout.{u32}

-- The test `dig >= base`
abbrev pub below : (base dig : ℕ) → Option ℕ
below base dig = if leb base dig then none else some dig

-- `dig`, or none where the loop of `strtol` stops.
unfoldable pub digit_of : (base c : ℕ) → Option ℕ
digit_of base c =
    if leb 48 c && leb c 57
    then below base (c - 48)
    else if leb 97 c && leb c 122
    then below base (c - 97 + 10)
    else if leb 65 c && leb c 90
    then below base (c - 65 + 10)
    else none

-- The loop of `strtol` from the value `val` on: the value, and what is left of the string.
unfoldable pub scan_digits : (base val : ℕ) → List ℕ → Option (ℕ × List ℕ)
scan_digits base val [] = none
scan_digits base val (c ∷ s) = elim (digit_of base c) [
  | none ↦ some (val, c ∷ s)
  | some d ↦ scan_digits base ((val * base + d) % u32) s
]

unfoldable pub skip_blanks : List ℕ → List ℕ
skip_blanks [] = []
skip_blanks (c ∷ s) = let rest = skip_blanks s in if c == 32 || c == 9 then rest else c ∷ s

-- The sign, and the string behind it.
unfoldable pub take_sign : List ℕ → Bool × List ℕ
take_sign [] = (false, [])
take_sign (c ∷ s) = if c == 43 then (false, s) else if c == 45 then (true, s) else (false, c ∷ s)

-- The base, and the string behind its prefix. `s[1]` is read only if `s[0]` is the digit 0.
unfoldable pub take_prefix : (base : ℕ) → List ℕ → ℕ × List ℕ
take_prefix base (c ∷ x ∷ s) =
    if (base == 0 || base == 16) && (c == 48 && x == 120)
    then (16, s)
    else if base == 0 && c == 48
    then (8, x ∷ s)
    else if base == 0
    then (10, c ∷ x ∷ s)
    else (base, c ∷ x ∷ s)
take_prefix base s = if base == 0 then (10, s) else (base, s)

abbrev pub negated : Bool → ℕ → ℕ
negated neg val = if neg then (u32 - val) % u32 else val

-- The value as a bit pattern, and what is left of the string (`*endptr`).
unfoldable pub strtol : List ℕ → (base : ℕ) → Option (ℕ × List ℕ)
strtol s base =
    let signed = take_sign (skip_blanks s) in
    let prefixed = take_prefix base signed.1 in done signed.0 (scan_digits prefixed.0 0 prefixed.1)
  where
    done : Bool → Option (ℕ × List ℕ) → Option (ℕ × List ℕ)
    done neg none = none
    done neg (some (val, rest)) = some (negated neg val, rest)

-- `"0123456789abcdef"[d]`
abbrev pub hex_digit : ℕ → ℕ
hex_digit d = if ltb d 10 then 48 + d else 87 + d

-- `printnum`, with the rounds that the model allows; `width` stops at 0, where the source counts on
-- below it.
unfoldable pub print_digits : ℕ → (num base width padc : ℕ) → List ℕ
print_digits zero num base width padc = []
print_digits (suc fuel) num base width padc =
    let before = print_digits fuel (num / base) base (width - 1) padc in
    (if leb base num then before else replicate (width - 1) padc) ++ (hex_digit (num % base) ∷ [])

-- `num` is a 64-bit number, which has at most 64 digits.
unfoldable pub printnum : (num base width padc : ℕ) → List ℕ
printnum = print_digits 64
