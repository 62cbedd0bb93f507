-- ===== src/Base/Bits.antt =====
-- Bits of machine words. `bit_or` computes at numerals; here are its laws at variables, from the
-- recursion on binary digits that it stands for.
use Prim.Native.Nat.{ℕ, zero, suc, ◌+◌, ◌*◌, ◌/◌, ◌%◌, ◌≤◌, max, bit_or, digits, bit_or-bitwise}
use mathlib.Core.Path.{◌≡◌, refl, ◌∙◌}
use native.Mathlib.Decide.{ℕ_discrete}
use native.Mathlib.Omega.{arith}

abbrev or_bits : (fuel x y : ℕ) → ℕ
or_bits = digits (λ y. y) max

-- A round more than the first number has changes nothing, so that number itself is fuel enough.
one_round_more : (fuel x y : ℕ) → x ≤ fuel → or_bits (suc fuel) x y ≡ or_bits fuel x y
one_round_more zero zero y le = refl
one_round_more (suc fuel) zero y le = refl
one_round_more zero (suc x) y le = absurd (omega arith)
one_round_more (suc fuel) (suc x) y le =
    let half : or_bits (suc fuel) (suc x / 2) (y / 2) ≡ or_bits fuel (suc x / 2) (y / 2) =
      one_round_more fuel (suc x / 2) (y / 2) (omega arith) in
    rw half refl

rounds_enough : (fuel x y : ℕ) → x ≤ fuel → or_bits fuel x y ≡ or_bits x x y
rounds_enough zero zero y le = refl
rounds_enough zero (suc x) y le = absurd (omega arith)
rounds_enough (suc fuel) x y le = elim (ℕ_discrete x (suc fuel)) [
  | yes e ↦ rw e refl
  | no ne ↦ one_round_more fuel x y (omega arith) ∙ rounds_enough fuel x y (omega arith)
]

zero-bit_or : (y : ℕ) → bit_or 0 y ≡ y
zero-bit_or y = bit_or-bitwise 0 y

-- The lowest digit apart.
pub bit_or_step : (x y : ℕ) → bit_or x y ≡ max (x % 2) (y % 2) + 2 * bit_or (x / 2) (y / 2)
bit_or_step zero y = omega (arith, zero-bit_or y, zero-bit_or (y / 2))
bit_or_step (suc x) y =
    let enough = rounds_enough x (suc x / 2) (y / 2) (omega arith) in
    omega (arith, bit_or-bitwise (suc x) y, enough, bit_or-bitwise (suc x / 2) (y / 2))

-- x >> k, one place at a time
abbrev pub shr : ℕ → ℕ → ℕ
shr x zero = x
shr x (suc k) = shr (x / 2) k

pub shr-bit_or : (k a b : ℕ) → shr (bit_or a b) k ≡ bit_or (shr a k) (shr b k)
shr-bit_or zero a b = refl
shr-bit_or (suc k) a b = rw (half a b) (shr-bit_or k (a / 2) (b / 2))
  where
    half : (a b : ℕ) → bit_or a b / 2 ≡ bit_or (a / 2) (b / 2)
    half a b = omega (arith, bit_or_step a b)

bit_or-zero_fuel : (n a : ℕ) → a ≤ n → bit_or a 0 ≡ a
bit_or-zero_fuel n zero h = zero-bit_or 0
bit_or-zero_fuel zero (suc a) h = absurd (omega arith)
bit_or-zero_fuel (suc n) (suc a) h =
    omega (arith, bit_or_step (suc a) 0, bit_or-zero_fuel n (suc a / 2) (omega arith))

pub bit_or-zero : (a : ℕ) → bit_or a 0 ≡ a
bit_or-zero a = bit_or-zero_fuel a a (omega arith)

-- x << k, one place at a time
abbrev pub shl : ℕ → ℕ → ℕ
shl x zero = x
shl x (suc k) = shl x k * 2

-- `|` of a shifted number and one that fits below the shift is their sum.
pub bit_or-shl : (k q r : ℕ) → shr r k ≡ 0 → bit_or (shl q k) r ≡ shl q k + r
bit_or-shl zero q r fits = rw fits (omega (arith, bit_or-zero q))
bit_or-shl (suc k) q r fits =
    let below : bit_or (shl q k * 2 / 2) (r / 2) ≡ shl q k + r / 2 =
      rw (half (shl q k)) (bit_or-shl k q (r / 2) fits) in
    omega (arith, bit_or_step (shl q k * 2) r, below)
  where
    half : (x : ℕ) → x * 2 / 2 ≡ x
    half x = omega arith
