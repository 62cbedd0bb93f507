-- ===== src/Base/Trials.antt =====
-- Proof by trying all numbers below a bound, or all values of some Booleans.
use Prim.Native.Nat.{ℕ, zero, suc, ◌<◌}
use mathlib.Core.Path.{◌≡◌, refl}
use mathlib.Core.Logic.{inl, inr}
use mathlib.Core.Bool.{Bool, true, false, ◌&&◌}
use native.Mathlib.Omega.{arith}
use arch.Base.Tests.{◌==◌, ==_iff, Bool-cases}

-- Tests of all numbers below a bound, and of all values of some Booleans
abbrev pub all_below : (n : ℕ) → (ℕ → Bool) → Bool
all_below zero f = true
all_below (suc n) f = f n && all_below n f

abbrev pub Test : ℕ → Type 0
Test zero = Bool
Test (suc n) = Bool → Test n

abbrev pub passes : (n : ℕ) → Test n → Bool
passes zero t = t
passes (suc n) t = passes n (t true) && passes n (t false)

pub both : (a b : Bool) → (a && b) ≡ true → (a ≡ true) × (b ≡ true)
both true b e = (refl, e)
both false b e = absurd (cc e)

pub all_below-at : (n : ℕ) (f : ℕ → Bool) → all_below n f ≡ true → (i : ℕ) → i < n → f i ≡ true
all_below-at zero f e i lt = absurd (omega arith)
all_below-at (suc n) f e i lt =
    let (at, below) = both (f n) (all_below n f) e in
    elim (Bool-cases (i == n)) [
      | inl same ↦ rw ((==_iff i n).0 same) at
      | inr other ↦ all_below-at n f below i (ground (arith, other, lt))
    ]

passes-at :
    (n : ℕ) (t : Test (suc n)) → passes (suc n) t ≡ true → (b : Bool) → passes n (t b) ≡ true
passes-at n t e true = (both (passes n (t true)) (passes n (t false)) e).0
passes-at n t e false = (both (passes n (t true)) (passes n (t false)) e).1

abbrev pub Fact : (n : ℕ) → Test n → Type 0
Fact zero t = t ≡ true
Fact (suc n) t = (b : Bool) → Fact n (t b)

pub passes-Fact : (n : ℕ) (t : Test n) → passes n t ≡ true → Fact n t
passes-Fact zero t e = e
passes-Fact (suc n) t e = λ b. passes-Fact n (t b) (passes-at n t e b)
