-- ===== src/Text/Compare.antt =====
-- What `strlen`, `strcmp` and `strlcpy` of lib/string.c compute on null-terminated strings.
use arch.Base.{
  ==_ne, ==_iff, ℕ, zero, suc, ◌-◌, ◌≤◌, ◌<◌, ◌≡◌, refl, inl, inr, some, List, [], ◌∷◌, ◌++◌, ◌==◌,
  take, drop, length, length-take, arith, ap, Bool-cases, ◌↔◌,
}
use arch.Text.Strings.{strlen, strcmp, byte_diff, strlcpy, copy_bytes, terminate}

-- The text of a string: bytes other than 0.
abbrev pub IsText : List ℕ → Type 0
IsText [] = Unit {0}
IsText (c ∷ s) = (0 < c) × (c < 256) × IsText s

strlen-text : (s rest : List ℕ) → IsText s → strlen (s ++ (0 ∷ rest)) ≡ some (length s)
unfolding strlen
strlen-text [] rest t = refl
strlen-text (c ∷ s) rest (pos, byte, t) = rw (==_ne c 0 (omega arith), strlen-text s rest t) refl

-- `strcmp` of two strings returns, and it returns 0 exactly if they are equal.
pub strcmp_lem :
    (p q x y : List ℕ)
    → IsText p
    → IsText q
    → (r : ℕ) × (strcmp (p ++ (0 ∷ x)) (q ++ (0 ∷ y)) ≡ some r) × ((r ≡ 0) ↔ (p ≡ q))
unfolding strcmp
strcmp_lem [] [] x y tp tq = (0, refl, (λ _. refl, λ _. refl))
strcmp_lem [] (b ∷ q) x y tp (pos, byte, tq) =
    (byte_diff 0 b, refl, (λ h. absurd (omega arith), λ e. cc e))
strcmp_lem (a ∷ p) [] x y (pos, byte, tp) tq =
    (byte_diff a 0, ground arith, (λ h. absurd (omega arith), λ e. cc e))
strcmp_lem (a ∷ p) (b ∷ q) x y (pos, byte, tp) (pos', byte', tq) = elim (Bool-cases (a == b)) [
  | inl same ↦
      let (r, run, zero_iff) = strcmp_lem p q x y tp tq in
      let e : a ≡ b = (==_iff a b).0 same in
      (
        r,
        rw (==_ne a 0 (omega arith), same) run,
        (λ z. rw e (ap (λ s. b ∷ s) (zero_iff.0 z)), λ h. zero_iff.1 (cc h)),
      )
  | inr differ ↦
      let no : a ≡ b → ⊥ = λ e. ground (arith, e, differ) in
      (
        byte_diff a b,
        rw (==_ne a 0 (omega arith), differ) refl,
        (λ z. absurd (omega (arith, z, no)), λ h. absurd (no (cc h))),
      )
]

copy_bytes-text :
    (n : ℕ) (s x dst : List ℕ)
    → IsText s
    → n < length dst
    → copy_bytes n dst (s ++ (0 ∷ x))
      ≡ some (length (take n s), take n s ++ (0 ∷ drop (suc (length (take n s))) dst))
unfolding copy_bytes terminate
copy_bytes-text n s x [] t lt = absurd (omega arith)
copy_bytes-text zero s x (d ∷ dst) t lt = refl
copy_bytes-text (suc n) [] x (d ∷ dst) t lt = refl
copy_bytes-text (suc n) (c ∷ s) x (d ∷ dst) (pos, byte, t) lt =
    rw (==_ne c 0 (omega arith), copy_bytes-text n s x dst t (omega arith)) refl

-- `strlcpy` of a string into an object of at least `size` bytes, `size` not 0, returns: it copies
-- the string or its first `size - 1` bytes, puts a null character behind them, leaves the bytes
-- behind that alone, and returns the number of bytes copied, which is below `size`.
strlcpy_lem :
    (dst s x : List ℕ) (size : ℕ)
    → IsText s
    → 0 < size
    → size ≤ length dst
    → let copied = take (size - 1) s in
      (strlcpy dst (s ++ (0 ∷ x)) size
        ≡ some (length copied, copied ++ (0 ∷ drop (suc (length copied)) dst)))
      × (length copied < size)
unfolding strlcpy
strlcpy_lem dst s x zero t pos room = absurd (omega arith)
strlcpy_lem dst s x (suc n) t pos room =
    rw less (copy_bytes-text n s x dst t (omega arith), omega (arith, length-take n s))
  where
    less : suc n - 1 ≡ n
    less = omega arith
