-- ===== src/Pmap/Mem/Pages.antt =====
-- The pages of a range of addresses, and the first of them that fails a test.
use arch.Base.{
  ℕ, zero, suc, ◌+◌, ◌-◌, ◌*◌, ◌/◌, ◌<◌, ◌≡◌, refl, Bool, true, false, Option, none, some, arith,
}
use native.Mathlib.Nat.{add-zero}
use arch.Base.{if◌then◌else◌, Bool-cases, inl, inr}
use arch.Kern.Layout.{pgsize, round_down}

-- The first of `n` pages from `i` on that fails a test.
abbrev pub first_bad : (ℕ → Bool) → ℕ → ℕ → Option ℕ
first_bad p zero i = none
first_bad p (suc n) i = if p i then first_bad p n (i + pgsize) else some i

-- The pages that `user_mem_check` looks at: those from the one of `va` up to the end of the range.
abbrev pub pages_of : ℕ → ℕ → ℕ
pages_of va len = (va + len + (pgsize - 1)) / pgsize - va / pgsize

-- The `j`-th page of the range of `va`.
abbrev pub page_at : ℕ → ℕ → ℕ
page_at va j = round_down va pgsize + j * pgsize

module _ (p : ℕ → Bool) where
  shift : (i j m : ℕ) → j ≡ suc m → i + j * pgsize ≡ i + pgsize + m * pgsize
  shift i j m e = omega arith

  pub first_bad-none :
      (n i : ℕ) → first_bad p n i ≡ none → (j : ℕ) → j < n → p (i + j * pgsize) ≡ true
  first_bad-none zero i h j lt = absurd (omega arith)
  first_bad-none (suc n) i h zero lt =
      rw add-zero (elim (Bool-cases (p i)) [ inl good ↦ good | inr bad ↦ cc (rw bad at h) ])
  first_bad-none (suc n) i h (suc j) lt = elim (Bool-cases (p i)) [
    | inl good ↦
        rw (shift i (suc j) j refl) (first_bad-none n (i + pgsize) (rw good at h) j (omega arith))
    | inr bad ↦ cc (rw bad at h)
  ]

  pub first_bad-some :
      (n i b : ℕ)
      → first_bad p n i ≡ some b
      → (j : ℕ) × (j < n)
        × (b ≡ i + j * pgsize)
        × (p b ≡ false)
        × ((m : ℕ) → m < j → p (i + m * pgsize) ≡ true)
  first_bad-some zero i b h = cc
  first_bad-some (suc n) i b h = elim (Bool-cases (p i)) [
    | inl good ↦
        let (j, lt, e, bad, before) = first_bad-some n (i + pgsize) b (rw good at h) in
        (suc j, omega arith, omega arith, bad, earlier good j before)
    | inr bad ↦
        let e : i ≡ b = ground (arith, bad) in
        (0, omega arith, omega arith, rw (← e) bad, λ m lt. absurd (omega arith))
  ]
    where
      earlier :
          p i ≡ true
          → (j : ℕ) → ((m : ℕ) → m < j → p (i + pgsize + m * pgsize) ≡ true)
          → (m : ℕ) → m < suc j
          → p (i + m * pgsize) ≡ true
      earlier good j before zero lt = rw add-zero good
      earlier good j before (suc m) lt = rw (shift i (suc m) m refl) (before m (omega arith))
