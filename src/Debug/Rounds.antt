-- ===== src/Debug/Rounds.antt =====
-- One round of `stab_binsearch` of kern/kdebug.c, case by case.
use arch.Base.{
  ℕ, zero, suc, ◌+◌, ◌-◌, ◌/◌, ◌≤◌, ◌<◌, ◌≡◌, refl, true, false, ◌==◌, ltb, arith, Bool-cases, inl,
  inr, ◌⊎◌, ◌||◌, ◌∙◌, sym,
}
use native.Mathlib.Decide.{ℕ_discrete}
use arch.Debug.{
  Stab, Search, scan_down, narrow, narrow_from, search_round, right_part, left_part, at_match,
}

module _ (stabs : ℕ → Stab) (type : ℕ) where
  pub scan_down-le : (low m1 : ℕ) → scan_down stabs type low m1 ≤ m1
  unfolding scan_down
  scan_down-le low zero = omega arith
  scan_down-le low (suc m) = ground (arith, scan_down-le low m)

  pub narrow-cases :
      (true_m m : ℕ) (s : Search)
      → (((stabs m).n_value < s.addr) × (narrow stabs type true_m m s ≡ right_part true_m m s))
        ⊎ ((s.addr < (stabs m).n_value) × (narrow stabs type true_m m s ≡ left_part m s))
        ⊎ (((stabs m).n_value ≡ s.addr) × (narrow stabs type true_m m s ≡ at_match m s))
  unfolding narrow
  narrow-cases true_m m s = elim (Bool-cases (ltb (stabs m).n_value s.addr)) [
    | inl h ↦ inl (ground arith, rw h refl)
    | inr h ↦ elim (Bool-cases (ltb s.addr (stabs m).n_value)) [
      | inl h' ↦ inr (inl (ground arith, rw (h, h') refl))
      | inr h' ↦ inr (inr (ground arith, rw (h, h') refl))
    ]
  ]

  scan_down_step :
      (low m : ℕ)
      → ((ltb m low || (stabs m).n_type == type) ≡ true)
          × (scan_down stabs type low (suc m) ≡ suc m)
        ⊎ ((ltb m low || (stabs m).n_type == type) ≡ false)
          × (scan_down stabs type low (suc m) ≡ scan_down stabs type low m)
  unfolding scan_down
  scan_down_step low m = elim (Bool-cases (ltb m low || (stabs m).n_type == type)) [
    | inl e ↦ inl (e, rw e refl)
    | inr e ↦ inr (e, rw e refl)
  ]

  pub scan_down-ge : (low m1 : ℕ) → low ≤ m1 → low ≤ scan_down stabs type low m1
  unfolding scan_down
  scan_down-ge low zero h = h
  scan_down-ge low (suc m) h = elim (scan_down_step low m) [
    | inl (b, e) ↦ omega arith
    | inr (b, e) ↦ omega (arith, scan_down-ge low m (ground arith))
  ]

  -- Between where the scan stops and where it started there is no stab of the type; it stops at
  -- one, or below `low`.
  pub scan_down_rest :
      (low m1 i : ℕ)
      → scan_down stabs type low m1 ≤ i
      → i < m1
      → low ≤ i
      → ((stabs i).n_type == type) ≡ false
  scan_down_rest low zero i h lt le = absurd (omega arith)
  scan_down_rest low (suc m) i h lt le = elim (scan_down_step low m) [
    | inl (b, e) ↦ absurd (omega arith)
    | inr (b, e) ↦ elim (ℕ_discrete i m) [
      | yes same ↦ ground arith
      | no ne ↦ scan_down_rest low m i (omega arith) (omega arith) le
    ]
  ]

  pub scan_down_stop :
      (low m1 m : ℕ)
      → scan_down stabs type low m1 ≡ suc m
      → low ≤ m
      → ((stabs m).n_type == type) ≡ true
  unfolding scan_down
  scan_down_stop low zero m h le = absurd (omega arith)
  scan_down_stop low (suc n) m h le = elim (scan_down_step low n) [
    | inl (b, e) ↦ let same : n ≡ m = omega arith in ground arith
    | inr (b, e) ↦ scan_down_stop low n m (sym e ∙ h) le
  ]

  -- What a round does: with no stab of the type from `l` to the middle it goes on behind the
  -- middle, else it compares with the last one there.
  pub search_round-cases :
      (s : Search)
      → s.l < s.r1
      → (true_m : ℕ) × (s.l ≤ true_m)
        × (true_m < s.r1)
        × (((i : ℕ) → s.l ≤ i → i ≤ true_m → ((stabs i).n_type == type) ≡ false)
              × (search_round stabs type s ≡ record s { l = true_m + 1 })
            ⊎ ((m : ℕ) × (s.l ≤ m)
                × (m ≤ true_m)
                × (((stabs m).n_type == type) ≡ true)
                × ((i : ℕ) → m < i → i ≤ true_m → ((stabs i).n_type == type) ≡ false)
                × (search_round stabs type s ≡ narrow stabs type true_m m s)))
  unfolding search_round narrow_from
  search_round-cases s h =
      let true_m = (s.l + s.r1 - 1) / 2 in
      (
        true_m,
        omega arith,
        omega arith,
        round_at true_m (scan_down stabs type s.l (true_m + 1)) refl (omega arith),
      )
    where
      round_at :
          (true_m m1 : ℕ)
          → scan_down stabs type s.l (true_m + 1) ≡ m1
          → s.l ≤ true_m
          → (((i : ℕ) → s.l ≤ i → i ≤ true_m → ((stabs i).n_type == type) ≡ false)
                × (narrow_from stabs type true_m m1 s ≡ record s { l = true_m + 1 })
              ⊎ ((m : ℕ) × (s.l ≤ m)
                  × (m ≤ true_m)
                  × (((stabs m).n_type == type) ≡ true)
                  × ((i : ℕ) → m < i → i ≤ true_m → ((stabs i).n_type == type) ≡ false)
                  × (narrow_from stabs type true_m m1 s ≡ narrow stabs type true_m m s)))
      round_at true_m zero e le =
          inl (λ i low up. scan_down_rest s.l (true_m + 1) i (omega arith) (omega arith) low, refl)
      round_at true_m (suc m) e le = elim (Bool-cases (ltb m s.l)) [
        | inl b ↦ inl (
          λ i low up. scan_down_rest s.l (true_m + 1) i (ground arith) (omega arith) low,
          rw b refl,
        )
        | inr b ↦ inr (
          m,
          ground arith,
          omega (arith, scan_down-le s.l (true_m + 1)),
          scan_down_stop s.l (true_m + 1) m e (ground arith),
          λ i low up. scan_down_rest s.l (true_m + 1) i (omega arith) (omega arith) (ground arith),
          rw b refl,
        )
      ]
