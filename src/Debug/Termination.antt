-- ===== src/Debug/Termination.antt =====
-- The loop of `stab_binsearch` of kern/kdebug.c comes to an end.
use arch.Base.{
  ℕ, zero, suc, ◌+◌, ◌-◌, ◌*◌, ◌%◌, ◌^◌, ◌≤◌, ◌<◌, ◌≡◌, refl, some, true, ◌==◌, leb, if◌then◌else◌,
  arith, Bool-cases, inl, inr, ap,
}
use native.Mathlib.Decide.{ℕ_discrete}
use arch.Debug.{
  Stab, Search, narrow, search_round, search_loop, search_end, stab_binsearch, rounds, starting,
}
use arch.Debug.Rounds.{narrow-cases, search_round-cases}
use arch.Debug.{report}

module _ (stabs : ℕ → Stab) (type : ℕ) where
  -- An exact match can leave the region as it is, but then moves the address away from the value
  -- of its first stab.
  pub here : (l addr : ℕ) → ℕ
  here l addr = if (stabs l).n_value == addr then 1 else 0

  pub measure : Search → ℕ
  measure s = 2 * (s.r1 - s.l) + here s.l s.addr

  here-le : (l addr : ℕ) → here l addr ≤ 1
  unfolding here
  here-le l addr = ground arith

  at_match-less :
      (l r1 m addr : ℕ)
      → l ≤ m
      → m < r1
      → (stabs m).n_value ≡ addr
      → 2 * (r1 - m) + here m ((addr + 1) % 2 ^ 32) < 2 * (r1 - l) + here l addr
  unfolding here
  at_match-less l r1 m addr low lt e = elim (ℕ_discrete l m) [
    | yes same ↦ ground arith
    | no ne ↦ ground (arith, here-le m ((addr + 1) % 2 ^ 32))
  ]

  narrow-less :
      (s : Search) (true_m m : ℕ)
      → s.l ≤ m
      → m ≤ true_m
      → true_m < s.r1
      → measure (narrow stabs type true_m m s) < measure s
  unfolding measure
  narrow-less s true_m m low up lt = elim (narrow-cases stabs type true_m m s) [
    | inl (h, e) ↦ rw e (omega (arith, here-le (true_m + 1) s.addr))
    | inr (inl (h, e)) ↦ rw e (omega arith)
    | inr (inr (h, e)) ↦ rw e (at_match-less s.l s.r1 m s.addr low (omega arith) h)
  ]

  pub search_round-less :
      (s : Search) → s.l < s.r1 → measure (search_round stabs type s) < measure s
  unfolding measure
  search_round-less s h =
      let (true_m, low, up, outcome) = search_round-cases stabs type s h in
      elim outcome [
        | inl (_, e) ↦ rw e (omega (arith, here-le (true_m + 1) s.addr))
        | inr (m, lo, hi, match, _, e) ↦ rw e (narrow-less s true_m m lo hi up)
      ]

  -- The loop ends, and what every round keeps holds where it ends.
  pub search_loop-ends :
      (P : Search → Type 0)
      → ((s : Search) → s.l < s.r1 → P s → P (search_round stabs type s))
      → (fuel : ℕ) (s : Search) → measure s ≤ fuel
      → P s
      → (s' : Search) × (search_loop stabs type fuel s ≡ some s') × (s'.r1 ≤ s'.l) × P s'
  unfolding search_loop measure
  search_loop-ends P keep zero s h p =
      let done : leb s.r1 s.l ≡ true = ground arith in (s, rw done refl, omega arith, p)
  search_loop-ends P keep (suc fuel) s h p = elim (Bool-cases (leb s.r1 s.l)) [
    | inl e ↦ (s, rw e refl, ground arith, p)
    | inr e ↦
        let more : s.l < s.r1 = ground arith in
        rw e (
          search_loop-ends P keep fuel (search_round stabs type s)
            (omega (arith, search_round-less s more)) (keep s more p))
  ]

pub starting-measure :
    (stabs : ℕ → Stab) (type region_left region_right1 addr : ℕ)
    → measure stabs type (starting region_left region_right1 addr)
      ≤ rounds region_left region_right1
unfolding measure
starting-measure stabs type region_left region_right1 addr =
    omega (arith, here-le stabs type region_left addr)

-- The search comes to an end on every region of every array, whatever the order of its stabs and
-- the address are: the rounds counted by `rounds`, two for each stab and one, are enough.
pub stab_binsearch-ends :
    (stabs : ℕ → Stab) (type region_left region_right1 addr : ℕ)
    → (p : ℕ × ℕ) × (stab_binsearch stabs type region_left region_right1 addr ≡ some p)
unfolding stab_binsearch
stab_binsearch-ends stabs type region_left region_right1 addr =
    let start = starting region_left region_right1 addr in
    let (s, e, _, _) =
      search_loop-ends stabs type (λ _. Unit {0}) (λ s h p. tt) (rounds region_left region_right1)
        start (starting-measure stabs type region_left region_right1 addr) tt in
    (search_end stabs type s, ap (report stabs type) e)
