-- ===== src/Debug/Found.antt =====
-- What `stab_binsearch` of kern/kdebug.c finds on sorted stabs.
use arch.Base.{
  ℕ, suc, ◌+◌, ◌-◌, ◌^◌, ◌≤◌, ◌<◌, ◌≡◌, refl, some, true, false, ltb, arith, Bool-cases, inl, inr,
  ◌⊎◌, ◌∙◌, ap,
}
use native.Mathlib.Decide.{ℕ_discrete}
use arch.Debug.{Stab, Search, scan_down, search_end, stab_binsearch, rounds, starting, report}
use arch.Debug.Rounds.{scan_down_rest, scan_down_stop, scan_down-ge, scan_down-le}
use arch.Debug.Termination.{search_loop-ends, starting-measure}
use arch.Debug.Region.{is_type, Sorted, Without, Candidate, Inv, search_round-Inv}

-- The stab `q` is the last one of the type whose address is not above `a`, and `q1` is the next one
-- of the type, or the end of the region.
pub record Found (stabs : ℕ → Stab) (type lo hi a q q1 : ℕ) : Type 0 where
  pub candidate : Candidate stabs type lo hi a q
  pub ordered : q < q1
  pub between : (i : ℕ) → q < i → i < q1 → is_type stabs type i ≡ false
  pub next : (q1 ≡ hi) ⊎ (is_type stabs type q1 ≡ true) × (a < (stabs q1).n_value)

module _ {stabs : ℕ → Stab} {type lo hi a : ℕ} (s : Search) (inv : Inv stabs type lo hi a s) where
  -- A stab that is not above the address stands before `r1`.
  before_r1 : (i : ℕ) → Candidate stabs type lo hi a i → i < s.r1
  before_r1 i c = elim (Bool-cases (ltb i s.r1)) [
    | inl b ↦ ground arith
    | inr b ↦ omega (arith, inv.right_of i (ground arith) c.before c.typed, c.not_above)
  ]

  last-Candidate :
      (q : ℕ)
      → s.r1 ≤ s.l
      → Candidate stabs type lo hi a s.region_left
      → scan_down stabs type (s.region_left + 1) s.r1 ≡ suc q
      → s.region_left ≤ q
      → q < s.r1
      → Candidate stabs type lo hi a q
  last-Candidate q stop c e le lt = elim (ℕ_discrete s.region_left q) [
    | yes same ↦ rw⁻¹ same c
    | no ne ↦
        let t = scan_down_stop stabs type (s.region_left + 1) s.r1 q e (omega arith) in
        record {
          from = omega (arith, c.from);
          before = omega (arith, inv.r1_to);
          typed = t;
          not_above = inv.left_of q (omega (arith, c.from)) (omega arith) t;
        }
  ]

  next_one : (s.r1 ≡ hi) ⊎ (is_type stabs type s.r1 ≡ true) × (a < (stabs s.r1).n_value)
  next_one = elim (ℕ_discrete s.r1 hi) [
    | yes e ↦ inl e
    | no ne ↦ elim inv.border [
      | inl e ↦ inl e
      | inr t ↦ inr (t, inv.right_of s.r1 (omega arith) (omega (arith, inv.r1_to)) t)
    ]
  ]

  search_end-Found :
      (i : ℕ)
      → s.r1 ≤ s.l
      → Candidate stabs type lo hi a i
      → (q : ℕ) × (q1 : ℕ) × (search_end stabs type s ≡ (q + 1, q1)) × Found stabs type lo hi a q q1
  unfolding search_end
  search_end-Found i stop ci =
      let (any, c) = inv.seen i ci.from (omega (arith, before_r1 i ci)) ci.typed in
      let lt = before_r1 s.region_left c in
      let ge = scan_down-ge stabs type (s.region_left + 1) s.r1 (omega arith) in
      let le = scan_down-le stabs type (s.region_left + 1) s.r1 in
      let q : ℕ = scan_down stabs type (s.region_left + 1) s.r1 - 1 in
      let e : scan_down stabs type (s.region_left + 1) s.r1 ≡ q + 1 = omega arith in
      (
        q,
        s.r1,
        rw (any, inv.right) (ap (λ n. (n, s.r1)) e),
        record {
          candidate = last-Candidate q stop c (omega arith) (omega arith) (omega arith);
          ordered = omega arith;
          between = λ j low up.
              scan_down_rest stabs type (s.region_left + 1) s.r1 j (omega arith) up (omega arith);
          next = next_one;
        },
      )

-- On stabs of the type that are sorted by their addresses in the region, one of them not above
-- `addr` and none at `addr + 1`, which is below 2^32, the search ends and reports the last stab of
-- the type that is not above `addr`, and as the right end the place just before the next one of the
-- type, or the right end of the region.
pub stab_binsearch_lem :
    (stabs : ℕ → Stab) (type lo hi addr i : ℕ)
    → Sorted stabs type lo hi
    → Without stabs type lo hi (addr + 1)
    → addr + 1 < 2 ^ 32
    → lo ≤ i
    → i < hi
    → is_type stabs type i ≡ true
    → (stabs i).n_value ≤ addr
    → (q : ℕ) × (q1 : ℕ) × (stab_binsearch stabs type lo hi addr ≡ some (q + 1, q1))
      × Found stabs type lo hi addr q q1
unfolding stab_binsearch
stab_binsearch_lem stabs type lo hi addr i sorted gap fits from to t le =
    let start = starting lo hi addr in
    let (s, e, stop, inv) =
      search_loop-ends stabs type (Inv stabs type lo hi addr)
        (search_round-Inv stabs type lo hi addr sorted gap fits) (rounds lo hi) start
        (starting-measure stabs type lo hi addr)
        (record {
          l_from = omega arith;
          r1_to = omega arith;
          right = refl;
          moved = inl refl;
          left_of = λ j low up tj. absurd (omega arith);
          right_of = λ j low up tj. absurd (omega arith);
          seen = λ j low up tj. absurd (omega arith);
          border = inl refl;
        }) in
    let (q, q1, e', found) =
      search_end-Found s inv i stop
        (record { from = from; before = to; typed = t; not_above = le }) in
    (q, q1, ap (report stabs type) e ∙ ap some e', found)
