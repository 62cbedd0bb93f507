-- ===== src/Debug/Region.antt =====
-- What the rounds of `stab_binsearch` of kern/kdebug.c keep on sorted stabs.
use arch.Base.{
  ℕ, ◌+◌, ◌^◌, ◌≤◌, ◌<◌, ◌≡◌, ◌≢◌, refl, true, false, ◌==◌, ltb, arith, Bool-cases, inl, inr, ◌⊎◌,
  ◌∙◌, Bool,
}
use native.Mathlib.Decide.{ℕ_discrete}
use arch.Debug.{Stab, Search, search_round, right_part, left_part, at_match}
use arch.Debug.Rounds.{narrow-cases, search_round-cases}

-- The stab `i` has the type that is searched.
abbrev pub is_type : (ℕ → Stab) → ℕ → ℕ → Bool
is_type stabs type i = (stabs i).n_type == type

-- The stabs of a type that stand from `lo` to before `hi` are sorted by their addresses.
abbrev pub Sorted : (ℕ → Stab) → (type lo hi : ℕ) → Type 0
Sorted stabs type lo hi =
    (i j : ℕ)
    → lo ≤ i
    → i ≤ j
    → j < hi
    → is_type stabs type i ≡ true
    → is_type stabs type j ≡ true
    → (stabs i).n_value ≤ (stabs j).n_value

-- No stab of the type from `lo` to before `hi` has the address `a`.
abbrev pub Without : (ℕ → Stab) → (type lo hi a : ℕ) → Type 0
Without stabs type lo hi a =
    (i : ℕ) → lo ≤ i → i < hi → is_type stabs type i ≡ true → (stabs i).n_value ≢ a

-- The stab `q` is of the type and its address is not above `a`.
pub record Candidate (stabs : ℕ → Stab) (type lo hi a q : ℕ) : Type 0 where
  pub from : lo ≤ q
  pub before : q < hi
  pub typed : is_type stabs type q ≡ true
  pub not_above : (stabs q).n_value ≤ a

-- What holds before each round: the stabs to the left of `l` are not above the address, those from
-- `r1` on are.
pub record Inv (stabs : ℕ → Stab) (type lo hi a : ℕ) (s : Search) : Type 0 where
  pub l_from : lo ≤ s.l
  pub r1_to : s.r1 ≤ hi
  pub right : s.region_right1 ≡ s.r1
  pub moved : (s.addr ≡ a) ⊎ (s.addr ≡ a + 1)
  pub left_of : (i : ℕ) → lo ≤ i → i < s.l → is_type stabs type i ≡ true → (stabs i).n_value ≤ a
  pub right_of : (i : ℕ) → s.r1 ≤ i → i < hi → is_type stabs type i ≡ true → a < (stabs i).n_value
  pub seen :
      (i : ℕ)
      → lo ≤ i
      → i < s.l
      → is_type stabs type i ≡ true
      → (s.any_matches ≡ true) × Candidate stabs type lo hi a s.region_left
  pub border : (s.r1 ≡ hi) ⊎ (is_type stabs type s.r1 ≡ true)

module _ (stabs : ℕ → Stab) (type lo hi a : ℕ) (sorted : Sorted stabs type lo hi)
    (gap : Without stabs type lo hi (a + 1)) (fits : a + 1 < 2 ^ 32) where
  right_part-Inv :
      (s : Search) (true_m m : ℕ)
      → Inv stabs type lo hi a s
      → s.l ≤ m
      → m ≤ true_m
      → true_m < s.r1
      → is_type stabs type m ≡ true
      → ((i : ℕ) → m < i → i ≤ true_m → is_type stabs type i ≡ false)
      → (stabs m).n_value < s.addr
      → Inv stabs type lo hi a (right_part true_m m s)
  right_part-Inv s true_m m inv low up lt t rest h = record {
    l_from = omega (arith, inv.l_from);
    r1_to = inv.r1_to;
    right = inv.right;
    moved = inv.moved;
    left_of = λ i from le ti. elim (ℕ_discrete i m) [
      | yes e ↦ rw e here.not_above
      | no ne ↦ elim (Bool-cases (ltb m i)) [
        | inl b ↦ let f = rest i (ground arith) (omega arith) in absurd (cc (f, ti))
        | inr b ↦ omega (arith, sorted i m from (ground arith) here.before ti t, here.not_above)
      ]
    ];
    right_of = inv.right_of;
    seen = λ i from le ti. (refl, here);
    border = inv.border;
  }
    where
      here : Candidate stabs type lo hi a m
      here = record {
        from = omega (arith, inv.l_from);
        before = omega (arith, inv.r1_to);
        typed = t;
        not_above = elim inv.moved [ inl e ↦ omega arith | inr e ↦ omega arith ];
      }

  left_part-Inv :
      (s : Search) (m : ℕ)
      → Inv stabs type lo hi a s
      → s.l ≤ m
      → m < s.r1
      → is_type stabs type m ≡ true
      → s.addr < (stabs m).n_value
      → Inv stabs type lo hi a (left_part m s)
  left_part-Inv s m inv low lt t h = record {
    l_from = inv.l_from;
    r1_to = omega (arith, inv.r1_to);
    right = refl;
    moved = inv.moved;
    left_of = inv.left_of;
    right_of = λ i from le ti.
        let higher = sorted m i (omega (arith, inv.l_from)) from le t ti in
        elim inv.moved [ inl e ↦ omega arith | inr e ↦ omega arith ];
    seen = λ i from le ti. (refl, (inv.seen i from le ti).1);
    border = inr t;
  }

  at_match-Inv :
      (s : Search) (m : ℕ)
      → Inv stabs type lo hi a s
      → s.l ≤ m
      → m < s.r1
      → is_type stabs type m ≡ true
      → (stabs m).n_value ≡ s.addr
      → Inv stabs type lo hi a (at_match m s)
  at_match-Inv s m inv low lt t h = elim inv.moved [
    | inr e ↦ absurd (gap m (omega (arith, inv.l_from)) (omega (arith, inv.r1_to)) t (h ∙ e))
    | inl e ↦
        let here : Candidate stabs type lo hi a m = record {
          from = omega (arith, inv.l_from);
          before = omega (arith, inv.r1_to);
          typed = t;
          not_above = omega arith;
        } in
        record {
          l_from = here.from;
          r1_to = inv.r1_to;
          right = inv.right;
          moved = inr (omega arith);
          left_of = λ i from le ti. omega (arith, sorted i m from (omega arith) here.before ti t);
          right_of = inv.right_of;
          seen = λ i from le ti. (refl, here);
          border = inv.border;
        }
  ]

  skip-Inv :
      (s : Search) (true_m : ℕ)
      → Inv stabs type lo hi a s
      → ((i : ℕ) → s.l ≤ i → i ≤ true_m → is_type stabs type i ≡ false)
      → s.l ≤ true_m
      → Inv stabs type lo hi a (record s { l = true_m + 1 })
  skip-Inv s true_m inv rest up = record {
    l_from = omega (arith, inv.l_from);
    r1_to = inv.r1_to;
    right = inv.right;
    moved = inv.moved;
    left_of = λ i from le ti. inv.left_of i from (left i le ti) ti;
    right_of = inv.right_of;
    seen = λ i from le ti. inv.seen i from (left i le ti) ti;
    border = inv.border;
  }
    where
      left : (i : ℕ) → i < true_m + 1 → is_type stabs type i ≡ true → i < s.l
      left i le ti = elim (Bool-cases (ltb i s.l)) [
        | inl b ↦ ground arith
        | inr b ↦ let f = rest i (ground arith) (omega arith) in absurd (cc (f, ti))
      ]

  pub search_round-Inv :
      (s : Search)
      → s.l < s.r1
      → Inv stabs type lo hi a s
      → Inv stabs type lo hi a (search_round stabs type s)
  search_round-Inv s h inv =
      let (true_m, low, up, outcome) = search_round-cases stabs type s h in
      elim outcome [
        | inl (rest, e) ↦ rw e (skip-Inv s true_m inv rest low)
        | inr (m, lo', hi', t, rest, e) ↦ elim (narrow-cases stabs type true_m m s) [
          | inl (v, e') ↦ rw (e, e') (right_part-Inv s true_m m inv lo' hi' up t rest v)
          | inr (inl (v, e')) ↦ rw (e, e') (left_part-Inv s m inv lo' (omega arith) t v)
          | inr (inr (v, e')) ↦ rw (e, e') (at_match-Inv s m inv lo' (omega arith) t v)
        ]
      ]
