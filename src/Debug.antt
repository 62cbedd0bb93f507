-- ===== src/Debug.antt =====
-- kern/kdebug.c: the binary search through the stabs. The indices of the C code can go down to -1,
-- so an `int` that can is kept one up: `r1` is `r + 1`, and `m1` is `m + 1`.
pub mod Termination
pub mod Region
pub mod Found
pub mod Info
pub mod Answer
pub mod Rounds
use arch.Base.{
  ℕ, zero, suc, ◌+◌, ◌-◌, ◌*◌, ◌/◌, ◌%◌, ◌^◌, Bool, true, false, Option, none, some, ◌==◌, ltb, leb,
  if◌then◌else◌, ◌||◌,
}

pub record Stab : Type 0 where
  pub n_strx : ℕ
  pub n_type : ℕ
  pub n_other : ℕ
  pub n_desc : ℕ
  pub n_value : ℕ

-- The local variables of `stab_binsearch` and the two numbers that it reports to its caller.
pub record Search : Type 0 where
  pub l : ℕ
  pub r1 : ℕ
  pub any_matches : Bool
  pub addr : ℕ
  pub region_left : ℕ
  pub region_right1 : ℕ

-- The three outcomes of the comparison with the stab `m` of the right type.
abbrev pub right_part : (true_m m : ℕ) → Search → Search
right_part true_m m s = record s { any_matches = true; region_left = m; l = true_m + 1 }

abbrev pub left_part : (m : ℕ) → Search → Search
left_part m s = record s { any_matches = true; region_right1 = m; r1 = m }

abbrev pub at_match : (m : ℕ) → Search → Search
at_match m s = record s { any_matches = true; region_left = m; l = m; addr = (s.addr + 1) % 2 ^ 32 }

-- The rounds that are enough for the region from `l` to just before `r1`.
abbrev pub rounds : (l r1 : ℕ) → ℕ
rounds l r1 = 2 * (r1 - l) + 1

-- The state before the loop.
abbrev pub starting : (region_left region_right1 addr : ℕ) → Search
starting region_left region_right1 addr = record {
  l = region_left;
  r1 = region_right1;
  any_matches = false;
  addr = addr;
  region_left = region_left;
  region_right1 = region_right1;
}

module _ (stabs : ℕ → Stab) (type : ℕ) where
  -- `while (m >= low && stabs[m].n_type != type) m--`, from `m` to the `m` it stops at
  unfoldable pub scan_down : (low m1 : ℕ) → ℕ
  scan_down low zero = zero
  scan_down low (suc m) = if ltb m low || (stabs m).n_type == type then suc m else scan_down low m

  unfoldable pub narrow : (true_m m : ℕ) → Search → Search
  narrow true_m m s =
      let v = (stabs m).n_value in
      if ltb v s.addr
      then right_part true_m m s
      else if ltb s.addr v
      then left_part m s
      else at_match m s

  -- One round of the search, with `m1` where the scan from the middle stops.
  unfoldable pub narrow_from : (true_m m1 : ℕ) → Search → Search
  narrow_from true_m zero s = record s { l = true_m + 1 }
  narrow_from true_m (suc m) s =
      if ltb m s.l then record s { l = true_m + 1 } else narrow true_m m s

  unfoldable pub search_round : Search → Search
  search_round s =
      let true_m = (s.l + s.r1 - 1) / 2 in narrow_from true_m (scan_down s.l (true_m + 1)) s

  -- `while (l <= r)`, for at most `fuel` rounds.
  unfoldable pub search_loop : (fuel : ℕ) → Search → Option Search
  search_loop zero s = if leb s.r1 s.l then some s else none
  search_loop (suc fuel) s = if leb s.r1 s.l then some s else search_loop fuel (search_round s)

  -- What follows the loop: `*region_left + 1` and `*region_right + 1`.
  unfoldable pub search_end : Search → ℕ × ℕ
  search_end s =
      if s.any_matches
      then (scan_down (s.region_left + 1) s.region_right1, s.region_right1)
      else (s.region_left + 1, s.region_left)

  abbrev pub report : Option Search → Option (ℕ × ℕ)
  report none = none
  report (some s) = some (search_end s)

  unfoldable pub stab_binsearch : (region_left region_right1 addr : ℕ) → Option (ℕ × ℕ)
  stab_binsearch region_left region_right1 addr =
      report
        (search_loop (rounds region_left region_right1) (starting region_left region_right1 addr))
