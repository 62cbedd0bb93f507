-- ===== src/Debug/Answer.antt =====
-- `debuginfo_eip` of kern/kdebug.c always comes to an answer.
use arch.Base.{
  ℕ, zero, suc, ◌+◌, ◌-◌, ◌<◌, ◌≡◌, refl, ◌∙◌, ap, Bool, true, false, ◌||◌, Option, none, some,
  List, [], ◌∷◌, drop, length, ◌==◌, ==_ne, ltb, leb, if◌then◌else◌, arith, Bool-cases, inl, inr,
  ◌⊎◌,
}
use arch.Debug.{
  Stab, Search, scan_down, search_round, search_end, stab_binsearch, starting, rounds, report,
}
use arch.Debug.Info.{
  Eipdebuginfo, ends_with_zero, namelen, name_at, line_info, with_name, function_info,
  debuginfo_tables,
}
use arch.Debug.Region.{is_type}
use arch.Debug.Rounds.{narrow-cases, search_round-cases}
use arch.Debug.Termination.{search_loop-ends, starting-measure}
use arch.Text.Strings.{strfind}

-- There is a result.
abbrev pub IsSome {ℓ} : {A : Type ℓ} → Option A → Type 0
IsSome none = ⊥
IsSome (some a) = Unit {0}

module _ (stabs : ℕ → Stab) (type : ℕ) (header : is_type stabs type 0 ≡ false) where
  typed-positive : (m : ℕ) → is_type stabs type m ≡ true → 0 < m
  typed-positive zero t = absurd (cc (header, t))
  typed-positive (suc m) t = omega arith

  scan_down-positive : (low m1 : ℕ) → 0 < low → 0 < m1 → 0 < scan_down stabs type low m1
  unfolding scan_down
  scan_down-positive low zero h pos = absurd (omega arith)
  scan_down-positive low (suc m) h pos = elim (Bool-cases (ltb m low || (stabs m).n_type == type)) [
    | inl e ↦ rw e (omega arith)
    | inr e ↦ rw e (scan_down-positive low m h (ground arith))
  ]

  -- Once there was a match, the right end of the region is not before the first stab.
  Right : Search → Type 0
  Right s = (s.region_right1 ≡ s.r1) × ((s.any_matches ≡ false) ⊎ (0 < s.r1))

  search_round-Right : (s : Search) → s.l < s.r1 → Right s → Right (search_round stabs type s)
  unfolding Right
  search_round-Right s h (same, _) =
      let (true_m, low, up, outcome) = search_round-cases stabs type s h in
      elim outcome [
        | inl (_, e) ↦ rw e (same, inr (omega arith))
        | inr (m, lo, hi, t, _, e) ↦ elim (narrow-cases stabs type true_m m s) [
          | inl (_, e') ↦ rw (e, e') (same, inr (omega arith))
          | inr (inl (_, e')) ↦ rw (e, e') (refl, inr (typed-positive m t))
          | inr (inr (_, e')) ↦ rw (e, e') (same, inr (omega arith))
        ]
      ]

  search_end-positive :
      (s : Search) → Right s → (q : ℕ) × (p : ℕ) × (search_end stabs type s ≡ (suc q, p))
  unfolding search_end Right
  search_end-positive s (same, right) = elim (Bool-cases s.any_matches) [
    | inl any ↦
        let pos : 0 < s.region_right1 = elim right [
          | inl e ↦ absurd (cc (e, any))
          | inr h ↦ omega arith
        ] in
        let some_left = scan_down-positive (s.region_left + 1) s.region_right1 (omega arith) pos in
        let q = scan_down stabs type (s.region_left + 1) s.region_right1 - 1 in
        let e : scan_down stabs type (s.region_left + 1) s.region_right1 ≡ suc q = omega arith in
        (q, s.region_right1, rw any (ap (λ n. (n, s.region_right1)) e))
    | inr any ↦
        let e : s.region_left + 1 ≡ suc s.region_left = omega arith in
        (s.region_left, s.region_left, rw any (ap (λ n. (n, s.region_left)) e))
  ]

  stab_binsearch-positive :
      (left right1 addr : ℕ)
      → (q : ℕ) × (p : ℕ) × (stab_binsearch stabs type left right1 addr ≡ some (suc q, p))
  unfolding stab_binsearch Right
  stab_binsearch-positive left right1 addr =
      let (s, e, _, right) =
        search_loop-ends stabs type Right search_round-Right (rounds left right1)
          (starting left right1 addr) (starting-measure stabs type left right1 addr)
          (refl, inl refl) in
      let (q, p, e') = search_end-positive s right in (q, p, ap (report stabs type) e ∙ ap some e')

IsSome-if {ℓ} :
    {A : Type ℓ} (b : Bool) (x y : Option A) → IsSome x → IsSome y → IsSome (if b then x else y)
IsSome-if true x y h h' = h
IsSome-if false x y h h' = h'

strfind-ends : (s : List ℕ) (c : ℕ) → ends_with_zero s ≡ true → (n : ℕ) × (strfind s c ≡ some n)
unfolding strfind
strfind-ends [] c h = absurd (cc h)
strfind-ends (a ∷ []) c h = (0, rw h refl)
strfind-ends (a ∷ b ∷ s) c h =
    let (n, e) = strfind-ends (b ∷ s) c h in
    elim (Bool-cases (a == 0)) [
      | inl z ↦ (0, rw z refl)
      | inr z ↦ elim (Bool-cases (a == c)) [
        | inl f ↦ (0, rw (z, f) refl)
        | inr f ↦ (suc n, rw (z, f, e) refl)
      ]
    ]

ends_with_zero-drop :
    (x : ℕ) (s : List ℕ) → ends_with_zero s ≡ true → x < length s → ends_with_zero (drop x s) ≡ true
ends_with_zero-drop zero s h lt = h
ends_with_zero-drop (suc x) [] h lt = absurd (omega arith)
ends_with_zero-drop (suc x) (a ∷ []) h lt = absurd (omega arith)
ends_with_zero-drop (suc x) (a ∷ b ∷ s) h lt = ends_with_zero-drop x (b ∷ s) h (omega arith)

-- A name is "<unknown>" or starts in the string table.
InTable : List ℕ → Option ℕ → Type 0
InTable stabstr none = Unit {0}
InTable stabstr (some x) = x < length stabstr

module _ (stabs : ℕ → Stab) (count : ℕ) (stabstr : List ℕ) (header : (stabs 0).n_type ≡ 0) where
  other_type : (type : ℕ) → 0 < type → is_type stabs type 0 ≡ false
  other_type type pos = rw header (==_ne 0 type (omega arith))

  line_info-IsSome :
      (lfile lfun1 rfun1 lline rline1 addr : ℕ) (info : Eipdebuginfo)
      → IsSome (line_info stabs count stabstr lfile lfun1 rfun1 lline rline1 addr info)
  unfolding line_info
  line_info-IsSome lfile lfun1 rfun1 lline rline1 addr info =
      let (q, p, e) =
        stab_binsearch-positive stabs 0x44 (other_type 0x44 (omega arith)) lline rline1 addr in
      rw (IsSome, e) (IsSome-if (leb (suc q) p) _ _ tt tt)

  namelen-ends :
      ends_with_zero stabstr ≡ true
      → (name : Option ℕ) → InTable stabstr name
      → (n : ℕ) × (namelen stabs count stabstr name ≡ some n)
  unfolding InTable
  namelen-ends z none h = (9, refl)
  namelen-ends z (some x) h = strfind-ends (drop x stabstr) 58 (ends_with_zero-drop x stabstr z h)

  with_name-IsSome :
      (lfile lfun1 rfun1 lline rline1 addr : ℕ) (info : Eipdebuginfo)
      → ends_with_zero stabstr ≡ true
      → InTable stabstr info.eip_fn_name
      → IsSome (with_name stabs count stabstr lfile lfun1 rfun1 lline rline1 addr info)
  unfolding with_name
  with_name-IsSome lfile lfun1 rfun1 lline rline1 addr info z h =
      let (n, e) = namelen-ends z info.eip_fn_name h in
      rw (IsSome, e)
        (line_info-IsSome lfile lfun1 rfun1 lline rline1 addr (record info { eip_fn_namelen = n }))

  name_at-InTable :
      (i : ℕ) (old : Option ℕ)
      → InTable stabstr old
      → InTable stabstr (name_at stabs count stabstr i old)
  unfolding InTable
  name_at-InTable i old h = elim (Bool-cases (ltb (stabs i).n_strx (length stabstr))) [
    | inl e ↦ rw e (ground arith)
    | inr e ↦ rw e h
  ]

  function_info-IsSome :
      (lfile rfile1 addr : ℕ) (info : Eipdebuginfo)
      → ends_with_zero stabstr ≡ true
      → InTable stabstr info.eip_fn_name
      → IsSome (function_info stabs count stabstr lfile rfile1 addr info)
  unfolding function_info
  function_info-IsSome lfile rfile1 addr info z h =
      let (q, p, e) =
        stab_binsearch-positive stabs 0x24 (other_type 0x24 (omega arith)) lfile rfile1 addr in
      let named = name_at-InTable q info.eip_fn_name h in
      rw (IsSome, e)
        (IsSome-if (leb (suc q) p) _ _
          (with_name-IsSome lfile (suc q) p q p _
            (record info { eip_fn_name = _; eip_fn_addr = (stabs q).n_value }) z named)
          (with_name-IsSome lfile (suc q) p lfile rfile1 addr (record info { eip_fn_addr = addr }) z
            h))

-- With tables whose first stab is the header, of type 0, `debuginfo_eip` comes to an answer for
-- every address: its searches end, it reads no stab before the first one, and it looks for the end
-- of no name outside the string table.
pub debuginfo_tables-IsSome :
    (stabs : ℕ → Stab) (count : ℕ) (stabstr : List ℕ) (addr : ℕ)
    → (stabs 0).n_type ≡ 0
    → IsSome (debuginfo_tables stabs count stabstr addr)
unfolding debuginfo_tables InTable
debuginfo_tables-IsSome stabs count stabstr addr header =
    elim (Bool-cases (ends_with_zero stabstr)) [
      | inr z ↦ rw z tt
      | inl z ↦
          let (q, p, e) =
            stab_binsearch-positive stabs 0x64
              (other_type stabs count stabstr header 0x64 (omega arith)) 0 count addr in
          rw (z, e)
            (IsSome-if (q == 0) _ _ tt
              (function_info-IsSome stabs count stabstr header q p addr _ z tt))
    ]
