-- ===== src/Pmap/Mem/Check.antt =====
-- What `user_mem_check` of kern/pmap.c accepts.
use arch.Pmap.Mem.Pages.{pages_of, page_at, first_bad, first_bad-none, first_bad-some}
use arch.Base.{
  ℕ, zero, suc, ◌+◌, ◌-◌, ◌*◌, ◌/◌, ◌%◌, ◌≤◌, ◌<◌, ◌≡◌, refl, Bool, true, false, ◌&&◌, Option, none,
  some, arith, bit_and, ◌∙◌, ap, sym, ◌⊎◌,
}
use arch.Base.{Option-cases, lt→ltb, ◌==◌, ltb, if◌then◌else◌, not, Bool-cases, inl, inr}
use arch.Kern.{Kern, Run, ok, stop}
use arch.Kern.Layout.{u32, pgsize, pdx, ptx, pgnum, has_p, mmiobase, e_fault, round_down, round_up}
use arch.Pmap.Walk.{PtePtr, pgdir_walk}
use arch.Pmap.Walk.Find.{HasTable, walk-found, walk-absent}
use arch.Pmap.Mem.{refuses, check_pages, user_mem_check}

-- The user may access the page at `i` with `perm`: it lies below ULIM, the directory entry and the
-- table entry are present, and the table entry has all the bits of `perm`.
abbrev pub allows : Kern → (pgdir perm i : ℕ) → Bool
allows k pgdir perm i =
    let pde = k.mem pgdir (pdx i) in
    let pte = k.mem (pgnum pde) (ptx i) in
    ltb i mmiobase && (has_p pde && (has_p pte && bit_and pte perm == perm))

-- Every table that the directory names is a page of physical memory.
abbrev pub TablesInRange : Kern → ℕ → Type 0
TablesInRange k pgdir = (d : ℕ) → has_p (k.mem pgdir d) ≡ true → pgnum (k.mem pgdir d) < k.npages

-- What `user_mem_check` returns when it is told the first bad page.
abbrev report : ℕ → Option ℕ → Kern → Run ℕ
report va none k = ok 0 k
report va (some b) k = ok e_fault (record k { user_mem_check_addr = if ltb b va then va else b })

check_pages-end :
    (k : Kern) (pgdir perm f va end i : ℕ)
    → end ≤ i
    → check_pages (suc f) pgdir va perm end i k ≡ ok 0 k
unfolding check_pages
check_pages-end k pgdir perm f va end i past = simp over
  where
    over : ltb i end ≡ false
    over = ground arith

module _ (k : Kern) (pgdir perm : ℕ) (tables : TablesInRange k pgdir) where
  walk_allows :
      (i : ℕ)
      → (p : Option PtePtr) × (pgdir_walk pgdir i false k ≡ ok p k)
        × (refuses p perm i k ≡ not (allows k pgdir perm i))
  unfolding refuses
  walk_allows i = elim (Bool-cases (has_p (k.mem pgdir (pdx i)))) [
    | inl there ↦
        let h : HasTable k pgdir i (pgnum (k.mem pgdir (pdx i))) = record {
          present = there;
          table = refl;
          in_range = tables (pdx i) there;
        } in
        (some (pgnum (k.mem pgdir (pdx i)), ptx i), walk-found false h, ground (arith, there))
    | inr gone ↦ (none, walk-absent k pgdir i gone, ground (arith, gone))
  ]

  -- One round of the loop on a page before the end.
  check_pages-step :
      (f va end i : ℕ)
      → i < end
      → i + pgsize < u32
      → check_pages (suc f) pgdir va perm end i k ≡ (
          if allows k pgdir perm i
          then check_pages f pgdir va perm end (i + pgsize) k
          else report va (some i) k)
  unfolding check_pages
  check_pages-step f va end i before fits =
      let (p, walk, test) = walk_allows i in
      let wrap : (i + pgsize) % u32 ≡ i + pgsize = omega arith in
      elim (Bool-cases (allows k pgdir perm i)) [
        | inl good ↦ simp (lt→ltb i end before, walk, test, good, wrap)
        | inr bad ↦ simp (lt→ltb i end before, walk, test, bad)
      ]

  check_pages-eq :
      (n va end i : ℕ)
      → i + n * pgsize ≡ end
      → end + pgsize ≤ u32
      → check_pages (suc n) pgdir va perm end i k
        ≡ report va (first_bad (allows k pgdir perm) n i) k
  check_pages-eq zero va end i e lt = check_pages-end k pgdir perm zero va end i (omega arith)
  check_pages-eq (suc n) va end i e lt =
      check_pages-step (suc n) va end i (omega arith) (omega arith)
      ∙ elim (Bool-cases (allows k pgdir perm i)) [
        | inl good ↦ rw good (check_pages-eq n va end (i + pgsize) (omega arith) lt)
        | inr bad ↦ rw bad refl
      ]

user_mem_check-eq :
    (k : Kern) (pgdir va len perm : ℕ)
    → TablesInRange k pgdir
    → va + len + pgsize ≤ u32
    → user_mem_check pgdir va len perm k
      ≡ report va (first_bad (allows k pgdir perm) (pages_of va len) (round_down va pgsize)) k
unfolding user_mem_check
user_mem_check-eq k pgdir va len perm tables fits =
    ap
      (λ f.
        check_pages (suc f) pgdir va perm (round_up ((va + len) % u32) pgsize)
          (round_down va pgsize) k)
      fuel
    ∙ check_pages-eq k pgdir perm tables (pages_of va len) va _ (round_down va pgsize) (omega arith)
        (omega arith)
  where
    fuel : (round_up ((va + len) % u32) pgsize - round_down va pgsize) / pgsize ≡ pages_of va len
    fuel = omega arith

-- Where the range ends a page or more below 2^32 and every table of the directory is a page of
-- physical memory, `user_mem_check` returns, and either it returns 0, changes nothing and every page
-- of the range allows the access, or it returns -E_FAULT, and leaves the first address of the range
-- that lies in a refused page.
pub user_mem_check_lem :
    (k : Kern) (pgdir va len perm : ℕ)
    → TablesInRange k pgdir
    → va + len + pgsize ≤ u32
    → let n = pages_of va len in
      let good = λ (j : ℕ). allows k pgdir perm (page_at va j) ≡ true in
      ((user_mem_check pgdir va len perm k ≡ ok 0 k) × ((j : ℕ) → j < n → good j))
      ⊎ ((j : ℕ) × (j < n)
          × ((m : ℕ) → m < j → good m)
          × (allows k pgdir perm (page_at va j) ≡ false)
          × (user_mem_check pgdir va len perm k
              ≡ ok e_fault (record k {
                user_mem_check_addr = if ltb (page_at va j) va then va else page_at va j;
              })))
user_mem_check_lem k pgdir va len perm tables fits =
    elim (Option-cases (first_bad good (pages_of va len) (round_down va pgsize))) [
      | inl all ↦ inl (
        run ∙ ap (λ o. report va o k) all,
        first_bad-none good (pages_of va len) (round_down va pgsize) all,
      )
      | inr (b, found) ↦
          let (j, lt, at, bad, before) =
            first_bad-some good (pages_of va len) (round_down va pgsize) b found in
          inr (j, lt, before, rw (← at) bad, run ∙ ap (λ o. report va o k) (found ∙ ap some at))
    ]
  where
    good : ℕ → Bool
    good = allows k pgdir perm

    run :
        user_mem_check pgdir va len perm k
        ≡ report va (first_bad good (pages_of va len) (round_down va pgsize)) k
    run = user_mem_check-eq k pgdir va len perm tables fits

abbrev code : Run ℕ → ℕ
code (ok r k) = r
code (stop e k) = 1

-- Soundness: where the range ends a page or more below 2^32, every table of the directory is a page of
-- physical memory, and `user_mem_check` returns 0, every byte of the range lies in a page that
-- allows the access.
pub user_mem_check_sound :
    (k k' : Kern) (pgdir va len perm : ℕ)
    → TablesInRange k pgdir
    → va + len + pgsize ≤ u32
    → user_mem_check pgdir va len perm k ≡ ok 0 k'
    → (a : ℕ) → va ≤ a
    → a < va + len
    → allows k pgdir perm (round_down a pgsize) ≡ true
user_mem_check_sound k k' pgdir va len perm tables fits passed a lo hi =
    elim (user_mem_check_lem k pgdir va len perm tables fits) [
      | inl (run, good) ↦ rw (← at) (good (a / pgsize - va / pgsize) (omega arith))
      | inr (j, lt, before, bad, run) ↦
          let same : e_fault ≡ 0 = ap code (sym run ∙ passed) in absurd (omega arith)
    ]
  where
    at : page_at va (a / pgsize - va / pgsize) ≡ round_down a pgsize
    at = omega arith

-- A range of at most 2^32 - 8192 bytes, from a 32-bit address on, that ends less than a page below
-- 2^32 or behind it: its rounded end wraps to an address not above its rounded begin, and the loop
-- then looks at no page. `user_mem_check` accepts such a range whatever the page tables say.
pub user_mem_check_wraps :
    (k : Kern) (pgdir va len perm : ℕ)
    → va < u32
    → len + 2 * pgsize ≤ u32
    → u32 < va + len + pgsize
    → user_mem_check pgdir va len perm k ≡ ok 0 k
unfolding user_mem_check
user_mem_check_wraps k pgdir va len perm small short over =
    check_pages-end k pgdir perm _ va _ _ (omega arith)
