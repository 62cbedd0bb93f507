-- ===== src/Load/Region.antt =====
-- `region_alloc` of kern/env.c in the map of the page tables.
use arch.Base.{
  ℕ, zero, suc, ◌+◌, ◌-◌, ◌*◌, ◌/◌, ◌%◌, ◌^◌, ◌≤◌, ◌<◌, ◌≡◌, ◌≢◌, refl, ◌∙◌, ap, true, false, some,
  List, [], ◌∷◌, arith, ◌==◌, ==_ne, has, Distinct, length, Bool-cases, inl, inr, lt→ltb,
  if◌then◌else◌,
}
use arch.Kern.{Kern, ok}
use arch.Kern.Layout.{u32, pgsize, pdx, pgnum, has_p, round_up}
use arch.Env.Alloc.{pgdir_of}
use arch.Env.Table.{deref}
use arch.Pmap.Alloc.{page_alloc}
use arch.Pmap.Alloc.FreeList.{IsFreeList, taken, page_alloc-eq, IsFreeList-tail}
use arch.Pmap.Walk.{page_insert}
use arch.Pmap.Walk.Entry.{pte_of}
use arch.Pmap.View.{pte_at, IsOrdinary, IsPgdir}
use arch.Pmap.View.Region.{AllOrdinary, later}
use arch.Pmap.View.Table.{IsPgdir-sub, not-has-sub}
use arch.Pmap.View.Insert.{page_insert-maps}
use arch.Load.{alloc_pages, region_alloc}

-- The entry for `v` when the pages of a list are mapped one behind the other from `cva` on, for the
-- user and writable, and `w` is the entry it had.
abbrev pub backed_by : List ℕ → (cva v w : ℕ) → ℕ
backed_by [] cva v w = w
backed_by (p ∷ ps) cva v w =
    backed_by ps (cva + pgsize) v (if pgnum v == pgnum cva then pte_of p 6 else w)

-- No page of the region is mapped.
abbrev pub IsUnmapped : Kern → (pgdir cva n : ℕ) → Type 0
IsUnmapped k pgdir cva n = (i : ℕ) → i < n → has_p (pte_at k pgdir (cva + i * pgsize)) ≡ false

alloc_pages-done : (k : Kern) (fuel e cva : ℕ) → alloc_pages (suc fuel) e cva cva k ≡ ok tt k
unfolding alloc_pages
alloc_pages-done k fuel e cva = ground arith

alloc_pages-step :
    (k : Kern) (fuel e eva cva pgdir x : ℕ) {k' : Kern}
    → cva < eva
    → cva + pgsize < u32
    → (k.envs e).env_pgdir ≡ some pgdir
    → page_alloc false k ≡ ok (some x) (taken false x k)
    → page_insert pgdir x cva 6 (taken false x k) ≡ ok 0 k'
    → alloc_pages (suc fuel) e eva cva k ≡ alloc_pages fuel e eva (cva + pgsize) k'
unfolding alloc_pages pgdir_of deref
alloc_pages-step k fuel e eva cva pgdir x lt small space got inserted =
    rw (lt→ltb cva eva lt, got, space, inserted, next) refl
  where
    next : (cva + pgsize) % u32 ≡ cva + pgsize
    next = omega arith

taken-IsFreeList :
    {k : Kern} (x : ℕ) (xs : List ℕ) → IsFreeList k (x ∷ xs) → IsFreeList (taken false x k) xs
taken-IsFreeList x xs v = IsFreeList-tail x xs v refl refl (ground arith) (λ p ne. ground arith)

-- The pages behind the first one are unmapped still when that is mapped.
still-IsUnmapped :
    (k k1 : Kern) (pgdir cva n w : ℕ)
    → cva % pgsize ≡ 0
    → cva + suc n * pgsize < u32
    → AllOrdinary cva (suc n)
    → IsUnmapped k pgdir cva (suc n)
    → ((v : ℕ)
        → IsOrdinary (pdx v)
        → v < 2 ^ 32
        → pte_at k1 pgdir v ≡ (if pgnum v == pgnum cva then w else pte_at k pgdir v))
    → IsUnmapped k1 pgdir (cva + pgsize) n
still-IsUnmapped k k1 pgdir cva n w base fits all empty map i lt =
    let v = cva + pgsize + i * pgsize in
    let other : pgnum v ≢ pgnum cva = omega arith in
    let shift : v ≡ cva + suc i * pgsize = omega arith in
    ap has_p
      (map v (later cva n all i lt) (omega arith) ∙ rw (==_ne (pgnum v) (pgnum cva) other) refl)
    ∙ ap (λ u. has_p (pte_at k pgdir u)) shift
    ∙ empty (suc i) (omega arith)

has-cons_sub :
    (x : ℕ) (ps qs : List ℕ)
    → ((i : ℕ) → has i ps ≡ true → has i qs ≡ true)
    → (i : ℕ) → has i (x ∷ ps) ≡ true
    → has i (x ∷ qs) ≡ true
has-cons_sub x ps qs sub i h = elim (Bool-cases (i == x)) [
  | inl e ↦ rw e refl
  | inr e ↦ rw e (sub i (rw e at h))
]

-- `n` pages left, with two free pages for each: the page itself, and perhaps one for its table.
alloc_pages-maps :
    (n fuel : ℕ) {k : Kern} {pgdir : ℕ} (e cva : ℕ) (xs : List ℕ)
    → n < fuel
    → cva % pgsize ≡ 0
    → cva + n * pgsize < u32
    → n * 2 ≤ length xs
    → AllOrdinary cva n
    → (k.envs e).env_pgdir ≡ some pgdir
    → IsUnmapped k pgdir cva n
    → IsFreeList k xs
    → IsPgdir k pgdir xs
    → (k' : Kern) × (ps : List ℕ) × (ys : List ℕ) × (alloc_pages fuel e (cva + n * pgsize) cva k
        ≡ ok tt k')
      × (length ps ≡ n)
      × Distinct ps
      × ((i : ℕ) → has i ps ≡ true → has i xs ≡ true)
      × IsFreeList k' ys
      × IsPgdir k' pgdir ys
      × ((v : ℕ)
          → IsOrdinary (pdx v)
          → v < 2 ^ 32
          → pte_at k' pgdir v ≡ backed_by ps cva v (pte_at k pgdir v))
alloc_pages-maps n zero e cva xs more base fits enough all space empty v g = elim more [ ]
alloc_pages-maps zero (suc fuel) {k} e cva xs more base fits enough all space empty v g =
    let end : cva + 0 * pgsize ≡ cva = omega arith in
    (
      k,
      [],
      xs,
      rw end (alloc_pages-done k fuel e cva),
      refl,
      tt,
      λ i h. cc h,
      v,
      g,
      λ u o small. refl,
    )
alloc_pages-maps (suc n) (suc fuel) e cva [] more base fits enough all space empty v g =
    absurd (omega arith)
alloc_pages-maps (suc n) (suc fuel) e cva (x ∷ []) more base fits enough all space empty v g =
    absurd (omega arith)
alloc_pages-maps (suc n) (suc fuel) {k} {pgdir} e cva (x ∷ y ∷ xs) more base fits enough all space
      empty v g =
    let here : cva + 0 * pgsize ≡ cva = omega arith in
    let end : cva + suc n * pgsize ≡ cva + pgsize + n * pgsize = omega arith in
    let o : IsOrdinary (pdx cva) = rw here at (all 0 (omega arith)) in
    let k0 = taken false x k in
    let got = page_alloc-eq k false x v.linked.0 v.linked.1 v.small in
    let g0 : IsPgdir k0 pgdir (y ∷ xs) =
      IsPgdir-sub {k' = k0} (x ∷ y ∷ xs) (y ∷ xs) g (λ i h. ground (arith, h)) (λ d. refl) refl in
    let unmapped : has_p (pte_at k0 pgdir cva) ≡ false = rw here at (empty 0 (omega arith)) in
    let (k1, ys, inserted, v1, g1, left, pages, envs, from, map1) =
      page_insert-maps cva x 6 y xs (taken-IsFreeList x (y ∷ xs) v) g0 o (omega arith) unmapped
        (omega arith) v.once.0 in
    let (k', ps, zs, run, count, once, sub, v', g', map) =
      alloc_pages-maps n fuel {k = k1} e (cva + pgsize) ys (omega arith) (omega arith) (omega arith)
        (omega arith) (later cva n all) (ap (λ f. (f e).env_pgdir) envs ∙ space)
        (still-IsUnmapped k k1 pgdir cva n (pte_of x 6) base fits all empty map1) v1 g1 in
    (
      k',
      x ∷ ps,
      zs,
      alloc_pages-step k fuel e (cva + suc n * pgsize) cva pgdir x (omega arith) (omega arith) space
            got inserted
          ∙ ap (λ a. alloc_pages fuel e a (cva + pgsize) k1) end
          ∙ run,
      ap suc count,
      (not-has-sub x ys ps sub (not-has-sub x (y ∷ xs) ys from v.once.0), once),
      has-cons_sub x ps (y ∷ xs) (λ i h. from i (sub i h)),
      v',
      g',
      λ u o' small. map u o' small ∙ ap (backed_by ps (cva + pgsize) u) (map1 u o' small),
    )

-- For a region whose pages have ordinary directory entries and are unmapped, that ends a page or
-- more below 2^32, with two free pages for each of its pages: `region_alloc` returns, the pages of
-- the region are backed by different pages from the free list, for the user and writable, every
-- other ordinary address keeps its entry, and directory and free list stay well-formed.
pub region_alloc-backs :
    {k : Kern} {pgdir : ℕ} (e va len : ℕ) (xs : List ℕ)
    → va + len < u32 - 2 * pgsize
    → let cva = va - va % pgsize in
      let n = (va % pgsize + len + 4095) / pgsize in
      n * 2 ≤ length xs
      → AllOrdinary cva n
      → (k.envs e).env_pgdir ≡ some pgdir
      → IsUnmapped k pgdir cva n
      → IsFreeList k xs
      → IsPgdir k pgdir xs
      → (k' : Kern) × (ps : List ℕ) × (ys : List ℕ) × (region_alloc e va len k ≡ ok tt k')
        × (length ps ≡ n)
        × Distinct ps
        × ((i : ℕ) → has i ps ≡ true → has i xs ≡ true)
        × IsFreeList k' ys
        × IsPgdir k' pgdir ys
        × ((v : ℕ)
            → IsOrdinary (pdx v)
            → v < 2 ^ 32
            → pte_at k' pgdir v ≡ backed_by ps cva v (pte_at k pgdir v))
unfolding region_alloc
region_alloc-backs e va len xs fits enough all space empty v g =
    let cva = va - va % pgsize in
    let n = (va % pgsize + len + 4095) / pgsize in
    let end : round_up ((va + len) % u32) pgsize ≡ cva + n * pgsize = omega arith in
    rw end (
      alloc_pages-maps n ((cva + n * pgsize - cva) / pgsize + 1) e cva xs (omega arith)
        (omega arith) (omega arith) enough all space empty v g)
