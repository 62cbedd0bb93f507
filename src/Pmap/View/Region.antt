-- ===== src/Pmap/View/Region.antt =====
-- `boot_map_region` of kern/pmap.c in the map of the page tables.
use arch.Base.{
  ℕ, Bool, zero, suc, ◌+◌, ◌-◌, ◌*◌, ◌/◌, ◌%◌, ◌^◌, ◌≤◌, ◌<◌, ◌≡◌, ◌≢◌, refl, ◌∙◌, ap, true, false,
  some, List, arith, ◌==◌, ==_iff, bit_or, length, Bool-cases, inl, inr, ltb, leb, ◌&&◌,
  if◌then◌else◌,
}
use native.Mathlib.Decide.{dec_lt, ℕ_discrete}
use arch.Kern.{Kern, ok}
use arch.Kern.Layout.{u32, pgsize, pdx, ptx, pgnum, has_p}
use arch.Pmap.Alloc.FreeList.{IsFreeList, IsFreeList-frame}
use arch.Pmap.Walk.{map_pages, boot_map_region, pgdir_walk}
use arch.Pmap.View.{pte_at, IsOrdinary, IsPgdir}
use arch.Pmap.View.Table.{entered, same_dir, entered-IsPgdir, entered-pte_at}
use arch.Pmap.View.Walk.{walk-keeps_table}

-- The entry for the page of `v` where the address `va` is mapped to `pa`, and so on.
abbrev pub mapped_to : (va pa perm v : ℕ) → ℕ
mapped_to va pa perm v = bit_or (bit_or (pa + (pgnum v - pgnum va) * pgsize) 1) perm

-- The page of `v` is one of `n` from that of `va` on.
abbrev pub is_within : (va n v : ℕ) → Bool
is_within va n v = leb (pgnum va) (pgnum v) && ltb (pgnum v) (pgnum va + n)

-- Every page from that of `va` on has an ordinary directory entry.
abbrev pub AllOrdinary : (va n : ℕ) → Type 0
AllOrdinary va n = (i : ℕ) → i < n → IsOrdinary (pdx (va + i * pgsize))

-- The pages from `b` on: one page first, and then the rest. `a` is the page looked at, `w` what it has.
is_within-step :
    (a b n w pa perm : ℕ)
    → (if leb (b + 1) a && ltb a (b + 1 + n)
        then bit_or (bit_or (pa + pgsize + (a - (b + 1)) * pgsize) 1) perm
        else if a == b
        then bit_or (bit_or pa 1) perm
        else w)
      ≡ (if leb b a && ltb a (b + suc n) then bit_or (bit_or (pa + (a - b) * pgsize) 1) perm else w)
is_within-step a b n w pa perm = elim (dec_lt b a) [
  | yes lt ↦
      let sum : pa + pgsize + (a - (b + 1)) * pgsize ≡ pa + (a - b) * pgsize = omega arith in
      rw sum (ground arith)
  | no ge ↦ elim (ℕ_discrete a b) [
    | yes e ↦
        let none_more : pa + (b - b) * pgsize ≡ pa = omega arith in rw (e, none_more) (ground arith)
    | no ne ↦ ground arith
  ]
]

is_within-zero : (va u q w : ℕ) → w ≡ (if is_within va 0 u then q else w)
is_within-zero va u q w = none_there (pgnum va) (pgnum u)
  where
    none_there : (b a : ℕ) → w ≡ (if leb b a && ltb a (b + 0) then q else w)
    none_there b a = ground arith

is_within-next :
    (va n u pa perm p : ℕ) {p1 : ℕ}
    → va % pgsize ≡ 0
    → p1 ≡ (if pgnum u == pgnum va then bit_or (bit_or pa 1) perm else p)
    → (if is_within (va + pgsize) n u then mapped_to (va + pgsize) (pa + pgsize) perm u else p1)
      ≡ (if is_within va (suc n) u then mapped_to va pa perm u else p)
is_within-next va n u pa perm p base e =
    rw (next, e) (is_within-step (pgnum u) (pgnum va) n p pa perm)
  where
    next : pgnum (va + pgsize) ≡ pgnum va + 1
    next = omega arith

map_pages-zero : (k : Kern) (pgdir va pa perm : ℕ) → map_pages zero pgdir va pa perm k ≡ ok tt k
unfolding map_pages
map_pages-zero k pgdir va pa perm = refl

map_pages-step :
    (n : ℕ) (k : Kern) (pgdir va pa perm : ℕ) {k' : Kern} {t : ℕ}
    → pgdir_walk pgdir va true k ≡ ok (some (t, ptx va)) k'
    → map_pages (suc n) pgdir va pa perm k
      ≡ map_pages n pgdir
          ((va + pgsize) % u32)
          ((pa + pgsize) % u32)
          perm
          (entered t va (bit_or (bit_or pa 1) perm) k')
unfolding map_pages
map_pages-step n k pgdir va pa perm run = rw (map_pages, run) refl

pub later : (va n : ℕ) → AllOrdinary va (suc n) → AllOrdinary (va + pgsize) n
later va n all i lt =
    let shift : va + pgsize + i * pgsize ≡ va + suc i * pgsize = omega arith in
    rw shift (all (suc i) (omega arith))

-- The last directory entry of `n` pages from `va` on, and one more
abbrev dir_end : (va n : ℕ) → ℕ
dir_end va n = (va + n * pgsize - 1) / 2 ^ 22 + 1

-- `va'` and `pa'` are the variables of the loop, which may have wrapped round behind the last page. All the
-- directory entries below `d` that the loop comes to again have their tables.
map_pages-maps :
    (n : ℕ) {k : Kern} {pgdir : ℕ} (va' pa' va pa perm d : ℕ) (xs : List ℕ)
    → (0 < n → va' ≡ va)
    → (0 < n → pa' ≡ pa)
    → va % pgsize ≡ 0
    → va + n * pgsize ≤ 2 ^ 32
    → pa + n * pgsize ≤ 2 ^ 32
    → (0 < n → va / 2 ^ 22 ≤ d)
    → (0 < n → d ≤ va / 2 ^ 22 + 1)
    → (0 < n → d ≡ va / 2 ^ 22 + 1 → has_p (k.mem pgdir (pdx va)) ≡ true)
    → (0 < n → dir_end va n ≤ d + length xs)
    → AllOrdinary va n
    → IsFreeList k xs
    → IsPgdir k pgdir xs
    → (k' : Kern) × (ys : List ℕ) × (map_pages n pgdir va' pa' perm k ≡ ok tt k')
      × IsFreeList k' ys
      × IsPgdir k' pgdir ys
      × (length xs ≤ length ys + (dir_end va n - d))
      × ((v : ℕ)
          → IsOrdinary (pdx v)
          → v < 2 ^ 32
          → pte_at k' pgdir v
            ≡ (if is_within va n v then mapped_to va pa perm v else pte_at k pgdir v))
map_pages-maps zero {k} {pgdir} va' pa' va pa perm d xs now now' base fits fits' low high there
      enough all v g =
    (
      k,
      xs,
      map_pages-zero k pgdir va' pa' perm,
      v,
      g,
      omega arith,
      λ u o small. is_within-zero va u _ (pte_at k pgdir u),
    )
map_pages-maps (suc n) {k} {pgdir} va' pa' va pa perm d xs now now' base fits fits' low high there
      enough all v g =
    let here : va + 0 * pgsize ≡ va = omega arith in
    let o : IsOrdinary (pdx va) = rw here at (all 0 (omega arith)) in
    let pos : 0 < suc n = omega arith in
    let at_least = low pos in
    let at_most = high pos in
    let room = enough pos in
    let fresh : has_p (k.mem pgdir (pdx va)) ≡ false → d ≢ va / 2 ^ 22 + 1 =
      λ gone e. cc (gone, there pos e) in
    let (t, k1, ys, walk, h, g1, v1, left, kept, same) =
      walk-keeps_table va xs (λ gone. omega (arith, fresh gone, at_least, at_most, room)) v g o in
    let w = bit_or (bit_or pa 1) perm in
    let k2 = entered t va w k1 in
    let v2 : IsFreeList k2 ys = IsFreeList-frame ys v1 refl refl (λ i q. refl) (λ i. refl) in
    let next_there : has_p (k2.mem pgdir (pdx va)) ≡ true =
      ap has_p (same_dir ys w g1 h o (pdx va)) ∙ h.present in
    let spent : length xs + d ≤ length ys + (va / 2 ^ 22 + 1) =
      elim (ℕ_discrete d (va / 2 ^ 22 + 1)) [
        | yes e ↦ let none_used = kept (there pos e) in omega (arith, e, none_used)
        | no ne ↦ omega (arith, ne, at_most, left)
      ] in
    let sum : va + pgsize + n * pgsize ≡ va + suc n * pgsize = omega arith in
    let last : va / 2 ^ 22 + 1 ≤ dir_end va (suc n) = omega arith in
    let same_end : dir_end (va + pgsize) n ≡ dir_end va (suc n) = rw sum refl in
    let (k', zs, run, v', g', more, map) =
      map_pages-maps n {k = k2} ((va + pgsize) % u32) ((pa + pgsize) % u32) (va + pgsize)
        (pa + pgsize) perm (va / 2 ^ 22 + 1) ys (λ pos. omega arith) (λ pos. omega arith)
        (omega arith) (omega arith) (omega arith) (λ pos. omega arith) (λ pos. omega arith)
        (λ more e. let back : pdx (va + pgsize) ≡ pdx va = (omega (arith, e)) in rw back next_there)
        (λ more. (omega (arith, same_end, room, spent))) (later va n all) v2
        (entered-IsPgdir ys w g1 h o) in
    (
      k',
      zs,
      ap (λ a. map_pages (suc n) pgdir a pa' perm k) (now (omega arith))
          ∙ ap (λ a. map_pages (suc n) pgdir va a perm k) (now' (omega arith))
          ∙ map_pages-step n k pgdir va pa perm walk
          ∙ run,
      v',
      g',
      omega (arith, more, spent, same_end, last),
      λ u o' small.
          map u o' small
          ∙ is_within-next va n u pa perm (pte_at k pgdir u) base (
              entered-pte_at ys w g1 h o u o' small (omega arith)
              ∙ ap (λ p. if pgnum u == pgnum va then w else p) (same u o')),
    )

-- The number of pages that a region of `size` bytes needs.
abbrev pub pages_for : ℕ → ℕ
pages_for size = (size + 4095) / pgsize

region_pages :
    (pgdir va size pa perm : ℕ) (k : Kern)
    → boot_map_region pgdir va size pa perm k ≡ map_pages (pages_for size) pgdir va pa perm k
unfolding boot_map_region
region_pages pgdir va size pa perm k = elim (Bool-cases (size % pgsize == 0)) [
  | inl whole ↦
      let exact : size % pgsize ≡ 0 = (==_iff (size % pgsize) 0).0 whole in
      let count : size / pgsize ≡ pages_for size = omega arith in
      rw whole (ap (λ n. map_pages n pgdir va pa perm k) count)
  | inr part ↦
      let some_left : size % pgsize ≢ 0 = λ e. ground (arith, e, part) in
      let count : size / pgsize + 1 ≡ pages_for size = omega arith in
      rw part (ap (λ n. map_pages n pgdir va pa perm k) count)
]

-- The number of tables for `n` pages from `va` on
abbrev pub tables_for : (va n : ℕ) → ℕ
tables_for va n = (va + n * pgsize - 1) / 2 ^ 22 + 1 - va / 2 ^ 22

-- With a free page for every table of the region, at addresses whose tables are not that of UVPT:
-- `boot_map_region` returns, the pages of the region are mapped to those from `pa` on, with the
-- permissions and PTE_P, every other ordinary address keeps its entry, directory and free list
-- stay well-formed, and no more free pages are used than there are tables.
pub boot_map_region-maps :
    {k : Kern} {pgdir : ℕ} (va size pa perm : ℕ) (xs : List ℕ)
    → va % pgsize ≡ 0
    → va + pages_for size * pgsize ≤ 2 ^ 32
    → pa + pages_for size * pgsize ≤ 2 ^ 32
    → tables_for va (pages_for size) ≤ length xs
    → AllOrdinary va (pages_for size)
    → IsFreeList k xs
    → IsPgdir k pgdir xs
    → (k' : Kern) × (ys : List ℕ) × (boot_map_region pgdir va size pa perm k ≡ ok tt k')
      × IsFreeList k' ys
      × IsPgdir k' pgdir ys
      × (length xs ≤ length ys + tables_for va (pages_for size))
      × ((v : ℕ)
          → IsOrdinary (pdx v)
          → v < 2 ^ 32
          → pte_at k' pgdir v ≡ (
              if is_within va (pages_for size) v then mapped_to va pa perm v else pte_at k pgdir v))
boot_map_region-maps {k} {pgdir} va size pa perm xs base fits fits' enough all v g =
    rw (region_pages pgdir va size pa perm k) (
      map_pages-maps (pages_for size) va pa va pa perm (va / 2 ^ 22) xs (λ pos. refl) (λ pos. refl)
        base fits fits' (λ pos. omega arith) (λ pos. omega arith)
        (λ pos e. absurd (omega (arith, e))) (λ pos. omega (arith, enough)) all v g)
