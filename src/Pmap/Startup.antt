-- ===== src/Pmap/Startup.antt =====
-- The page directory that entry.S turns paging on with: kern/entrypgdir.c.
use arch.Base.{
  ℕ, ◌+◌, ◌-◌, ◌*◌, ◌/◌, ◌%◌, ◌^◌, ◌<◌, ◌≡◌, refl, ◌∙◌, ap, false, ◌==◌, bit_or, if◌then◌else◌,
  ==_iff, arith, Bool-cases, inl, inr,
}
use arch.Base.Trials.{all_below-at}
use arch.Kern.{Kern}
use arch.Kern.Layout.{u32, pgsize, kernbase, pdx, ptx}
use arch.Pmap.View.{pte_at}

-- The entry `i` of `entry_pgtable`: the page `i`, PTE_P and PTE_W
unfoldable pub entry_pgtable : (i : ℕ) → ℕ
entry_pgtable i = bit_or (bit_or (i * pgsize) 1) 2

-- The entry `d` of `entry_pgdir`, with the address of `entry_pgtable`
unfoldable pub entry_pgdir : (table d : ℕ) → ℕ
entry_pgdir table d =
    if d == kernbase / 2 ^ 22
    then (table - kernbase + 1 + 2) % u32
    else if d == 0
    then (table - kernbase + 1) % u32
    else 0

-- The directory and the table stand in two pages.
pub record IsStartup (k : Kern) (dir table : ℕ) : Type 0 where
  pub in_memory : table < 2 ^ 16
  pub directory : (d : ℕ) → d < 1024 → k.mem dir d ≡ entry_pgdir (table * pgsize + kernbase) d
  pub entries : (i : ℕ) → i < 1024 → k.mem table i ≡ entry_pgtable i

-- The entries for `[0, 4MB)` and `[KERNBASE, KERNBASE+4MB)`: the first 4 MB of memory, PTE_P and PTE_W
abbrev pub startup_pte : (va : ℕ) → ℕ
startup_pte va =
    if va / 2 ^ 22 == 0
    then va / pgsize * pgsize + 3
    else if va / 2 ^ 22 == kernbase / 2 ^ 22
    then (va - kernbase) / pgsize * pgsize + 3
    else 0

entry_pgtable_lem : (i : ℕ) → i < 1024 → entry_pgtable i ≡ i * pgsize + 3
unfolding entry_pgtable
entry_pgtable_lem i lt =
    (==_iff _ _).0
      (all_below-at 1024 (λ j. bit_or (bit_or (j * pgsize) 1) 2 == j * pgsize + 3) refl i lt)

-- Through a directory entry for the table, an address finds the table's entry.
pte_at-table :
    (k : Kern) (dir table w va : ℕ)
    → IsStartup k dir table
    → k.mem dir (pdx va) ≡ w
    → w / 2 ^ 12 ≡ table
    → w % 2 ≡ 1
    → pte_at k dir va ≡ ptx va * pgsize + 3
pte_at-table k dir table w va s is_w page present =
    rw (is_w, present, page)
      (s.entries (ptx va) (omega arith) ∙ entry_pgtable_lem (ptx va) (omega arith))

entry_pgdir_lem :
    (table : ℕ)
    → table < 2 ^ 16
    → let dir = entry_pgdir (table * pgsize + kernbase) in
      (dir 0 ≡ table * pgsize + 1)
      × (dir 960 ≡ table * pgsize + 3)
      × ((d : ℕ) → (d == 0) ≡ false → (d == 960) ≡ false → dir d ≡ 0)
unfolding entry_pgdir
entry_pgdir_lem table lt = (omega arith, omega arith, λ d nonzero other. rw (nonzero, other) refl)

-- The directory that paging is turned on with maps `[0, 4MB)` and `[KERNBASE, KERNBASE+4MB)` to the first 4 MB
-- of memory, page by page, and nothing else; directory and table stand in two pages of memory.
pub entry_pgdir-maps :
    (k : Kern) (dir table va : ℕ)
    → IsStartup k dir table
    → va < 2 ^ 32
    → pte_at k dir va ≡ startup_pte va
entry_pgdir-maps k dir table va s lt =
    let (first, kernel, rest) = entry_pgdir_lem table s.in_memory in
    let entry = s.directory (pdx va) (omega arith) in
    let index : pdx va ≡ va / 2 ^ 22 = omega arith in
    elim (Bool-cases (va / 2 ^ 22 == 0)) [
      | inl low ↦
          let is_low = (==_iff (va / 2 ^ 22) 0).0 low in
          rw low (
            pte_at-table k dir table (table * pgsize + 1) va s
              (entry ∙ ap (entry_pgdir (table * pgsize + kernbase)) (index ∙ is_low) ∙ first)
              (omega arith) (omega arith)
            ∙ omega (arith, is_low))
      | inr high ↦ elim (Bool-cases (va / 2 ^ 22 == 960)) [
        | inl upper ↦
            let is_upper = (==_iff (va / 2 ^ 22) 960).0 upper in
            rw (high, upper)
              (pte_at-table k dir table (table * pgsize + 3) va s
                  (entry ∙ ap (entry_pgdir (table * pgsize + kernbase)) (index ∙ is_upper) ∙ kernel)
                  (omega arith) (omega arith)
                ∙ omega (arith, is_upper))
        | inr other ↦
            let none_there : k.mem dir (pdx va) ≡ 0 =
              entry ∙ rest (pdx va) (rw index high) (rw index other) in
            rw (high, other) (rw none_there refl)
      ]
    ]
