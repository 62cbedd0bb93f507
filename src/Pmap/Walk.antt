-- ===== src/Pmap/Walk.antt =====
-- The page-table functions of kern/pmap.c: `pgdir_walk`, `boot_map_region`, `page_lookup`,
-- `tlb_invalidate`, `page_remove` and `page_insert`.
pub mod Entry
pub mod Find
pub mod Insert
pub mod Remove
pub mod Remap
pub mod Store
pub mod Grow
use arch.Base.{
  ℕ, zero, suc, ◌+◌, ◌-◌, ◌%◌, ◌/◌, ◌^◌, ◌*◌, Bool, true, false, Option, none, some, not,
}
use arch.Base.{◌∷◌, bit_or, ◌==◌, leb, ltb, if◌then◌else◌, is_ptr}
use arch.Kern.{Kern, PageInfo, M, panic, wild, ok, stop, pure, fail, get, modify, when, ◌>>=◌, ◌>>◌}
use arch.Kern.{set_page, set_word, Env}
use arch.Kern.Layout.{u32, pgsize, pdx, ptx, has_p, pte_addr, page2pa, pte_p, e_no_mem}
use arch.Pmap.Alloc.{kaddr, pa2page, page_alloc, page_decref}

-- A `pte_t *`: the page that holds the table, and the index in it.
abbrev pub PtePtr : Type 0
PtePtr = ℕ × ℕ

-- `pp->pp_ref++`, on a `uint16_t`
unfoldable pub incref : ℕ → M (Unit {0})
incref pp = do
  pi ← get (λ k. k.pages pp)
  set_page pp (record pi { pp_ref = (pi.pp_ref + 1) % 2 ^ 16 })

-- The last line of `pgdir_walk`: the entry for `va` in the table that the directory points to.
unfoldable pub entry_of : ℕ → ℕ → M (Option PtePtr)
entry_of pgdir va = do
  pde ← get (λ k. k.mem pgdir (pdx va))
  pt ← kaddr (pte_addr pde)
  pure (some (pt, ptx va))

unfoldable pub pgdir_walk : ℕ → ℕ → (create : Bool) → M (Option PtePtr)
pgdir_walk pgdir va create = do
  pde ← get (λ k. k.mem pgdir (pdx va))
  if has_p pde
      then entry_of pgdir va
      else if create
      then (do
        page ← page_alloc true
        elim page [
          | none ↦ pure none
          | some pp ↦ do
            incref pp
            set_word pgdir (pdx va) (bit_or (page2pa pp) 7)
            entry_of pgdir va
        ])
      else pure none

-- The loop of `boot_map_region`, with the rounds that are left.
unfoldable pub map_pages : ℕ → ℕ → ℕ → ℕ → ℕ → M (Unit {0})
map_pages zero pgdir va pa perm = pure tt
map_pages (suc pgs) pgdir va pa perm =
    let rest = map_pages pgs pgdir ((va + pgsize) % u32) ((pa + pgsize) % u32) perm in
    do
      pte ← pgdir_walk pgdir va true
      elim pte [
        | none ↦ fail panic
        | some (t, i) ↦ do set_word t i (bit_or (bit_or pa pte_p) perm); rest
      ]

unfoldable pub boot_map_region : ℕ → ℕ → ℕ → ℕ → ℕ → M (Unit {0})
boot_map_region pgdir va size pa perm =
    let pgs = if size % pgsize == 0 then size / pgsize else size / pgsize + 1 in
    map_pages pgs pgdir va pa perm

-- The page mapped at `va`, and the entry that `pte_store` receives. The test is `!(*pte) & PTE_P`,
-- which C reads as `(!*pte) & PTE_P`: it holds of the entry 0 alone.
unfoldable pub page_lookup : ℕ → ℕ → M (Option (ℕ × PtePtr))
page_lookup pgdir va = do
  pte ← pgdir_walk pgdir va false
  elim pte [
    | none ↦ pure none
    | some (t, i) ↦ do
      w ← get (λ k. k.mem t i)
      if w == 0 then pure none else do pp ← pa2page (pte_addr w); pure (some (pp, (t, i)))
  ]

-- Is `pgdir` the address space in use? True too where there is no current environment.
unfoldable pub is_current : ℕ → Kern → Bool
is_current pgdir k = elim k.curenv [ none ↦ true | some e ↦ is_ptr pgdir (k.envs e).env_pgdir ]

unfoldable pub tlb_invalidate : ℕ → ℕ → M (Unit {0})
tlb_invalidate pgdir va = do
  now ← get (is_current pgdir)
  when now (modify λ k. record k { flushed = va ∷ k.flushed })

unfoldable pub page_remove : ℕ → ℕ → M (Unit {0})
page_remove pgdir va = do
  found ← page_lookup pgdir va
  elim found [
    | none ↦ pure tt
    | some (pp, (t, i)) ↦ do page_decref pp; set_word t i 0; tlb_invalidate pgdir va
  ]

-- The part of `page_insert` behind the walk.
unfoldable pub insert_at : ℕ → ℕ → ℕ → ℕ → PtePtr → M ℕ
insert_at pgdir pp va perm (t, i) = do
  incref pp
  old ← get (λ k. k.mem t i)
  when (has_p old) (page_remove pgdir va)
  set_word t i (bit_or (bit_or (page2pa pp) perm) pte_p)
  pde ← get (λ k. k.mem pgdir (pdx va))
  set_word pgdir (pdx va) (bit_or pde perm)
  pure 0

unfoldable pub page_insert : ℕ → ℕ → ℕ → ℕ → M ℕ
page_insert pgdir pp va perm = do
  pte ← pgdir_walk pgdir va true
  elim pte [ none ↦ pure e_no_mem | some p ↦ insert_at pgdir pp va perm p ]
