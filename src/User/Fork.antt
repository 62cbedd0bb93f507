-- ===== src/User/Fork.antt =====
-- lib/fork.c and lib/pgfault.c.
use arch.Base.{
  ℕ, zero, suc, ◌+◌, ◌-◌, ◌*◌, ◌/◌, ◌%◌, Bool, false, ◌||◌, not, ◌==◌, if◌then◌else◌, update,
}
use arch.Kern.{M, wild, pure, fail, modify, when, ◌>>=◌, ◌>>◌}
use arch.Kern.Layout.{
  u32, pgsize, pgnum, pdx, has_p, has_w, is_neg, round_down, utop, ustacktop, pte_syscall,
  env_runnable,
}
use arch.User.{
  user_panic, uvpd, uvpt_entry, user_getenvid, user_page_alloc, user_page_map, user_page_unmap,
  user_exofork, user_env_set_status, user_env_set_pgfault_upcall,
}

-- PTE_COW
abbrev pub pte_cow : ℕ
pte_cow = 0x800

abbrev pub has_cow : ℕ → Bool
has_cow pte = pte / pte_cow % 2 == 1

-- PFTEMP
abbrev pub pftemp : ℕ
pftemp = 0x7f_f000

-- The page behind a user address, for the copy; a fault where the address is not mapped.
unfoldable pub user_page : ℕ → M ℕ
user_page va = do pte ← uvpt_entry (va / pgsize); if has_p pte then pure (pgnum pte) else fail wild

-- `memcpy(dst, src, PGSIZE)` for two page-aligned addresses
unfoldable pub copy_page : (dst src : ℕ) → M (Unit {0})
copy_page dst src = do
  p ← user_page dst
  q ← user_page src
  modify λ k. record k { mem = update k.mem p (k.mem q) }

module _ (cgetc : M ℕ) where
  -- `pgfault`, with the fault's address and error code. The results of its system calls are not
  -- looked at.
  unfoldable pub pgfault : (fault_va err : ℕ) → M (Unit {0})
  pgfault fault_va err = if err / 2 % 2 == 0 then user_panic else do
    pte ← uvpt_entry (pgnum fault_va)
    if not (has_cow pte) then user_panic else do
      id ← user_getenvid cgetc
      user_page_alloc cgetc id pftemp 7
      let addr = round_down fault_va pgsize
      copy_page pftemp addr
      src ← user_getenvid cgetc
      dst ← user_getenvid cgetc
      user_page_map cgetc src pftemp dst addr 7
      own ← user_getenvid cgetc
      user_page_unmap cgetc own pftemp
      pure tt

  -- `if ((r = sys_page_map(...)) != 0) panic(...)`
  unfoldable pub map_or_panic : (srcenv srcva dstenv dstva perm : ℕ) → M ℕ
  map_or_panic srcenv srcva dstenv dstva perm = do
    r ← user_page_map cgetc srcenv srcva dstenv dstva perm
    if not (r == 0) then user_panic else pure r

  unfoldable pub duppage : (envid pn : ℕ) → M ℕ
  duppage envid pn = do
    parent_id ← user_getenvid cgetc
    let addr = pn * pgsize % u32
    pte ← uvpt_entry pn
    if has_w pte || has_cow pte
        then (do
          map_or_panic parent_id addr envid addr 0x805
          map_or_panic parent_id addr parent_id addr 0x805)
        else map_or_panic parent_id addr envid addr 5

  -- `set_pgfault_handler`: `installed` says whether there is a handler already; `upcall` is the
  -- address of `_pgfault_upcall`.
  unfoldable pub set_pgfault_handler : (upcall : ℕ) (installed : Bool) → M (Unit {0})
  set_pgfault_handler upcall installed = if installed then pure tt else do
    id ← user_getenvid cgetc
    user_page_alloc cgetc id (utop - pgsize) pte_syscall
    user_env_set_pgfault_upcall cgetc id upcall
    pure tt

  -- The loop of `fork`, with the pages that are left.
  unfoldable pub dup_pages : (id left addr : ℕ) → M (Unit {0})
  dup_pages id zero addr = pure tt
  dup_pages id (suc left) addr =
      let rest = dup_pages id left (addr + pgsize) in
      do
        pde ← uvpd (pdx addr)
        present ←
            (if has_p pde then (do pte ← uvpt_entry (pgnum addr); pure (has_p pte)) else pure false)
        when present (do r ← duppage id (pgnum addr); when (is_neg r) user_panic)
        rest

  abbrev pub check_zero : ℕ → M (Unit {0})
  check_zero r = if r == 0 then pure tt else user_panic

  -- `fork`. The parent gets the child's identifier from `sys_exofork`, and the child, which sets its
  -- `thisenv` and returns, gets 0.
  unfoldable pub fork : (upcall : ℕ) (installed : Bool) → M ℕ
  fork upcall installed = do
    set_pgfault_handler upcall installed
    id ← user_exofork cgetc
    if is_neg id then user_panic else do
      dup_pages id (ustacktop / pgsize) 0
      r ← user_page_alloc cgetc id (utop - pgsize) 7
      check_zero r
      r2 ← user_env_set_pgfault_upcall cgetc id upcall
      check_zero r2
      r3 ← user_env_set_status cgetc id env_runnable
      check_zero r3
      pure id
