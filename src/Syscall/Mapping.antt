-- ===== src/Syscall/Mapping.antt =====
-- `sys_page_map` of kern/syscall.c where its arguments pass the tests.
use arch.Base.{ℕ, ◌≡◌, ◌≢◌, true, false, ◌&&◌, some, not}
use arch.Kern.{Kern, ok}
use arch.Kern.Layout.{has_w}
use arch.Base.{ltb, arith, ◌||◌, ◌%◌, ◌==◌}
use arch.Kern.Layout.{utop, pgsize}
use arch.Pmap.Alloc.{page_alloc}
use arch.Pmap.Alloc.FreeList.{taken}
use arch.Syscall.Pages.{sys_page_alloc, sys_page_unmap}
use arch.Pmap.Walk.{page_lookup, page_insert, page_remove}
use arch.Env.Table.{envx, deref}
use arch.Env.Alloc.{pgdir_of}
use arch.Env.Ids.{usable, envid2env-eq}
use arch.Syscall.Pages.{sys_page_map, share_page, two_envs, bad_va, bad_perm}

-- The current environment `cur` may name the environment `envid`, whose address space is `dir`.
pub record Names (k : Kern) (cur envid dir : ℕ) : Type 0 where
  pub nonzero : envid ≢ 0
  pub allowed : usable k cur true envid ≡ true
  pub space : (k.envs (envx envid)).env_pgdir ≡ some dir

-- The names are good in every state with the same environments.
pub Names-frame :
    {k k' : Kern} {cur envid dir : ℕ}
    → Names k cur envid dir
    → k'.envs ≡ k.envs
    → Names k' cur envid dir
Names-frame n e = record { nonzero = n.nonzero; allowed = rw e n.allowed; space = rw e n.space }

module _ {k : Kern} {cur src dst srcdir dstdir : ℕ} (now : k.curenv ≡ some cur)
    (s : Names k cur src srcdir) (d : Names k cur dst dstdir) where
  two_envs-eq : two_envs src dst k ≡ ok (some (some (envx src), some (envx dst))) k
  unfolding two_envs
  two_envs-eq = simp (
    envid2env-eq k src cur true s.nonzero now,
    s.allowed,
    envid2env-eq k dst cur true d.nonzero now,
    d.allowed,
  )

  pub sys_page_map-eq :
      {k' : Kern} {pp t i : ℕ} (srcva dstva perm : ℕ)
      → bad_va srcva ≡ false
      → bad_va dstva ≡ false
      → bad_perm perm ≡ false
      → page_lookup srcdir srcva k ≡ ok (some (pp, (t, i))) k
      → (has_w perm && not (has_w (k.mem t i))) ≡ false
      → page_insert dstdir pp dstva perm k ≡ ok 0 k'
      → sys_page_map src srcva dst dstva perm k ≡ ok 0 k'
  unfolding sys_page_map share_page deref pgdir_of
  sys_page_map-eq srcva dstva perm va1 va2 fits found may inserted =
      simp (two_envs-eq, va1, va2, fits, s.space, found, may, d.space, inserted)

-- `sys_page_alloc` of the page that is first on the free list.
pub sys_page_alloc-eq :
    {k k' : Kern} {cur envid dir pp : ℕ} (va perm : ℕ)
    → k.curenv ≡ some cur
    → Names k cur envid dir
    → bad_va va ≡ false
    → bad_perm perm ≡ false
    → page_alloc true k ≡ ok (some pp) (taken true pp k)
    → page_insert dir pp va perm (taken true pp k) ≡ ok 0 k'
    → sys_page_alloc envid va perm k ≡ ok 0 k'
unfolding sys_page_alloc deref pgdir_of bad_va
sys_page_alloc-eq {k} {cur} {envid} va perm now n good fits got inserted =
    let low : (ltb utop va || not (va % pgsize == 0)) ≡ false = ground arith in
    simp (envid2env-eq k envid cur true n.nonzero now, n.allowed, low, fits, got, n.space, inserted)

pub sys_page_unmap-eq :
    {k k' : Kern} {cur envid dir : ℕ} (va : ℕ)
    → k.curenv ≡ some cur
    → Names k cur envid dir
    → bad_va va ≡ false
    → page_remove dir va k ≡ ok tt k'
    → sys_page_unmap envid va k ≡ ok 0 k'
unfolding sys_page_unmap deref pgdir_of
sys_page_unmap-eq {k} {cur} {envid} va now n good removed =
    simp (envid2env-eq k envid cur true n.nonzero now, n.allowed, good, n.space, removed)
