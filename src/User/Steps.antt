-- ===== src/User/Steps.antt =====
-- What each call of `pgfault` of lib/fork.c does.
use arch.Base.{ℕ, ◌/◌, ◌%◌, ◌^◌, ◌<◌, ◌≡◌, refl, true, false, ◌==◌, update}
use arch.Kern.{Kern, M, ok}
use arch.Kern.Layout.{ptx, pgnum, pgsize, has_p, round_down}
use arch.Pmap.Walk.Find.{HasTable}
use arch.Syscall.Dispatch.{syscall}
use arch.Syscall.Pages.{sys_page_map, sys_page_alloc, sys_page_unmap}
use arch.User.{uvpt_entry, stub, user_getenvid, user_page_map, user_page_alloc, user_page_unmap}
use arch.User.Fork.{has_cow, pgfault, copy_page, user_page, pftemp}
use arch.User.Calls.{uvpt_entry-eq}

user_page-eq :
    {k : Kern} {va t : ℕ}
    → HasTable k k.cr3 va t
    → va < 2 ^ 32
    → has_p (k.mem t (ptx va)) ≡ true
    → user_page va k ≡ ok (pgnum (k.mem t (ptx va))) k
unfolding user_page
user_page-eq h small present = rw (uvpt_entry-eq h small, present) refl

-- The state with the words of page `q` copied to page `p`.
abbrev pub copied : (p q : ℕ) → Kern → Kern
copied p q k = record k { mem = update k.mem p (k.mem q) }

pub copy_page-eq :
    {k : Kern} {dst src t u p q : ℕ}
    → HasTable k k.cr3 dst t
    → HasTable k k.cr3 src u
    → dst < 2 ^ 32
    → src < 2 ^ 32
    → has_p (k.mem t (ptx dst)) ≡ true
    → has_p (k.mem u (ptx src)) ≡ true
    → pgnum (k.mem t (ptx dst)) ≡ p
    → pgnum (k.mem u (ptx src)) ≡ q
    → copy_page dst src k ≡ ok tt (copied p q k)
unfolding copy_page
copy_page-eq h g small small' present present' e e' =
    rw (user_page-eq h small present, user_page-eq g small' present', e, e') refl

module _ (cgetc : M ℕ) where
  page_alloc_call :
      (k : Kern) {k' : Kern} (envid va perm : ℕ)
      → sys_page_alloc envid va perm k ≡ ok 0 k'
      → user_page_alloc cgetc envid va perm k ≡ ok 0 k'
  unfolding user_page_alloc stub syscall
  page_alloc_call k envid va perm e = simp e

  page_map_call :
      (k : Kern) {k' : Kern} (src srcva dst dstva perm : ℕ)
      → sys_page_map src srcva dst dstva perm k ≡ ok 0 k'
      → user_page_map cgetc src srcva dst dstva perm k ≡ ok 0 k'
  unfolding user_page_map stub syscall
  page_map_call k src srcva dst dstva perm e = simp e

  page_unmap_call :
      (k : Kern) {k' : Kern} (envid va : ℕ)
      → sys_page_unmap envid va k ≡ ok 0 k'
      → user_page_unmap cgetc envid va k ≡ ok 0 k'
  unfolding user_page_unmap stub syscall
  page_unmap_call k envid va e = simp e

  pub pgfault-eq :
      (k k1 k2 k3 : Kern) {k4 : Kern} (va err id w addr : ℕ)
      → round_down va pgsize ≡ addr
      → (err / 2 % 2 == 0) ≡ false
      → uvpt_entry (pgnum va) k ≡ ok w k
      → has_cow w ≡ true
      → user_getenvid cgetc k ≡ ok id k
      → sys_page_alloc id pftemp 7 k ≡ ok 0 k1
      → copy_page pftemp addr k1 ≡ ok tt k2
      → user_getenvid cgetc k2 ≡ ok id k2
      → sys_page_map id pftemp id addr 7 k2 ≡ ok 0 k3
      → user_getenvid cgetc k3 ≡ ok id k3
      → sys_page_unmap id pftemp k3 ≡ ok 0 k4
      → pgfault cgetc va err k ≡ ok tt k4
  unfolding pgfault
  pgfault-eq k k1 k2 k3 va err id w addr base write entry cow g a c g2 m g3 u =
      rw
        (
          write,
          entry,
          cow,
          g,
          page_alloc_call k id pftemp 7 a,
          base,
          c,
          g2,
          g2,
          page_map_call k2 id pftemp id addr 7 m,
          g3,
          page_unmap_call k3 id pftemp u,
        )
        refl
