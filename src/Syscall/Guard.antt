-- ===== src/Syscall/Guard.antt =====
-- Who may be acted upon: the permission checks of the system calls.
use arch.Base.{ℕ, ◌≡◌, refl, ◌≢◌, true, false, none, some}
use arch.Base.{Bool-cases, inl, inr}
use native.Mathlib.Decide.{ℕ_discrete}
use arch.Kern.{Kern, ok}
use arch.Kern.Layout.{e_bad_env}
use arch.Env.Table.{envid2env}
use arch.Env.Ids.{usable, envid2env-eq, envid2env-zero}
use arch.Syscall.Envs.{sys_env_destroy, sys_env_set_status, sys_env_set_pgfault_upcall}
use arch.Syscall.Pages.{sys_page_alloc, sys_page_map, sys_page_unmap, two_envs}

module _ (k : Kern) (envid c : ℕ) (ne : envid ≢ 0) (now : k.curenv ≡ some c)
    (bad : usable k c true envid ≡ false) where
  refused : envid2env envid true k ≡ ok (e_bad_env, none) k
  refused = rw (envid2env-eq k envid c true ne now, bad) refl

  -- Isolation: on an identifier other than 0 that is not in use, or that belongs to an environment
  -- which is neither the current one nor a child of it, destroying the environment, setting its
  -- status or its fault handler, and allocating, unmapping or mapping its pages (as the source, or
  -- as the target) all return -E_BAD_ENV and change nothing. The other identifier of a mapping and
  -- the other arguments are any, and there is a current environment.
  pub syscalls_isolate :
      (status func va perm srcva dstva src dst : ℕ)
      → (sys_env_destroy envid k ≡ ok e_bad_env k)
        × (sys_env_set_status envid status k ≡ ok e_bad_env k)
        × (sys_env_set_pgfault_upcall envid func k ≡ ok e_bad_env k)
        × (sys_page_alloc envid va perm k ≡ ok e_bad_env k)
        × (sys_page_unmap envid va k ≡ ok e_bad_env k)
        × (sys_page_map envid srcva dst dstva perm k ≡ ok e_bad_env k)
        × (sys_page_map src srcva envid dstva perm k ≡ ok e_bad_env k)
  unfolding sys_env_destroy sys_env_set_status sys_env_set_pgfault_upcall sys_page_alloc
      sys_page_unmap sys_page_map two_envs
  syscalls_isolate status func va perm srcva dstva src dst = (
    simp refused,
    simp refused,
    simp refused,
    simp refused,
    simp refused,
    simp refused,
    elim (ℕ_discrete src 0) [
      | yes zero ↦ rw zero (simp (envid2env-zero k true, refused))
      | no sn ↦ elim (Bool-cases (usable k c true src)) [
        | inl good ↦ simp (envid2env-eq k src c true sn now, good, refused)
        | inr out ↦ simp (envid2env-eq k src c true sn now, out)
      ]
    ],
  )
