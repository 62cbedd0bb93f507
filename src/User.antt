-- ===== src/User.antt =====
-- User-level code of lib/: the system call stubs of lib/syscall.c, and the reads of the page tables
-- through UVPT. Between two system calls of an environment no other one runs here.
pub mod Fork
pub mod Calls
pub mod Steps
pub mod Room
pub mod Private
pub mod Pgfault
pub mod Duppage
use arch.Base.{
  ℕ, ◌+◌, ◌*◌, ◌/◌, ◌%◌, ◌^◌, Bool, true, false, ◌&&◌, ◌||◌, none, some, not, ◌==◌, if◌then◌else◌,
}
use arch.Kern.{M, Exit, monitor, wild, pure, fail, get, modify, when, ◌>>=◌, ◌>>◌}
use arch.Kern.Layout.{has_p, is_neg, pgnum}
use arch.Syscall.Dispatch.{syscall}

-- `_panic` of lib/panic.c ends in breakpoints, and those in the kernel's monitor.
abbrev pub user_panic : {A : Type 0} → M A
user_panic = fail monitor

-- `uvpd[i]`: the directory is mapped at the entry UVPT of itself.
unfoldable pub uvpd : ℕ → M ℕ
uvpd i = do d ← get (λ k. k.cr3); get (λ k. k.mem d i)

-- `uvpt[n]`, the entry of the page `n`: a fault where there is no table for it.
unfoldable pub uvpt_entry : ℕ → M ℕ
uvpt_entry n = do
  pde ← uvpd (n / 1024)
  if has_p pde then get (λ k. k.mem (pgnum pde) (n % 1024)) else fail wild

-- `cgetc` is the console's answer to the system call of that name.
module _ (cgetc : M ℕ) where
  -- `syscall` of lib/syscall.c, with `int 0x30` as the call of the kernel's `syscall`
  unfoldable pub stub : (num : ℕ) (check : Bool) (a1 a2 a3 a4 a5 : ℕ) → M ℕ
  stub num check a1 a2 a3 a4 a5 = do
    ret ← syscall cgetc num a1 a2 a3 a4 a5
    if check && (not (ret == 0) && not (is_neg ret)) then user_panic else pure ret

  unfoldable pub user_getenvid : M ℕ
  user_getenvid = stub 2 false 0 0 0 0 0

  unfoldable pub user_page_alloc : (envid va perm : ℕ) → M ℕ
  user_page_alloc envid va perm = stub 4 true envid va perm 0 0

  unfoldable pub user_page_map : (srcenv srcva dstenv dstva perm : ℕ) → M ℕ
  user_page_map srcenv srcva dstenv dstva perm = stub 5 true srcenv srcva dstenv dstva perm

  unfoldable pub user_page_unmap : (envid va : ℕ) → M ℕ
  user_page_unmap envid va = stub 6 true envid va 0 0 0

  -- In the parent; the child comes back from the same call with the result 0.
  unfoldable pub user_exofork : M ℕ
  user_exofork = syscall cgetc 7 0 0 0 0 0

  unfoldable pub user_env_set_status : (envid status : ℕ) → M ℕ
  user_env_set_status envid status = stub 8 true envid status 0 0 0

  unfoldable pub user_env_set_pgfault_upcall : (envid upcall : ℕ) → M ℕ
  user_env_set_pgfault_upcall envid upcall = stub 10 true envid upcall 0 0 0
