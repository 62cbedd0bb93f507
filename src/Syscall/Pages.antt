-- ===== src/Syscall/Pages.antt =====
-- The system calls of kern/syscall.c on address spaces.
use arch.Base.{
  ℕ, ◌-◌, ◌%◌, Bool, true, ◌&&◌, ◌||◌, Option, none, some, not, ◌==◌, if◌then◌else◌, leb, ltb,
  bit_and,
}
use arch.Kern.{M, pure, get, ◌>>=◌, ◌>>◌}
use arch.Kern.Layout.{u32, utop, pgsize, pte_syscall, e_bad_env, e_inval, e_no_mem, has_w}
use arch.Pmap.Alloc.{page_alloc, page_free}
use arch.Pmap.Walk.{page_lookup, page_insert, page_remove}
use arch.Env.Table.{envid2env}
use arch.Env.Alloc.{pgdir_of}
use arch.Env.Table.{deref}

-- The two tests of `perm`: PTE_U and PTE_P are set, and no bit outside PTE_SYSCALL is.
unfoldable pub bad_perm : ℕ → Bool
bad_perm perm = not (bit_and perm 5 == 5) || not (bit_and perm (u32 - 1 - pte_syscall) == 0)

unfoldable pub sys_page_alloc : (envid va perm : ℕ) → M ℕ
sys_page_alloc envid va perm = do
  found ← envid2env envid true
  if not (found.0 == 0)
      then pure e_bad_env
      else if ltb utop va || not (va % pgsize == 0)
      then pure e_inval
      else if bad_perm perm
      then pure e_inval
      else do
        page ← page_alloc true
        elim page [
          | none ↦ pure e_no_mem
          | some pp ↦ do
            e ← deref found.1
            pgdir ← pgdir_of e
            r ← page_insert pgdir pp va perm
            if not (r == 0) then (do page_free pp; pure e_no_mem) else pure 0
        ]

-- The part of `sys_page_map` behind the tests of its arguments; `sys_ipc_try_send` repeats it. The
-- result is `none` where the page may not be passed on, and the result of `page_insert` if it may.
unfoldable pub share_page : (srcdir srcva dstenv dstva perm : ℕ) → M (Option ℕ)
share_page srcdir srcva dstenv dstva perm = do
  found ← page_lookup srcdir srcva
  elim found [
    | none ↦ pure none
    | some (pp, (t, i)) ↦ do
      pte ← get (λ k. k.mem t i)
      if has_w perm && not (has_w pte)
          then pure none
          else do dstdir ← pgdir_of dstenv; r ← page_insert dstdir pp dstva perm; pure (some r)
  ]

-- A user address that a call may map: below UTOP and page-aligned.
unfoldable pub bad_va : ℕ → Bool
bad_va va = leb utop va || not (va % pgsize == 0)

-- The second lookup is made only if the first succeeds.
unfoldable pub two_envs : (srcenvid dstenvid : ℕ) → M (Option (Option ℕ × Option ℕ))
two_envs srcenvid dstenvid = do
  src ← envid2env srcenvid true
  if not (src.0 == 0) then pure none else do
    dst ← envid2env dstenvid true
    if not (dst.0 == 0) then pure none else pure (some (src.1, dst.1))

unfoldable pub sys_page_map : (srcenvid srcva dstenvid dstva perm : ℕ) → M ℕ
sys_page_map srcenvid srcva dstenvid dstva perm = do
  found ← two_envs srcenvid dstenvid
  elim found [
    | none ↦ pure e_bad_env
    | some (srcenv, dstenv) ↦
        if bad_va srcva || bad_va dstva
        then pure e_inval
        else if bad_perm perm
        then pure e_inval
        else do
          s ← deref srcenv
          srcdir ← pgdir_of s
          d ← deref dstenv
          shared ← share_page srcdir srcva d dstva perm
          elim shared [
            | none ↦ pure e_inval
            | some r ↦ if not (r == 0) then pure e_no_mem else pure 0
          ]
  ]

unfoldable pub sys_page_unmap : (envid va : ℕ) → M ℕ
sys_page_unmap envid va = do
  found ← envid2env envid true
  if not (found.0 == 0)
      then pure e_bad_env
      else if bad_va va
      then pure e_inval
      else do e ← deref found.1; pgdir ← pgdir_of e; page_remove pgdir va; pure 0
