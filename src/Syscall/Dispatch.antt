-- ===== src/Syscall/Dispatch.antt =====
-- `syscall` of kern/syscall.c. The numbers are those of inc/syscall.h.
use arch.Base.{ℕ, ◌==◌, if◌then◌else◌}
use arch.Kern.{M, pure, ◌>>=◌, ◌>>◌}
use arch.Kern.Layout.{e_inval}
use arch.Sched.{sched_yield}
use arch.Sched.Destroy.{user_mem_assert}
use arch.Syscall.Envs.{
  cur, sys_cputs, sys_getenvid, sys_env_destroy, sys_exofork, sys_env_set_status,
  sys_env_set_pgfault_upcall,
}
use arch.Syscall.Pages.{sys_page_alloc, sys_page_map, sys_page_unmap}
use arch.Syscall.Ipc.{sys_ipc_try_send, sys_ipc_recv}

-- `cgetc` is the console's answer to `sys_cgetc`.
unfoldable pub syscall : (cgetc : M ℕ) → (syscallno a1 a2 a3 a4 a5 : ℕ) → M ℕ
syscall cgetc syscallno a1 a2 a3 a4 a5 =
    if syscallno == 0
    then (do e ← cur; user_mem_assert e a1 a2 5; sys_cputs a1 a2; pure 0)
    else if syscallno == 1
    then cgetc
    else if syscallno == 2
    then sys_getenvid
    else if syscallno == 3
    then sys_env_destroy a1
    else if syscallno == 11
    then (do sched_yield; pure 0)
    else if syscallno == 7
    then sys_exofork
    else if syscallno == 8
    then sys_env_set_status a1 a2
    else if syscallno == 4
    then sys_page_alloc a1 a2 a3
    else if syscallno == 5
    then sys_page_map a1 a2 a3 a4 a5
    else if syscallno == 6
    then sys_page_unmap a1 a2
    else if syscallno == 10
    then sys_env_set_pgfault_upcall a1 a2
    else if syscallno == 12
    then sys_ipc_try_send a1 a2 a3 a4
    else if syscallno == 13
    then sys_ipc_recv a1
    else pure e_inval
