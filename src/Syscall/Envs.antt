-- ===== src/Syscall/Envs.antt =====
-- The system calls of kern/syscall.c on environments and the console.
use arch.Base.{ℕ, true, ◌&&◌, not, ◌==◌, if◌then◌else◌, ◌∷◌}
use arch.Kern.{Env, Trapframe, M, panic, pure, fail, get, modify, when, ◌>>=◌, ◌>>◌, modify_env}
use arch.Kern.Layout.{env_runnable, env_not_runnable, e_bad_env, e_inval, is_neg, pte_u}
use arch.Pmap.Mem.{user_mem_check}
use arch.Env.Table.{envid2env, deref}
use arch.Env.Alloc.{env_alloc, pgdir_of}
use arch.Sched.Destroy.{env_destroy}

-- A use of `curenv` as an address
unfoldable pub cur : M ℕ
cur = do c ← get (λ k. k.curenv); deref c

unfoldable pub sys_cputs : (s len : ℕ) → M (Unit {0})
sys_cputs s len = do
  e ← cur
  pgdir ← pgdir_of e
  r ← user_mem_check pgdir s len pte_u
  when (is_neg r) (env_destroy e)
  modify λ k. record k { printed = (s, len) ∷ k.printed }

unfoldable pub sys_getenvid : M ℕ
sys_getenvid = do e ← cur; get (λ k. (k.envs e).env_id)

unfoldable pub sys_env_destroy : ℕ → M ℕ
sys_env_destroy envid = do
  found ← envid2env envid true
  if is_neg found.0 then pure found.0 else do e ← deref found.1; env_destroy e; pure 0

-- The child: not runnable, with the parent's registers except `eax`.
unfoldable pub child_of : Trapframe → Env → Env
child_of tf v = record v {
  env_status = env_not_runnable;
  env_tf = record tf { tf_regs = record tf.tf_regs { reg_eax = 0 } };
}

unfoldable pub sys_exofork : M ℕ
sys_exofork = do
  parent ← cur
  id ← get (λ k. (k.envs parent).env_id)
  made ← env_alloc id
  if is_neg made.0 then fail panic else do
    e ← deref made.1
    tf ← get (λ k. (k.envs parent).env_tf)
    modify_env e (child_of tf)
    get (λ k. (k.envs e).env_id)

unfoldable pub sys_env_set_status : (envid status : ℕ) → M ℕ
sys_env_set_status envid status = do
  found ← envid2env envid true
  if not (found.0 == 0)
      then pure e_bad_env
      else if not (status == env_runnable) && not (status == env_not_runnable)
      then pure e_inval
      else do e ← deref found.1; modify_env e (λ v. record v { env_status = status }); pure 0

-- The call that the kernel does not implement yet.
unfoldable pub sys_env_set_trapframe : (envid tf : ℕ) → M ℕ
sys_env_set_trapframe envid tf = fail panic

unfoldable pub sys_env_set_pgfault_upcall : (envid func : ℕ) → M ℕ
sys_env_set_pgfault_upcall envid func = do
  found ← envid2env envid true
  if not (found.0 == 0)
      then pure e_bad_env
      else do e ← deref found.1; modify_env e (λ v. record v { env_pgfault_upcall = func }); pure 0
