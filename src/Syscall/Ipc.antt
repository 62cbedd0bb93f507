-- ===== src/Syscall/Ipc.antt =====
-- `sys_ipc_try_send` and `sys_ipc_recv` of kern/syscall.c.
use arch.Base.{ℕ, true, false, ◌&&◌, ◌||◌, none, some, not, ◌==◌, if◌then◌else◌, leb, ltb}
use arch.Kern.{Env, M, pure, get, ◌>>=◌, ◌>>◌, modify_env}
use arch.Kern.Layout.{
  utop, pgsize, e_bad_env, e_inval, e_ipc_not_recv, env_runnable, env_not_runnable, is_neg,
  round_down,
}
use arch.Env.Table.{envid2env}
use arch.Env.Alloc.{pgdir_of}
use arch.Sched.{sched_yield}
use arch.Syscall.Envs.{cur}
use arch.Env.Table.{deref}
use arch.Syscall.Pages.{bad_perm, share_page}

-- What a successful send leaves in the receiver, `env_ipc_perm` included.
unfoldable pub delivered : (from value perm : ℕ) → Env → Env
delivered from value perm v = record v {
  env_ipc_perm = perm;
  env_ipc_recving = false;
  env_ipc_from = from;
  env_ipc_value = value;
  env_status = env_runnable;
  env_tf = record v.env_tf { tf_regs = record v.env_tf.tf_regs { reg_eax = 0 } };
}

-- The end of `sys_ipc_try_send`.
unfoldable pub deliver : (e value perm : ℕ) → M ℕ
deliver e value perm = do
  c ← cur
  from ← get (λ k. (k.envs c).env_id)
  modify_env e (delivered from value perm)
  pure 0

unfoldable pub sys_ipc_try_send : (envid value srcva perm : ℕ) → M ℕ
sys_ipc_try_send envid value srcva perm = do
  found ← envid2env envid false
  if is_neg found.0 then pure e_bad_env else do
    e ← deref found.1
    recving ← get (λ k. (k.envs e).env_ipc_recving)
    if not recving
        then pure e_ipc_not_recv
        else if leb utop srcva
        then deliver e value 0
        else if not (srcva == round_down srcva pgsize) || bad_perm perm
        then pure e_inval
        else do
          c ← cur
          srcdir ← pgdir_of c
          dstva ← get (λ k. (k.envs e).env_ipc_dstva)
          shared ← share_page srcdir srcva e dstva perm
          elim shared [
            | none ↦ pure e_inval
            | some r ↦ if is_neg r then pure e_inval else deliver e value perm
          ]

-- The fields that mark an environment as waiting for a message.
unfoldable pub waiting : ℕ → Env → Env
waiting dstva v = record v {
  env_ipc_recving = true;
  env_ipc_dstva = dstva;
  env_status = env_not_runnable;
}

unfoldable pub sys_ipc_recv : ℕ → M ℕ
sys_ipc_recv dstva =
    if ltb dstva utop && not (dstva == round_down dstva pgsize)
    then pure e_inval
    else do c ← cur; modify_env c (waiting dstva); sched_yield; pure 0
