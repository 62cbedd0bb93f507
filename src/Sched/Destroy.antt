-- ===== src/Sched/Destroy.antt =====
-- `env_destroy` of kern/env.c and `user_mem_assert` of kern/pmap.c.
use arch.Base.{ℕ, Bool, ◌&&◌, none, not, ◌==◌, if◌then◌else◌, is_ptr, bit_or}
use arch.Kern.{Kern, M, get, modify, when, ◌>>=◌, ◌>>◌, modify_env}
use arch.Kern.Layout.{env_dying, env_running, is_neg, pte_u}
use arch.Pmap.Mem.{user_mem_check}
use arch.Env.Alloc.{env_free, pgdir_of}
use arch.Sched.{sched_yield}

-- Does `e` run on another CPU?
unfoldable pub runs_elsewhere : ℕ → Kern → Bool
runs_elsewhere e k = (k.envs e).env_status == env_running && not (is_ptr e k.curenv)

unfoldable pub env_destroy : ℕ → M (Unit {0})
env_destroy e = do
  elsewhere ← get (runs_elsewhere e)
  if elsewhere then modify_env e (λ v. record v { env_status = env_dying }) else do
    env_free e
    own ← get (λ k. is_ptr e k.curenv)
    when own (do modify (λ k. record k { curenv = none }); sched_yield)

unfoldable pub user_mem_assert : (e va len perm : ℕ) → M (Unit {0})
user_mem_assert e va len perm = do
  pgdir ← pgdir_of e
  r ← user_mem_check pgdir va len (bit_or perm pte_u)
  when (is_neg r) (env_destroy e)
