-- ===== src/Env/Switch.antt =====
-- `env_run` and `env_pop_tf` of kern/env.c, and the big lock of kern/spinlock.c that they release.
use arch.Base.{ℕ, ◌+◌, ◌%◌, Bool, false, Option, none, some, ◌==◌, if◌then◌else◌, is_ptr}
use arch.Kern.{Env, M, panic, iret, spin, ok, stop, pure, fail, get, modify, when, ◌>>=◌, ◌>>◌}
use arch.Kern.{modify_env}
use arch.Kern.Layout.{u32, env_runnable, env_running}

-- `spin_lock(&kernel_lock)`: a CPU that holds the lock panics; one that finds it held by another
-- spins until that one lets go.
unfoldable pub lock_kernel : M (Unit {0})
lock_kernel k = elim k.lock [
  | none ↦ ok tt (record k { lock = some k.cpunum })
  | some holder ↦ if holder == k.cpunum then stop panic k else stop spin k
]

unfoldable pub unlock_kernel : M (Unit {0})
unlock_kernel k = if is_ptr k.cpunum k.lock then ok tt (record k { lock = none }) else stop panic k

-- `curenv && curenv->env_status == ENV_RUNNING`
unfoldable pub cur_running : (curenv : Option ℕ) → (ℕ → Env) → Bool
cur_running none envs = false
cur_running (some cur) envs = (envs cur).env_status == env_running

-- The current environment goes back to ENV_RUNNABLE if it is running.
unfoldable pub deschedule : (curenv : Option ℕ) → M (Unit {0})
deschedule none = pure tt
deschedule (some cur) = do
  status ← get (λ k. (k.envs cur).env_status)
  when (status == env_running) (modify_env cur λ v. record v { env_status = env_runnable })

-- `lcr3(PADDR(pgdir))`: `PADDR` panics on NULL.
unfoldable pub load_pgdir : Option ℕ → M (Unit {0})
load_pgdir none = fail panic
load_pgdir (some pgdir) = modify λ k. record k { cr3 = pgdir }

unfoldable pub env_pop_tf : ℕ → M (Unit {0})
env_pop_tf e = do
  cpu ← get (λ k. k.cpunum)
  modify_env e (λ v. record v { env_cpunum = cpu })
  fail (iret e)

-- The part of `env_run` behind its first test.
unfoldable pub switch_to : ℕ → M (Unit {0})
switch_to e = do
  modify (λ k. record k { curenv = some e })
  modify_env e (λ v. record v { env_status = env_running; env_runs = (v.env_runs + 1) % u32 })
  pgdir ← get (λ k. (k.envs e).env_pgdir)
  load_pgdir pgdir
  unlock_kernel
  env_pop_tf e

unfoldable pub env_run : ℕ → M (Unit {0})
env_run e = do c ← get (λ k. k.curenv); deschedule c; switch_to e
