-- ===== src/Sched.antt =====
-- kern/sched.c: round-robin scheduling, halting, and `env_destroy` of kern/env.c, which schedules.
pub mod Destroy
pub mod Order
use arch.Base.{
  ℕ, zero, suc, ◌+◌, ◌%◌, Bool, true, false, ◌&&◌, ◌||◌, Option, none, some, ◌==◌, if◌then◌else◌,
}
use arch.Kern.{
  Kern, Env, M, panic, halt, monitor, ok, stop, pure, fail, get, modify, when, ◌>>=◌, ◌>>◌,
}
use arch.Kern.Layout.{nenv, env_dying, env_runnable, env_running}
use arch.Env.Table.{envx}
use arch.Env.Switch.{env_run, unlock_kernel, cur_running}

-- Does an environment below the bound keep the system alive (runnable, running or dying)?
unfoldable pub some_alive : ℕ → (ℕ → Env) → Bool
some_alive zero envs = false
some_alive (suc n) envs =
    some_alive n envs
    || ((envs n).env_status == env_runnable
        || (envs n).env_status == env_running
        || (envs n).env_status == env_dying)

-- `cpu_status` 2 is CPU_HALTED.
unfoldable pub sched_halt : M (Unit {0})
sched_halt = do
  alive ← get (λ k. some_alive nenv k.envs)
  if alive
      then (do
        modify (λ k. record k { curenv = none; cr3 = k.kern_pgdir; cpu_status = 2 })
        unlock_kernel
        fail halt)
      else fail monitor

-- The loop of `sched_yield`: the first runnable entry from `(start + i) % NENV` on, with the rounds
-- that are left. The loop body's `env_run` does not return, so the loop ends there.
unfoldable pub find_runnable : ℕ → (start i : ℕ) → (ℕ → Env) → Option ℕ
find_runnable zero start i envs = none
find_runnable (suc n) start i envs =
    let rest = find_runnable n start (i + 1) envs in
    let j = (start + i) % nenv in if (envs j).env_status == env_runnable then some j else rest

-- Where the search starts: behind the current environment.
unfoldable pub sched_start : (curenv : Option ℕ) → (ℕ → Env) → ℕ
sched_start none envs = 0
sched_start (some cur) envs = envx (envs cur).env_id + 1

-- What is done when the loop of `sched_yield` found nobody.
unfoldable pub sched_none : (curenv : Option ℕ) → M (Unit {0})
sched_none none = sched_halt
sched_none (some cur) = do
  running ← get (λ k. cur_running (some cur) k.envs)
  if running then env_run cur else sched_halt

unfoldable pub sched_yield : M (Unit {0})
sched_yield = do
  c ← get (λ k. k.curenv)
  found ← get (λ k. find_runnable nenv (sched_start c k.envs) 0 k.envs)
  elim found [ none ↦ sched_none c | some j ↦ env_run j ]
