-- ===== src/Env/Running.antt =====
-- What `env_run` of kern/env.c switches to.
use arch.Base.{ℕ, ◌+◌, ◌%◌, ◌≡◌, refl, Option, none, some, arith, ◌∙◌}
use arch.Base.{==_refl, ◌==◌, update, if◌then◌else◌, Bool-cases, inl, inr}
use arch.Kern.{Kern, Env, ok, stop, iret}
use arch.Kern.Layout.{u32, env_runnable, env_running}
use arch.Env.Switch.{deschedule, load_pgdir, unlock_kernel, env_pop_tf, env_run, switch_to}

-- The environments after the current one has gone back to ENV_RUNNABLE.
abbrev pub rested : Option ℕ → (ℕ → Env) → ℕ → Env
rested none envs = envs
rested (some cur) envs =
    if (envs cur).env_status == env_running
    then update envs cur (record (envs cur) { env_status = env_runnable })
    else envs

deschedule-eq :
    (c : Option ℕ) (k : Kern) → deschedule c k ≡ ok tt (record k { envs = rested c k.envs })
unfolding deschedule
deschedule-eq none k = refl
deschedule-eq (some cur) k = elim (Bool-cases ((k.envs cur).env_status == env_running)) [
  | inl r ↦ simp r
  | inr r ↦ simp r
]

-- The state in which environment `e`, whose directory is `d`, is entered.
abbrev pub in_user : (e d : ℕ) → Kern → Kern
in_user e d k =
    let v = k.envs e in
    let envs1 =
      update k.envs e (record v { env_status = env_running; env_runs = (v.env_runs + 1) % u32 }) in
    record k {
      curenv = some e;
      envs = update envs1 e (record (envs1 e) { env_cpunum = k.cpunum });
      cr3 = d;
      lock = none;
    }

switch_to-eq :
    (k : Kern) (e d : ℕ)
    → k.lock ≡ some k.cpunum
    → (k.envs e).env_pgdir ≡ some d
    → switch_to e k ≡ stop (iret e) (in_user e d k)
unfolding switch_to load_pgdir unlock_kernel env_pop_tf
switch_to-eq k e d held dir = simp (==_refl e, dir, held, ==_refl k.cpunum)

rested-pgdir :
    (cur : Option ℕ) (envs : ℕ → Env) (e : ℕ) → (rested cur envs e).env_pgdir ≡ (envs e).env_pgdir
rested-pgdir none envs e = refl
rested-pgdir (some cur) envs e = ground arith

pub env_run-eq :
    (k : Kern) (e d : ℕ)
    → k.lock ≡ some k.cpunum
    → (k.envs e).env_pgdir ≡ some d
    → env_run e k ≡ stop (iret e) (in_user e d (record k { envs = rested k.curenv k.envs }))
unfolding env_run
env_run-eq k e d held dir =
    simp (deschedule-eq k.curenv k) (switch_to-eq _ e d held (rested-pgdir k.curenv k.envs e ∙ dir))
