-- ===== src/Sched/Order.antt =====
-- Whom `sched_yield` of kern/sched.c chooses.
use arch.Base.{
  ◌∙◌, ap, ◌≢◌, ℕ, zero, suc, ◌+◌, ◌%◌, ◌<◌, ◌≡◌, refl, Bool, true, false, none, some, arith, ◌⊎◌,
}
use native.Mathlib.Decide.{ℕ_discrete, dec_lt}
use arch.Base.{◌≤◌, ◌==◌, ==_iff, Bool-cases, Option-cases, inl, inr}
use arch.Kern.{Kern, Env, iret, Exits}
use arch.Kern.Layout.{nenv, env_runnable, env_running}
use arch.Env.Switch.{env_run, cur_running}
use arch.Env.Running.{env_run-eq}
use arch.Sched.{find_runnable, sched_start, sched_none, sched_yield}

-- Is the entry `i` places behind `start`, round the table, runnable?
abbrev pub runnable_at : (ℕ → Env) → (start i : ℕ) → Bool
runnable_at envs start i = (envs ((start + i) % nenv)).env_status == env_runnable

module _ (start : ℕ) (envs : ℕ → Env) where
  -- What holds from `i + 1` on holds from `i` on, if it holds at `i`.
  from_next :
      (i : ℕ) (P : ℕ → Type 0)
      → P i
      → (hi : ℕ) → ((l : ℕ) → i + 1 ≤ l → l < hi → P l)
      → (l : ℕ) → i ≤ l
      → l < hi
      → P l
  from_next i P here hi later l lo lt = elim (ℕ_discrete i l) [
    | yes e ↦ rw (← e) here
    | no ne ↦ later l (omega arith) lt
  ]

  find_runnable-some :
      (n i j : ℕ)
      → find_runnable n start i envs ≡ some j
      → (m : ℕ) × (m < i + n)
        × (j ≡ (start + m) % nenv)
        × (runnable_at envs start m ≡ true)
        × ((l : ℕ) → i ≤ l → l < m → runnable_at envs start l ≡ false)
  unfolding find_runnable
  find_runnable-some zero i j h = cc
  find_runnable-some (suc n) i j h = elim (Bool-cases (runnable_at envs start i)) [
    | inl here ↦
        let h' : some ((start + i) % nenv) ≡ some j = rw here at h in
        let e : j ≡ (start + i) % nenv = cc h' in
        (i, omega arith, e, here, λ l lo hi. absurd (omega arith))
    | inr next ↦
        let (m, lt, e, hit, before) = find_runnable-some n (i + 1) j (rw next at h) in
        (m, omega arith, e, hit, from_next i (λ l. runnable_at envs start l ≡ false) next m before)
  ]

  find_runnable-none :
      (n i : ℕ)
      → find_runnable n start i envs ≡ none
      → (l : ℕ) → i ≤ l
      → l < i + n
      → runnable_at envs start l ≡ false
  unfolding find_runnable
  find_runnable-none zero i h l lo hi = absurd (omega arith)
  find_runnable-none (suc n) i h l lo hi = elim (Bool-cases (runnable_at envs start i)) [
    | inl here ↦ cc (rw here at h)
    | inr next ↦
        from_next i (λ q. runnable_at envs start q ≡ false) next (i + suc n)
          (λ q a b. find_runnable-none n (i + 1) (rw next at h) q a (omega arith)) l lo hi
  ]

-- Every environment that may be chosen has an address space.
abbrev pub HaveSpace : Kern → Type 0
HaveSpace k =
    (j : ℕ)
    → ((k.envs j).env_status ≡ env_runnable) ⊎ ((k.envs j).env_status ≡ env_running)
    → (d : ℕ) × ((k.envs j).env_pgdir ≡ some d)

-- With the lock held by this CPU, an address space for every environment that may run, and some
-- runnable environment, `sched_yield` does not return: it enters the first runnable environment
-- round the table, from the one behind the current environment on. That environment is then current
-- and running, in its own address space, with the lock released.
pub sched_yield-first :
    (k : Kern) (l : ℕ)
    → k.lock ≡ some k.cpunum
    → HaveSpace k
    → let start = sched_start k.curenv k.envs in
      l < nenv
      → runnable_at k.envs start l ≡ true
      → (m : ℕ) × (m ≤ l)
        × ((i : ℕ) → i < m → runnable_at k.envs start i ≡ false)
        × (runnable_at k.envs start m ≡ true)
        × Exits
            (λ why k'.
              let j = (start + m) % nenv in
              (why ≡ iret j)
              × (k'.curenv ≡ some j)
              × ((k'.envs j).env_status ≡ env_running)
              × ((k.envs j).env_pgdir ≡ some k'.cr3)
              × (k'.lock ≡ none))
            (sched_yield k)
unfolding sched_yield
sched_yield-first k l held space lt run = elim (Option-cases (find_runnable nenv start 0 k.envs)) [
  | inl nobody ↦ cc (run, find_runnable-none start k.envs nenv 0 nobody l (omega arith) lt)
  | inr (j, found) ↦
      let (m, mlt, e, hit, before) = find_runnable-some start k.envs nenv 0 j found in
      let (d, dir) = space j (inl (rw e ((==_iff _ _).0 hit))) in
      (
        m,
        elim (dec_lt l m) [ yes q ↦ cc (run, before l (omega arith) q) | no q ↦ omega arith ],
        λ i h. before i (omega arith) h,
        hit,
        rw (found, env_run-eq k j d held dir, ← e) (refl, refl, ground arith, dir, refl),
      )
]
  where
    start : ℕ
    start = sched_start k.curenv k.envs

-- The loop finds nobody if no entry is runnable.
find_runnable-idle :
    (start : ℕ) (envs : ℕ → Env)
    → ((j : ℕ) → j < nenv → (envs j).env_status ≢ env_runnable)
    → find_runnable nenv start 0 envs ≡ none
find_runnable-idle start envs idle = elim (Option-cases (find_runnable nenv start 0 envs)) [
  | inl nobody ↦ nobody
  | inr (j, found) ↦
      let (m, mlt, e, hit, before) = find_runnable-some start envs nenv 0 j found in
      absurd (idle ((start + m) % nenv) (omega arith) ((==_iff _ _).0 hit))
]

sched_none-running :
    (k : Kern) (c : ℕ) → (k.envs c).env_status ≡ env_running → sched_none (some c) k ≡ env_run c k
unfolding sched_none cur_running
sched_none-running k c runs = rw runs refl

-- With the lock held by this CPU, an address space for every environment that may run, and no
-- runnable environment, `sched_yield` goes on with the current one if that is running; no other
-- environment changes.
sched_yield-keeps :
    (k : Kern) (c : ℕ)
    → k.lock ≡ some k.cpunum
    → HaveSpace k
    → k.curenv ≡ some c
    → (k.envs c).env_status ≡ env_running
    → ((j : ℕ) → j < nenv → (k.envs j).env_status ≢ env_runnable)
    → Exits
        (λ why k'.
          (why ≡ iret c)
          × (k'.curenv ≡ some c)
          × ((k'.envs c).env_status ≡ env_running)
          × ((k.envs c).env_pgdir ≡ some k'.cr3)
          × (k'.lock ≡ none)
          × ((j : ℕ) → j ≢ c → k'.envs j ≡ k.envs j))
        (sched_yield k)
unfolding sched_yield
sched_yield-keeps k c held space now runs idle =
    let (d, dir) = space c (inr runs) in
    rw (run ∙ env_run-eq k c d held dir)
      (refl, refl, ground arith, dir, refl, λ j ne. ground (arith, now))
  where
    run : sched_yield k ≡ env_run c k
    run =
        simp (find_runnable-idle (sched_start k.curenv k.envs) k.envs idle)
          (ap (λ o. sched_none o k) now ∙ sched_none-running k c runs)
