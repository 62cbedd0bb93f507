-- ===== src/Examples/Envs.antt =====
-- Runs of the functions of kern/env.c, kern/sched.c and kern/syscall.c on the small machine.
use arch.Base.{
  ℕ, ◌+◌, ◌%◌, ◌≤◌, ◌<◌, ◌≡◌, refl, ◌≢◌, true, false, none, some, [], ◌∷◌, arith, if◌then◌else◌,
}
use arch.Kern.{Kern, ok, iret, Ensures, Exits}
use arch.Kern.Layout.{utop, uvpt, pdx, nenv, e_bad_env, e_inval, env_runnable, env_running}
use arch.Pmap.Alloc.FreeList.{IsFreeList}
use arch.Env.Table.{envid2env}
use arch.Env.Alloc.{env_alloc, next_env_id}
use arch.Env.Ids.{IsIndexed, Means, envid2env_lem}
use arch.Env.Fresh.{env_alloc_lem, envid2env-env_alloc}
use arch.Sched.{sched_yield, sched_start}
use arch.Sched.Order.{HaveSpace, runnable_at, sched_yield-first}
use arch.Syscall.Envs.{sys_env_destroy, sys_env_set_status, sys_env_set_pgfault_upcall}
use arch.Syscall.Pages.{sys_page_alloc, sys_page_map, sys_page_unmap}
use arch.Syscall.Ipc.{sys_ipc_try_send}
use arch.Syscall.Guard.{syscalls_isolate}
use arch.Syscall.Message.{sys_ipc_try_send_value, sys_ipc_try_send_refused}
use arch.Base.{◌==◌, if◌then◌else◌, ◌⊎◌}
use arch.Examples.{table, env_of, machine, machine-IsFreeList}

machine-IsIndexed : IsIndexed machine
machine-IsIndexed e lt used = ground arith

envid2env_lem_example :
    ((e : ℕ) × (envid2env 4098 true machine ≡ ok (0, some e) machine) × Means machine 0 true 4098 e)
    ⊎ ((envid2env 4098 true machine ≡ ok (e_bad_env, none) machine)
        × ((e : ℕ) → ¬ Means machine 0 true 4098 e))
envid2env_lem_example = envid2env_lem machine 4098 0 true machine-IsIndexed refl

env_alloc_lem_example :
    Ensures
      (λ r k'.
        let v = k'.envs 3 in
        (r ≡ (0, some 3))
        × (v.env_status ≡ env_runnable)
        × (v.env_parent_id ≡ 4096)
        × (v.env_id ≡ next_env_id 4099 3)
        × (v.env_pgfault_upcall ≡ 0)
        × (v.env_ipc_recving ≡ false)
        × (v.env_pgdir ≡ some 6)
        × ((d : ℕ) → d ≢ pdx uvpt → k'.mem 6 d ≡ machine.mem 8 d)
        × ((k'.pages 6).pp_ref ≡ 1)
        × (k'.env_free_list ≡ none)
        × IsFreeList k' (7 ∷ [])
        × ((i : ℕ) → i ≢ 3 → k'.envs i ≡ machine.envs i))
      (env_alloc 4096 machine)
env_alloc_lem_example = env_alloc_lem 4096 3 6 (7 ∷ []) refl (omega arith) machine-IsFreeList

envid2env-env_alloc_example :
    Ensures
      (λ r k'.
        (envid2env (k'.envs 3).env_id false k' ≡ ok (0, some 3) k')
        × (envid2env 4099 false k' ≡ ok (e_bad_env, none) k'))
      (env_alloc 4096 machine)
envid2env-env_alloc_example =
    envid2env-env_alloc 4096 3 6 (7 ∷ []) refl (omega arith) (omega arith) (omega arith) refl
      (omega arith) machine-IsFreeList

machine-HaveSpace : HaveSpace machine
machine-HaveSpace j h = (3, ground arith)

start_at_one : sched_start machine.curenv machine.envs ≡ 1
unfolding sched_start
start_at_one = refl

second_runnable : runnable_at machine.envs (sched_start machine.curenv machine.envs) 1 ≡ true
second_runnable = rw start_at_one refl

sched_yield-first_example :
    let start = sched_start machine.curenv machine.envs in
    (m : ℕ) × (m ≤ 1)
    × ((i : ℕ) → i < m → runnable_at machine.envs start i ≡ false)
    × (runnable_at machine.envs start m ≡ true)
    × Exits
        (λ why k'.
          let j = (start + m) % nenv in
          (why ≡ iret j)
          × (k'.curenv ≡ some j)
          × ((k'.envs j).env_status ≡ env_running)
          × ((machine.envs j).env_pgdir ≡ some k'.cr3)
          × (k'.lock ≡ none))
        (sched_yield machine)
sched_yield-first_example =
    sched_yield-first machine 1 refl machine-HaveSpace (omega arith) second_runnable

-- The machine when environment 2 cannot run either.
abbrev alone : Kern
alone = record machine { envs = λ i. if i == 2 then env_of 4098 4096 4 false 3 else table i }

alone-HaveSpace : HaveSpace alone
alone-HaveSpace j h = (3, ground arith)

syscalls_isolate_example :
    (sys_env_destroy 4097 machine ≡ ok e_bad_env machine)
    × (sys_env_set_status 4097 2 machine ≡ ok e_bad_env machine)
    × (sys_env_set_pgfault_upcall 4097 0 machine ≡ ok e_bad_env machine)
    × (sys_page_alloc 4097 0x1000 7 machine ≡ ok e_bad_env machine)
    × (sys_page_unmap 4097 0x1000 machine ≡ ok e_bad_env machine)
    × (sys_page_map 4097 0x1000 4096 0x2000 7 machine ≡ ok e_bad_env machine)
    × (sys_page_map 0 0x1000 4097 0x2000 7 machine ≡ ok e_bad_env machine)
syscalls_isolate_example =
    syscalls_isolate machine 4097 0 (omega arith) refl refl 2 0 0x1000 7 0x1000 0x2000 0 4096

sys_ipc_try_send_value_example :
    Ensures
      (λ r k'.
        let v = k'.envs 1 in
        (r ≡ 0)
        × (v.env_ipc_value ≡ 42)
        × (v.env_ipc_from ≡ 4096)
        × (v.env_ipc_perm ≡ 0)
        × (v.env_ipc_recving ≡ false)
        × (v.env_status ≡ env_runnable)
        × (v.env_tf.tf_regs.reg_eax ≡ 0)
        × ((i : ℕ) → i ≢ 1 → k'.envs i ≡ machine.envs i)
        × (k'.mem ≡ machine.mem))
      (sys_ipc_try_send 4097 42 utop 0 machine)
sys_ipc_try_send_value_example =
    sys_ipc_try_send_value machine 4097 42 utop 0 0 (omega arith) refl refl refl (omega arith)

sys_ipc_try_send_refused_example : sys_ipc_try_send 4097 42 0x1001 7 machine ≡ ok e_inval machine
sys_ipc_try_send_refused_example =
    sys_ipc_try_send_refused machine 4097 42 0x1001 7 e_inval (omega arith) refl
