-- ===== src/Trap/Dispatch.antt =====
-- `trap_dispatch` and `trap` of kern/trap.c, less their printing.
use arch.Base.{ℕ, ◌/◌, ◌%◌, Option, none, some, ◌==◌, if◌then◌else◌}
use arch.Kern.{
  Trapframe, M, panic, halt, monitor, pure, fail, get, modify, when, ◌>>=◌, ◌>>◌, modify_env,
}
use arch.Kern.Layout.{env_dying}
use arch.Env.Switch.{env_run, lock_kernel, cur_running}
use arch.Env.Alloc.{env_free}
use arch.Sched.{sched_yield}
use arch.Sched.Destroy.{env_destroy}
use arch.Syscall.Envs.{cur}
use arch.Syscall.Dispatch.{syscall}
use arch.Trap.Fault.{page_fault_handler}

-- What a trap brings besides its frame: the CPU's EFLAGS and CR2, and the console's next answer.
pub record Cpu : Type 0 where
  pub eflags : ℕ
  pub cr2 : ℕ
  pub cgetc : M ℕ

-- The result of a system call goes into the frame: that of environment `e`, or the one on the
-- kernel's stack (`none`), which nothing reads again.
unfoldable pub set_eax : Option ℕ → ℕ → M (Unit {0})
set_eax none r = pure tt
set_eax (some e) r =
    modify_env e λ v. record v {
      env_tf = record v.env_tf { tf_regs = record v.env_tf.tf_regs { reg_eax = r } };
    }

-- `at` says where the frame lies. T_PGFLT is 14, T_BRKPT 3 and T_SYSCALL 48; interrupt requests
-- begin at 32, of which 7 is spurious and 0 the timer.
unfoldable pub trap_dispatch : Cpu → (at : Option ℕ) → Trapframe → M (Unit {0})
trap_dispatch cpu at tf =
    if tf.tf_trapno == 14
    then page_fault_handler cpu.cr2 tf
    else if tf.tf_trapno == 3
    then fail monitor
    else if tf.tf_trapno == 48
    then (do
      r ←
          syscall cpu.cgetc tf.tf_regs.reg_eax tf.tf_regs.reg_edx tf.tf_regs.reg_ecx
            tf.tf_regs.reg_ebx tf.tf_regs.reg_edi tf.tf_regs.reg_esi
      set_eax at r)
    else if tf.tf_trapno == 39
    then pure tt
    else if tf.tf_trapno == 32
    then sched_yield
    else if tf.tf_cs == 8
    then fail panic
    else (do e ← cur; env_destroy e)

-- The part of `trap` that runs for a trap from user mode, before the dispatch.
unfoldable pub enter_from_user : Trapframe → M (Option ℕ)
enter_from_user tf = do
  c ← get (λ k. k.curenv)
  elim c [
    | none ↦ fail panic
    | some e ↦ do
      lock_kernel
      status ← get (λ k. (k.envs e).env_status)
      when (status == env_dying)
          (do env_free e; modify (λ k. record k { curenv = none }); sched_yield)
      modify_env e (λ v. record v { env_tf = tf })
      pure (some e)
  ]

-- The end of `trap`.
unfoldable pub leave : M (Unit {0})
leave = do
  c ← get (λ k. k.curenv)
  elim c [
    | none ↦ sched_yield
    | some e ↦ do
      running ← get (λ k. cur_running (some e) k.envs)
      if running then env_run e else sched_yield
  ]

-- `cpu_status` 1 is CPU_STARTED and 2 CPU_HALTED.
unfoldable pub trap : Cpu → Trapframe → M (Unit {0})
trap cpu tf = do
  dead ← get (λ k. k.panicstr)
  when dead (fail halt)
  status ← get (λ k. k.cpu_status)
  modify (λ k. record k { cpu_status = 1 })
  when (status == 2) lock_kernel
  when (cpu.eflags / 512 % 2 == 1) (fail panic)
  if tf.tf_cs % 4 == 3
      then (do at ← enter_from_user tf; trap_dispatch cpu at tf)
      else trap_dispatch cpu none tf
  leave
