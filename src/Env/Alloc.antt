-- ===== src/Env/Alloc.antt =====
-- `env_setup_vm`, `env_alloc` and `env_free` of kern/env.c.
use arch.Base.{ℕ, zero, suc, ◌+◌, ◌-◌, ◌%◌, ◌^◌, true, false, ◌||◌, Option, none, some, not, ◌==◌}
use arch.Base.{if◌then◌else◌, is_ptr, bit_or, update}
use arch.Kern.{Env, Trapframe, M, pure, get, modify, when, ◌>>=◌, ◌>>◌}
use arch.Kern.{modify_env, set_word}
use arch.Kern.Layout.{
  u32, nenv, env_free_status, env_runnable, env_type_user, e_no_mem, e_no_free_env, is_neg, page2pa,
  pdx, uvpt, utop, ustacktop, has_p, pte_addr, pgaddr,
}
use arch.Env.Table.{deref}
use arch.Pmap.Alloc.{kaddr, pa2page, page_alloc, page_decref}
use arch.Pmap.Walk.{incref, page_remove}

unfoldable pub env_setup_vm : ℕ → M ℕ
env_setup_vm e = do
  page ← page_alloc true
  elim page [
    | none ↦ pure e_no_mem
    | some p ↦ do
      incref p
      pgdir ← kaddr (page2pa p)
      modify_env e (λ v. record v { env_pgdir = some pgdir })
      kern_pgdir ← get (λ k. k.kern_pgdir)
      modify (λ k. record k { mem = update k.mem pgdir (k.mem kern_pgdir) })
      set_word pgdir (pdx uvpt) (bit_or (page2pa pgdir) 5)
      pure 0
  ]

-- The identifier that `env_alloc` gives to entry `e` after `env_id`.
unfoldable pub next_env_id : ℕ → ℕ → ℕ
next_env_id env_id e =
    let sum = (env_id + 2 ^ 12) % u32 in
    let generation = sum - sum % nenv in
    bit_or (if generation == 0 || is_neg generation then 2 ^ 12 else generation) e

-- `memset` of the registers, then the segment registers, the stack and the interrupt flag.
abbrev pub fresh_tf : Trapframe
fresh_tf = record {
  tf_regs = record {
    reg_edi = 0;
    reg_esi = 0;
    reg_ebp = 0;
    reg_oesp = 0;
    reg_ebx = 0;
    reg_edx = 0;
    reg_ecx = 0;
    reg_eax = 0;
  };
  tf_es = 0x23;
  tf_ds = 0x23;
  tf_trapno = 0;
  tf_err = 0;
  tf_eip = 0;
  tf_cs = 0x1b;
  tf_eflags = 0x200;
  tf_esp = ustacktop;
  tf_ss = 0x23;
}

-- What `env_alloc` writes into entry `e` when its address space is set up.
unfoldable pub fresh_env : ℕ → ℕ → Env → Env
fresh_env e parent_id v = record v {
  env_id = next_env_id v.env_id e;
  env_parent_id = parent_id;
  env_type = env_type_user;
  env_status = env_runnable;
  env_runs = 0;
  env_tf = fresh_tf;
  env_pgfault_upcall = 0;
  env_ipc_recving = false;
}

-- The result, and what `*newenv_store` is set to, if it is.
unfoldable pub env_alloc : (parent_id : ℕ) → M (ℕ × Option ℕ)
env_alloc parent_id = do
  head ← get (λ k. k.env_free_list)
  elim head [
    | none ↦ pure (e_no_free_env, none)
    | some e ↦ do
      r ← env_setup_vm e
      if is_neg r then pure (r, none) else do
        modify_env e (fresh_env e parent_id)
        modify (λ k. record k { env_free_list = (k.envs e).env_link })
        pure (0, some e)
  ]

-- The inner loop of `env_free`: the entries of one page table, with the rounds that are left.
unfoldable pub remove_ptes : ℕ → (pgdir pt pdeno pteno : ℕ) → M (Unit {0})
remove_ptes zero pgdir pt pdeno pteno = pure tt
remove_ptes (suc n) pgdir pt pdeno pteno =
    let rest = remove_ptes n pgdir pt pdeno (pteno + 1) in
    do
      pte ← get (λ k. k.mem pt pteno)
      when (has_p pte) (page_remove pgdir (pgaddr pdeno pteno 0))
      rest

-- One round of the outer loop.
unfoldable pub free_table : (pgdir pdeno : ℕ) → M (Unit {0})
free_table pgdir pdeno = do
  pde ← get (λ k. k.mem pgdir pdeno)
  if not (has_p pde) then pure tt else do
    pt ← kaddr (pte_addr pde)
    remove_ptes 1024 pgdir pt pdeno 0
    set_word pgdir pdeno 0
    pp ← pa2page (pte_addr pde)
    page_decref pp

-- The outer loop, with the rounds that are left.
unfoldable pub free_tables : ℕ → (pgdir pdeno : ℕ) → M (Unit {0})
free_tables zero pgdir pdeno = pure tt
free_tables (suc n) pgdir pdeno =
    let rest = free_tables n pgdir (pdeno + 1) in (free_table pgdir pdeno >> rest)

-- `e->env_pgdir` where it is used as an address
unfoldable pub pgdir_of : ℕ → M ℕ
pgdir_of e = do pgdir ← get (λ k. (k.envs e).env_pgdir); deref pgdir

unfoldable pub env_free : ℕ → M (Unit {0})
env_free e = do
  cur ← get (λ k. k.curenv)
  when (is_ptr e cur) (modify λ k. record k { cr3 = k.kern_pgdir })
  pgdir ← pgdir_of e
  free_tables (pdx utop) pgdir 0
  modify_env e (λ v. record v { env_pgdir = none })
  pp ← pa2page (page2pa pgdir)
  page_decref pp
  modify_env e (λ v. record v { env_status = env_free_status })
  modify λ k. record k {
    envs = update k.envs e (record (k.envs e) { env_link = k.env_free_list });
    env_free_list = some e;
  }
