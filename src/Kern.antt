-- ===== src/Kern.antt =====
-- The state of the kernel (kern/pmap.c, kern/env.c, kern/cpu.h) and the monad of its functions.
-- A pointer into an array (`pages`, `envs`) is the index, with `none` for NULL. A page directory is
-- the number of the physical page that holds it, and a page-table entry a page number and a word
-- index. Machine integers are numbers below their range's end; a negative one is its bit pattern.
pub mod Layout
pub mod Word
use arch.Base.{ℕ, suc, ◌+◌, ◌-◌, ◌%◌, ◌^◌, Bool, true, false, ◌&&◌, Option, none, some, List}
use arch.Base.{◌==◌, if◌then◌else◌, update, is_ptr}

-- `struct PageInfo`
pub record PageInfo : Type 0 where
  pub pp_link : Option ℕ
  pub pp_ref : ℕ

-- `struct PushRegs`
pub record PushRegs : Type 0 where
  pub reg_edi : ℕ
  pub reg_esi : ℕ
  pub reg_ebp : ℕ
  pub reg_oesp : ℕ
  pub reg_ebx : ℕ
  pub reg_edx : ℕ
  pub reg_ecx : ℕ
  pub reg_eax : ℕ

-- `struct Trapframe` less its padding
pub record Trapframe : Type 0 where
  pub tf_regs : PushRegs
  pub tf_es : ℕ
  pub tf_ds : ℕ
  pub tf_trapno : ℕ
  pub tf_err : ℕ
  pub tf_eip : ℕ
  pub tf_cs : ℕ
  pub tf_eflags : ℕ
  pub tf_esp : ℕ
  pub tf_ss : ℕ

-- `struct Env`
pub record Env : Type 0 where
  pub env_tf : Trapframe
  pub env_link : Option ℕ
  pub env_id : ℕ
  pub env_parent_id : ℕ
  pub env_type : ℕ
  pub env_status : ℕ
  pub env_runs : ℕ
  pub env_cpunum : ℕ
  pub env_pgdir : Option ℕ
  pub env_pgfault_upcall : ℕ
  pub env_ipc_recving : Bool
  pub env_ipc_dstva : ℕ
  pub env_ipc_value : ℕ
  pub env_ipc_from : ℕ
  pub env_ipc_perm : ℕ

-- The kernel's globals as the CPU sees them that holds the kernel. `mem` is physical memory by page
-- and 32-bit word. `flushed` logs the addresses given to `invlpg` and `printed` the ranges that
-- `sys_cputs` prints. `lock` is the CPU that holds `kernel_lock`; `nextfree` and
-- `mmio_base` are the static variables of `boot_alloc` and `mmio_map_region`.
pub record Kern : Type 0 where
  pub npages : ℕ
  pub pages : ℕ → PageInfo
  pub page_free_list : Option ℕ
  pub nextfree : ℕ
  pub mem : ℕ → ℕ → ℕ
  pub kern_pgdir : ℕ
  pub mmio_base : ℕ
  pub user_mem_check_addr : ℕ
  pub envs : ℕ → Env
  pub env_free_list : Option ℕ
  pub curenv : Option ℕ
  pub cpunum : ℕ
  pub cpu_status : ℕ
  pub lock : Option ℕ
  pub panicstr : Bool
  pub cr3 : ℕ
  pub flushed : List ℕ
  pub printed : List (ℕ × ℕ)

-- Why a kernel function does not come back to its caller: `panic`, a wild pointer, a switch to an
-- environment in user mode, a halted CPU, the monitor loop, a CPU that spins on the lock; or the
-- model's own loop bound.
pub data Exit : Type 0 where
  panic wild : Exit
  iret : ℕ → Exit
  halt monitor spin : Exit
  out_of_fuel : Exit

pub data Run (A : Type 0) : Type 0 where
  ok : A → Kern → Run A
  stop : Exit → Kern → Run A

abbrev pub M : Type 0 → Type 0
M A = Kern → Run A

abbrev pub pure : {A : Type 0} → A → M A
pure = ok

abbrev pub fail : {A : Type 0} → Exit → M A
fail = stop

module _ {A B : Type 0} where
  abbrev pub and_then : Run A → (A → M B) → Run B
  and_then (ok a k) f = f a k
  and_then (stop e k) f = stop e k

  infixl 5 ◌>>=◌ ◌>>◌
  abbrev pub ◌>>=◌ : M A → (A → M B) → M B
  m >>= f = λ k. and_then (m k) f

  abbrev pub ◌>>◌ : M A → M B → M B
  m >> n = m >>= λ _. n

abbrev pub get : {A : Type 0} → (Kern → A) → M A
get f k = ok (f k) k

abbrev pub modify : (Kern → Kern) → M (Unit {0})
modify f k = ok tt (f k)

abbrev pub when : Bool → M (Unit {0}) → M (Unit {0})
when b m = if b then m else pure tt

abbrev pub set_page : ℕ → PageInfo → M (Unit {0})
set_page i pi = modify λ k. record k { pages = update k.pages i pi }

abbrev pub modify_env : ℕ → (Env → Env) → M (Unit {0})
modify_env i f = modify λ k. record k { envs = update k.envs i (f (k.envs i)) }

-- The run comes back, with a result and a state for which `P` holds.
abbrev pub Ensures : {A : Type 0} → (A → Kern → Type 0) → Run A → Type 0
Ensures P (ok a k) = P a k
Ensures P (stop e k) = ⊥

-- The run does not come back, for a reason and in a state for which `P` holds.
abbrev pub Exits : {A : Type 0} → (Exit → Kern → Type 0) → Run A → Type 0
Exits P (ok a k) = ⊥
Exits P (stop e k) = P e k

-- The rule for a bind, and the rule of consequence.
pub Ensures-bind :
    {A B : Type 0} (P : A → Kern → Type 0) (Q : B → Kern → Type 0) (r : Run A) (f : A → M B)
    → Ensures P r
    → ((a : A) (k : Kern) → P a k → Ensures Q (f a k))
    → Ensures Q (and_then r f)
Ensures-bind P Q (ok a k) f h next = next a k h
Ensures-bind P Q (stop e k) f h next = absurd h

pub Ensures-map :
    {A : Type 0} (P Q : A → Kern → Type 0) (r : Run A)
    → Ensures P r
    → ((a : A) (k : Kern) → P a k → Q a k)
    → Ensures Q r
Ensures-map P Q (ok a k) h weaken = weaken a k h
Ensures-map P Q (stop e k) h weaken = absurd h

-- One word of physical memory replaced.
abbrev pub write_word : (ℕ → ℕ → ℕ) → ℕ → ℕ → ℕ → ℕ → ℕ → ℕ
write_word mem p i v q j = if q == p && j == i then v else mem q j

abbrev pub set_word : ℕ → ℕ → ℕ → M (Unit {0})
set_word p i v = modify λ k. record k { mem = write_word k.mem p i v }

-- `memset(page2kva(pp), 0, PGSIZE)` on the words of the page
abbrev pub clear_page : ℕ → M (Unit {0})
clear_page p = modify λ k. record k { mem = update k.mem p (λ _. 0) }
