-- ===== src/Lock.antt =====
-- kern/spinlock.c with several CPUs: `spin_lock` and `spin_unlock` one shared access at a time.
pub mod Safety
use arch.Base.{ℕ, ◌≡◌, ◌≢◌, Bool, true, false, Option, none, some, update}

-- `struct spinlock` less its name and the record of callers
pub record Spinlock : Type 0 where
  pub locked : Bool
  pub cpu : Option ℕ

-- Where a CPU stands. It calls `spin_lock` only from outside and `spin_unlock` only from inside.
pub data Pc : Type 0 where
  outside : Pc
  saw_locked : Pc  -- in `holding`, behind the read of `locked`, called by `spin_lock`
  spinning : Pc  -- at the loop on `xchg`
  won : Pc  -- behind the loop, before the store of `cpu`
  inside : Pc
  leaving : Pc  -- in `holding`, behind the read of `locked`, called by `spin_unlock`
  holds : Pc  -- behind that test
  cleared : Pc  -- behind the store of `cpu`, before the last `xchg`
  panicked : Pc

-- One shared access of CPU `i`.
pub data Move (i : ℕ) (lk : Spinlock) : Pc → Spinlock → Pc → Type 0 where
  read_free : lk.locked ≡ false → Move i lk outside lk spinning
  read_locked : lk.locked ≡ true → Move i lk outside lk saw_locked
  not_mine : lk.cpu ≢ some i → Move i lk saw_locked lk spinning
  already_mine : lk.cpu ≡ some i → Move i lk saw_locked lk panicked
  xchg_wins : lk.locked ≡ false → Move i lk spinning (record lk { locked = true }) won
  xchg_spins : lk.locked ≡ true → Move i lk spinning (record lk { locked = true }) spinning
  store_cpu : Move i lk won (record lk { cpu = some i }) inside
  unlock_free : lk.locked ≡ false → Move i lk inside lk panicked
  unlock_locked : lk.locked ≡ true → Move i lk inside lk leaving
  unlock_other : lk.cpu ≢ some i → Move i lk leaving lk panicked
  unlock_mine : lk.cpu ≡ some i → Move i lk leaving lk holds
  clear_cpu : Move i lk holds (record lk { cpu = none }) cleared
  xchg_frees : Move i lk cleared (record lk { locked = false }) outside

-- The lock and the CPUs.
pub record Machine : Type 0 where
  pub lk : Spinlock
  pub pc : ℕ → Pc

pub data Step (s : Machine) : Machine → Type 0 where
  pick :
      (i : ℕ) {lk : Spinlock} {p : Pc}
      → Move i s.lk (s.pc i) lk p
      → Step s (record { lk = lk; pc = update s.pc i p })

-- `__spin_initlock`
abbrev pub initlock : Spinlock
initlock = record { locked = false; cpu = none }

abbrev pub boot : Machine
boot = record { lk = initlock; pc = λ i. outside }

pub data Reach : Machine → Type 0 where
  start : Reach boot
  later : {s t : Machine} → Reach s → Step s t → Reach t
