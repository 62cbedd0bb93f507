-- ===== src/Examples.antt =====
-- A small machine of sixteen pages for the concrete runs: page 8 is the kernel's directory, page 3
-- the directory of environment 0 (the current one), page 4 its table for the addresses below 4 MB,
-- page 5 a page that it has at 0x1000; the pages 6 and 7 are free. Environment 1 waits for a
-- message, environment 2 can run, and the entry 3 of the table is free.
mod Memory
mod Envs
mod Devices
mod Booting
mod Regions
mod Lines
mod Kernmaps
mod Keys
mod Processors
mod Lock
mod Symbols
mod Forking
mod Formats
use arch.Base.{
  ℕ, ◌+◌, ◌*◌, ◌≢◌, ◌≡◌, ◌<◌, refl, Option, none, some, Bool, true, false, List, [], ◌∷◌, arith,
}
use arch.Base.{◌==◌, if◌then◌else◌, ◌⊎◌, inl, inr, ◌&&◌, ◌||◌, has}
use arch.Kern.{Kern, Env, PageInfo}
use arch.Kern.Layout.{utop}
use arch.Env.Alloc.{fresh_tf}
use arch.Pmap.Alloc.FreeList.{IsFreeList}
use arch.Pmap.Walk.Find.{HasTable}
use arch.Pmap.Mem.Check.{TablesInRange}

abbrev pub links : ℕ → PageInfo
links i = record {
  pp_link = if i == 6 then some 7 else none;
  pp_ref = if i == 6 || i == 7 then 0 else 1;
}

-- The directory entry 0 of page 3 is page 4, whose entry 1 is page 5, with the bits P, W and U.
abbrev pub words : ℕ → ℕ → ℕ
words p i = if p == 3 && i == 0 then 0x4007 else if p == 4 && i == 1 then 0x5007 else 0

abbrev pub env_of : (id parent status : ℕ) (waits : Bool) (pgdir : ℕ) → Env
env_of id parent status waits pgdir = record {
  env_tf = fresh_tf;
  env_link = none;
  env_id = id;
  env_parent_id = parent;
  env_type = 0;
  env_status = status;
  env_runs = 0;
  env_cpunum = 0;
  env_pgdir = some pgdir;
  env_pgfault_upcall = 0;
  env_ipc_recving = waits;
  env_ipc_dstva = utop;
  env_ipc_value = 0;
  env_ipc_from = 0;
  env_ipc_perm = 0;
}

abbrev pub table : ℕ → Env
table i =
    if i == 0
    then env_of 4096 0 3 false 3
    else if i == 1
    then env_of 4097 0 4 true 3
    else if i == 2
    then env_of 4098 4096 2 false 3
    else env_of 4099 0 0 false 3

abbrev pub machine : Kern
machine = record {
  npages = 16;
  pages = links;
  page_free_list = some 6;
  nextfree = 0xf000_9000;
  mem = words;
  kern_pgdir = 8;
  mmio_base = 0xef80_0000;
  user_mem_check_addr = 0;
  envs = table;
  env_free_list = some 3;
  curenv = some 0;
  cpunum = 0;
  cpu_status = 1;
  lock = some 0;
  panicstr = false;
  cr3 = 3;
  flushed = [];
  printed = [];
}

pub machine-IsFreeList : IsFreeList machine (6 ∷ 7 ∷ [])
machine-IsFreeList = record {
  linked = (refl, omega arith, refl, (refl, omega arith, refl, refl));
  once = (refl, (refl, tt));
  others = λ i lt h. ground arith;
  small = omega arith;
}

-- The same machine when page 6 is handed out, so that 7 is the last free page.
abbrev pub one_left : Kern
one_left = record machine {
  page_free_list = some 7;
  pages = λ i. record { pp_link = none; pp_ref = if i == 6 || i == 7 then 0 else 1 };
}

pub one_left-IsFreeList : IsFreeList one_left (7 ∷ [])
one_left-IsFreeList = record {
  linked = (refl, omega arith, refl, refl);
  once = (refl, tt);
  others = λ i lt h. refl;
  small = omega arith;
}

-- The machine before `page_init`, and one with no free page.
abbrev pub bare : Kern
bare = record machine { page_free_list = none; pages = λ i. record { pp_link = none; pp_ref = 0 } }

pub bare-IsFreeList : IsFreeList bare []
bare-IsFreeList = record { linked = refl; once = tt; others = λ i lt h. refl; small = omega arith }

pub machine-table : HasTable machine 3 0x1000 4
machine-table = record { present = refl; table = refl; in_range = omega arith }

pub machine-tables : TablesInRange machine 3
machine-tables d h = ground arith
