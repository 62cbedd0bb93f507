-- ===== src/Pmap/Kernmap.antt =====
-- The address space of the kernel: the calls of `boot_map_region` in `mem_init` and `mem_init_mp` of
-- kern/pmap.c. Where the linker and `boot_alloc` put the objects is a parameter.
pub mod Regions
pub mod Calls
pub mod Layout
use arch.Base.{ℕ, zero, suc, ◌+◌, ◌-◌, ◌*◌}
use arch.Kern.{M, pure, get, ◌>>=◌, ◌>>◌}
use arch.Kern.Layout.{pgsize, kernbase}
use arch.Pmap.Alloc.{paddr}
use arch.Pmap.Walk.{boot_map_region}

-- The addresses of `pages`, `envs`, `bootstack` and `percpu_kstacks`
pub record Places : Type 0 where
  pub pages : ℕ
  pub envs : ℕ
  pub bootstack : ℕ
  pub percpu_kstacks : ℕ

-- UPAGES and UENVS
abbrev pub upages : ℕ
upages = 0xef00_0000

abbrev pub uenvs : ℕ
uenvs = 0xeec0_0000

-- PTSIZE, and KSTKSIZE, which is KSTKGAP
abbrev pub ptsize : ℕ
ptsize = 0x40_0000

abbrev pub kstksize : ℕ
kstksize = 8 * pgsize

-- The loop of `mem_init_mp` from processor `i` on, with the processors left.
unfoldable pub map_kstacks : ℕ → (pgdir kstacks i : ℕ) → M (Unit {0})
map_kstacks zero pgdir kstacks i = pure tt
map_kstacks (suc n) pgdir kstacks i =
    let rest = map_kstacks n pgdir kstacks (i + 1) in
    do
      pa ← paddr (kstacks + i * kstksize)
      boot_map_region pgdir (kernbase - kstksize - i * (kstksize + kstksize)) kstksize pa 2
      rest

-- NCPU is 8.
unfoldable pub mem_init_mp : (pgdir kstacks : ℕ) → M (Unit {0})
mem_init_mp pgdir kstacks = map_kstacks 8 pgdir kstacks 0

-- `mem_init` from "Now we set up virtual memory" to `mem_init_mp`. Nothing of it changes `kern_pgdir`. 4 is
-- PTE_U, 2 is PTE_W.
unfoldable pub map_kernel : Places → M (Unit {0})
map_kernel p = do
  pgdir ← get (λ k. k.kern_pgdir)
  pages ← paddr p.pages
  boot_map_region pgdir upages ptsize pages 4
  envs ← paddr p.envs
  boot_map_region pgdir uenvs ptsize envs 4
  stack ← paddr p.bootstack
  boot_map_region pgdir (kernbase - kstksize) kstksize stack 2
  boot_map_region pgdir kernbase (0xffff_ffff - kernbase) 0 2
  mem_init_mp pgdir p.percpu_kstacks
