-- ===== src/Pmap/Kernmap/Calls.antt =====
-- The regions of the calls in `mem_init` and `mem_init_mp` of kern/pmap.c.
use arch.Base.{
  ◌%◌, ◌⊎◌, ◌≢◌, inl, inr, ℕ, zero, suc, ◌+◌, ◌-◌, ◌*◌, ◌^◌, ◌≤◌, ◌<◌, ◌≡◌, refl, List, [], ◌∷◌,
  arith,
}
use arch.Kern.{Kern, ok, pure}
use arch.Kern.Layout.{pgsize, kernbase, uvpt, pdx}
use arch.Pmap.View.Region.{pages_for}
use arch.Pmap.Alloc.{paddr}
use arch.Pmap.Kernmap.{
  Places, upages, uenvs, ptsize, kstksize, map_kstacks, mem_init_mp, map_kernel,
}
use arch.Pmap.Kernmap.Regions.{Region, Fits, AllFit, map_regions}

-- The stack of processor `i`, with a gap as large as a stack below it
abbrev kstack : (kstacks i : ℕ) → Region
kstack kstacks i = record {
  va = kernbase - kstksize - i * (kstksize + kstksize);
  size = kstksize;
  pa = kstacks + i * kstksize - kernbase;
  perm = 2;
}

abbrev pub kstack_regions : (n kstacks i : ℕ) → List Region
kstack_regions zero kstacks i = []
kstack_regions (suc n) kstacks i = kstack kstacks i ∷ kstack_regions n kstacks (i + 1)

-- The regions in the order of the calls
abbrev pub kernel_regions : Places → List Region
kernel_regions p =
    record { va = upages; size = ptsize; pa = p.pages - kernbase; perm = 4 }
    ∷ record { va = uenvs; size = ptsize; pa = p.envs - kernbase; perm = 4 }
    ∷ record { va = kernbase - kstksize; size = kstksize; pa = p.bootstack - kernbase; perm = 2 }
    ∷ record { va = kernbase; size = 0xffff_ffff - kernbase; pa = 0; perm = 2 }
    ∷ kstack_regions 8 p.percpu_kstacks 0

-- The objects lie in the kernel's addresses.
pub record InKernel (p : Places) : Type 0 where
  pub pages : (kernbase ≤ p.pages) × (p.pages + ptsize ≤ 2 ^ 32)
  pub envs : (kernbase ≤ p.envs) × (p.envs + ptsize ≤ 2 ^ 32)
  pub bootstack : (kernbase ≤ p.bootstack) × (p.bootstack + kstksize ≤ 2 ^ 32)
  pub percpu_kstacks : (kernbase ≤ p.percpu_kstacks) × (p.percpu_kstacks + 8 * kstksize ≤ 2 ^ 32)

paddr_lem : (kva : ℕ) → kernbase ≤ kva → paddr kva ≡ pure (kva - kernbase)
unfolding paddr
paddr_lem kva le = λ i k. at k i
  where
    at : (k : Kern) → paddr kva k ≡ ok (kva - kernbase) k
    at k = ground (arith, le)

-- A region whose addresses are all before or all behind those of UVPT
Fits-off_uvpt :
    (r : Region)
    → r.va % pgsize ≡ 0
    → r.va + pages_for r.size * pgsize ≤ 2 ^ 32
    → r.pa + pages_for r.size * pgsize ≤ 2 ^ 32
    → (r.va + pages_for r.size * pgsize ≤ uvpt) ⊎ (uvpt + ptsize ≤ r.va)
    → Fits r
Fits-off_uvpt r base fits fits' side = record {
  aligned = base;
  below = fits;
  in_memory = fits';
  ordinary = λ j small. (omega arith, off side j small);
}
  where
    off :
        (r.va + pages_for r.size * pgsize ≤ uvpt) ⊎ (uvpt + ptsize ≤ r.va)
        → (j : ℕ) → j < pages_for r.size
        → pdx (r.va + j * pgsize) ≢ pdx uvpt
    off (inl before) j small = omega arith
    off (inr behind) j small = omega arith

kstack-Fits :
    (kstacks i : ℕ)
    → kernbase ≤ kstacks
    → kstacks + 8 * kstksize ≤ 2 ^ 32
    → i < 8
    → Fits (kstack kstacks i)
kstack-Fits kstacks i le fits lt =
    Fits-off_uvpt (kstack kstacks i) (omega arith) (omega arith) (omega arith) (inr (omega arith))

kstack_regions-AllFit :
    (n kstacks i : ℕ)
    → kernbase ≤ kstacks
    → kstacks + 8 * kstksize ≤ 2 ^ 32
    → i + n ≤ 8
    → AllFit (kstack_regions n kstacks i)
kstack_regions-AllFit zero kstacks i le fits few = tt
kstack_regions-AllFit (suc n) kstacks i le fits few = (
  kstack-Fits kstacks i le fits (omega arith),
  kstack_regions-AllFit n kstacks (i + 1) le fits (omega arith),
)

pub kernel_regions-AllFit : (p : Places) → InKernel p → AllFit (kernel_regions p)
kernel_regions-AllFit p s =
    let (from, to) = s.pages in
    let (from', to') = s.envs in
    let (from'', to'') = s.bootstack in
    let (low, high) = s.percpu_kstacks in
    (
      Fits-off_uvpt _ refl (omega arith) (omega arith) (inl (omega arith)),
      (
        Fits-off_uvpt _ refl (omega arith) (omega arith) (inl (omega arith)),
        (
          Fits-off_uvpt _ refl (omega arith) (omega arith) (inr (omega arith)),
          (
            Fits-off_uvpt _ refl (omega arith) (omega arith) (inr (omega arith)),
            kstack_regions-AllFit 8 p.percpu_kstacks 0 low high (omega arith),
          ),
        ),
      ),
    )

map_kstacks-regions :
    (n pgdir kstacks i : ℕ)
    → kernbase ≤ kstacks
    → map_kstacks n pgdir kstacks i ≡ map_regions pgdir (kstack_regions n kstacks i)
unfolding map_kstacks
map_kstacks-regions zero pgdir kstacks i le = refl
map_kstacks-regions (suc n) pgdir kstacks i le =
    let rest = map_kstacks-regions n pgdir kstacks (i + 1) le in
    rw (map_kstacks, paddr_lem (kstacks + i * kstksize) (omega arith), rest) refl

pub map_kernel-regions :
    (p : Places)
    → InKernel p
    → (k : Kern) → map_kernel p k ≡ map_regions k.kern_pgdir (kernel_regions p) k
unfolding map_kernel mem_init_mp
map_kernel-regions p s k =
    let stacks = map_kstacks-regions 8 k.kern_pgdir p.percpu_kstacks 0 (s.percpu_kstacks.0) in
    rw
      (
        paddr_lem p.pages s.pages.0,
        paddr_lem p.envs s.envs.0,
        paddr_lem p.bootstack s.bootstack.0,
        stacks,
      )
      refl
