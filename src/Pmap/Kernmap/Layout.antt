-- ===== src/Pmap/Kernmap/Layout.antt =====
-- The address space that `mem_init` of kern/pmap.c sets up.
use arch.Base.{
  ℕ, zero, suc, ◌+◌, ◌-◌, ◌*◌, ◌/◌, ◌^◌, ◌≤◌, ◌<◌, ◌≡◌, refl, ◌∙◌, List, arith, length, ltb, leb,
  ◌&&◌, true, false, ◌⊎◌, inl, inr,
}
use native.Mathlib.Decide.{dec_lt, ℕ_discrete}
use arch.Kern.{Kern, ok}
use arch.Kern.Layout.{kernbase, pdx}
use arch.Pmap.Alloc.FreeList.{IsFreeList}
use arch.Pmap.View.{pte_at, IsOrdinary, IsPgdir}
use arch.Pmap.View.Region.{mapped_to, is_within}
use arch.Pmap.Kernmap.{Places, upages, uenvs, kstksize, map_kernel}
use arch.Pmap.Kernmap.Regions.{laid_out, map_regions-laid_out}
use arch.Pmap.Kernmap.Calls.{
  kstack_regions, kernel_regions, InKernel, kernel_regions-AllFit, map_kernel-regions,
}

-- An address that is not in the stack region of a processor, for instance in the gap below its stack, is in none
-- of them.
abbrev pub IsOffStacks : (v : ℕ) → Type 0
IsOffStacks v =
    (i : ℕ) → i < 8 → is_within (kernbase - kstksize - i * (kstksize + kstksize)) 8 v ≡ false

kstack_regions-off :
    (n kstacks i v old : ℕ)
    → IsOffStacks v
    → i + n ≤ 8
    → laid_out (kstack_regions n kstacks i) v old ≡ old
kstack_regions-off zero kstacks i v old off few = refl
kstack_regions-off (suc n) kstacks i v old off few =
    rw (laid_out, off i (omega arith))
      (kstack_regions-off n kstacks (i + 1) v old off (omega arith))

is_within-outside :
    (va n v : ℕ)
    → (v / 2 ^ 12 < va / 2 ^ 12) ⊎ (va / 2 ^ 12 + n ≤ v / 2 ^ 12)
    → is_within va n v ≡ false
is_within-outside va n v (inl below) = outside (va / 2 ^ 12) (v / 2 ^ 12) below
  where
    outside : (b a : ℕ) → a < b → (leb b a && ltb a (b + n)) ≡ false
    outside b a lt = ground arith
is_within-outside va n v (inr above) = outside (va / 2 ^ 12) (v / 2 ^ 12) above
  where
    outside : (b a : ℕ) → b + n ≤ a → (leb b a && ltb a (b + n)) ≡ false
    outside b a le = ground arith

-- An address from KERNBASE on is mapped to itself less KERNBASE.
pub kernel_regions-direct :
    (p : Places) (v old : ℕ)
    → kernbase ≤ v
    → v < 2 ^ 32
    → laid_out (kernel_regions p) v old ≡ mapped_to kernbase 0 2 v
kernel_regions-direct p v old le lt =
    kstack_regions-off 8 p.percpu_kstacks 0 v _
      (λ i small. is_within-outside _ 8 v (inr (omega arith))) (omega arith)
    ∙ rw inside refl
  where
    inside : is_within kernbase 65536 v ≡ true
    inside = ground arith

-- The gap below the stack of a processor is mapped to nothing new.
pub kernel_regions-gap :
    (p : Places) (v old i : ℕ)
    → i < 8
    → kernbase - (i + 1) * (kstksize + kstksize) ≤ v
    → v < kernbase - (i + 1) * (kstksize + kstksize) + kstksize
    → laid_out (kernel_regions p) v old ≡ old
kernel_regions-gap p v old i small from to =
    kstack_regions-off 8 p.percpu_kstacks 0 v _ off (omega arith)
    ∙ rw
        (
          is_within-outside kernbase 65536 v (inl (omega arith)),
          off 0 (omega arith),
          is_within-outside uenvs 1024 v (inr (omega arith)),
          is_within-outside upages 1024 v (inr (omega arith)),
        )
        refl
  where
    off : IsOffStacks v
    off j less = is_within-outside _ 8 v (side (dec_lt j i))
      where
        side :
            Dec (j < i)
            → (v / 2 ^ 12 < (kernbase - kstksize - j * (kstksize + kstksize)) / 2 ^ 12)
              ⊎ ((kernbase - kstksize - j * (kstksize + kstksize)) / 2 ^ 12 + 8 ≤ v / 2 ^ 12)
        side (yes lt) = inl (omega arith)
        side (no ge) = elim (ℕ_discrete j i) [
          | yes e ↦ inl (omega arith)
          | no ne ↦ inr (omega arith)
        ]

-- With 75 free pages and all objects in the kernel's addresses, the calls return and the regions lie one
-- after the other over what the directory had; so [KERNBASE, 2^32) is the physical memory from 0 on,
-- writable for the kernel, the gap below the stack of each of the eight processors is as it was, and
-- directory and free list stay well-formed.
pub map_kernel_lem :
    {k : Kern} (p : Places) (xs : List ℕ)
    → InKernel p
    → 75 ≤ length xs
    → IsFreeList k xs
    → IsPgdir k k.kern_pgdir xs
    → (k' : Kern) × (ys : List ℕ) × (map_kernel p k ≡ ok tt k')
      × IsFreeList k' ys
      × IsPgdir k' k.kern_pgdir ys
      × ((v : ℕ)
          → IsOrdinary (pdx v)
          → v < 2 ^ 32
          → pte_at k' k.kern_pgdir v ≡ laid_out (kernel_regions p) v (pte_at k k.kern_pgdir v))
      × ((v : ℕ) → kernbase ≤ v → v < 2 ^ 32 → pte_at k' k.kern_pgdir v ≡ mapped_to kernbase 0 2 v)
      × ((v i : ℕ)
          → i < 8
          → kernbase - (i + 1) * (kstksize + kstksize) ≤ v
          → v < kernbase - (i + 1) * (kstksize + kstksize) + kstksize
          → pte_at k' k.kern_pgdir v ≡ pte_at k k.kern_pgdir v)
map_kernel_lem {k} p xs s enough v g =
    let (k', ys, run, v', g', map) =
      map_regions-laid_out (kernel_regions p) {k = k} xs (kernel_regions-AllFit p s) enough v g in
    (
      k',
      ys,
      map_kernel-regions p s k ∙ run,
      v',
      g',
      map,
      λ u le lt. map u (omega arith, omega arith) lt ∙ kernel_regions-direct p u _ le lt,
      λ u i small from to.
          map u (omega arith, omega arith) (omega arith) ∙ kernel_regions-gap p u _ i small from to,
    )
