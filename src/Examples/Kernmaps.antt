-- ===== src/Examples/Kernmaps.antt =====
-- A run of `map_kernel` on a machine of a hundred pages, of which the pages 20 to 94 are free, and of the
-- page directory for the start.
use arch.Base.{
  ℕ, zero, suc, ◌+◌, ◌-◌, ◌*◌, ◌^◌, ◌≤◌, ◌<◌, ◌≡◌, refl, Bool, true, false, ◌&&◌, none, some, List,
  [], ◌∷◌, arith, has, Distinct, ◌==◌, leb, ltb, if◌then◌else◌, Bool-cases, inl, inr,
}
use arch.Kern.{Kern, PageInfo, ok}
use arch.Kern.Layout.{pgsize, kernbase, pdx}
use arch.Pmap.Alloc.FreeList.{Chain, IsFreeList}
use arch.Pmap.View.{pte_at, IsOrdinary, IsPgdir}
use arch.Pmap.View.Region.{mapped_to}
use arch.Pmap.Startup.{entry_pgdir, entry_pgtable, IsStartup, startup_pte, entry_pgdir-maps}
use arch.Pmap.Kernmap.{Places, kstksize, map_kernel}
use arch.Pmap.Kernmap.Regions.{laid_out}
use arch.Pmap.Kernmap.Calls.{kernel_regions, InKernel}
use arch.Pmap.Kernmap.Layout.{map_kernel_lem}
use arch.Examples.{machine}

abbrev is_free : ℕ → Bool
is_free i = leb 20 i && ltb i 95

abbrev page_of : ℕ → PageInfo
page_of i = record {
  pp_link = if leb 20 i && ltb i 94 then some (i + 1) else none;
  pp_ref = if is_free i then 0 else 1;
}

abbrev roomy : Kern
roomy = record machine { npages = 100; pages = page_of; page_free_list = some 20 }

abbrev run_of : (n a : ℕ) → List ℕ
run_of zero a = []
run_of (suc n) a = a ∷ run_of n (a + 1)

run-Chain : (n a : ℕ) → a + suc n ≡ 95 → 20 ≤ a → Chain page_of 100 (some a) (run_of (suc n) a)
run-Chain zero a sum from = (refl, omega arith, ground arith, ground arith)
run-Chain (suc n) a sum from =
    let link : (page_of a).pp_link ≡ some (a + 1) = ground arith in
    (refl, omega arith, ground arith, rw link (run-Chain n (a + 1) (omega arith) (omega arith)))

run-lower : (n a b : ℕ) → a < b → has a (run_of n b) ≡ false
run-lower zero a b lt = refl
run-lower (suc n) a b lt =
    let rest = run-lower n a (b + 1) (omega arith) in ground (arith, lt, rest)

run-Distinct : (n a : ℕ) → Distinct (run_of n a)
run-Distinct zero a = tt
run-Distinct (suc n) a = (run-lower n a (a + 1) (omega arith), run-Distinct n (a + 1))

run-has : (n a i : ℕ) → a ≤ i → i < a + n → has i (run_of n a) ≡ true
run-has zero a i le lt = absurd (omega arith)
run-has (suc n) a i le lt = elim (Bool-cases (i == a)) [
  | inl e ↦ rw e refl
  | inr ne ↦
      let rest = run-has n (a + 1) i (ground (arith, le, ne)) (omega (arith, lt)) in
      rw (ne, rest) refl
]

roomy-IsFreeList : IsFreeList roomy (run_of 75 20)
roomy-IsFreeList = record {
  linked = run-Chain 74 20 refl (omega arith);
  once = run-Distinct 75 20;
  others = λ i lt h. elim (Bool-cases (leb 20 i && ltb i 94)) [
    | inl e ↦
        let there = run-has 75 20 i (ground (arith, e)) (ground (arith, e)) in
        absurd (cc (there, h))
    | inr e ↦ rw e refl
  ];
  small = omega arith;
}

roomy-IsPgdir : IsPgdir roomy 8 (run_of 75 20)
roomy-IsPgdir = record {
  in_range = λ d o h. absurd (cc h);
  other_page = λ d o h. absurd (cc h);
  in_use = λ d o h. absurd (cc h);
  apart = λ d e o o' ne h. cc h;
  kept = refl;
}

abbrev places : Places
places = record {
  pages = 0xf011_0000;
  envs = 0xf015_1000;
  bootstack = 0xf010_a000;
  percpu_kstacks = 0xf018_0000;
}

places-InKernel : InKernel places
places-InKernel = record {
  pages = (omega arith, omega arith);
  envs = (omega arith, omega arith);
  bootstack = (omega arith, omega arith);
  percpu_kstacks = (omega arith, omega arith);
}

map_kernel_lem_example :
    (k' : Kern) × (ys : List ℕ) × (map_kernel places roomy ≡ ok tt k')
    × IsFreeList k' ys
    × IsPgdir k' 8 ys
    × ((v : ℕ)
        → IsOrdinary (pdx v)
        → v < 2 ^ 32
        → pte_at k' 8 v ≡ laid_out (kernel_regions places) v (pte_at roomy 8 v))
    × ((v : ℕ) → kernbase ≤ v → v < 2 ^ 32 → pte_at k' 8 v ≡ mapped_to kernbase 0 2 v)
    × ((v i : ℕ)
        → i < 8
        → kernbase - (i + 1) * (kstksize + kstksize) ≤ v
        → v < kernbase - (i + 1) * (kstksize + kstksize) + kstksize
        → pte_at k' 8 v ≡ pte_at roomy 8 v)
map_kernel_lem_example =
    map_kernel_lem {k = roomy} places (run_of 75 20) places-InKernel (omega arith) roomy-IsFreeList
      roomy-IsPgdir

-- The directory in page 2 and the table in page 4
abbrev started : Kern
started = record machine {
  mem = λ p i. if p == 2 then entry_pgdir (4 * pgsize + kernbase) i else entry_pgtable i;
}

started-IsStartup : IsStartup started 2 4
started-IsStartup = record {
  in_memory = omega arith;
  directory = λ d lt. refl;
  entries = λ i lt. refl;
}

entry_pgdir-maps_example : pte_at started 2 0xf000_1234 ≡ startup_pte 0xf000_1234
entry_pgdir-maps_example = entry_pgdir-maps started 2 4 0xf000_1234 started-IsStartup (omega arith)
