-- ===== src/Examples/Regions.antt =====
-- Runs of `page_insert`, `boot_map_region` and `region_alloc` at 0x400000, for which the small machine
-- has no table yet.
use arch.Base.{
  ℕ, ◌+◌, ◌^◌, ◌≤◌, ◌<◌, ◌≡◌, refl, true, List, [], ◌∷◌, arith, has, length, Distinct, ◌==◌,
  if◌then◌else◌,
}
use arch.Kern.{Kern, ok}
use arch.Kern.Layout.{pdx, pgnum, has_p}
use arch.Pmap.Alloc.FreeList.{IsFreeList}
use arch.Pmap.Walk.{boot_map_region, page_insert}
use arch.Pmap.Walk.Entry.{pte_of}
use arch.Pmap.View.{pte_at, IsOrdinary, IsPgdir}
use arch.Pmap.View.Region.{mapped_to, is_within, AllOrdinary, boot_map_region-maps}
use arch.Pmap.View.Insert.{page_insert-maps}
use arch.Load.{region_alloc}
use arch.Load.Region.{IsUnmapped, backed_by, region_alloc-backs}
use arch.Examples.{machine, machine-IsFreeList, words}

-- The directory of the small machine has the entry 0 only.
only_zero : (d : ℕ) → has_p (words 3 d) ≡ true → d ≡ 0
only_zero d h = ground (arith, h)

machine-IsPgdir : IsPgdir machine 3 (6 ∷ 7 ∷ [])
machine-IsPgdir = record {
  in_range = λ d o h. let e = only_zero d h in rw e (omega arith);
  other_page = λ d o h. let e = only_zero d h in rw e (omega arith);
  in_use = λ d o h. let e = only_zero d h in rw e refl;
  apart = λ d e o o' ne h h'. absurd (omega (arith, only_zero d h, only_zero e h'));
  kept = refl;
}

one_page : AllOrdinary 0x40_0000 1
one_page i lt = let e : i ≡ 0 = omega arith in rw e (omega arith, omega arith)

unmapped : IsUnmapped machine 3 0x40_0000 1
unmapped i lt = let e : i ≡ 0 = omega arith in rw e refl

page_insert-maps_example :
    (k' : Kern) × (ys : List ℕ) × (page_insert 3 5 0x40_0000 6 machine ≡ ok 0 k')
    × IsFreeList k' ys
    × IsPgdir k' 3 ys
    × (1 ≤ length ys)
    × (k'.npages ≡ 16)
    × (k'.envs ≡ machine.envs)
    × ((i : ℕ) → has i ys ≡ true → has i (6 ∷ 7 ∷ []) ≡ true)
    × ((v : ℕ)
        → IsOrdinary (pdx v)
        → v < 2 ^ 32
        → pte_at k' 3 v ≡ (if pgnum v == 1024 then pte_of 5 6 else pte_at machine 3 v))
page_insert-maps_example =
    page_insert-maps 0x40_0000 5 6 6 (7 ∷ []) machine-IsFreeList machine-IsPgdir
      (omega arith, omega arith) (omega arith) refl (omega arith) refl

boot_map_region-maps_example :
    (k' : Kern) × (ys : List ℕ) × (boot_map_region 3 0x40_0000 100 0x2000 4 machine ≡ ok tt k')
    × IsFreeList k' ys
    × IsPgdir k' 3 ys
    × (2 ≤ length ys + 1)
    × ((v : ℕ)
        → IsOrdinary (pdx v)
        → v < 2 ^ 32
        → pte_at k' 3 v ≡ (
            if is_within 0x40_0000 1 v then mapped_to 0x40_0000 0x2000 4 v else pte_at machine 3 v))
boot_map_region-maps_example =
    boot_map_region-maps 0x40_0000 100 0x2000 4 (6 ∷ 7 ∷ []) refl (omega arith) (omega arith)
      (omega arith) one_page machine-IsFreeList machine-IsPgdir

region_alloc-backs_example :
    (k' : Kern) × (ps : List ℕ) × (ys : List ℕ) × (region_alloc 0 0x40_0010 100 machine ≡ ok tt k')
    × (length ps ≡ 1)
    × Distinct ps
    × ((i : ℕ) → has i ps ≡ true → has i (6 ∷ 7 ∷ []) ≡ true)
    × IsFreeList k' ys
    × IsPgdir k' 3 ys
    × ((v : ℕ)
        → IsOrdinary (pdx v)
        → v < 2 ^ 32
        → pte_at k' 3 v ≡ backed_by ps 0x40_0000 v (pte_at machine 3 v))
region_alloc-backs_example =
    region_alloc-backs 0 0x40_0010 100 (6 ∷ 7 ∷ []) (omega arith) (omega arith) one_page refl
      unmapped machine-IsFreeList machine-IsPgdir
