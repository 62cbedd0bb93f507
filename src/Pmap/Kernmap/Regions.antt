-- ===== src/Pmap/Kernmap/Regions.antt =====
-- Regions that `boot_map_region` of kern/pmap.c maps one after the other.
use arch.Base.{
  ℕ, ◌+◌, ◌*◌, ◌%◌, ◌^◌, ◌≤◌, ◌<◌, ◌≡◌, refl, ◌∙◌, ap, List, [], ◌∷◌, arith, length, if◌then◌else◌,
}
use arch.Kern.{Kern, M, ok, pure, ◌>>◌}
use arch.Kern.Layout.{pgsize, pdx}
use arch.Pmap.Alloc.FreeList.{IsFreeList}
use arch.Pmap.Walk.{boot_map_region}
use arch.Pmap.View.{pte_at, IsOrdinary, IsPgdir}
use arch.Pmap.View.Region.{
  mapped_to, is_within, AllOrdinary, pages_for, tables_for, boot_map_region-maps,
}

-- A region of addresses, and the physical memory that it is mapped to
pub record Region : Type 0 where
  pub va : ℕ
  pub size : ℕ
  pub pa : ℕ
  pub perm : ℕ

-- The entry of `v` when the regions are mapped one after the other over the entry `old`.
abbrev pub laid_out : List Region → (v old : ℕ) → ℕ
laid_out [] v old = old
laid_out (r ∷ rs) v old =
    laid_out rs v
      (if is_within r.va (pages_for r.size) v then mapped_to r.va r.pa r.perm v else old)

abbrev pub tables : List Region → ℕ
tables [] = 0
tables (r ∷ rs) = tables_for r.va (pages_for r.size) + tables rs

-- Page-aligned, below 2^32 and outside the table of UVPT
pub record Fits (r : Region) : Type 0 where
  pub aligned : r.va % pgsize ≡ 0
  pub below : r.va + pages_for r.size * pgsize ≤ 2 ^ 32
  pub in_memory : r.pa + pages_for r.size * pgsize ≤ 2 ^ 32
  pub ordinary : AllOrdinary r.va (pages_for r.size)

abbrev pub AllFit : List Region → Type 0
AllFit [] = Unit {0}
AllFit (r ∷ rs) = Fits r × AllFit rs

abbrev pub map_regions : (pgdir : ℕ) → List Region → M (Unit {0})
map_regions pgdir [] = pure tt
map_regions pgdir (r ∷ rs) = (boot_map_region pgdir r.va r.size r.pa r.perm >> map_regions pgdir rs)

pub map_regions-laid_out :
    (rs : List Region) {k : Kern} {pgdir : ℕ} (xs : List ℕ)
    → AllFit rs
    → tables rs ≤ length xs
    → IsFreeList k xs
    → IsPgdir k pgdir xs
    → (k' : Kern) × (ys : List ℕ) × (map_regions pgdir rs k ≡ ok tt k')
      × IsFreeList k' ys
      × IsPgdir k' pgdir ys
      × ((v : ℕ)
          → IsOrdinary (pdx v)
          → v < 2 ^ 32
          → pte_at k' pgdir v ≡ laid_out rs v (pte_at k pgdir v))
map_regions-laid_out [] {k} xs fit enough v g = (k, xs, refl, v, g, λ u o small. refl)
map_regions-laid_out (r ∷ rs) xs (f, fit) enough v g =
    let (k1, ys, run, v1, g1, left, here) =
      boot_map_region-maps r.va r.size r.pa r.perm xs f.aligned f.below f.in_memory (omega arith)
        f.ordinary v g in
    let (k', zs, rest, v', g', more) =
      map_regions-laid_out rs ys fit (omega (arith, left, enough)) v1 g1 in
    (k', zs, rw run rest, v', g', λ u o small. more u o small ∙ ap (laid_out rs u) (here u o small))
