-- ===== src/Pmap/View.antt =====
-- The two-level page tables of kern/pmap.c as one map from virtual addresses to entries.
pub mod Table
pub mod Walk
pub mod Region
pub mod Insert
use arch.Base.{ℕ, ◌<◌, ◌≡◌, ◌≢◌, Bool, true, false, List, [], ◌∷◌, has, if◌then◌else◌}
use arch.Kern.{Kern}
use arch.Kern.Layout.{pdx, ptx, pgnum, has_p, uvpt}

-- The entry for an address, 0 where the directory has no table for it.
abbrev pub pte_at : Kern → (pgdir va : ℕ) → ℕ
pte_at k pgdir va =
    if has_p (k.mem pgdir (pdx va)) then k.mem (pgnum (k.mem pgdir (pdx va))) (ptx va) else 0

-- The directory entries but the one of UVPT, which leads back to the directory.
abbrev pub IsOrdinary : ℕ → Type 0
IsOrdinary d = (d < 1024) × (d ≢ pdx uvpt)

-- A directory whose tables are different pages in range, none of them the directory or on the free
-- list `xs`; neither is the directory.
pub record IsPgdir (k : Kern) (pgdir : ℕ) (xs : List ℕ) : Type 0 where
  pub in_range :
      (d : ℕ) → IsOrdinary d → has_p (k.mem pgdir d) ≡ true → pgnum (k.mem pgdir d) < k.npages
  pub other_page :
      (d : ℕ) → IsOrdinary d → has_p (k.mem pgdir d) ≡ true → pgnum (k.mem pgdir d) ≢ pgdir
  pub in_use :
      (d : ℕ) → IsOrdinary d → has_p (k.mem pgdir d) ≡ true → has (pgnum (k.mem pgdir d)) xs ≡ false
  pub apart :
      (d e : ℕ)
      → IsOrdinary d
      → IsOrdinary e
      → d ≢ e
      → has_p (k.mem pgdir d) ≡ true
      → has_p (k.mem pgdir e) ≡ true
      → pgnum (k.mem pgdir d) ≢ pgnum (k.mem pgdir e)
  pub kept : has pgdir xs ≡ false
