-- ===== src/Pmap/Walk/Grow.antt =====
-- `page_insert` of kern/pmap.c at an address that has no page table yet.
use arch.Base.{ℕ, ◌+◌, ◌%◌, ◌^◌, ◌<◌, ◌≡◌, refl, ◌≢◌, true, false, some, arith, List, ◌∷◌, ◌∙◌, ap}
use arch.Base.{has}
use arch.Kern.{Kern, ok, Ensures, Ensures-map}
use arch.Kern.Layout.{pdx, ptx, has_p}
use arch.Pmap.Alloc.FreeList.{IsFreeList, IsFreeList-tail}
use arch.Pmap.Walk.{page_lookup, page_insert}
use arch.Pmap.Walk.Entry.{pte_of}
use arch.Pmap.Walk.Find.{walk-found, walk-created, tabled, tabled-HasTable}
use arch.Pmap.Walk.Insert.{page_lookup-page_insert}

pub tabled-IsFreeList :
    {k : Kern} (pgdir va x : ℕ) (xs : List ℕ)
    → IsFreeList k (x ∷ xs)
    → IsFreeList (tabled pgdir va x k) xs
tabled-IsFreeList pgdir va x xs v =
    IsFreeList-tail x xs v refl refl (ground arith) (λ p ne. ground arith)

-- The new table is all zero.
pub tabled-zero : (k : Kern) (pgdir va x i : ℕ) → x ≢ pgdir → (tabled pgdir va x k).mem x i ≡ 0
tabled-zero k pgdir va x i ne = ground arith

-- Making the table first and inserting then is what `page_insert` does.
pub page_insert-tabled :
    {k : Kern} (pgdir pp va perm x : ℕ) (xs : List ℕ)
    → IsFreeList k (x ∷ xs)
    → has_p (k.mem pgdir (pdx va)) ≡ false
    → page_insert pgdir pp va perm k ≡ page_insert pgdir pp va perm (tabled pgdir va x k)
unfolding page_insert
page_insert-tabled {k} pgdir pp va perm x xs v gone = simp (
  walk-created pgdir va x xs v gone,
  walk-found true (tabled-HasTable k pgdir va x v.linked.1 v.small),
)

-- Where the directory has no table for `va` and a page `x` is free, `page_insert` takes `x` off the
-- free list for the new table, and then does what it does at an empty entry of it: `page_lookup`
-- finds the page there.
page_lookup-page_insert_grow :
    {k : Kern} (pgdir pp va perm x : ℕ) (xs : List ℕ)
    → IsFreeList k (x ∷ xs)
    → has_p (k.mem pgdir (pdx va)) ≡ false
    → x ≢ pgdir
    → perm < 2 ^ 12
    → pp < k.npages
    → has pp (x ∷ xs) ≡ false
    → Ensures
        (λ r k'.
          (r ≡ 0)
          × (page_lookup pgdir va k' ≡ ok (some (pp, (x, ptx va))) k')
          × (k'.mem x (ptx va) ≡ pte_of pp perm)
          × ((k'.pages pp).pp_ref ≡ ((k.pages pp).pp_ref + 1) % 2 ^ 16)
          × IsFreeList k' xs)
        (page_insert pgdir pp va perm k)
page_lookup-page_insert_grow {k} pgdir pp va perm x xs v gone apart low lt new =
    rw (page_insert-tabled pgdir pp va perm x xs v gone) (
      Ensures-map _ _ (page_insert pgdir pp va perm (tabled pgdir va x k))
        (page_lookup-page_insert pp perm xs (tabled-HasTable k pgdir va x v.linked.1 v.small)
          (ap has_p (tabled-zero k pgdir va x (ptx va) apart)) apart low lt
          (tabled-IsFreeList pgdir va x xs v) (ground (arith, new)))
        λ r k' (done, found, entry, ref, free).
          (done, found, entry, ref ∙ ap (λ q. (q.pp_ref + 1) % 2 ^ 16) same, free))
  where
    same : (tabled pgdir va x k).pages pp ≡ k.pages pp
    same = ground (arith, new)
