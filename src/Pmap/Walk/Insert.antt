-- ===== src/Pmap/Walk/Insert.antt =====
-- `page_insert` and `page_remove` of kern/pmap.c on an address whose table is there, and what
-- `page_lookup` finds behind them.
use arch.Base.{ℕ, ◌+◌, ◌%◌, ◌^◌, ◌<◌, ◌≡◌, refl, ◌≢◌, true, false, some, arith, List}
use arch.Base.{has}
use arch.Kern.{Kern, ok, Ensures}
use arch.Kern.Layout.{ptx, has_p}
use arch.Pmap.Alloc.FreeList.{IsFreeList, IsFreeList-frame}
use arch.Pmap.Alloc.Refs.{counted, IsFreeList-counted}
use arch.Pmap.Walk.{incref, page_lookup, insert_at, page_insert}
use arch.Pmap.Walk.Entry.{pte_of}
use arch.Pmap.Walk.Store.{stored, stored-lookup, stored_pte, HasTable-frame}
use arch.Pmap.Walk.Find.{HasTable, walk-found}

-- One more reference to the page `pp`.
abbrev pub referred : ℕ → Kern → Kern
referred pp k = counted pp (((k.pages pp).pp_ref + 1) % 2 ^ 16) k

pub page_insert-eq :
    {k : Kern} {pgdir va t : ℕ} (pp perm : ℕ)
    → HasTable k pgdir va t
    → has_p (k.mem t (ptx va)) ≡ false
    → page_insert pgdir pp va perm k ≡ ok 0 (stored pgdir pp va perm t (referred pp k))
unfolding page_insert insert_at incref
page_insert-eq pp perm h old = simp (walk-found true h, old)

-- The round trip: where the table for `va` is there and its entry is not in use, `page_insert`
-- succeeds, counts one more reference to the page and leaves the free list, and `page_lookup`
-- then finds that page at that entry.
pub page_lookup-page_insert :
    {k : Kern} {pgdir va t : ℕ} (pp perm : ℕ) (xs : List ℕ)
    → HasTable k pgdir va t
    → has_p (k.mem t (ptx va)) ≡ false
    → t ≢ pgdir
    → perm < 2 ^ 12
    → pp < k.npages
    → IsFreeList k xs
    → has pp xs ≡ false
    → Ensures
        (λ r k'.
          (r ≡ 0)
          × (page_lookup pgdir va k' ≡ ok (some (pp, (t, ptx va))) k')
          × (k'.mem t (ptx va) ≡ pte_of pp perm)
          × ((k'.pages pp).pp_ref ≡ ((k.pages pp).pp_ref + 1) % 2 ^ 16)
          × IsFreeList k' xs)
        (page_insert pgdir pp va perm k)
page_lookup-page_insert {k} {pgdir} {va} {t} pp perm xs h old apart low lt v new =
    rw (page_insert-eq pp perm h old) (
      refl,
      stored-lookup (referred pp k) va pp perm apart
          (HasTable-frame {k' = referred pp k} h refl refl) low lt v.small,
      stored_pte (referred pp k) va pp perm apart,
      ground arith,
      IsFreeList-frame xs (IsFreeList-counted pp _ xs v new) refl refl (λ i q. refl) (λ i. refl),
    )
