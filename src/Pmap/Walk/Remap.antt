-- ===== src/Pmap/Walk/Remap.antt =====
-- `page_insert` of kern/pmap.c at an address that is mapped already.
use arch.Base.{
  ℕ, ◌+◌, ◌-◌, ◌%◌, ◌^◌, ◌<◌, ◌≡◌, refl, ◌≢◌, true, false, some, arith, ◌∙◌, ap, sym, subst, List,
  ◌∷◌, ◌==◌, ==_ne, has, if◌then◌else◌,
}
use arch.Kern.{Kern, ok, Ensures}
use arch.Kern.Word.{write_word_ne}
use arch.Kern.Layout.{pdx, ptx, pgnum, has_p}
use arch.Pmap.Alloc.FreeList.{IsFreeList, IsFreeList-frame}
use arch.Pmap.Alloc.Refs.{IsFreeList-counted, dropped, dropped_rest, IsFreeList-dropped}
use arch.Pmap.Walk.{incref, page_lookup, insert_at, page_insert}
use arch.Pmap.Walk.Entry.{pte_of}
use arch.Pmap.Walk.Find.{HasTable, walk-found}
use arch.Pmap.Walk.Insert.{referred}
use arch.Pmap.Walk.Remove.{removed, page_remove-eq}
use arch.Pmap.Walk.Store.{
  stored, stored_other, stored_dir, stored-lookup, stored_pte, HasTable-frame,
}

-- The state that `page_insert` leaves where the entry in the table `t` was for the page `old`.
abbrev pub remapped : (pgdir pp va perm t old : ℕ) → Kern → Kern
remapped pgdir pp va perm t old k =
    stored pgdir pp va perm t (removed pgdir va t old (referred pp k))

pub remapped_other :
    (k : Kern) (pgdir pp va perm t old q j : ℕ)
    → q ≢ t
    → q ≢ pgdir
    → (remapped pgdir pp va perm t old k).mem q j ≡ k.mem q j
remapped_other k pgdir pp va perm t old q j ne ne' =
    let k1 = referred pp k in
    stored_other (removed pgdir va t old k1) pgdir pp va perm t q j ne ne'
    ∙ write_word_ne (dropped old k1).mem t (ptx va) 0 q j ne
    ∙ ap (λ m. m q j) (dropped_rest k1 old).0

pub remapped_dir :
    (k : Kern) (pgdir pp va perm t old j : ℕ)
    → t ≢ pgdir
    → j ≢ pdx va
    → (remapped pgdir pp va perm t old k).mem pgdir j ≡ k.mem pgdir j
remapped_dir k pgdir pp va perm t old j apart ne =
    let k1 = referred pp k in
    stored_dir (removed pgdir va t old k1) pgdir pp va perm t j apart ne
    ∙ write_word_ne (dropped old k1).mem t (ptx va) 0 pgdir j (λ e. apart (sym e))
    ∙ ap (λ m. m pgdir j) (dropped_rest k1 old).0

pub nonzero-present : (w : ℕ) → has_p w ≡ true → w ≢ 0
nonzero-present w h = ground arith

module _ {k : Kern} {pgdir va t : ℕ} (pp perm old : ℕ) (xs : List ℕ) (h : HasTable k pgdir va t)
    (present : has_p (k.mem t (ptx va)) ≡ true) (page : pgnum (k.mem t (ptx va)) ≡ old)
    (v : IsFreeList k xs) (new : has pp xs ≡ false) (lt : old < k.npages)
    (used : has old xs ≡ false) (pos : 0 < ((referred pp k).pages old).pp_ref)
    (fits : ((referred pp k).pages old).pp_ref < 2 ^ 16) where
  listed : IsFreeList (referred pp k) xs
  listed = IsFreeList-counted pp _ xs v new

  pub page_insert-remap-eq :
      page_insert pgdir pp va perm k ≡ ok 0 (remapped pgdir pp va perm t old k)
  unfolding page_insert insert_at incref
  page_insert-remap-eq = simp (
    walk-found true h,
    present,
    page_remove-eq {k = referred pp k} old xs (HasTable-frame {k' = referred pp k} h refl refl)
        (nonzero-present _ present) page lt listed used pos fits,
  )

pub removed-HasTable :
    {k : Kern} {pgdir va t : ℕ} (old : ℕ)
    → HasTable k pgdir va t
    → t ≢ pgdir
    → HasTable (removed pgdir va t old k) pgdir va t
removed-HasTable {k} {pgdir} {va} {t} old h apart =
    let rest = dropped_rest k old in
    HasTable-frame h
      (write_word_ne (dropped old k).mem t (ptx va) 0 pgdir (pdx va) (λ e. apart (sym e))
        ∙ ap (λ m. m pgdir (pdx va)) rest.0)
      rest.1

IsFreeList-remapped :
    (k : Kern) (pgdir va t pp perm old : ℕ) (xs : List ℕ)
    → IsFreeList k xs
    → old < k.npages
    → has old xs ≡ false
    → IsFreeList
        (stored pgdir pp va perm t (removed pgdir va t old k))
        (if (k.pages old).pp_ref == 1 then old ∷ xs else xs)
IsFreeList-remapped k pgdir va t pp perm old xs v lt used =
    IsFreeList-frame _ (IsFreeList-dropped k old xs v lt used) refl refl (λ i q. refl) (λ i. refl)

-- Mapping another page where the page `old` is mapped: `page_insert` succeeds, the new page has one
-- reference more, the old one has one less and is freed exactly when that was its last, and
-- `page_lookup` finds the new page at that entry. The table for the address is there, in another
-- page than the directory; the flags fit in twelve bits; both pages are off the free list, which is
-- well-formed; and the old one has a reference, and no more than a `uint16_t` can count.
pub page_insert-replace :
    {k : Kern} {pgdir va t : ℕ} (pp perm old : ℕ) (xs : List ℕ)
    → HasTable k pgdir va t
    → has_p (k.mem t (ptx va)) ≡ true
    → pgnum (k.mem t (ptx va)) ≡ old
    → old ≢ pp
    → t ≢ pgdir
    → perm < 2 ^ 12
    → pp < k.npages
    → old < k.npages
    → IsFreeList k xs
    → has pp xs ≡ false
    → has old xs ≡ false
    → 0 < (k.pages old).pp_ref
    → (k.pages old).pp_ref < 2 ^ 16
    → Ensures
        (λ r k'.
          (r ≡ 0)
          × (page_lookup pgdir va k' ≡ ok (some (pp, (t, ptx va))) k')
          × (k'.mem t (ptx va) ≡ pte_of pp perm)
          × ((k'.pages pp).pp_ref ≡ ((k.pages pp).pp_ref + 1) % 2 ^ 16)
          × ((k'.pages old).pp_ref ≡ (k.pages old).pp_ref - 1)
          × IsFreeList k' (if (k.pages old).pp_ref == 1 then old ∷ xs else xs))
        (page_insert pgdir pp va perm k)
page_insert-replace {k} {pgdir} {va} {t} pp perm old xs h present page ne apart low lt lt_old v new
      used pos fits =
    let k1 = referred pp k in
    let count : (k1.pages old).pp_ref ≡ (k.pages old).pp_ref = rw (==_ne old pp ne) refl in
    let rest = dropped_rest k1 old in
    let v1 : IsFreeList k1 xs = IsFreeList-counted pp _ xs v new in
    let k2 = removed pgdir va t old k1 in
    let h2 = removed-HasTable {k = k1} old (HasTable-frame {k' = k1} h refl refl) apart in
    rw
      (page_insert-remap-eq pp perm old xs h present page v new lt_old used (rw count pos)
        (rw count fits))
      (
        refl,
        stored-lookup k2 va pp perm apart h2 low (rw rest.1 lt) (rw rest.1 v.small),
        stored_pte k2 va pp perm apart,
        rest.5 pp (λ e. ne (sym e)) ∙ ground arith,
        rest.4 (rw count pos) ∙ ap (λ n. n - 1) count,
        subst
            (λ n. IsFreeList (remapped pgdir pp va perm t old k) (if n == 1 then old ∷ xs else xs))
            count (IsFreeList-remapped k1 pgdir va t pp perm old xs v1 lt_old used),
      )

-- Mapping the page that is mapped there already, as `duppage` does to change the permissions:
-- `page_insert` succeeds, the page keeps its number of references, nothing is freed, and
-- `page_lookup` finds the page, its entry now made of the new permissions. The table is there, in
-- another page than the directory; the flags fit in twelve bits; the page is off the free list, which
-- is well-formed; and it has a reference and room in a `uint16_t` for one more.
pub page_insert-again :
    {k : Kern} {pgdir va t : ℕ} (pp perm : ℕ) (xs : List ℕ)
    → HasTable k pgdir va t
    → has_p (k.mem t (ptx va)) ≡ true
    → pgnum (k.mem t (ptx va)) ≡ pp
    → t ≢ pgdir
    → perm < 2 ^ 12
    → pp < k.npages
    → IsFreeList k xs
    → has pp xs ≡ false
    → 0 < (k.pages pp).pp_ref
    → (k.pages pp).pp_ref + 1 < 2 ^ 16
    → Ensures
        (λ r k'.
          (r ≡ 0)
          × (page_lookup pgdir va k' ≡ ok (some (pp, (t, ptx va))) k')
          × (k'.mem t (ptx va) ≡ pte_of pp perm)
          × ((k'.pages pp).pp_ref ≡ (k.pages pp).pp_ref)
          × IsFreeList k' xs)
        (page_insert pgdir pp va perm k)
page_insert-again {k} {pgdir} {va} {t} pp perm xs h present page apart low lt v new pos fits =
    let k1 = referred pp k in
    let count : (k1.pages pp).pp_ref ≡ (k.pages pp).pp_ref + 1 = ground arith in
    let more : ((k1.pages pp).pp_ref == 1) ≡ false = ==_ne _ 1 (omega arith) in
    let rest = dropped_rest k1 pp in
    let v1 : IsFreeList k1 xs = IsFreeList-counted pp _ xs v new in
    let k2 = removed pgdir va t pp k1 in
    let h2 = removed-HasTable {k = k1} pp (HasTable-frame {k' = k1} h refl refl) apart in
    rw (page_insert-remap-eq pp perm pp xs h present page v new lt new (omega arith) (omega arith))
      (
        refl,
        stored-lookup k2 va pp perm apart h2 low (rw rest.1 lt) (rw rest.1 v.small),
        stored_pte k2 va pp perm apart,
        rest.4 (omega arith) ∙ omega arith,
        subst (λ b. IsFreeList (remapped pgdir pp va perm t pp k) (if b then pp ∷ xs else xs)) more
            (IsFreeList-remapped k1 pgdir va t pp perm pp xs v1 lt new),
      )
