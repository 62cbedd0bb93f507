-- ===== src/Pmap/Walk/Remove.antt =====
-- `page_remove` of kern/pmap.c on a mapped address.
use arch.Base.{ℕ, ◌-◌, ◌^◌, ◌<◌, ◌≡◌, refl, ◌≢◌, false, none, List, ◌∷◌, ap, sym}
use arch.Base.{◌==◌, if◌then◌else◌, has, Bool-cases, inl, inr}
use arch.Kern.{Kern, ok, Ensures, write_word}
use arch.Kern.Word.{write_word_self, write_word_ne}
use arch.Kern.Layout.{pdx, ptx, pgnum}
use arch.Pmap.Alloc.FreeList.{IsFreeList, IsFreeList-frame}
use arch.Pmap.Alloc.Refs.{dropped, page_decref-eq, IsFreeList-dropped, dropped_rest}
use arch.Pmap.Walk.{is_current, tlb_invalidate, page_lookup, page_remove}
use arch.Pmap.Walk.Find.{HasTable, lookup-found, lookup-zero}

tlb_invalidate-eq :
    (pgdir va : ℕ) (k : Kern)
    → tlb_invalidate pgdir va k
      ≡ ok tt (record k { flushed = if is_current pgdir k then va ∷ k.flushed else k.flushed })
unfolding tlb_invalidate
tlb_invalidate-eq pgdir va k = elim (Bool-cases (is_current pgdir k)) [
  | inl e ↦ simp e
  | inr e ↦ simp e
]

cleared-HasTable :
    {k k' : Kern} {pgdir va t : ℕ}
    → HasTable k pgdir va t
    → t ≢ pgdir
    → k'.mem ≡ write_word k.mem t (ptx va) 0
    → k'.npages ≡ k.npages
    → HasTable k' pgdir va t
cleared-HasTable {k} {k'} {pgdir} {va} {t} h apart mem n = record {
  present = rw pde h.present;
  table = rw pde h.table;
  in_range = rw n h.in_range;
}
  where
    pde : k'.mem pgdir (pdx va) ≡ k.mem pgdir (pdx va)
    pde = rw mem (write_word_ne k.mem t (ptx va) 0 pgdir (pdx va) (λ e. apart (sym e)))

lookup-cleared :
    {k k' : Kern} {pgdir va t : ℕ}
    → HasTable k pgdir va t
    → t ≢ pgdir
    → k'.mem ≡ write_word k.mem t (ptx va) 0
    → k'.npages ≡ k.npages
    → page_lookup pgdir va k' ≡ ok none k'
lookup-cleared {k} {k'} {va} {t} h apart mem n =
    lookup-zero (cleared-HasTable h apart mem n) (rw mem (write_word_self k.mem t (ptx va) 0))

-- The state that `page_remove` leaves at an entry of the table `t` for the page `pp`.
abbrev pub removed : (pgdir va t pp : ℕ) → Kern → Kern
removed pgdir va t pp k =
    let k1 = dropped pp k in
    let k2 = record k1 { mem = write_word k1.mem t (ptx va) 0 } in
    record k2 { flushed = if is_current pgdir k2 then va ∷ k2.flushed else k2.flushed }

pub page_remove-eq :
    {k : Kern} {pgdir va t : ℕ} (pp : ℕ) (xs : List ℕ)
    → HasTable k pgdir va t
    → k.mem t (ptx va) ≢ 0
    → pgnum (k.mem t (ptx va)) ≡ pp
    → pp < k.npages
    → IsFreeList k xs
    → has pp xs ≡ false
    → 0 < (k.pages pp).pp_ref
    → (k.pages pp).pp_ref < 2 ^ 16
    → page_remove pgdir va k ≡ ok tt (removed pgdir va t pp k)
unfolding page_remove
page_remove-eq {k} {pgdir} {va} {t} pp xs h ne page lt v new pos fits =
    rw (lookup-found h ne (rw page lt), page, page_decref-eq pp xs v lt new pos fits)
      (tlb_invalidate-eq pgdir va _)

-- Where `va` is mapped to a page in use, `page_remove` takes away one reference, frees the page
-- exactly when that was the last one, and clears the entry and no other word of memory; then
-- `page_lookup` finds nothing at `va`.
pub page_lookup-page_remove :
    {k : Kern} {pgdir va t : ℕ} (pp : ℕ) (xs : List ℕ)
    → HasTable k pgdir va t
    → k.mem t (ptx va) ≢ 0
    → pgnum (k.mem t (ptx va)) ≡ pp
    → t ≢ pgdir
    → pp < k.npages
    → IsFreeList k xs
    → has pp xs ≡ false
    → 0 < (k.pages pp).pp_ref
    → (k.pages pp).pp_ref < 2 ^ 16
    → Ensures
        (λ _ k'.
          IsFreeList k' (if (k.pages pp).pp_ref == 1 then pp ∷ xs else xs)
          × ((k'.pages pp).pp_ref ≡ (k.pages pp).pp_ref - 1)
          × (k'.mem ≡ write_word k.mem t (ptx va) 0)
          × (page_lookup pgdir va k' ≡ ok none k'))
        (page_remove pgdir va k)
page_lookup-page_remove {k} {pgdir} {va} {t} pp xs h ne page apart lt v new pos fits =
    let rest = dropped_rest k pp in
    let now = ap (λ m. write_word m t (ptx va) 0) rest.0 in
    rw (page_remove-eq pp xs h ne page lt v new pos fits) (
      IsFreeList-frame _ (IsFreeList-dropped k pp xs v lt new) refl refl (λ i q. refl) (λ i. refl),
      rest.4 pos,
      now,
      lookup-cleared h apart now rest.1,
    )
