-- ===== src/Pmap/Walk/Store.antt =====
-- The two stores at the end of `page_insert` of kern/pmap.c: the table entry, and the permissions
-- added to the directory entry.
use arch.Base.{ℕ, ◌^◌, ◌≤◌, ◌<◌, ◌≡◌, refl, ◌≢◌, true, some, arith, ◌∙◌, ap, sym, bit_or, ◌==◌}
use arch.Kern.{Kern, ok, write_word}
use arch.Kern.Word.{write_word_self, write_word_ne, write_word_other}
use arch.Kern.Layout.{pdx, ptx, pgnum}
use arch.Pmap.Walk.{page_lookup}
use arch.Pmap.Walk.Entry.{pte_of, pgnum-pte_of, pte_of-ne_zero, pgnum-bit_or, has_p-bit_or_left}
use arch.Pmap.Walk.Find.{HasTable, lookup-found}

-- A table stays where the directory entry and the size of memory stay.
pub HasTable-frame :
    {k k' : Kern} {pgdir va t : ℕ}
    → HasTable k pgdir va t
    → k'.mem pgdir (pdx va) ≡ k.mem pgdir (pdx va)
    → k'.npages ≡ k.npages
    → HasTable k' pgdir va t
HasTable-frame h pde n = record {
  present = rw pde h.present;
  table = rw pde h.table;
  in_range = rw n h.in_range;
}

-- The state behind the stores for the page `pp` in the table `t`.
abbrev pub stored : (pgdir pp va perm t : ℕ) → Kern → Kern
stored pgdir pp va perm t k =
    let mem1 = write_word k.mem t (ptx va) (pte_of pp perm) in
    record k { mem = write_word mem1 pgdir (pdx va) (bit_or (mem1 pgdir (pdx va)) perm) }

pub stored_other :
    (k : Kern) (pgdir pp va perm t q j : ℕ)
    → q ≢ t
    → q ≢ pgdir
    → (stored pgdir pp va perm t k).mem q j ≡ k.mem q j
stored_other k pgdir pp va perm t q j ne ne' =
    write_word_ne (write_word k.mem t (ptx va) (pte_of pp perm)) pgdir (pdx va) _ q j ne'
    ∙ write_word_ne k.mem t (ptx va) _ q j ne

pub stored_dir :
    (k : Kern) (pgdir pp va perm t j : ℕ)
    → t ≢ pgdir
    → j ≢ pdx va
    → (stored pgdir pp va perm t k).mem pgdir j ≡ k.mem pgdir j
stored_dir k pgdir pp va perm t j apart ne =
    write_word_other (write_word k.mem t (ptx va) (pte_of pp perm)) pgdir (pdx va) _ j ne
    ∙ write_word_ne k.mem t (ptx va) _ pgdir j (λ e. apart (sym e))

-- Addresses with different tables have different directory entries.
pub pdx_ne :
    {k : Kern} {pgdir va va' t u : ℕ}
    → HasTable k pgdir va t
    → HasTable k pgdir va' u
    → t ≢ u
    → pdx va ≢ pdx va'
pdx_ne {k} {pgdir} h g ne e = ne (sym h.table ∙ ap (λ i. pgnum (k.mem pgdir i)) e ∙ g.table)

module _ (k : Kern) {pgdir t : ℕ} (va pp perm : ℕ) (apart : t ≢ pgdir) where
  stored_pde : (stored pgdir pp va perm t k).mem pgdir (pdx va) ≡ bit_or (k.mem pgdir (pdx va)) perm
  stored_pde =
      write_word_self (write_word k.mem t (ptx va) (pte_of pp perm)) pgdir (pdx va) _
      ∙ ap (λ w. bit_or w perm)
          (write_word_ne k.mem t (ptx va) _ pgdir (pdx va) (λ e. apart (sym e)))

  pub stored_pte : (stored pgdir pp va perm t k).mem t (ptx va) ≡ pte_of pp perm
  stored_pte =
      write_word_ne (write_word k.mem t (ptx va) (pte_of pp perm)) pgdir (pdx va) _ t (ptx va) apart
      ∙ write_word_self k.mem t (ptx va) (pte_of pp perm)

  pub stored-HasTable :
      HasTable k pgdir va t → perm < 2 ^ 12 → HasTable (stored pgdir pp va perm t k) pgdir va t
  stored-HasTable h low = record {
    present = rw stored_pde (has_p-bit_or_left (k.mem pgdir (pdx va)) perm h.present);
    table = rw stored_pde (pgnum-bit_or (k.mem pgdir (pdx va)) perm low ∙ h.table);
    in_range = h.in_range;
  }

  -- `page_lookup` then finds the page at its entry.
  pub stored-lookup :
      HasTable k pgdir va t
      → perm < 2 ^ 12
      → pp < k.npages
      → k.npages ≤ 2 ^ 20
      → page_lookup pgdir va (stored pgdir pp va perm t k)
        ≡ ok (some (pp, (t, ptx va))) (stored pgdir pp va perm t k)
  stored-lookup h low lt small =
      lookup-found (stored-HasTable h low) nonzero (rw (stored_pte, page) lt)
      ∙ ap (λ w. ok (some (w, (t, ptx va))) (stored pgdir pp va perm t k))
          (ap pgnum stored_pte ∙ page)
    where
      page : pgnum (pte_of pp perm) ≡ pp
      page = pgnum-pte_of pp perm (omega arith) low

      nonzero : (stored pgdir pp va perm t k).mem t (ptx va) ≢ 0
      nonzero z =
          let bad : (pte_of pp perm == 0) ≡ true = rw (← stored_pte, z) refl in
          cc (pte_of-ne_zero pp perm, bad)
