-- ===== src/Pmap/View/Insert.antt =====
-- `page_insert` of kern/pmap.c at an address without a page, in the map of the page tables.
use arch.Base.{
  ℕ, ◌^◌, ◌≤◌, ◌<◌, ◌≡◌, refl, ◌∙◌, ap, sym, true, false, List, ◌∷◌, ◌==◌, bit_or, has, length,
  Bool-cases, inl, inr, if◌then◌else◌,
}
use native.Mathlib.Decide.{ℕ_discrete}
use arch.Kern.{Kern, ok, write_word}
use arch.Kern.Word.{write_word_self, write_word_ne, write_word_other}
use arch.Kern.Layout.{pdx, ptx, pgnum, has_p}
use arch.Pmap.Alloc.FreeList.{IsFreeList, IsFreeList-frame}
use arch.Pmap.Alloc.Refs.{IsFreeList-counted}
use arch.Pmap.Walk.{page_insert}
use arch.Pmap.Walk.Entry.{pte_of, pgnum-bit_or, has_p-bit_or_left}
use arch.Pmap.Walk.Find.{HasTable}
use arch.Pmap.Walk.Insert.{referred, page_insert-eq}
use arch.Pmap.Walk.Store.{stored, HasTable-frame}
use arch.Pmap.View.{pte_at, IsOrdinary, IsPgdir}
use arch.Pmap.View.Table.{
  entered, entered-IsPgdir, entered-pte_at, IsPgdir-frame, not-has-sub, same_dir, pte_at-present,
  pte_at-absent, present-HasTable,
}
use arch.Pmap.View.Walk.{walk-keeps}

-- The state with permissions added to the directory entry `d`.
abbrev flagged : (pgdir d perm : ℕ) → Kern → Kern
flagged pgdir d perm k = record k { mem = write_word k.mem pgdir d (bit_or (k.mem pgdir d) perm) }

module _ {k : Kern} {pgdir : ℕ} (d perm : ℕ) (xs : List ℕ) (g : IsPgdir k pgdir xs)
    (there : has_p (k.mem pgdir d) ≡ true) (low : perm < 2 ^ 12) where
  same_flag : (e : ℕ) → has_p ((flagged pgdir d perm k).mem pgdir e) ≡ has_p (k.mem pgdir e)
  same_flag e = elim (ℕ_discrete e d) [
    | yes q ↦
        ap (λ z. has_p ((flagged pgdir d perm k).mem pgdir z)) q
        ∙ ap has_p (write_word_self k.mem pgdir d _)
        ∙ has_p-bit_or_left (k.mem pgdir d) perm there
        ∙ sym there
        ∙ ap (λ z. has_p (k.mem pgdir z)) (sym q)
    | no ne ↦ ap has_p (write_word_other k.mem pgdir d _ e ne)
  ]

  same_table : (e : ℕ) → pgnum ((flagged pgdir d perm k).mem pgdir e) ≡ pgnum (k.mem pgdir e)
  same_table e = elim (ℕ_discrete e d) [
    | yes q ↦
        ap (λ z. pgnum ((flagged pgdir d perm k).mem pgdir z)) q
        ∙ ap pgnum (write_word_self k.mem pgdir d _)
        ∙ pgnum-bit_or (k.mem pgdir d) perm low
        ∙ ap (λ z. pgnum (k.mem pgdir z)) (sym q)
    | no ne ↦ ap pgnum (write_word_other k.mem pgdir d _ e ne)
  ]

  flagged-IsPgdir : IsPgdir (flagged pgdir d perm k) pgdir xs
  flagged-IsPgdir = record {
    in_range = λ e o h. rw (same_table e) (g.in_range e o (sym (same_flag e) ∙ h));
    other_page = λ e o h. rw (same_table e) (g.other_page e o (sym (same_flag e) ∙ h));
    in_use = λ e o h. rw (same_table e) (g.in_use e o (sym (same_flag e) ∙ h));
    apart = λ e f o o' ne h h'.
        rw (same_table e, same_table f)
          (g.apart e f o o' ne (sym (same_flag e) ∙ h) (sym (same_flag f) ∙ h'));
    kept = g.kept;
  }

  flagged-pte_at :
      (v : ℕ) → IsOrdinary (pdx v) → pte_at (flagged pgdir d perm k) pgdir v ≡ pte_at k pgdir v
  flagged-pte_at v o = elim (Bool-cases (has_p (k.mem pgdir (pdx v)))) [
    | inl h ↦
        let t = pgnum (k.mem pgdir (pdx v)) in
        let b = present-HasTable v xs g o h in
        let b' : HasTable (flagged pgdir d perm k) pgdir v t = record {
          present = same_flag (pdx v) ∙ h;
          table = same_table (pdx v);
          in_range = b.in_range;
        } in
        pte_at-present b'
        ∙ write_word_ne k.mem pgdir d _ t (ptx v) (g.other_page (pdx v) o h)
        ∙ sym (pte_at-present b)
    | inr h ↦
        pte_at-absent (flagged pgdir d perm k) pgdir v (same_flag (pdx v) ∙ h)
        ∙ sym (pte_at-absent k pgdir v h)
  ]

referred-IsPgdir :
    {k : Kern} {pgdir : ℕ} (pp : ℕ) (xs : List ℕ)
    → IsPgdir k pgdir xs
    → IsPgdir (referred pp k) pgdir xs
referred-IsPgdir {k} pp xs g = IsPgdir-frame {k' = referred pp k} xs g (λ d. refl) refl

-- Where the address has no page and a page is free: `page_insert` succeeds, the address is then
-- mapped to the page with the permissions and PTE_P, every other ordinary address keeps its entry,
-- directory and free list stay well-formed, and at most the first free page is used.
pub page_insert-maps :
    {k : Kern} {pgdir : ℕ} (va pp perm x : ℕ) (xs : List ℕ)
    → IsFreeList k (x ∷ xs)
    → IsPgdir k pgdir (x ∷ xs)
    → IsOrdinary (pdx va)
    → va < 2 ^ 32
    → has_p (pte_at k pgdir va) ≡ false
    → perm < 2 ^ 12
    → has pp (x ∷ xs) ≡ false
    → (k' : Kern) × (ys : List ℕ) × (page_insert pgdir pp va perm k ≡ ok 0 k')
      × IsFreeList k' ys
      × IsPgdir k' pgdir ys
      × (length xs ≤ length ys)
      × (k'.npages ≡ k.npages)
      × (k'.envs ≡ k.envs)
      × ((i : ℕ) → has i ys ≡ true → has i (x ∷ xs) ≡ true)
      × ((v : ℕ)
          → IsOrdinary (pdx v)
          → v < 2 ^ 32
          → pte_at k' pgdir v ≡ (if pgnum v == pgnum va then pte_of pp perm else pte_at k pgdir v))
page_insert-maps {k} {pgdir} va pp perm x xs v g o small empty low new =
    let (t, k1, ys, walk, h, g1, v1, left, pages, envs, from, inserts, same) =
      walk-keeps va x xs v g o in
    let k2 = referred pp k1 in
    let h2 : HasTable k2 pgdir va t = HasTable-frame {k' = k2} h refl refl in
    let g2 : IsPgdir k2 pgdir ys = referred-IsPgdir pp ys g1 in
    let w = pte_of pp perm in
    let k3 = entered t va w k2 in
    let k' = stored pgdir pp va perm t k2 in
    let old : has_p (k1.mem t (ptx va)) ≡ false =
      ap has_p (sym (pte_at-present h) ∙ same va o) ∙ empty in
    let off : has pp ys ≡ false = not-has-sub pp (x ∷ xs) ys from new in
    let g3 : IsPgdir k3 pgdir ys = entered-IsPgdir ys w g2 h2 o in
    let there : has_p (k3.mem pgdir (pdx va)) ≡ true =
      ap has_p (same_dir ys w g2 h2 o (pdx va)) ∙ h2.present in
    (
      k',
      ys,
      inserts pp perm ∙ page_insert-eq pp perm h old,
      IsFreeList-frame {k' = k'} ys (IsFreeList-counted pp _ ys v1 off) refl refl (λ i q. refl)
          (λ i. refl),
      flagged-IsPgdir {k = k3} (pdx va) perm ys g3 there low,
      left,
      pages,
      envs,
      from,
      λ u o' lt.
          flagged-pte_at {k = k3} (pdx va) perm ys g3 there low u o'
          ∙ entered-pte_at ys w g2 h2 o u o' lt small
          ∙ ap (λ p. if pgnum u == pgnum va then w else p) (same u o'),
    )
