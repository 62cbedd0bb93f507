-- ===== src/Pmap/View/Walk.antt =====
-- `pgdir_walk` of kern/pmap.c leaves the map of the page tables alone, also where it makes a table.
use arch.Base.{
  ℕ, ◌+◌, ◌≤◌, ◌<◌, ◌≡◌, ◌≢◌, refl, ◌∙◌, ap, sym, true, false, some, List, [], ◌∷◌, arith, has,
  length, Bool-cases, inl, inr,
}
use native.Mathlib.Decide.{ℕ_discrete}
use arch.Kern.{Kern, ok}
use arch.Kern.Layout.{pdx, ptx, pgnum, has_p}
use arch.Pmap.Alloc.FreeList.{IsFreeList}
use arch.Pmap.Walk.{pgdir_walk, page_insert}
use arch.Pmap.Walk.Find.{HasTable, walk-found, walk-created, tabled, tabled-HasTable}
use arch.Pmap.Walk.Grow.{tabled-IsFreeList, tabled-zero, page_insert-tabled}
use arch.Pmap.Walk.Store.{HasTable-frame}
use arch.Pmap.View.{pte_at, IsOrdinary, IsPgdir}
use arch.Pmap.View.Table.{present-HasTable, HasTable-same, pte_at-present, pte_at-absent}

not-has-head : (x p : ℕ) (xs : List ℕ) → has p (x ∷ xs) ≡ false → p ≢ x
not-has-head x p xs h e = ground (arith, h, e)

not-has-tail : (x p : ℕ) (xs : List ℕ) → has p (x ∷ xs) ≡ false → has p xs ≡ false
not-has-tail x p xs h = ground (arith, h)

module _ {k : Kern} {pgdir x : ℕ} (va : ℕ) (xs : List ℕ) (v : IsFreeList k (x ∷ xs))
    (g : IsPgdir k pgdir (x ∷ xs)) (o : IsOrdinary (pdx va))
    (gone : has_p (k.mem pgdir (pdx va)) ≡ false) where
  abbrev grown : Kern
  grown = tabled pgdir va x k

  new_table : x ≢ pgdir
  new_table e = not-has-head x pgdir xs g.kept (sym e)

  entry_made : HasTable grown pgdir va x
  entry_made = tabled-HasTable k pgdir va x v.linked.1 v.small

  same_entry : (d : ℕ) → d ≢ pdx va → grown.mem pgdir d ≡ k.mem pgdir d
  same_entry d ne = let off : pgdir ≢ x = λ e. new_table (sym e) in ground (arith, off, ne)

  same_page : (p j : ℕ) → p ≢ x → p ≢ pgdir → grown.mem p j ≡ k.mem p j
  same_page p j ne ne' = ground (arith, ne, ne')

  -- An entry that was not the new one.
  old_entry : (d : ℕ) → has_p (grown.mem pgdir d) ≡ true → d ≢ pdx va → has_p (k.mem pgdir d) ≡ true
  old_entry d h ne = ap has_p (sym (same_entry d ne)) ∙ h

  grown-IsPgdir : IsPgdir grown pgdir xs
  grown-IsPgdir = record {
    in_range = λ d o' h. elim (ℕ_discrete d (pdx va)) [
      | yes e ↦ rw (e, entry_made.table) v.linked.1
      | no ne ↦ rw (same_entry d ne) (g.in_range d o' (old_entry d h ne))
    ];
    other_page = λ d o' h. elim (ℕ_discrete d (pdx va)) [
      | yes e ↦ rw (e, entry_made.table) new_table
      | no ne ↦ rw (same_entry d ne) (g.other_page d o' (old_entry d h ne))
    ];
    in_use = λ d o' h. elim (ℕ_discrete d (pdx va)) [
      | yes e ↦ rw (e, entry_made.table) v.once.0
      | no ne ↦ rw (same_entry d ne) (not-has-tail x _ xs (g.in_use d o' (old_entry d h ne)))
    ];
    apart = λ d e o1 o2 differ h1 h2. elim (ℕ_discrete d (pdx va)) [
      | yes q ↦
          let ne : e ≢ pdx va = λ z. differ (q ∙ sym z) in
          rw (q, entry_made.table, same_entry e ne)
            (λ z. not-has-head x _ xs (g.in_use e o2 (old_entry e h2 ne)) (sym z))
      | no ne1 ↦ elim (ℕ_discrete e (pdx va)) [
        | yes q ↦
            rw (q, entry_made.table, same_entry d ne1)
              (not-has-head x _ xs (g.in_use d o1 (old_entry d h1 ne1)))
        | no ne2 ↦
            rw (same_entry d ne1, same_entry e ne2)
              (g.apart d e o1 o2 differ (old_entry d h1 ne1) (old_entry e h2 ne2))
      ]
    ];
    kept = not-has-tail x pgdir xs g.kept;
  }

  grown-pte_at : (u : ℕ) → IsOrdinary (pdx u) → pte_at grown pgdir u ≡ pte_at k pgdir u
  grown-pte_at u o' = elim (ℕ_discrete (pdx u) (pdx va)) [
    | yes e ↦
        pte_at-present (HasTable-same {k = grown} u entry_made (sym e))
        ∙ tabled-zero k pgdir va x (ptx u) new_table
        ∙ sym (pte_at-absent k pgdir u (ap (λ d. has_p (k.mem pgdir d)) e ∙ gone))
    | no ne ↦ elim (Bool-cases (has_p (k.mem pgdir (pdx u)))) [
      | inl there ↦
          let t = pgnum (k.mem pgdir (pdx u)) in
          let b = present-HasTable u (x ∷ xs) g o' there in
          let ne' : t ≢ x = not-has-head x t xs (g.in_use (pdx u) o' there) in
          pte_at-present (HasTable-frame {k' = grown} b (same_entry (pdx u) ne) refl)
          ∙ same_page t (ptx u) ne' (g.other_page (pdx u) o' there)
          ∙ sym (pte_at-present b)
      | inr not_there ↦
          pte_at-absent grown pgdir u (ap has_p (same_entry (pdx u) ne) ∙ not_there)
          ∙ sym (pte_at-absent k pgdir u not_there)
    ]
  ]

-- With a free page, a walk that may create finds the entry: there is a table for `va` then, the
-- directory and the free list are well-formed, at most the first free page is used, and the map of
-- the ordinary addresses is what it was.
pub walk-keeps :
    {k : Kern} {pgdir : ℕ} (va x : ℕ) (xs : List ℕ)
    → IsFreeList k (x ∷ xs)
    → IsPgdir k pgdir (x ∷ xs)
    → IsOrdinary (pdx va)
    → (t : ℕ) × (k' : Kern) × (ys : List ℕ) × (pgdir_walk pgdir va true k
        ≡ ok (some (t, ptx va)) k')
      × HasTable k' pgdir va t
      × IsPgdir k' pgdir ys
      × IsFreeList k' ys
      × (length xs ≤ length ys)
      × (k'.npages ≡ k.npages)
      × (k'.envs ≡ k.envs)
      × ((i : ℕ) → has i ys ≡ true → has i (x ∷ xs) ≡ true)
      × ((pp perm : ℕ) → page_insert pgdir pp va perm k ≡ page_insert pgdir pp va perm k')
      × ((u : ℕ) → IsOrdinary (pdx u) → pte_at k' pgdir u ≡ pte_at k pgdir u)
walk-keeps {k} {pgdir} va x xs v g o = elim (Bool-cases (has_p (k.mem pgdir (pdx va)))) [
  | inl there ↦
      let h = present-HasTable va (x ∷ xs) g o there in
      (
        pgnum (k.mem pgdir (pdx va)),
        k,
        x ∷ xs,
        walk-found true h,
        h,
        g,
        v,
        omega arith,
        refl,
        refl,
        λ i h'. h',
        λ pp perm. refl,
        λ u o'. refl,
      )
  | inr gone ↦ (
    x,
    tabled pgdir va x k,
    xs,
    walk-created pgdir va x xs v gone,
    entry_made va xs v g o gone,
    grown-IsPgdir va xs v g o gone,
    tabled-IsFreeList pgdir va x xs v,
    omega arith,
    refl,
    refl,
    λ i h'. ground (arith, h'),
    λ pp perm. page_insert-tabled pgdir pp va perm x xs v gone,
    grown-pte_at va xs v g o gone,
  )
]

-- The same where a free page is there if one is needed: a table that is there costs none.
pub walk-keeps_table :
    {k : Kern} {pgdir : ℕ} (va : ℕ) (xs : List ℕ)
    → (has_p (k.mem pgdir (pdx va)) ≡ false → 0 < length xs)
    → IsFreeList k xs
    → IsPgdir k pgdir xs
    → IsOrdinary (pdx va)
    → (t : ℕ) × (k' : Kern) × (ys : List ℕ) × (pgdir_walk pgdir va true k
        ≡ ok (some (t, ptx va)) k')
      × HasTable k' pgdir va t
      × IsPgdir k' pgdir ys
      × IsFreeList k' ys
      × (length xs ≤ length ys + 1)
      × (has_p (k.mem pgdir (pdx va)) ≡ true → length xs ≤ length ys)
      × ((u : ℕ) → IsOrdinary (pdx u) → pte_at k' pgdir u ≡ pte_at k pgdir u)
walk-keeps_table {k} {pgdir} va [] spare v g o = elim (Bool-cases (has_p (k.mem pgdir (pdx va)))) [
  | inl there ↦
      let h = present-HasTable va [] g o there in
      (
        pgnum (k.mem pgdir (pdx va)),
        k,
        [],
        walk-found true h,
        h,
        g,
        v,
        omega arith,
        λ q. omega arith,
        λ u o'. refl,
      )
  | inr gone ↦ absurd (omega (arith, spare gone))
]
walk-keeps_table {k} {pgdir} va (x ∷ xs) spare v g o =
    elim (Bool-cases (has_p (k.mem pgdir (pdx va)))) [
      | inl there ↦
          let h = present-HasTable va (x ∷ xs) g o there in
          (
            pgnum (k.mem pgdir (pdx va)),
            k,
            x ∷ xs,
            walk-found true h,
            h,
            g,
            v,
            omega arith,
            λ q. omega arith,
            λ u o'. refl,
          )
      | inr gone ↦
          let (t, k', ys, run, h, g', v', left, pages, envs, from, inserts, same) =
            walk-keeps va x xs v g o in
          (t, k', ys, run, h, g', v', omega arith, λ q. cc (gone, q), same)
    ]
