-- ===== src/Pmap/Alloc/Refs.antt =====
-- Reference counts of physical pages: `page_decref` of kern/pmap.c on each kind of count.
use arch.Base.{◌∙◌, ◌≢◌, ℕ, ◌+◌, ◌-◌, ◌%◌, ◌^◌, ◌<◌, ◌≡◌, refl, false, List, ◌∷◌, arith}
use arch.Base.{==_ne, Bool-cases, inl, inr, ==_iff, ◌==◌, if◌then◌else◌, has, update}
use arch.Kern.{Kern, ok, Ensures}
use arch.Pmap.Alloc.{page_decref, page_free}
use arch.Pmap.Alloc.FreeList.{IsFreeList, IsFreeList-frame, page_free-eq, IsFreeList-cons, freed}

-- The state with the count of page `p` set to `n`.
abbrev pub counted : ℕ → ℕ → Kern → Kern
counted p n k = record k { pages = update k.pages p (record (k.pages p) { pp_ref = n }) }

pub IsFreeList-counted :
    {k : Kern} (p n : ℕ) (xs : List ℕ)
    → IsFreeList k xs
    → has p xs ≡ false
    → IsFreeList (counted p n k) xs
IsFreeList-counted {k} p n xs v new =
    IsFreeList-frame xs v refl refl (λ i h. ground (arith, ==_iff i p)) (λ i. ground arith)

page_decref-one :
    (k : Kern) (p : ℕ) → (k.pages p).pp_ref ≡ 1 → page_decref p k ≡ page_free p (counted p 0 k)
unfolding page_decref
page_decref-one k p ref = simp ref

page_decref-many :
    (k : Kern) (p : ℕ)
    → 1 < (k.pages p).pp_ref
    → (k.pages p).pp_ref < 2 ^ 16
    → page_decref p k ≡ ok tt (counted p ((k.pages p).pp_ref - 1) k)
unfolding page_decref
page_decref-many k p many fits =
    rw lowered (rw (==_ne ((k.pages p).pp_ref - 1) 0 (omega arith)) refl)
  where
    lowered : ((k.pages p).pp_ref + 2 ^ 16 - 1) % 2 ^ 16 ≡ (k.pages p).pp_ref - 1
    lowered = omega arith

-- The state with one reference to page `p` less: the page is freed if that was the last one.
abbrev pub dropped : ℕ → Kern → Kern
dropped p k =
    if (k.pages p).pp_ref == 1
    then freed p (counted p 0 k)
    else counted p ((k.pages p).pp_ref - 1) k

pub page_decref-eq :
    {k : Kern} (p : ℕ) (xs : List ℕ)
    → IsFreeList k xs
    → p < k.npages
    → has p xs ≡ false
    → 0 < (k.pages p).pp_ref
    → (k.pages p).pp_ref < 2 ^ 16
    → page_decref p k ≡ ok tt (dropped p k)
page_decref-eq {k} p xs v lt new pos fits = elim (Bool-cases ((k.pages p).pp_ref == 1)) [
  | inl last ↦
      let ref : (k.pages p).pp_ref ≡ 1 = (==_iff _ 1).0 last in
      let free : ((counted p 0 k).pages p).pp_ref ≡ 0 = ground arith in
      rw last
        (page_decref-one k p ref ∙ page_free-eq (counted p 0 k) p free (ground (arith, v.others p)))
  | inr more ↦ rw more (page_decref-many k p (ground arith) (ground arith))
]

module _ (k : Kern) (p : ℕ) where
  pub IsFreeList-dropped :
      (xs : List ℕ)
      → IsFreeList k xs
      → p < k.npages
      → has p xs ≡ false
      → IsFreeList (dropped p k) (if (k.pages p).pp_ref == 1 then p ∷ xs else xs)
  IsFreeList-dropped xs v lt new = elim (Bool-cases ((k.pages p).pp_ref == 1)) [
    | inl last ↦
        let free : ((counted p 0 k).pages p).pp_ref ≡ 0 = ground arith in
        rw last (IsFreeList-cons p xs (IsFreeList-counted p 0 xs v new) lt new free)
    | inr more ↦ rw more (IsFreeList-counted p _ xs v new)
  ]

  -- What dropping a reference does not touch, and the counts.
  pub dropped_rest :
      ((dropped p k).mem ≡ k.mem)
      × ((dropped p k).npages ≡ k.npages)
      × ((dropped p k).envs ≡ k.envs)
      × ((dropped p k).curenv ≡ k.curenv)
      × (0 < (k.pages p).pp_ref → ((dropped p k).pages p).pp_ref ≡ (k.pages p).pp_ref - 1)
      × ((i : ℕ) → i ≢ p → ((dropped p k).pages i).pp_ref ≡ (k.pages i).pp_ref)
      × ((dropped p k).cr3 ≡ k.cr3)
  dropped_rest = elim (Bool-cases ((k.pages p).pp_ref == 1)) [
    | inl last ↦ rw last (refl, refl, refl, refl, λ h. ground arith, λ i ne. ground arith, refl)
    | inr more ↦ rw more (refl, refl, refl, refl, λ h. ground arith, λ i ne. ground arith, refl)
  ]

-- On a page in use that is off the free list: the count goes down by one, and the page is put in
-- front of the free list exactly when that was the last reference. No memory changes.
page_decref_lem :
    {k : Kern} (p : ℕ) (xs : List ℕ)
    → IsFreeList k xs
    → p < k.npages
    → has p xs ≡ false
    → 0 < (k.pages p).pp_ref
    → (k.pages p).pp_ref < 2 ^ 16
    → Ensures
        (λ _ k'.
          IsFreeList k' (if (k.pages p).pp_ref == 1 then p ∷ xs else xs)
          × ((k'.pages p).pp_ref ≡ (k.pages p).pp_ref - 1)
          × (k'.mem ≡ k.mem)
          × (k'.npages ≡ k.npages))
        (page_decref p k)
page_decref_lem {k} p xs v lt new pos fits =
    let rest = dropped_rest k p in
    rw (page_decref-eq p xs v lt new pos fits)
      (IsFreeList-dropped k p xs v lt new, rest.4 pos, rest.0, rest.1)

-- A count of 0 wraps round to the largest `uint16_t`: the page is neither freed nor reported.
pub page_decref-zero :
    (k : Kern) (p : ℕ) → (k.pages p).pp_ref ≡ 0 → page_decref p k ≡ ok tt (counted p (2 ^ 16 - 1) k)
unfolding page_decref
page_decref-zero k p ref = simp ref
