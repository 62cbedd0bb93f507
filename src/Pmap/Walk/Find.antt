-- ===== src/Pmap/Walk/Find.antt =====
-- What `pgdir_walk` and `page_lookup` of kern/pmap.c find.
use arch.Base.{
  ℕ, ◌+◌, ◌*◌, ◌%◌, ◌^◌, ◌≤◌, ◌<◌, ◌≡◌, ◌≢◌, Bool, true, false, none, some, arith, bit_or, List,
  ◌∷◌,
}
use arch.Base.{==_ne}
use arch.Kern.{Kern, ok, write_word}
use arch.Kern.Layout.{pdx, ptx, pgnum, has_p, page2pa}
use arch.Pmap.Alloc.{kaddr, pa2page}
use arch.Pmap.Alloc.FreeList.{IsFreeList, taken, page_alloc-eq}
use arch.Pmap.Alloc.Refs.{counted}
use arch.Pmap.Walk.{entry_of, incref, pgdir_walk, page_lookup}
use arch.Pmap.Walk.Entry.{pgnum-table, has_p-table}

-- The directory has a table for `va`: page `t`, in range.
pub record HasTable (k : Kern) (pgdir va t : ℕ) : Type 0 where
  pub present : has_p (k.mem pgdir (pdx va)) ≡ true
  pub table : pgnum (k.mem pgdir (pdx va)) ≡ t
  pub in_range : t < k.npages

kaddr-base : (k : Kern) (t : ℕ) → t < k.npages → kaddr (t * 2 ^ 12) k ≡ ok t k
unfolding kaddr
kaddr-base k t lt = ground arith

pa2page-base : (k : Kern) (t : ℕ) → t < k.npages → pa2page (t * 2 ^ 12) k ≡ ok t k
unfolding pa2page
pa2page-base k t lt = ground arith

entry_of-eq :
    {k : Kern} {pgdir va t : ℕ}
    → HasTable k pgdir va t
    → entry_of pgdir va k ≡ ok (some (t, ptx va)) k
unfolding entry_of
entry_of-eq {k} h = simp (h.table, kaddr-base k _ h.in_range)

-- Where the table is there, the walk finds its entry and changes nothing.
pub walk-found :
    {k : Kern} {pgdir va t : ℕ} (create : Bool)
    → HasTable k pgdir va t
    → pgdir_walk pgdir va create k ≡ ok (some (t, ptx va)) k
unfolding pgdir_walk
walk-found create h = simp (h.present, entry_of-eq h)

-- Where it is not, a walk that may not create finds nothing.
pub walk-absent :
    (k : Kern) (pgdir va : ℕ)
    → has_p (k.mem pgdir (pdx va)) ≡ false
    → pgdir_walk pgdir va false k ≡ ok none k
unfolding pgdir_walk
walk-absent k pgdir va h = simp h

-- `page_lookup` finds the page of every entry that is not 0, be it marked present or not.
pub lookup-found :
    {k : Kern} {pgdir va t : ℕ}
    → HasTable k pgdir va t
    → k.mem t (ptx va) ≢ 0
    → pgnum (k.mem t (ptx va)) < k.npages
    → page_lookup pgdir va k ≡ ok (some (pgnum (k.mem t (ptx va)), (t, ptx va))) k
unfolding page_lookup
lookup-found {k} {va} {t} h ne lt =
    simp (walk-found false h, ==_ne (k.mem t (ptx va)) 0 ne, pa2page-base k _ lt)

-- It finds none where the entry is 0, or the table is not there.
pub lookup-zero :
    {k : Kern} {pgdir va t : ℕ}
    → HasTable k pgdir va t
    → k.mem t (ptx va) ≡ 0
    → page_lookup pgdir va k ≡ ok none k
unfolding page_lookup
lookup-zero h zero = simp (walk-found false h, zero)

-- The state after a walk that makes page `x` the table for `va`.
abbrev pub tabled : (pgdir va x : ℕ) → Kern → Kern
tabled pgdir va x k =
    let k1 = taken true x k in
    let k2 = counted x (((k1.pages x).pp_ref + 1) % 2 ^ 16) k1 in
    record k2 { mem = write_word k2.mem pgdir (pdx va) (bit_or (page2pa x) 7) }

pub tabled-HasTable :
    (k : Kern) (pgdir va x : ℕ)
    → x < k.npages
    → k.npages ≤ 2 ^ 20
    → HasTable (tabled pgdir va x k) pgdir va x
tabled-HasTable k pgdir va x lt small = record {
  present = ground (arith, has_p-table x);
  table = ground (arith, pgnum-table x);
  in_range = lt;
}

pub walk-created :
    {k : Kern} (pgdir va x : ℕ) (xs : List ℕ)
    → IsFreeList k (x ∷ xs)
    → has_p (k.mem pgdir (pdx va)) ≡ false
    → pgdir_walk pgdir va true k ≡ ok (some (x, ptx va)) (tabled pgdir va x k)
unfolding pgdir_walk incref
walk-created {k} pgdir va x xs v h =
    simp (h, page_alloc-eq k true x v.linked.0 v.linked.1 v.small)
      (entry_of-eq (tabled-HasTable k pgdir va x v.linked.1 v.small))
