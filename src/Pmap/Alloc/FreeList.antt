-- ===== src/Pmap/Alloc/FreeList.antt =====
-- The free list of physical pages: what `page_alloc`, `page_free` and `page_decref` of kern/pmap.c
-- do to it.
use arch.Base.{
  ℕ, ◌^◌, ◌≤◌, ◌<◌, ◌≡◌, refl, ◌≢◌, Bool, true, false, Option, none, some, List, [], ◌∷◌, arith,
}
use arch.Base.{==_iff, ◌==◌, if◌then◌else◌, update, has, Distinct, Bool-cases, inl, inr}
use arch.Kern.{Kern, PageInfo, ok, Ensures}
use arch.Kern.Layout.{page2pa}
use arch.Pmap.Alloc.{kaddr, page_alloc, page_free}

-- From `head` the links lead through the pages `xs`, which are in range and unused.
abbrev pub Chain : (ℕ → PageInfo) → ℕ → Option ℕ → List ℕ → Type 0
Chain pages n head [] = head ≡ none
Chain pages n head (x ∷ xs) =
    (head ≡ some x) × (x < n) × ((pages x).pp_ref ≡ 0) × Chain pages n (pages x).pp_link xs

-- The free list of `k` holds `xs`: each page once, and no other page has a link.
pub record IsFreeList (k : Kern) (xs : List ℕ) : Type 0 where
  pub linked : Chain k.pages k.npages k.page_free_list xs
  pub once : Distinct xs
  pub others : (i : ℕ) → i < k.npages → has i xs ≡ false → (k.pages i).pp_link ≡ none
  pub small : k.npages ≤ 2 ^ 20

-- A chain survives a change of pages that are not on it.
pub Chain-frame :
    (xs : List ℕ) {pages pages' : ℕ → PageInfo} (n : ℕ) (head : Option ℕ)
    → ((i : ℕ) → has i xs ≡ true → pages' i ≡ pages i)
    → Chain pages n head xs
    → Chain pages' n head xs
Chain-frame [] n head same c = c
Chain-frame (x ∷ xs) {pages} {pages'} n head same (e, lt, ref, c) =
    let here : pages' x ≡ pages x = same x (ground arith) in
    (e, lt, rw here ref, rw here (Chain-frame xs n _ (λ i h. same i (ground arith)) c))

-- The page behind the address of a page in range.
pub kaddr-page2pa :
    (k : Kern) (x : ℕ) → x < k.npages → k.npages ≤ 2 ^ 20 → kaddr (page2pa x) k ≡ ok x k
unfolding kaddr
kaddr-page2pa k x lt small = ground arith

-- The list without its head, in a state whose pages differ in the head alone.
pub IsFreeList-tail :
    {k k' : Kern} (x : ℕ) (xs : List ℕ)
    → IsFreeList k (x ∷ xs)
    → k'.npages ≡ k.npages
    → k'.page_free_list ≡ (k.pages x).pp_link
    → (k'.pages x).pp_link ≡ none
    → ((p : ℕ) → p ≢ x → k'.pages p ≡ k.pages p)
    → IsFreeList k' xs
IsFreeList-tail {k} {k'} x xs v n head clear same = record {
  linked = rw (n, head) (Chain-frame xs k.npages _ (λ i h. same i (off i h)) v.linked.3);
  once = v.once.1;
  others = λ i lt h. elim (Bool-cases (i == x)) [
    | inl e ↦ rw ((==_iff i x).0 e) clear
    | inr e ↦ rw (same i (λ q. ground (arith, q, e))) (v.others i (rw (← n) lt) (rw (e, h)))
  ];
  small = rw n v.small;
}
  where
    off : (i : ℕ) → has i xs ≡ true → i ≢ x
    off i h q = cc (q, h, v.once.0)

-- The state that `page_alloc` leaves when it takes page `x`.
abbrev pub taken : Bool → ℕ → Kern → Kern
taken zeroed x k = record k {
  page_free_list = (k.pages x).pp_link;
  pages = update k.pages x (record (k.pages x) { pp_link = none });
  mem = if zeroed then update k.mem x (λ _. 0) else k.mem;
}

pub page_alloc-eq :
    (k : Kern) (zeroed : Bool) (x : ℕ)
    → k.page_free_list ≡ some x
    → x < k.npages
    → k.npages ≤ 2 ^ 20
    → page_alloc zeroed k ≡ ok (some x) (taken zeroed x k)
unfolding page_alloc
page_alloc-eq k true x head lt small = simp (head, kaddr-page2pa _ x lt small)
page_alloc-eq k false x head lt small = simp head

-- A change elsewhere, or of a reference count off the list, leaves the list.
pub IsFreeList-frame :
    {k k' : Kern} (xs : List ℕ)
    → IsFreeList k xs
    → k'.npages ≡ k.npages
    → k'.page_free_list ≡ k.page_free_list
    → ((i : ℕ) → has i xs ≡ true → k'.pages i ≡ k.pages i)
    → ((i : ℕ) → (k'.pages i).pp_link ≡ (k.pages i).pp_link)
    → IsFreeList k' xs
IsFreeList-frame {k} xs v n head same links = record {
  linked = rw (n, head) (Chain-frame xs k.npages _ same v.linked);
  once = v.once;
  others = λ i lt h. rw (links i) (v.others i (rw (← n) lt) h);
  small = rw n v.small;
}

-- With a free page, `page_alloc` hands out the first one: it leaves the list, its link is NULL,
-- it is all zero if that was asked for, and no other page changes.
pub page_alloc-pop :
    {k : Kern} (zeroed : Bool) (x : ℕ) (xs : List ℕ)
    → IsFreeList k (x ∷ xs)
    → Ensures
        (λ r k'.
          (r ≡ some x)
          × IsFreeList k' xs
          × ((k'.pages x).pp_ref ≡ 0)
          × ((j : ℕ) → k'.mem x j ≡ (if zeroed then 0 else k.mem x j))
          × ((p : ℕ) → p ≢ x → (k'.mem p ≡ k.mem p) × (k'.pages p ≡ k.pages p)))
        (page_alloc zeroed k)
page_alloc-pop {k} zeroed x xs v = rw (page_alloc-eq k zeroed x v.linked.0 v.linked.1 v.small) (
  refl,
  IsFreeList-tail x xs v refl refl (ground arith) (λ p ne. ground arith),
  ground arith,
  λ j. ground arith,
  λ p ne. (ground arith, ground arith),
)

-- Without one, it returns NULL and changes nothing.
pub page_alloc-nil : {k : Kern} (zeroed : Bool) → IsFreeList k [] → page_alloc zeroed k ≡ ok none k
unfolding page_alloc
page_alloc-nil zeroed v = rw v.linked

-- The state that `page_free` leaves.
abbrev pub freed : ℕ → Kern → Kern
freed p k = record k {
  pages = update k.pages p (record (k.pages p) { pp_link = k.page_free_list });
  page_free_list = some p;
}

pub page_free-eq :
    (k : Kern) (p : ℕ)
    → (k.pages p).pp_ref ≡ 0
    → (k.pages p).pp_link ≡ none
    → page_free p k ≡ ok tt (freed p k)
unfolding page_free
page_free-eq k p ref link = simp (ref, link)

pub IsFreeList-cons :
    {k : Kern} (p : ℕ) (xs : List ℕ)
    → IsFreeList k xs
    → p < k.npages
    → has p xs ≡ false
    → (k.pages p).pp_ref ≡ 0
    → IsFreeList (freed p k) (p ∷ xs)
IsFreeList-cons {k} p xs v lt new ref = record {
  linked = (refl, lt, ground arith, rw here (Chain-frame xs k.npages _ same v.linked));
  once = (new, v.once);
  others = λ i l h. ground (arith, v.others i);
  small = v.small;
}
  where
    here : ((freed p k).pages p).pp_link ≡ k.page_free_list
    here = ground arith

    same : (i : ℕ) → has i xs ≡ true → (freed p k).pages i ≡ k.pages i
    same i h = ground (arith, ==_iff i p)

-- An unused page that is not on the free list comes back to its front, and `page_alloc` hands it
-- out next.
page_free-push :
    {k : Kern} (p : ℕ) (xs : List ℕ)
    → IsFreeList k xs
    → p < k.npages
    → has p xs ≡ false
    → (k.pages p).pp_ref ≡ 0
    → Ensures (λ _ k'. IsFreeList k' (p ∷ xs) × (k'.mem ≡ k.mem)) (page_free p k)
page_free-push {k} p xs v lt new ref =
    rw (page_free-eq k p ref (v.others p lt new)) (IsFreeList-cons p xs v lt new ref, refl)

-- The test of `page_free` does not see that the only page of the free list, whose link is NULL, is
-- free already: freeing it again succeeds, and then no list of pages is the free list any more.
pub page_free-twice :
    {k : Kern} (p : ℕ)
    → IsFreeList k (p ∷ [])
    → Ensures (λ _ k'. (ys : List ℕ) → ¬ (IsFreeList k' ys)) (page_free p k)
page_free-twice {k} p v =
    rw (page_free-eq k p v.linked.2 v.linked.3) (λ ys w. loops ys w.linked w.once)
  where
    loop : ((freed p k).pages p).pp_link ≡ some p
    loop = ground (arith, v.linked.0)

    again : (zs : List ℕ) → Chain (freed p k).pages k.npages (some p) zs → has p zs ≡ true
    again [] c = absurd (ground arith)
    again (z ∷ zs) c = ground (arith, c.0)

    loops : (ys : List ℕ) → Chain (freed p k).pages k.npages (some p) ys → Distinct ys → ⊥
    loops [] c d = ground arith
    loops (y ∷ ys) (e, lt, ref, c) (new, d) =
        let q : y ≡ p = ground arith in
        let rest : Chain (freed p k).pages k.npages (some p) ys = rw (← loop) (rw q at c) in
        cc (again ys rest, rw q at new)
