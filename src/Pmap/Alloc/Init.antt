-- ===== src/Pmap/Alloc/Init.antt =====
-- The free list that `page_init` of kern/pmap.c builds.
use arch.Base.{
  ℕ, zero, suc, ◌+◌, ◌-◌, ◌%◌, ◌/◌, ◌^◌, ◌≤◌, ◌<◌, ◌≡◌, ◌≢◌, ◌↔◌, refl, true, false, ◌&&◌, not,
  none, some, List, [], ◌∷◌, arith,
}
use arch.Base.{
  ==_ne, ==_iff, ◌==◌, ltb, if◌then◌else◌, has, update, Distinct, Bool-cases, inl, inr, ◌⊎◌,
}
use arch.Kern.{Kern, ok, Ensures}
use arch.Pmap.Alloc.{page_init, page_init_loop, page_init_round, reserved, boot_alloc, paddr}
use arch.Kern.Layout.{kernbase, pgsize, u32, round_up}
use arch.Pmap.Alloc.FreeList.{IsFreeList, Chain, Chain-frame}

-- The pages below `n` that are not reserved, the highest first.
abbrev pub unreserved : ℕ → ℕ → List ℕ
unreserved e zero = []
unreserved e (suc n) = if reserved e n then unreserved e n else n ∷ unreserved e n

pub has-unreserved : (e n i : ℕ) → has i (unreserved e n) ≡ (ltb i n && not (reserved e i))
has-unreserved e zero i = ground arith
has-unreserved e (suc n) i = elim (Bool-cases (reserved e n)) [
  | inl r ↦ rw r (ground (arith, has-unreserved e n i))
  | inr r ↦ rw r (ground (arith, has-unreserved e n i))
]

-- What holds after the rounds below `n`.
record Built (e n : ℕ) (k k' : Kern) : Type 0 where
  linked : Chain k'.pages k.npages k'.page_free_list (unreserved e n)
  links :
      (i : ℕ)
      → i < n
      → reserved e i ≡ true
      → ((k'.pages i).pp_link ≡ none) × ((k'.pages i).pp_ref ≡ 1)
  above : (i : ℕ) → n ≤ i → k'.pages i ≡ k.pages i
  npages : k'.npages ≡ k.npages
  mem : k'.mem ≡ k.mem

-- The state after a round on a reserved page, and on one that goes in front of the free list.
abbrev held : ℕ → Kern → Kern
held n m = record m { pages = update m.pages n (record { pp_link = none; pp_ref = 1 }) }

abbrev listed : ℕ → Kern → Kern
listed n m = record m {
  pages = update m.pages n (record { pp_link = m.page_free_list; pp_ref = 0 });
  page_free_list = some n;
}

round-eq :
    (e n : ℕ) (m : Kern) → page_init_round e n m ≡ (if reserved e n then held n m else listed n m)
unfolding page_init_round
round-eq e n m = refl

module _ {e n : ℕ} {k m : Kern} (b : Built e n k m) (lt : n < k.npages) where
  below : (i : ℕ) → has i (unreserved e n) ≡ true → i < n
  below i h = ground (arith, has-unreserved e n i)

  Built-held : reserved e n ≡ true → Built e (suc n) k (held n m)
  Built-held r = record {
    linked =
        rw r (Chain-frame (unreserved e n) k.npages _ (λ i h. ground (arith, below i h)) b.linked);
    links = λ i l q. ground (arith, b.links i);
    above = λ i l. ground (arith, b.above i);
    npages = b.npages;
    mem = b.mem;
  }

  same_below : (i : ℕ) → has i (unreserved e n) ≡ true → (listed n m).pages i ≡ m.pages i
  same_below i h = ground (arith, below i h)

  Built-listed : reserved e n ≡ false → Built e (suc n) k (listed n m)
  Built-listed r = record {
    linked = rw r (
      refl,
      lt,
      ground arith,
      rw here (Chain-frame (unreserved e n) k.npages _ same_below b.linked),
    );
    links = λ i l q. step i l q (Bool-cases (i == n));
    above = λ i l. ground (arith, b.above i);
    npages = b.npages;
    mem = b.mem;
  }
    where
      here : ((listed n m).pages n).pp_link ≡ m.page_free_list
      here = ground arith

      step :
          (i : ℕ)
          → i < suc n
          → reserved e i ≡ true
          → ((i == n) ≡ true) ⊎ ((i == n) ≡ false)
          → (((listed n m).pages i).pp_link ≡ none) × (((listed n m).pages i).pp_ref ≡ 1)
      step i l q (inl h) = cc (rw ((==_iff i n).0 h) at q, r)
      step i l q (inr h) = rw h (b.links i (ground arith) q)

  Built-step : Built e (suc n) k (page_init_round e n m)
  Built-step = elim (Bool-cases (reserved e n)) [
    | inl r ↦ rw (round-eq, r) (Built-held r)
    | inr r ↦ rw (round-eq, r) (Built-listed r)
  ]

page_init_loop-Built :
    (e n : ℕ) (k : Kern)
    → k.page_free_list ≡ none
    → n ≤ k.npages
    → Built e n k (page_init_loop e n k)
unfolding page_init_loop
page_init_loop-Built e zero k head h = record {
  linked = head;
  links = λ i lt r. absurd (omega arith);
  above = λ i l. refl;
  npages = refl;
  mem = refl;
}
page_init_loop-Built e (suc n) k head h =
    Built-step (page_init_loop-Built e n k head (omega arith)) h

Distinct-unreserved : (e n : ℕ) → Distinct (unreserved e n)
Distinct-unreserved e zero = tt
Distinct-unreserved e (suc n) = elim (Bool-cases (reserved e n)) [
  | inl r ↦ rw r (Distinct-unreserved e n)
  | inr r ↦ rw r (ground (arith, has-unreserved e n n), Distinct-unreserved e n)
]

-- The state that the `boot_alloc(0)` of `page_init` leaves.
abbrev settled : Kern → Kern
settled k = record k { nextfree = round_up ((k.nextfree + 0) % u32) pgsize }

paddr-ok : (a : ℕ) (k : Kern) → kernbase ≤ a → paddr a k ≡ ok (a - kernbase) k
unfolding paddr
paddr-ok a k high = ground arith

page_init-eq :
    (end : ℕ) (k : Kern)
    → kernbase ≤ k.nextfree
    → page_init end k
      ≡ ok tt (page_init_loop ((k.nextfree - kernbase) / pgsize) k.npages (settled k))
unfolding page_init boot_alloc
page_init-eq end k high = simp (set, paddr-ok k.nextfree (settled k) high)
  where
    set : (k.nextfree == 0) ≡ false
    set = ==_ne k.nextfree 0 (omega arith)

-- A page from number 1 on that is not page 7, and that is below the IO hole at 640 KB or from the end
-- `last` of the boot allocations on
abbrev pub IsFree : (last i : ℕ) → Type 0
IsFree last i = (0 < i) × (i ≢ 7) × ((i < 160) ⊎ (last ≤ i))

reserved-IsFree : (last i : ℕ) → (reserved last i ≡ false) ↔ IsFree last i
unfolding reserved
reserved-IsFree last i = ground arith

reserved_of : (last i : ℕ) → ¬ (IsFree last i) → reserved last i ≡ true
reserved_of last i taken = elim (Bool-cases (reserved last i)) [
  | inl r ↦ r
  | inr r ↦ absurd (taken ((reserved-IsFree last i).0 r))
]

-- Where `boot_alloc` has already handed out memory, above KERNBASE, and no page is listed yet,
-- `page_init` makes a free list of exactly the pages but page 0, the pages from 160, where the IO hole
-- begins, up to the end of the boot allocations, and page 7, for the other processors' entry code;
-- each of those gets the count 1, and no memory changes. Memory has at most 2^20 pages.
pub page_init-IsFreeList :
    (k : Kern) (end : ℕ)
    → k.page_free_list ≡ none
    → k.npages ≤ 2 ^ 20
    → kernbase ≤ k.nextfree
    → let last = (k.nextfree - kernbase) / pgsize in
      Ensures
        (λ _ k'.
          ((xs : List ℕ) × IsFreeList k' xs
            × ((i : ℕ) → i < k.npages → (has i xs ≡ true) ↔ IsFree last i))
          × ((i : ℕ) → i < k.npages → ¬ (IsFree last i) → (k'.pages i).pp_ref ≡ 1)
          × (k'.mem ≡ k.mem))
        (page_init end k)
page_init-IsFreeList k end head small high = rw (page_init-eq end k high) (
  (
    unreserved last k.npages,
    record {
      linked = rw b.npages b.linked;
      once = Distinct-unreserved last k.npages;
      others = λ i lt h. (b.links i (rw (← b.npages) lt) (member i (rw (← b.npages) lt) h)).0;
      small = rw b.npages small;
    },
    λ i lt. (
      λ h. (reserved-IsFree last i).0 (ground (arith, has-unreserved last k.npages i, h)),
      λ h.
          let free = (reserved-IsFree last i).1 h in
          ground (arith, has-unreserved last k.npages i, free, lt),
    ),
  ),
  λ i lt taken. (b.links i lt (reserved_of last i taken)).1,
  b.mem,
)
  where
    last : ℕ
    last = (k.nextfree - kernbase) / pgsize

    b : Built last k.npages (settled k) (page_init_loop last k.npages (settled k))
    b = page_init_loop-Built last k.npages (settled k) head (omega arith)

    member :
        (i : ℕ) → i < k.npages → has i (unreserved last k.npages) ≡ false → reserved last i ≡ true
    member i lt h = ground (arith, has-unreserved last k.npages i)
