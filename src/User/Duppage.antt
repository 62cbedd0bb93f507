-- ===== src/User/Duppage.antt =====
-- `duppage` of lib/fork.c: a page that parent and child share from then on.
use arch.Base.{
  ℕ, ◌+◌, ◌*◌, ◌%◌, ◌^◌, ◌<◌, ◌≡◌, ◌≢◌, refl, ◌∙◌, sym, true, false, ◌||◌, some, List, ◌∷◌, has,
  arith, ap, subst, inl, inr,
}
use arch.Kern.{Kern, M, ok, Ensures}
use arch.Kern.Layout.{pdx, ptx, pgnum, pgsize, has_p, has_w, utop}
use arch.Pmap.Alloc.FreeList.{IsFreeList, IsFreeList-frame}
use arch.Pmap.Alloc.Refs.{IsFreeList-counted, dropped_rest}
use arch.Pmap.Walk.{page_lookup}
use arch.Pmap.Walk.Entry.{pte_of, pgnum-pte_of}
use arch.Pmap.Walk.Find.{HasTable, tabled, tabled-HasTable}
use arch.Pmap.Walk.Grow.{tabled-IsFreeList, tabled-zero, page_insert-tabled}
use arch.Pmap.Walk.Insert.{referred, page_insert-eq}
use arch.Pmap.Walk.Remap.{remapped, remapped_other, page_insert-remap-eq, page_insert-again}
use arch.Pmap.Walk.Store.{stored_other, stored_pte, stored-HasTable, HasTable-frame}
use arch.Syscall.Mapping.{Names, Names-frame}
use arch.Syscall.Pages.{bad_va, sys_page_map}
use arch.User.Fork.{has_cow, duppage}
use arch.Pmap.Walk.Store.{stored-HasTable}
use arch.Pmap.Alloc.Refs.{dropped_rest}
use arch.User.Room.{HasRoom, tabled_other}
use arch.User.Calls.{
  has_p-pte_of, has_w-pte_of, has_cow-pte_of, uvpt_entry-eq, user_getenvid-eq, map_or_panic-eq,
  given, lookup-page, map_child-eq, map_parent-eq,
}

-- The state behind both mappings.
abbrev shared : (dp dc va tp tc pp : ℕ) → Kern → Kern
shared dp dc va tp tc pp k = remapped dp pp va 0x805 tp pp (given dc va tc pp k)

duppage-eq :
    (cgetc : M ℕ) {k k1 k2 : Kern} {c : ℕ} (envid : ℕ) {va t : ℕ}
    → k.curenv ≡ some c
    → HasTable k k.cr3 va t
    → va < utop
    → va % pgsize ≡ 0
    → (has_w (k.mem t (ptx va)) || has_cow (k.mem t (ptx va))) ≡ true
    → sys_page_map (k.envs c).env_id va envid va 0x805 k ≡ ok 0 k1
    → sys_page_map (k.envs c).env_id va (k.envs c).env_id va 0x805 k1 ≡ ok 0 k2
    → duppage cgetc envid (pgnum va) k ≡ ok 0 k2
unfolding duppage
duppage-eq cgetc {k} {k1} {c} envid {va} now h low aligned share first second =
    rw
      (
        address,
        user_getenvid-eq cgetc {k = k} now,
        uvpt_entry-eq h (omega arith),
        share,
        map_or_panic-eq cgetc k _ va envid va 0x805 first,
      )
      (map_or_panic-eq cgetc k1 _ va _ va 0x805 second)
  where
    address : pgnum va * pgsize % 2 ^ 32 ≡ va
    address = omega arith

-- What holds in `k'` of the page `pp` that parent and child share at `va`, with the tables `tp` and
-- `tc`, once it is mapped in both; `count` is its number of references before.
abbrev BothShare : (dp dc va tp tc pp count : ℕ) → List ℕ → Kern → Type 0
BothShare dp dc va tp tc pp count ys k' =
    (page_lookup dp va k' ≡ ok (some (pp, (tp, ptx va))) k')
    × (page_lookup dc va k' ≡ ok (some (pp, (tc, ptx va))) k')
    × (k'.mem tc (ptx va) ≡ k'.mem tp (ptx va))
    × (has_cow (k'.mem tp (ptx va)) ≡ true)
    × (has_w (k'.mem tp (ptx va)) ≡ false)
    × ((k'.pages pp).pp_ref ≡ count + 1)
    × IsFreeList k' ys

-- The page is mapped in the child, whose table is there by then: mapping it again in the parent.
both_share :
    {k : Kern} {c id dp dc va tp tc pp : ℕ} (ys : List ℕ)
    → k.curenv ≡ some c
    → Names k c id dp
    → HasTable k dp va tp
    → HasTable k dc va tc
    → has_p (k.mem tp (ptx va)) ≡ true
    → pgnum (k.mem tp (ptx va)) ≡ pp
    → bad_va va ≡ false
    → tp ≢ dp
    → tc ≢ dc
    → tp ≢ tc
    → tp ≢ dc
    → tc ≢ dp
    → dc ≢ dp
    → IsFreeList k ys
    → has pp ys ≡ false
    → pp < k.npages
    → 0 < (k.pages pp).pp_ref
    → (k.pages pp).pp_ref + 2 < 2 ^ 16
    → let k2 = shared dp dc va tp tc pp k in
      (sys_page_map id va id va 0x805 (given dc va tc pp k) ≡ ok 0 k2)
      × BothShare dp dc va tp tc pp (k.pages pp).pp_ref ys k2
both_share {k} {dp} {dc} {va} {tp} {tc} {pp} xs now own hp hc present page good tp≢dp tc≢dc tp≢tc
      tp≢dc tc≢dp dc≢dp v new lt pos fits =
    let k1 = given dc va tc pp k in
    let k2 = shared dp dc va tp tc pp k in
    let same1 : k1.mem tp (ptx va) ≡ k.mem tp (ptx va) =
      stored_other (referred pp k) dc pp va 0x805 tc tp (ptx va) tp≢tc tp≢dc in
    let hp1 : HasTable k1 dp va tp =
      HasTable-frame {k' = k1} hp
        (stored_other (referred pp k) dc pp va 0x805 tc dp (pdx va) (λ e. tc≢dp (sym e))
          (λ e. dc≢dp (sym e)))
        refl in
    let count : (k1.pages pp).pp_ref ≡ (k.pages pp).pp_ref + 1 = ground arith in
    let v1 : IsFreeList k1 xs =
      IsFreeList-frame xs (IsFreeList-counted pp _ xs v new) refl refl (λ i q. refl) (λ i. refl) in
    let count2 : ((referred pp k1).pages pp).pp_ref ≡ (k.pages pp).pp_ref + 2 = ground arith in
    let present1 : has_p (k1.mem tp (ptx va)) ≡ true = rw same1 present in
    let page1 : pgnum (k1.mem tp (ptx va)) ≡ pp = rw same1 page in
    let second =
      map_parent-eq {k = k1} xs now (Names-frame own refl) hp1 present1 page1 good v1 new lt
        (omega arith) (omega arith) in
    let again =
      page_insert-again {k = k1} pp 0x805 xs hp1 present1 page1 tp≢dp (omega arith) lt v1 new
        (omega arith) (omega arith) in
    let facts =
      rw
        (page_insert-remap-eq {k = k1} pp 0x805 pp xs hp1 present1 page1 v1 new lt new (omega arith)
          (omega arith))
        at again in
    let same2 : k2.mem tc (ptx va) ≡ pte_of pp 0x805 =
      remapped_other k1 dp pp va 0x805 tp pp tc (ptx va) (λ e. tp≢tc (sym e)) tc≢dp
      ∙ stored_pte (referred pp k) va pp 0x805 tc≢dc in
    let size : k2.npages ≡ k.npages = (dropped_rest (referred pp k1) pp).1 in
    let hc1 : HasTable k1 dc va tc =
      stored-HasTable (referred pp k) va pp 0x805 tc≢dc
        (HasTable-frame {k' = referred pp k} hc refl refl) (omega arith) in
    let hc2 : HasTable k2 dc va tc =
      HasTable-frame {k' = k2} hc1
        (remapped_other k1 dp pp va 0x805 tp pp dc (pdx va) (λ e. tp≢dc (sym e)) dc≢dp) size in
    let small : pp < 2 ^ 20 = omega (arith, v.small) in
    (
      second,
      (
        facts.1,
        lookup-page hc2 (rw same2 (has_p-pte_of pp small))
            (rw same2 (pgnum-pte_of pp 0x805 small (omega arith))) (rw size lt),
        same2 ∙ sym facts.2,
        rw facts.2 (has_cow-pte_of pp small),
        rw facts.2 (has_w-pte_of pp small),
        facts.3 ∙ count,
        facts.4,
      ),
    )

-- `duppage` of a page that the parent has at `va`, writable or copy-on-write: it succeeds, and then
-- parent and child both have that page at `va`, copy-on-write and not writable, and the page has one
-- reference more. The child either has a table for `va`, with no page there yet, and the free list
-- stays; or it has no table, as a child that `fork` has just made, and gets the first free page for
-- it, which leaves the others free. The parent is the current environment, in its own address space;
-- the child is one that it may manage; `va` is page-aligned and below UTOP; the two directories and
-- the two tables are different pages; the shared page is in use, off the free list, and its count
-- has room for two references more.
pub duppage_lem :
    (cgetc : M ℕ) {k : Kern} {c envid dc va tp tc pp : ℕ} (xs ys : List ℕ)
    → k.curenv ≡ some c
    → Names k c (k.envs c).env_id k.cr3
    → Names k c envid dc
    → HasTable k k.cr3 va tp
    → HasRoom k dc va tc xs ys
    → has_p (k.mem tp (ptx va)) ≡ true
    → (has_w (k.mem tp (ptx va)) || has_cow (k.mem tp (ptx va))) ≡ true
    → pgnum (k.mem tp (ptx va)) ≡ pp
    → va < utop
    → va % pgsize ≡ 0
    → tp ≢ k.cr3
    → tc ≢ dc
    → tp ≢ tc
    → tp ≢ dc
    → tc ≢ k.cr3
    → dc ≢ k.cr3
    → IsFreeList k xs
    → has pp xs ≡ false
    → pp < k.npages
    → 0 < (k.pages pp).pp_ref
    → (k.pages pp).pp_ref + 2 < 2 ^ 16
    → Ensures
        (λ r k'.
          (r ≡ 0)
          × (page_lookup k.cr3 va k' ≡ ok (some (pp, (tp, ptx va))) k')
          × (page_lookup dc va k' ≡ ok (some (pp, (tc, ptx va))) k')
          × (k'.mem tc (ptx va) ≡ k'.mem tp (ptx va))
          × (has_cow (k'.mem tp (ptx va)) ≡ true)
          × (has_w (k'.mem tp (ptx va)) ≡ false)
          × ((k'.pages pp).pp_ref ≡ (k.pages pp).pp_ref + 1)
          × IsFreeList k' ys)
        (duppage cgetc envid (pgnum va) k)
unfolding bad_va
duppage_lem cgetc {k} {envid} {dc} {va} {tp} {tc} {pp} xs ys now own child hp
      (inl (hc, empty, same)) present share page low aligned tp≢dp tc≢dc tp≢tc tp≢dc tc≢dp dc≢dp v
      new lt pos fits =
    let good : bad_va va ≡ false = ground arith in
    let (second, (found_p, found_c, same_entry, cow, read_only, ref, free)) =
      both_share {k = k} ys now own hp hc present page good tp≢dp tc≢dc tp≢tc tp≢dc tc≢dp dc≢dp
        (subst (IsFreeList k) same v) (subst (λ zs. has pp zs ≡ false) same new) lt pos fits in
    let first =
      map_child-eq now own child hp present page good lt (page_insert-eq pp 0x805 hc empty) in
    rw (duppage-eq cgetc envid now hp low aligned share first second)
      (refl, found_p, found_c, same_entry, cow, read_only, ref, free)
duppage_lem cgetc {k} {envid} {dc} {va} {tp} {tc} {pp} xs ys now own child hp (inr (gone, same))
      present share page low aligned tp≢dp tc≢dc tp≢tc tp≢dc tc≢dp dc≢dp v new lt pos fits =
    let good : bad_va va ≡ false = ground arith in
    let kt = tabled dc va tc k in
    let v' : IsFreeList k (tc ∷ ys) = subst (IsFreeList k) same v in
    let new' : has pp (tc ∷ ys) ≡ false = subst (λ zs. has pp zs ≡ false) same new in
    let word : kt.mem tp (ptx va) ≡ k.mem tp (ptx va) = tabled_other k dc va tc tp _ tp≢dc tp≢tc in
    let hpt : HasTable kt k.cr3 va tp =
      HasTable-frame {k' = kt} hp
        (tabled_other k dc va tc k.cr3 _ (λ e. dc≢dp (sym e)) (λ e. tc≢dp (sym e))) refl in
    let hct = tabled-HasTable k dc va tc v'.linked.1 v'.small in
    let empty : has_p (kt.mem tc (ptx va)) ≡ false =
      ap has_p (tabled-zero k dc va tc (ptx va) tc≢dc) in
    let count : (kt.pages pp).pp_ref ≡ (k.pages pp).pp_ref = ground (arith, new') in
    let (second, (found_p, found_c, same_entry, cow, read_only, ref, free)) =
      both_share {k = kt} ys now (Names-frame own refl) hpt hct (rw word present) (rw word page)
        good tp≢dp tc≢dc tp≢tc tp≢dc tc≢dp dc≢dp (tabled-IsFreeList dc va tc ys v')
        (ground (arith, new')) lt (rw count pos) (rw count fits) in
    let first = map_child-eq now own child hp present page good lt (
      page_insert-tabled dc pp va 0x805 tc ys v' gone
      ∙ page_insert-eq {k = kt} pp 0x805 hct empty) in
    rw (duppage-eq cgetc envid now hp low aligned share first second)
      (refl, found_p, found_c, same_entry, cow, read_only, ref ∙ ap (λ n. n + 1) count, free)
