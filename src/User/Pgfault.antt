-- ===== src/User/Pgfault.antt =====
-- `pgfault` of lib/fork.c: the private copy of a page that was shared.
use arch.Base.{
  ℕ, ◌+◌, ◌-◌, ◌*◌, ◌/◌, ◌%◌, ◌^◌, ◌<◌, ◌≡◌, ◌≢◌, refl, ◌∙◌, sym, ap, subst, true, false, some,
  none, List, [], ◌∷◌, has, Distinct, arith, ◌==◌, ==_ne, if◌then◌else◌,
}
use arch.Kern.{Kern, M, ok, Ensures}
use arch.Kern.Layout.{ptx, pgnum, pgsize, has_p, has_w, utop, round_down}
use arch.Kern.Word.{write_word_ne}
use arch.Pmap.Alloc.FreeList.{IsFreeList}
use arch.Pmap.Walk.{page_lookup, page_remove}
use arch.Base.{bit_or}
use arch.Kern.Layout.{page2pa}
use arch.Pmap.Alloc.Refs.{dropped_rest}
use arch.Pmap.Walk.Entry.{has_p-bit_or, pte_of, pgnum-pte_of}
use arch.Pmap.Walk.Find.{HasTable}
use arch.Pmap.Walk.Remap.{nonzero-present}
use arch.Pmap.Walk.Remove.{removed, page_remove-eq, page_lookup-page_remove}
use arch.Pmap.Walk.Store.{HasTable-frame}
use arch.Syscall.Mapping.{Names, Names-frame, sys_page_map-eq, sys_page_alloc-eq, sys_page_unmap-eq}
use arch.Syscall.Pages.{bad_va, bad_perm}
use arch.User.Room.{HasRoom, ready}
use arch.Pmap.Alloc.FreeList.{page_alloc-eq}
use arch.User.Calls.{uvpt_entry-eq, user_getenvid-eq, lookup-page}
use arch.User.Fork.{has_cow, pgfault, pftemp, pte_cow}
use arch.User.Steps.{copy_page-eq, pgfault-eq}
use arch.User.Private.{fresh, filled, private, Distinct-two, alloc_step, map_step}
use arch.Base.{Bool}
use arch.User.Calls.{pte_of-sum}
use arch.User.{uvpt_entry}
use arch.Base.{◌&&◌, not, ==_iff}

has-if :
    (b : Bool) (p q : ℕ) (xs : List ℕ)
    → p ≢ q
    → has p xs ≡ false
    → has p (if b then q ∷ xs else xs) ≡ false
has-if true p q xs ne h = rw (==_ne p q ne) h
has-if false p q xs ne h = h

-- The last call: PFTEMP is given up, and the page keeps its other place.
unmap_step :
    {k : Kern} {dp tf tv np addr : ℕ} (ys : List ℕ)
    → HasTable k dp pftemp tf
    → HasTable k dp addr tv
    → k.mem tf (ptx pftemp) ≡ pte_of np 7
    → k.mem tv (ptx addr) ≡ pte_of np 7
    → tf ≢ dp
    → tf ≢ tv
    → tf ≢ np
    → np < k.npages
    → IsFreeList k ys
    → has np ys ≡ false
    → (k.pages np).pp_ref ≡ 2
    → let k' = removed dp pftemp tf np k in
      (page_remove dp pftemp k ≡ ok tt k')
      × (page_lookup dp addr k' ≡ ok (some (np, (tv, ptx addr))) k')
      × (k'.mem tv (ptx addr) ≡ pte_of np 7)
      × ((j : ℕ) → k'.mem np j ≡ k.mem np j)
      × ((k'.pages np).pp_ref ≡ 1)
      × ((i : ℕ) → i ≢ np → (k'.pages i).pp_ref ≡ (k.pages i).pp_ref)
      × IsFreeList k' ys
      × (page_lookup dp pftemp k' ≡ ok none k')
unmap_step {k} {dp} {tf} {tv} {np} {addr} ys hf hv entry_f entry_v tf≢dp tf≢tv tf≢np lt v off ref =
    let small : np < 2 ^ 20 = omega (arith, v.small) in
    let number : pgnum (pte_of np 7) ≡ np = pgnum-pte_of np 7 small (omega arith) in
    let valid : has_p (pte_of np 7) ≡ true = has_p-bit_or (bit_or (page2pa np) 7) in
    let nonzero : k.mem tf (ptx pftemp) ≢ 0 = rw entry_f (nonzero-present _ valid) in
    let page : pgnum (k.mem tf (ptx pftemp)) ≡ np = rw entry_f number in
    let pos : 0 < (k.pages np).pp_ref = rw ref (omega arith) in
    let fits : (k.pages np).pp_ref < 2 ^ 16 = rw ref (omega arith) in
    let k' = removed dp pftemp tf np k in
    let gone = page_remove-eq np ys hf nonzero page lt v off pos fits in
    let (v', ref', mem', none') =
      rw gone at (page_lookup-page_remove np ys hf nonzero page tf≢dp lt v off pos fits) in
    let rest = dropped_rest k np in
    let word : (q j : ℕ) → tf ≢ q → k'.mem q j ≡ k.mem q j = λ q j ne.
      ap (λ m. m q j) mem' ∙ write_word_ne k.mem tf (ptx pftemp) 0 q j (λ e. ne (sym e)) in
    let hv' : HasTable k' dp addr tv = HasTable-frame {k' = k'} hv (word dp _ tf≢dp) rest.1 in
    let entry' : k'.mem tv (ptx addr) ≡ pte_of np 7 = word tv _ tf≢tv ∙ entry_v in
    (
      gone,
      lookup-page hv' (rw entry' valid) (rw entry' number) (rw rest.1 lt),
      entry',
      λ j. word np j tf≢np,
      ref' ∙ rw ref refl,
      rest.5,
      subst (λ n. IsFreeList k' (if n == 1 then np ∷ ys else ys)) ref v',
      none',
    )

good_va : (va addr : ℕ) → va < utop → round_down va pgsize ≡ addr → bad_va addr ≡ false
unfolding bad_va
good_va va addr low base = ground arith

writable : (pp : ℕ) → pp < 2 ^ 20 → has_w (pte_of pp 7) ≡ true
writable pp lt =
    rw (pte_of-sum pp 7 lt (omega arith) refl)
      ((==_iff ((pp * 2 ^ 12 + 7) / 2 % 2) 1).1 (omega arith))

own_copy : (pp : ℕ) → pp < 2 ^ 20 → has_cow (pte_of pp 7) ≡ false
own_copy pp lt =
    rw (pte_of-sum pp 7 lt (omega arith) refl)
      (==_ne ((pp * 2 ^ 12 + 7) / pte_cow % 2) 1 (omega arith))

-- A write, in the current environment's own address space, to an address below UTOP whose page is
-- mapped copy-on-write, with no page at PFTEMP: behind `pgfault` the address has a page of its own,
-- the first free one, which is writable, not copy-on-write and has the contents of the old page; that
-- has one reference less, and is free exactly if it was the last; and PFTEMP is not in use. Either
-- the page table for PFTEMP is there, or, as at a first fault, it is not, and then the second free
-- page becomes that table. The directory, the two tables, the old page and the new one are different
-- pages, and the old page is in use, off the free list, with a count that fits.
pub pgfault_lem :
    (cgetc : M ℕ) {k : Kern} {c tf tv old np addr : ℕ} (va err : ℕ) (xs ys : List ℕ)
    → k.curenv ≡ some c
    → Names k c (k.envs c).env_id k.cr3
    → va < utop
    → round_down va pgsize ≡ addr
    → (err / 2 % 2 == 0) ≡ false
    → HasRoom k k.cr3 pftemp tf xs ys
    → HasTable k k.cr3 addr tv
    → has_p (k.mem tv (ptx addr)) ≡ true
    → has_cow (k.mem tv (ptx addr)) ≡ true
    → pgnum (k.mem tv (ptx addr)) ≡ old
    → Distinct (k.cr3 ∷ tf ∷ tv ∷ old ∷ np ∷ [])
    → IsFreeList k (np ∷ xs)
    → has old (np ∷ xs) ≡ false
    → old < k.npages
    → 0 < (k.pages old).pp_ref
    → (k.pages old).pp_ref < 2 ^ 16
    → Ensures
        (λ _ k'.
          (page_lookup k.cr3 addr k' ≡ ok (some (np, (tv, ptx addr))) k')
          × (has_w (k'.mem tv (ptx addr)) ≡ true)
          × (has_cow (k'.mem tv (ptx addr)) ≡ false)
          × ((j : ℕ) → k'.mem np j ≡ k.mem old j)
          × ((k'.pages np).pp_ref ≡ 1)
          × ((k'.pages old).pp_ref ≡ (k.pages old).pp_ref - 1)
          × IsFreeList k' (if (k.pages old).pp_ref == 1 then old ∷ ys else ys)
          × (page_lookup k.cr3 pftemp k' ≡ ok none k'))
        (pgfault cgetc va err k)
unfolding bad_va bad_perm
pgfault_lem cgetc {k} {c} {tf} {tv} {old} {np} {addr} va err xs ys now own low base write room hv
      present cow page apart v used lt pos fits =
    let dp = k.cr3 in
    let id = (k.envs c).env_id in
    let (dp≢tf, dp≢tv, dp≢old, dp≢np, tf≢tv, tf≢old, tf≢np, tv≢old, tv≢np, old≢np) =
      Distinct-two dp tf tv old np apart in
    let (k0, r) =
      ready xs ys hv v used (λ e. dp≢tf (sym e)) (λ e. dp≢np (sym e)) tf≢tv tf≢old tf≢np
        (λ e. dp≢tv (sym e)) tv≢np (λ e. dp≢old (sym e)) old≢np room in
    let k1 = fresh dp tf np k0 in
    let k2 = filled dp tf np old k0 in
    let k3 = private dp tf tv np old addr k0 in
    let present0 : has_p (k0.mem tv (ptx addr)) ≡ true = rw r.same_entry present in
    let page0 : pgnum (k0.mem tv (ptx addr)) ≡ old = rw r.same_entry page in
    let new_lt : np < k0.npages = rw r.size v.linked.1 in
    let lt0 : old < k0.npages = rw r.size lt in
    let pos0 : 0 < (k0.pages old).pp_ref = rw r.old_ref pos in
    let fits0 : (k0.pages old).pp_ref < 2 ^ 16 = rw r.old_ref fits in
    let (inserted, entry1, _, _, hf1, hv1, same_tv, _, _) =
      alloc_step ys r.temp r.here r.unused present0 page0 apart r.free r.new new_lt r.new_ref r.off
        lt0 pos0 fits0 in
    let (
      found2, mapped, entry3, ref3, ref_old3, v3, hf3, hv3, tf3, copy3, n3, envs3, cur3, cr3,
      entry2,
    ) =
      map_step ys r.temp r.here r.unused present0 page0 apart r.free r.new new_lt r.new_ref r.off
        lt0 pos0 fits0 in
    let count = (k0.pages old).pp_ref in
    let zs = if count == 1 then old ∷ ys else ys in
    let off : has np zs ≡ false = has-if (count == 1) np old ys (λ e. old≢np (sym e)) r.new in
    let small : np < 2 ^ 20 = omega (arith, v.small, v.linked.1) in
    let number : pgnum (pte_of np 7) ≡ np = pgnum-pte_of np 7 small (omega arith) in
    let valid : has_p (pte_of np 7) ≡ true = has_p-bit_or (bit_or (page2pa np) 7) in
    let k4 = removed dp pftemp tf np k3 in
    let (unmapped, found4, entry4, copy4, ref4, others4, v4, none4) =
      unmap_step zs hf3 hv3 tf3 entry3 (λ e. dp≢tf (sym e)) tf≢tv tf≢np (rw n3 new_lt) v3 off
        ref3 in
    let good = good_va va addr low base in
    let may : (has_w 7 && not (has_w (k2.mem tf (ptx pftemp)))) ≡ false =
      rw (entry2, writable np small) refl in
    let in_32 : addr < 2 ^ 32 = omega arith in
    let copying =
      copy_page-eq {k = k1} {dst = pftemp} {src = addr} {p = np} {q = old}
        (subst (λ d. HasTable k1 d pftemp tf) (sym r.same_dir) hf1)
        (subst (λ d. HasTable k1 d addr tv) (sym r.same_dir) hv1) (omega arith) in_32
        (rw entry1 valid) (rw (same_tv (ptx addr)) present0) (rw entry1 number)
        (rw (same_tv (ptx addr)) page0) in
    let same : pgnum va ≡ pgnum addr = omega arith in
    let now2 : k2.curenv ≡ some c = r.same_cur ∙ now in
    let envs : k3.envs ≡ k.envs = envs3 ∙ r.same_envs in
    let own2 : Names k2 c id dp = Names-frame {k' = k2} own r.same_envs in
    let fault =
      pgfault-eq cgetc k k1 k2 k3 {k4 = k4} va err id (k.mem tv (ptx addr)) addr base write
        (ap (λ n. uvpt_entry n k) same ∙ uvpt_entry-eq hv in_32) cow
        (user_getenvid-eq cgetc {k = k} now)
        (sys_page_alloc-eq pftemp 7 now own refl refl
          (page_alloc-eq k true np v.linked.0 v.linked.1 v.small) (r.inserts ∙ inserted))
        copying (user_getenvid-eq cgetc {k = k2} now2 ∙ ap (λ e. ok (e c).env_id k2) r.same_envs)
        (sys_page_map-eq {k = k2} now2 own2 own2 pftemp addr 7 refl good refl found2 may mapped)
        (user_getenvid-eq cgetc {k = k3} (cur3 ∙ now2) ∙ ap (λ e. ok (e c).env_id k3) envs)
        (sys_page_unmap-eq pftemp (cur3 ∙ now2) (Names-frame {k' = k3} own envs) refl unmapped) in
    rw fault (
      found4,
      rw entry4 (writable np small),
      rw entry4 (own_copy np small),
      λ j. copy4 j ∙ copy3 j ∙ r.same_words j,
      ref4,
      others4 old old≢np ∙ ref_old3 ∙ ap (λ n. n - 1) r.old_ref,
      subst (λ n. IsFreeList k4 (if n == 1 then old ∷ ys else ys)) r.old_ref v4,
      none4,
    )
