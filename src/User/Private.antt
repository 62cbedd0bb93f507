-- ===== src/User/Private.antt =====
-- The private copy that `pgfault` of lib/fork.c makes: the states behind its calls.
use arch.Base.{
  ℕ, ◌-◌, ◌^◌, ◌<◌, ◌≡◌, ◌≢◌, refl, ◌∙◌, sym, ap, subst, true, false, some, List, [], ◌∷◌, has,
  Distinct, arith, ◌==◌, ==_ne, ==_refl, if◌then◌else◌,
}
use arch.Kern.{Kern, ok}
use arch.Kern.Layout.{pdx, ptx, pgnum, has_p}
use arch.Pmap.Alloc.FreeList.{IsFreeList, IsFreeList-frame}
use arch.Pmap.Walk.{page_lookup, page_insert}
use arch.Base.{bit_or}
use arch.Kern.Layout.{page2pa}
use arch.Pmap.Alloc.Refs.{dropped_rest}
use arch.Pmap.Walk.Entry.{has_p-bit_or, pte_of, pgnum-pte_of}
use arch.Pmap.Walk.Find.{HasTable}
use arch.Pmap.Walk.Insert.{referred, page_insert-eq, page_lookup-page_insert}
use arch.Pmap.Walk.Remap.{
  removed-HasTable, remapped, remapped_other, remapped_dir, page_insert-remap-eq,
  page_insert-replace,
}
use arch.Pmap.Walk.Remove.{removed}
use arch.Pmap.Walk.Store.{stored, stored_other, stored_dir, pdx_ne, stored-HasTable, HasTable-frame}
use arch.User.Calls.{lookup-page}
use arch.User.Fork.{pftemp}
use arch.User.Steps.{copied}

-- The states behind the calls, from the one in which the new page is allocated and PFTEMP has a table
-- on: the new page at PFTEMP, its contents, its mapping at the address.
abbrev pub fresh : (dp tf np : ℕ) → Kern → Kern
fresh dp tf np k = stored dp np pftemp 7 tf (referred np k)

abbrev pub filled : (dp tf np old : ℕ) → Kern → Kern
filled dp tf np old k = copied np old (fresh dp tf np k)

abbrev pub private : (dp tf tv np old addr : ℕ) → Kern → Kern
private dp tf tv np old addr k = remapped dp np addr 7 tv old (filled dp tf np old k)

copied_other : (k : Kern) (p q r j : ℕ) → r ≢ p → (copied p q k).mem r j ≡ k.mem r j
copied_other k p q r j ne = rw (==_ne r p ne) refl

copied_self : (k : Kern) (p q j : ℕ) → (copied p q k).mem p j ≡ k.mem q j
copied_self k p q j = rw (==_refl p) refl

pub Distinct-two :
    (a b c d e : ℕ)
    → Distinct (a ∷ b ∷ c ∷ d ∷ e ∷ [])
    → (a ≢ b)
      × (a ≢ c)
      × (a ≢ d)
      × (a ≢ e)
      × (b ≢ c)
      × (b ≢ d)
      × (b ≢ e)
      × (c ≢ d)
      × (c ≢ e)
      × (d ≢ e)
Distinct-two a b c d e h = ground arith

module _ {k : Kern} {dp tf tv old np addr : ℕ} (xs : List ℕ) (hf : HasTable k dp pftemp tf)
    (hv : HasTable k dp addr tv) (unused : has_p (k.mem tf (ptx pftemp)) ≡ false)
    (present : has_p (k.mem tv (ptx addr)) ≡ true) (page : pgnum (k.mem tv (ptx addr)) ≡ old)
    (apart : Distinct (dp ∷ tf ∷ tv ∷ old ∷ np ∷ [])) (v : IsFreeList k xs)
    (new : has np xs ≡ false) (new_lt : np < k.npages) (new_ref : (k.pages np).pp_ref ≡ 0)
    (off : has old xs ≡ false) (lt : old < k.npages) (pos : 0 < (k.pages old).pp_ref)
    (fits : (k.pages old).pp_ref < 2 ^ 16) where
  -- Behind `sys_page_alloc`: the new page is at PFTEMP, and the rest is what it was.
  pub alloc_step :
      let k1 = fresh dp tf np k in
      (page_insert dp np pftemp 7 k ≡ ok 0 k1)
      × (k1.mem tf (ptx pftemp) ≡ pte_of np 7)
      × ((k1.pages np).pp_ref ≡ 1)
      × IsFreeList k1 xs
      × HasTable k1 dp pftemp tf
      × HasTable k1 dp addr tv
      × ((j : ℕ) → k1.mem tv j ≡ k.mem tv j)
      × ((j : ℕ) → k1.mem old j ≡ k.mem old j)
      × ((k1.pages old).pp_ref ≡ (k.pages old).pp_ref)
  alloc_step =
      let (dp≢tf, dp≢tv, dp≢old, dp≢np, tf≢tv, tf≢old, tf≢np, tv≢old, tv≢np, old≢np) =
        Distinct-two dp tf tv old np apart in
      let k1 = fresh dp tf np k in
      let tf≢dp : tf ≢ dp = λ e. dp≢tf (sym e) in
      let inserted = page_insert-eq np 7 hf unused in
      let (_, _, entry, ref1, v1) =
        rw inserted at
          (page_lookup-page_insert np 7 xs hf unused tf≢dp (omega arith) new_lt v new) in
      (
        inserted,
        entry,
        ref1 ∙ rw new_ref refl,
        v1,
        stored-HasTable (referred np k) pftemp np 7 tf≢dp
            (HasTable-frame {k' = referred np k} hf refl refl) (omega arith),
        HasTable-frame {k' = k1} hv
            (stored_dir (referred np k) dp np pftemp 7 tf (pdx addr) tf≢dp
              (pdx_ne hv hf (λ e. tf≢tv (sym e))))
            refl,
        λ j.
            stored_other (referred np k) dp np pftemp 7 tf tv j (λ e. tf≢tv (sym e))
              (λ e. dp≢tv (sym e)),
        λ j.
            stored_other (referred np k) dp np pftemp 7 tf old j (λ e. tf≢old (sym e))
              (λ e. dp≢old (sym e)),
        rw (==_ne old np old≢np) refl,
      )

  -- Behind the copy and `sys_page_map`: the new page is at the address, with the words of the old.
  pub map_step :
      let k2 = filled dp tf np old k in
      let k3 = private dp tf tv np old addr k in
      (page_lookup dp pftemp k2 ≡ ok (some (np, (tf, ptx pftemp))) k2)
      × (page_insert dp np addr 7 k2 ≡ ok 0 k3)
      × (k3.mem tv (ptx addr) ≡ pte_of np 7)
      × ((k3.pages np).pp_ref ≡ 2)
      × ((k3.pages old).pp_ref ≡ (k.pages old).pp_ref - 1)
      × IsFreeList k3 (if (k.pages old).pp_ref == 1 then old ∷ xs else xs)
      × HasTable k3 dp pftemp tf
      × HasTable k3 dp addr tv
      × (k3.mem tf (ptx pftemp) ≡ pte_of np 7)
      × ((j : ℕ) → k3.mem np j ≡ k.mem old j)
      × (k3.npages ≡ k.npages)
      × (k3.envs ≡ k.envs)
      × (k3.curenv ≡ k.curenv)
      × (k3.cr3 ≡ k.cr3)
      × (k2.mem tf (ptx pftemp) ≡ pte_of np 7)
  map_step =
      let (dp≢tf, dp≢tv, dp≢old, dp≢np, tf≢tv, tf≢old, tf≢np, tv≢old, tv≢np, old≢np) =
        Distinct-two dp tf tv old np apart in
      let k1 = fresh dp tf np k in
      let k2 = filled dp tf np old k in
      let k3 = private dp tf tv np old addr k in
      let (_, entry, ref1, v1, hf1, hv1, same_tv, same_old, ref_old) = alloc_step in
      let other = copied_other k1 np old in
      let hf2 : HasTable k2 dp pftemp tf = HasTable-frame {k' = k2} hf1 (other dp _ dp≢np) refl in
      let hv2 : HasTable k2 dp addr tv = HasTable-frame {k' = k2} hv1 (other dp _ dp≢np) refl in
      let v2 : IsFreeList k2 xs = IsFreeList-frame xs v1 refl refl (λ i q. refl) (λ i. refl) in
      let entry2 : k2.mem tf (ptx pftemp) ≡ pte_of np 7 = other tf _ tf≢np ∙ entry in
      let word2 : k2.mem tv (ptx addr) ≡ k.mem tv (ptx addr) = other tv _ tv≢np ∙ same_tv _ in
      let tv≢dp : tv ≢ dp = λ e. dp≢tv (sym e) in
      let present2 : has_p (k2.mem tv (ptx addr)) ≡ true = rw word2 present in
      let page2 : pgnum (k2.mem tv (ptx addr)) ≡ old = rw word2 page in
      let small : np < 2 ^ 20 = omega (arith, v.small, new_lt) in
      let count : ((referred np k2).pages old).pp_ref ≡ (k.pages old).pp_ref =
        rw (==_ne old np old≢np) refl in
      let rest = dropped_rest (referred np k2) old in
      let mapped =
        page_insert-remap-eq {k = k2} np 7 old xs hv2 present2 page2 v2 new lt off (rw count pos)
          (rw count fits) in
      let (_, _, entry3, ref3, ref_old3, v3) = rw mapped at (
        page_insert-replace {k = k2} np 7 old xs hv2 present2 page2 old≢np tv≢dp (omega arith)
          new_lt lt v2 new off (rw ref_old pos) (rw ref_old fits)) in
      (
        lookup-page hf2 (rw entry2 (has_p-bit_or (bit_or (page2pa np) 7)))
            (rw entry2 (pgnum-pte_of np 7 small (omega arith))) new_lt,
        mapped,
        entry3,
        ref3 ∙ rw ref1 refl,
        ref_old3 ∙ ap (λ n. n - 1) ref_old,
        subst (λ n. IsFreeList k3 (if n == 1 then old ∷ xs else xs)) ref_old v3,
        HasTable-frame {k' = k3} hf2
            (remapped_dir k2 dp np addr 7 tv old (pdx pftemp) tv≢dp (pdx_ne hf2 hv2 tf≢tv)) rest.1,
        stored-HasTable (removed dp addr tv old (referred np k2)) addr np 7 tv≢dp
            (removed-HasTable {k = referred np k2} old
              (HasTable-frame {k' = referred np k2} hv2 refl refl) tv≢dp)
            (omega arith),
        remapped_other k2 dp np addr 7 tv old tf (ptx pftemp) tf≢tv (λ e. dp≢tf (sym e)) ∙ entry2,
        λ j.
            remapped_other k2 dp np addr 7 tv old np j (λ e. tv≢np (sym e)) (λ e. dp≢np (sym e))
            ∙ copied_self k1 np old j
            ∙ same_old j,
        rest.1,
        rest.2,
        rest.3,
        rest.6,
        entry2,
      )
