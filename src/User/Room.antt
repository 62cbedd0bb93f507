-- ===== src/User/Room.antt =====
-- Where `page_insert` puts a page that lib/fork.c asks for: a table that is there, or a new one.
use arch.Base.{
  ℕ, ◌≡◌, ◌≢◌, refl, ◌∙◌, sym, ap, subst, true, false, List, ◌∷◌, has, arith, ◌⊎◌, inl, inr,
}
use arch.Kern.{Kern}
use arch.Kern.Layout.{pdx, ptx, has_p}
use arch.Pmap.Alloc.FreeList.{IsFreeList, taken, page_alloc-eq, page_alloc-pop}
use arch.Pmap.Walk.{page_insert}
use arch.Pmap.Walk.Find.{HasTable, tabled, tabled-HasTable}
use arch.Pmap.Walk.Grow.{tabled-IsFreeList, tabled-zero, page_insert-tabled}
use arch.Pmap.Walk.Store.{HasTable-frame}
use arch.User.Fork.{pftemp}

-- The directory `pgdir` has room for a page at `va` in the table `t`: that is there, with an empty
-- entry for `va`, and the free list `xs` stays; or there is no table for `va`, and `t` is the first
-- of the free pages, which leaves `ys`.
abbrev pub HasRoom : Kern → (pgdir va t : ℕ) → (xs ys : List ℕ) → Type 0
HasRoom k pgdir va t xs ys =
    (HasTable k pgdir va t × (has_p (k.mem t (ptx va)) ≡ false) × (xs ≡ ys))
    ⊎ ((has_p (k.mem pgdir (pdx va)) ≡ false) × (xs ≡ t ∷ ys))

pub tabled_other :
    (k : Kern) (pgdir va t p j : ℕ) → p ≢ pgdir → p ≢ t → (tabled pgdir va t k).mem p j ≡ k.mem p j
tabled_other k pgdir va t p j ne ne' = ground arith

tabled_pages : (k : Kern) (pgdir va t p : ℕ) → p ≢ t → (tabled pgdir va t k).pages p ≡ k.pages p
tabled_pages k pgdir va t p ne = ground arith

tabled_dir :
    (k : Kern) (pgdir va t j : ℕ)
    → t ≢ pgdir
    → j ≢ pdx va
    → (tabled pgdir va t k).mem pgdir j ≡ k.mem pgdir j
tabled_dir k pgdir va t j ne ne' = ground arith

-- The state `k0` is `k` with the page `np` taken and a table `tf` for PFTEMP with room in it, made if
-- it was not there; the address `addr`, its table `tv` and its page `old` are as they were.
pub record IsReady (k k0 : Kern) (tf tv old np addr : ℕ) (ys : List ℕ) : Type 0 where
  pub inserts : page_insert k.cr3 np pftemp 7 (taken true np k) ≡ page_insert k.cr3 np pftemp 7 k0
  pub temp : HasTable k0 k.cr3 pftemp tf
  pub unused : has_p (k0.mem tf (ptx pftemp)) ≡ false
  pub here : HasTable k0 k.cr3 addr tv
  pub same_entry : k0.mem tv (ptx addr) ≡ k.mem tv (ptx addr)
  pub same_words : (j : ℕ) → k0.mem old j ≡ k.mem old j
  pub free : IsFreeList k0 ys
  pub new : has np ys ≡ false
  pub new_ref : (k0.pages np).pp_ref ≡ 0
  pub off : has old ys ≡ false
  pub old_ref : (k0.pages old).pp_ref ≡ (k.pages old).pp_ref
  pub same_envs : k0.envs ≡ k.envs
  pub same_cur : k0.curenv ≡ k.curenv
  pub same_dir : k0.cr3 ≡ k.cr3
  pub size : k0.npages ≡ k.npages

module _ {k : Kern} {tf tv old np addr : ℕ} (xs ys : List ℕ) (hv : HasTable k k.cr3 addr tv)
    (v : IsFreeList k (np ∷ xs)) (used : has old (np ∷ xs) ≡ false) (tf≢dp : tf ≢ k.cr3)
    (np≢dp : np ≢ k.cr3) (tf≢tv : tf ≢ tv) (tf≢old : tf ≢ old) (tf≢np : tf ≢ np)
    (tv≢dp : tv ≢ k.cr3) (tv≢np : tv ≢ np) (old≢dp : old ≢ k.cr3) (old≢np : old ≢ np) where
  -- Such a state is there once the page is allocated, in both cases.
  pub ready : HasRoom k k.cr3 pftemp tf xs ys → (k0 : Kern) × IsReady k k0 tf tv old np addr ys
  ready room =
      let dp = k.cr3 in
      let k1 = taken true np k in
      let got = page_alloc-eq k true np v.linked.0 v.linked.1 v.small in
      let (_, v1, ref1, _, same) = rw got at (page_alloc-pop true np xs v) in
      let dir : (j : ℕ) → k1.mem dp j ≡ k.mem dp j =
        λ j. ap (λ m. m j) (same dp (λ e. np≢dp (sym e))).0 in
      let hv1 : HasTable k1 dp addr tv = HasTable-frame {k' = k1} hv (dir (pdx addr)) refl in
      let off : has old xs ≡ false = ground arith in
      let old1 : (k1.pages old).pp_ref ≡ (k.pages old).pp_ref =
        ap (λ p. p.pp_ref) (same old old≢np).1 in
      elim room [
        | inl (hf, unused, e) ↦ (
          k1,
          record {
            inserts = refl;
            temp = HasTable-frame {k' = k1} hf (dir (pdx pftemp)) refl;
            unused = ap (λ m. has_p (m (ptx pftemp))) (same tf tf≢np).0 ∙ unused;
            here = hv1;
            same_entry = ap (λ m. m (ptx addr)) (same tv tv≢np).0;
            same_words = λ j. ap (λ m. m j) (same old old≢np).0;
            free = subst (IsFreeList k1) e v1;
            new = subst (λ zs. has np zs ≡ false) e v.once.0;
            new_ref = ref1;
            off = subst (λ zs. has old zs ≡ false) e off;
            old_ref = old1;
            same_envs = refl;
            same_cur = refl;
            same_dir = refl;
            size = refl;
          },
        )
        | inr (gone, e) ↦
            let k0 = tabled dp pftemp tf k1 in
            let v1' : IsFreeList k1 (tf ∷ ys) = subst (IsFreeList k1) e v1 in
            let new' : has np (tf ∷ ys) ≡ false = subst (λ zs. has np zs ≡ false) e v.once.0 in
            let off' : has old (tf ∷ ys) ≡ false = subst (λ zs. has old zs ≡ false) e off in
            let gone1 : has_p (k1.mem dp (pdx pftemp)) ≡ false =
              ap has_p (dir (pdx pftemp)) ∙ gone in
            let other : pdx addr ≢ pdx pftemp =
              λ q. cc (hv.present, gone, ap (λ i. has_p (k.mem k.cr3 i)) q) in
            (
              k0,
              record {
                inserts = page_insert-tabled {k = k1} dp np pftemp 7 tf ys v1' gone1;
                temp = tabled-HasTable k1 dp pftemp tf v1'.linked.1 v1'.small;
                unused = ap has_p (tabled-zero k1 dp pftemp tf (ptx pftemp) tf≢dp);
                here =
                    HasTable-frame {k' = k0} hv1 (tabled_dir k1 dp pftemp tf (pdx addr) tf≢dp other)
                      refl;
                same_entry =
                    tabled_other k1 dp pftemp tf tv (ptx addr) tv≢dp (λ q. tf≢tv (sym q))
                    ∙ ap (λ m. m (ptx addr)) (same tv tv≢np).0;
                same_words = λ j.
                    tabled_other k1 dp pftemp tf old j old≢dp (λ q. tf≢old (sym q))
                    ∙ ap (λ m. m j) (same old old≢np).0;
                free = tabled-IsFreeList dp pftemp tf ys v1';
                new = ground (arith, new');
                new_ref =
                    ap (λ p. p.pp_ref) (tabled_pages k1 dp pftemp tf np (λ q. tf≢np (sym q)))
                    ∙ ref1;
                off = ground (arith, off');
                old_ref =
                    ap (λ p. p.pp_ref) (tabled_pages k1 dp pftemp tf old (λ q. tf≢old (sym q)))
                    ∙ old1;
                same_envs = refl;
                same_cur = refl;
                same_dir = refl;
                size = refl;
              },
            )
      ]
