-- ===== src/Pmap/View/Table.antt =====
-- A store into one entry of a table, in the map of kern/pmap.c's page tables.
use arch.Base.{
  ℕ, ◌^◌, ◌<◌, ◌≡◌, ◌≢◌, refl, ◌∙◌, ap, sym, subst, true, false, List, arith, ◌==◌, ==_iff, has,
  if◌then◌else◌, Bool-cases, inl, inr,
}
use arch.Kern.{Kern, write_word}
use arch.Kern.Word.{write_word_self, write_word_ne, write_word_other}
use arch.Kern.Layout.{pdx, ptx, pgnum, has_p}
use native.Mathlib.Decide.{ℕ_discrete}
use arch.Pmap.Walk.Find.{HasTable}
use arch.Pmap.Walk.Store.{HasTable-frame}
use arch.Pmap.View.{pte_at, IsOrdinary, IsPgdir}

-- What is off a list is off one that holds no more.
pub not-has-sub :
    (p : ℕ) (xs ys : List ℕ)
    → ((i : ℕ) → has i ys ≡ true → has i xs ≡ true)
    → has p xs ≡ false
    → has p ys ≡ false
not-has-sub p xs ys sub off = elim (Bool-cases (has p ys)) [
  | inl e ↦ let bad = sub p e in cc (bad, off)
  | inr e ↦ e
]

-- Two states with the same directory, and a free list that holds no more.
pub IsPgdir-sub :
    {k k' : Kern} {pgdir : ℕ} (xs ys : List ℕ)
    → IsPgdir k pgdir xs
    → ((i : ℕ) → has i ys ≡ true → has i xs ≡ true)
    → ((d : ℕ) → k'.mem pgdir d ≡ k.mem pgdir d)
    → k'.npages ≡ k.npages
    → IsPgdir k' pgdir ys
IsPgdir-sub {k} {k'} {pgdir} xs ys g sub same n = record {
  in_range = λ d o h. rw (same d, n) (g.in_range d o (rw (← same d) h));
  other_page = λ d o h. rw (same d) (g.other_page d o (rw (← same d) h));
  in_use = λ d o h. rw (same d) (not-has-sub _ xs ys sub (g.in_use d o (rw (← same d) h)));
  apart = λ d e o o' ne h h'.
      rw (same d, same e) (g.apart d e o o' ne (rw (← same d) h) (rw (← same e) h'));
  kept = not-has-sub pgdir xs ys sub g.kept;
}

pub IsPgdir-frame :
    {k k' : Kern} {pgdir : ℕ} (xs : List ℕ)
    → IsPgdir k pgdir xs
    → ((d : ℕ) → k'.mem pgdir d ≡ k.mem pgdir d)
    → k'.npages ≡ k.npages
    → IsPgdir k' pgdir xs
IsPgdir-frame {k} {k'} xs g same n = IsPgdir-sub {k = k} {k' = k'} xs xs g (λ i h. h) same n

pub present-HasTable :
    {k : Kern} {pgdir : ℕ} (va : ℕ) (xs : List ℕ)
    → IsPgdir k pgdir xs
    → IsOrdinary (pdx va)
    → has_p (k.mem pgdir (pdx va)) ≡ true
    → HasTable k pgdir va (pgnum (k.mem pgdir (pdx va)))
present-HasTable va xs g o h = record {
  present = h;
  table = refl;
  in_range = g.in_range (pdx va) o h;
}

-- Addresses with the same directory entry have the same table.
pub HasTable-same :
    {k : Kern} {pgdir va t : ℕ} (v : ℕ)
    → HasTable k pgdir va t
    → pdx va ≡ pdx v
    → HasTable k pgdir v t
HasTable-same {k} {pgdir} {va} {t} v h same = record {
  present = subst (λ d. has_p (k.mem pgdir d) ≡ true) same h.present;
  table = subst (λ d. pgnum (k.mem pgdir d) ≡ t) same h.table;
  in_range = h.in_range;
}

pub pte_at-present :
    {k : Kern} {pgdir v t : ℕ} → HasTable k pgdir v t → pte_at k pgdir v ≡ k.mem t (ptx v)
pte_at-present {k} {pgdir} {v} h = rw (h.present, h.table) refl

pub pte_at-absent :
    (k : Kern) (pgdir v : ℕ) → has_p (k.mem pgdir (pdx v)) ≡ false → pte_at k pgdir v ≡ 0
pte_at-absent k pgdir v h = rw h refl

-- The state with the entry for `va` in the table `t` replaced.
abbrev pub entered : (t va w : ℕ) → Kern → Kern
entered t va w k = record k { mem = write_word k.mem t (ptx va) w }

module _ {k : Kern} {pgdir va t : ℕ} (xs : List ℕ) (w : ℕ) (g : IsPgdir k pgdir xs)
    (h : HasTable k pgdir va t) (o : IsOrdinary (pdx va)) where
  table-other : t ≢ pgdir
  table-other e = g.other_page (pdx va) o h.present (h.table ∙ e)

  pub same_dir : (d : ℕ) → (entered t va w k).mem pgdir d ≡ k.mem pgdir d
  same_dir d = write_word_ne k.mem t (ptx va) w pgdir d (λ e. table-other (sym e))

  pub entered-IsPgdir : IsPgdir (entered t va w k) pgdir xs
  entered-IsPgdir = IsPgdir-frame xs g same_dir refl

  entered-HasTable : (v u : ℕ) → HasTable k pgdir v u → HasTable (entered t va w k) pgdir v u
  entered-HasTable v u b = HasTable-frame {k' = entered t va w k} b (same_dir (pdx v)) refl

  entered_self :
      (v : ℕ)
      → v < 2 ^ 32
      → va < 2 ^ 32
      → pgnum v ≡ pgnum va
      → pte_at (entered t va w k) pgdir v ≡ w
  entered_self v small small' same =
      let dir : pdx va ≡ pdx v = omega arith in
      let tab : ptx v ≡ ptx va = omega arith in
      pte_at-present (entered-HasTable v t (HasTable-same v h dir))
      ∙ ap (λ i. (entered t va w k).mem t i) tab
      ∙ write_word_self k.mem t (ptx va) w

  entered-there :
      (v : ℕ)
      → IsOrdinary (pdx v)
      → v < 2 ^ 32
      → va < 2 ^ 32
      → pgnum v ≢ pgnum va
      → has_p (k.mem pgdir (pdx v)) ≡ true
      → pte_at (entered t va w k) pgdir v ≡ pte_at k pgdir v
  entered-there v o' small small' ne there =
      let u = pgnum (k.mem pgdir (pdx v)) in
      let b : HasTable k pgdir v u = present-HasTable v xs g o' there in
      pte_at-present (entered-HasTable v u b)
      ∙ elim (ℕ_discrete (pdx v) (pdx va))
          as (λ z. write_word k.mem t (ptx va) w u (ptx v) ≡ k.mem u (ptx v)) [
            | yes e ↦
                let here : u ≡ t = ap (λ d. pgnum (k.mem pgdir d)) e ∙ h.table in
                let off : ptx v ≢ ptx va = λ q. ne (omega arith) in
                rw here (write_word_other k.mem t (ptx va) w (ptx v) off)
            | no differ ↦
                write_word_ne k.mem t (ptx va) w u (ptx v)
                  (λ q. g.apart (pdx v) (pdx va) o' o differ there h.present (q ∙ sym h.table))
          ]
      ∙ sym (pte_at-present b)

  -- It changes the entry of the page of `va`, and no other.
  pub entered-pte_at :
      (v : ℕ)
      → IsOrdinary (pdx v)
      → v < 2 ^ 32
      → va < 2 ^ 32
      → pte_at (entered t va w k) pgdir v ≡ (if pgnum v == pgnum va then w else pte_at k pgdir v)
  entered-pte_at v o' small small' = elim (Bool-cases (pgnum v == pgnum va)) [
    | inl e ↦ entered_self v small small' ((==_iff _ _).0 e) ∙ rw e refl
    | inr e ↦
        let ne : pgnum v ≢ pgnum va = λ q. ground (arith, q, e) in
        elim (Bool-cases (has_p (k.mem pgdir (pdx v)))) [
          | inl there ↦ entered-there v o' small small' ne there ∙ rw e refl
          | inr gone ↦
              pte_at-absent (entered t va w k) pgdir v (ap has_p (same_dir (pdx v)) ∙ gone)
              ∙ sym (pte_at-absent k pgdir v gone)
              ∙ rw e refl
        ]
  ]
