-- ===== src/Smp/Processors.antt =====
-- What `mp_init` of kern/mpconfig.c records of the processors in a configuration table.
use arch.Base.{
  ℕ, ◌+◌, ◌≤◌, ◌<◌, ◌≡◌, refl, ◌∙◌, ap, true, false, arith, List, ◌∷◌, ◌++◌, ◌==◌, ==_refl, length,
  leb, update, Bool-cases, inl, inr,
}
use arch.Boot.{Memory, word16, word32}
use arch.Smp.{Smp, max_cpus, found, mpconfig, start_bootcpu, init_from, done, overrun, mp_init}
use arch.Smp.Table.{
  Entry, cpu, Entries, cpus, boot_index, add_all, read_entries-eq, IsNumbered, add_all-IsNumbered,
  add_all-ncpu, add_all-rest, add_all-boot, boot_index-lt, add_all-past,
}

-- The state in which the loop over the entries begins.
abbrev pub before_entries : Memory → (conf : ℕ) → Smp → Smp
before_entries mem conf s = record s {
  bootcpu = 0;
  ismp = true;
  lapicaddr = word32 mem (conf + 36);
}

abbrev started : Smp → Smp
started s = record s { cpu_status = update s.cpu_status s.bootcpu 1 }

start_bootcpu-done :
    (mem : Memory) (mp : ℕ) (s : Smp)
    → s.bootcpu < max_cpus
    → s.ismp ≡ true
    → (s' : Smp) × (start_bootcpu mem mp s ≡ done s')
      × (s'.ncpu ≡ s.ncpu)
      × (s'.cpu_id ≡ s.cpu_id)
      × (s'.bootcpu ≡ s.bootcpu)
      × (s'.cpu_status s.bootcpu ≡ 1)
      × (s'.lapicaddr ≡ s.lapicaddr)
      × (s'.ismp ≡ true)
unfolding start_bootcpu
start_bootcpu-done mem mp s lt mark =
    let inside : leb max_cpus s.bootcpu ≡ false = ground arith in
    elim (Bool-cases (mem (mp + 12) == 0)) [
      | inl e ↦ (
        started s,
        rw (inside, mark, e) refl,
        refl,
        refl,
        refl,
        rw (==_refl s.bootcpu) refl,
        refl,
        mark,
      )
      | inr e ↦ (
        record (started s) { imcr = true },
        rw (inside, mark, e) refl,
        refl,
        refl,
        refl,
        rw (==_refl s.bootcpu) refl,
        refl,
        mark,
      )
    ]

module _ (npages : ℕ) (mem : Memory) {mp conf : ℕ} (s : Smp)
    (table : mpconfig npages mem ≡ found (mp, conf)) (first : s.ncpu ≡ 0) where
  mp_init-Entries :
      (es : List Entry)
      → Entries mem (conf + 44) es
      → length es ≡ word16 mem (conf + 34)
      → mp_init npages mem s ≡ start_bootcpu mem mp (add_all es (before_entries mem conf s))
  unfolding mp_init init_from
  mp_init-Entries es listed number =
      rw (table, ← number, read_entries-eq mem (conf + 44) es (before_entries mem conf s) listed)
        refl

  -- With a table that `mpconfig` accepts, whose entries are all of the types 0 to 4 and at most NCPU
  -- of them processors, and no processor counted before: `mp_init` counts them all, each with its
  -- index as identifier, takes the last one with the boot flag as the boot processor (the first one,
  -- if none has it), marks that one as started, and keeps the address of the local APIC.
  pub mp_init_lem :
      (es : List Entry)
      → Entries mem (conf + 44) es
      → length es ≡ word16 mem (conf + 34)
      → cpus es ≤ max_cpus
      → (s' : Smp) × (mp_init npages mem s ≡ done s')
        × (s'.ncpu ≡ cpus es)
        × ((i : ℕ) → i < cpus es → s'.cpu_id i ≡ i)
        × (s'.bootcpu ≡ boot_index 0 es 0)
        × (s'.cpu_status s'.bootcpu ≡ 1)
        × (s'.lapicaddr ≡ word32 mem (conf + 36))
        × (s'.ismp ≡ true)
  mp_init_lem es listed number few =
      let s0 = before_entries mem conf s in
      let s1 = add_all es s0 in
      let boot : s1.bootcpu ≡ boot_index 0 es 0 =
        add_all-boot es s0 (omega arith) ∙ ap (λ n. boot_index n es 0) first in
      let count : s1.ncpu ≡ cpus es = add_all-ncpu es s0 (omega arith) ∙ omega arith in
      let rest = add_all-rest es s0 in
      let numbered : IsNumbered s1 =
        add_all-IsNumbered es {s = s0}
          (record { few = omega arith; ids = λ i lt. absurd (omega arith) }) in
      let inside : s1.bootcpu < max_cpus =
        rw boot (boot_index-lt 0 es 0 (omega arith) (omega arith)) in
      let (s', run, ncpu, ids, same, marked, apic, mark) =
        start_bootcpu-done mem mp s1 inside rest.0 in
      (
        s',
        mp_init-Entries es listed number ∙ run,
        ncpu ∙ count,
        λ i lt. ap (λ f. f i) ids ∙ numbered.ids i (omega (arith, count)),
        same ∙ boot,
        ap s'.cpu_status same ∙ marked,
        apic ∙ rest.1,
        mark,
      )

  -- Where a table that `mpconfig` accepts, with entries of the types 0 to 4 only, lists the boot
  -- processor behind NCPU other ones, and no processor was counted before, `bootcpu` points behind
  -- the end of `cpus`, and the store of its status goes there.
  pub mp_init-overrun :
      (es1 es2 : List Entry)
      → Entries mem (conf + 44) (es1 ++ cpu true ∷ es2)
      → length (es1 ++ cpu true ∷ es2) ≡ word16 mem (conf + 34)
      → max_cpus ≤ cpus es1
      → mp_init npages mem s ≡ overrun
  unfolding start_bootcpu
  mp_init-overrun es1 es2 listed number many =
      mp_init-Entries (es1 ++ cpu true ∷ es2) listed number
      ∙ rw (add_all-past es1 es2 (before_entries mem conf s) first many) refl
