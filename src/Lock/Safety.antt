-- ===== src/Lock/Safety.antt =====
-- What holds in every state that the CPUs can reach.
use arch.Base.{
  ℕ, ◌≡◌, refl, ◌≢◌, ◌⊎◌, inl, inr, Bool, true, false, none, some, update, ◌==◌, ==_iff, ==_refl,
  arith, Bool-cases, sym, ◌∙◌, ap,
}
use arch.Lock.{
  Spinlock, Pc, outside, saw_locked, spinning, won, inside, leaving, holds, cleared, panicked, Move,
  read_free, read_locked, not_mine, already_mine, xchg_wins, xchg_spins, store_cpu, unlock_free,
  unlock_locked, unlock_other, unlock_mine, clear_cpu, xchg_frees, Machine, pick, boot, Reach,
  start, later,
}

-- Between the `xchg` that takes the lock and the one that gives it back.
abbrev pub owns : Pc → Bool
owns won = true
owns inside = true
owns leaving = true
owns holds = true
owns cleared = true
owns _ = false

-- While `cpu` names the owner.
abbrev named : Pc → Bool
named inside = true
named leaving = true
named holds = true
named _ = false

record Inv (lk : Spinlock) (pc : ℕ → Pc) : Type 0 where
  taken : (i : ℕ) → owns (pc i) ≡ true → lk.locked ≡ true
  unique : (i j : ℕ) → owns (pc i) ≡ true → owns (pc j) ≡ true → i ≡ j
  owner : lk.locked ≡ true → (i : ℕ) × (owns (pc i) ≡ true)
  name : (i : ℕ) → named (pc i) ≡ true → lk.cpu ≡ some i
  named_by : (i : ℕ) → lk.cpu ≡ some i → named (pc i) ≡ true
  calm : (i : ℕ) → pc i ≢ panicked

Inv-boot : Inv boot.lk boot.pc
Inv-boot = record {
  taken = λ i h. cc;
  unique = λ i j h g. cc;
  owner = λ h. cc;
  name = λ i h. cc;
  named_by = λ i h. cc;
  calm = λ i h. cc;
}

kept :
    (pc : ℕ → Pc) (i : ℕ) (p : Pc) (f : Pc → Bool)
    → f p ≡ f (pc i)
    → (j : ℕ) → f (update pc i p j) ≡ f (pc j)
kept pc i p f e j = elim (Bool-cases (j == i)) [
  | inl q ↦ rw (q, (==_iff j i).0 q) e
  | inr q ↦ rw q refl
]

calm_update :
    (pc : ℕ → Pc) (i : ℕ) (p : Pc)
    → ((j : ℕ) → pc j ≢ panicked)
    → p ≢ panicked
    → (j : ℕ) → update pc i p j ≢ panicked
calm_update pc i p calm ne j h = elim (Bool-cases (j == i)) [
  | inl q ↦ ne (rw q at h)
  | inr q ↦ calm j (rw q at h)
]

named-owns : (p : Pc) → named p ≡ true → owns p ≡ true
named-owns inside h = refl
named-owns leaving h = refl
named-owns holds h = refl
named-owns outside h = cc
named-owns saw_locked h = cc
named-owns spinning h = cc
named-owns won h = cc
named-owns cleared h = cc
named-owns panicked h = cc

module _ {lk : Spinlock} {pc : ℕ → Pc} (inv : Inv lk pc) (i : ℕ) (p : Pc) (ne : p ≢ panicked) where
  -- A move that neither changes the lock nor who owns it.
  Inv-same : owns p ≡ owns (pc i) → named p ≡ named (pc i) → Inv lk (update pc i p)
  Inv-same o n = record {
    taken = λ j h. inv.taken j (rw (kept pc i p owns o j) at h);
    unique =
        λ j l h g. inv.unique j l (rw (kept pc i p owns o j) at h) (rw (kept pc i p owns o l) at g);
    owner = λ h. let (j, own) = inv.owner h in (j, kept pc i p owns o j ∙ own);
    name = λ j h. inv.name j (rw (kept pc i p named n j) at h);
    named_by = λ j h. kept pc i p named n j ∙ inv.named_by j h;
    calm = calm_update pc i p inv.calm ne;
  }

  -- The taking of the free lock.
  Inv-won :
      lk.locked ≡ false
      → p ≡ won
      → pc i ≡ spinning
      → Inv (record lk { locked = true }) (update pc i p)
  Inv-won free e at = record {
    taken = λ j h. refl;
    unique = λ j l h g. ground (arith, ==_iff j i, ==_iff l i, inv.taken j, inv.taken l);
    owner = λ h. (i, ground arith);
    name = λ j h. inv.name j (rw (kept pc i p named n j) at h);
    named_by = λ j h. kept pc i p named n j ∙ inv.named_by j h;
    calm = calm_update pc i p inv.calm ne;
  }
    where
      n : named p ≡ named (pc i)
      n = rw (e, at) refl

  -- The owner's name is stored.
  Inv-named : p ≡ inside → pc i ≡ won → Inv (record lk { cpu = some i }) (update pc i p)
  Inv-named e at = record {
    taken = λ j h. inv.taken j (rw (kept pc i p owns o j) at h);
    unique =
        λ j l h g. inv.unique j l (rw (kept pc i p owns o j) at h) (rw (kept pc i p owns o l) at g);
    owner = λ h. let (j, own) = inv.owner h in (j, kept pc i p owns o j ∙ own);
    name = λ j h. elim (Bool-cases (j == i)) [
      | inl q ↦ ap some (sym ((==_iff j i).0 q))
      | inr q ↦ ap some (inv.unique i j (rw at refl) (named-owns (pc j) (rw q at h)))
    ];
    named_by = λ j h. let q : i ≡ j = cc h in rw (← q, ==_refl i, e) refl;
    calm = calm_update pc i p inv.calm ne;
  }
    where
      o : owns p ≡ owns (pc i)
      o = rw (e, at) refl

  -- No other CPU owns the lock.
  alone : owns (pc i) ≡ true → (j : ℕ) → (j == i) ≡ false → owns (pc j) ≢ true
  alone mine j other own = cc ((==_iff j i).1 (inv.unique j i own mine), other)

  -- The owner's name is taken away.
  Inv-cleared : p ≡ cleared → pc i ≡ holds → Inv (record lk { cpu = none }) (update pc i p)
  Inv-cleared e at = record {
    taken = λ j h. inv.taken j (rw (kept pc i p owns o j) at h);
    unique =
        λ j l h g. inv.unique j l (rw (kept pc i p owns o j) at h) (rw (kept pc i p owns o l) at g);
    owner = λ h. let (j, own) = inv.owner h in (j, kept pc i p owns o j ∙ own);
    name = λ j h. elim (Bool-cases (j == i)) [
      | inl q ↦ let bad : named p ≡ true = rw q at h in cc (bad, ap named e)
      | inr q ↦ absurd (alone (rw at refl) j q (named-owns (pc j) (rw q at h)))
    ];
    named_by = λ j h. cc;
    calm = calm_update pc i p inv.calm ne;
  }
    where
      o : owns p ≡ owns (pc i)
      o = rw (e, at) refl

  -- The lock is given back.
  Inv-freed : p ≡ outside → pc i ≡ cleared → Inv (record lk { locked = false }) (update pc i p)
  Inv-freed e at = record {
    taken = λ j h. absurd (nobody j h);
    unique = λ j l h g. absurd (nobody j h);
    owner = λ h. cc;
    name = λ j h. inv.name j (rw (kept pc i p named n j) at h);
    named_by = λ j h. kept pc i p named n j ∙ inv.named_by j h;
    calm = calm_update pc i p inv.calm ne;
  }
    where
      n : named p ≡ named (pc i)
      n = rw (e, at) refl

      nobody : (j : ℕ) → owns (update pc i p j) ≢ true
      nobody j h = elim (Bool-cases (j == i)) [
        | inl q ↦ let bad : owns p ≡ true = rw q at h in cc (bad, ap owns e)
        | inr q ↦ absurd (alone (rw at refl) j q (rw q at h))
      ]

-- Every shared access keeps the invariant; `at` gives the place of the CPU that moves.
Move-Inv :
    {lk lk' : Spinlock} {pc : ℕ → Pc} {q p : Pc} (i : ℕ)
    → Inv lk pc
    → pc i ≡ q
    → Move i lk q lk' p
    → Inv lk' (update pc i p)
Move-Inv i inv at (read_free free) = Inv-same inv i spinning (λ e. cc) (rw at refl) (rw at refl)
Move-Inv i inv at (read_locked busy) = Inv-same inv i saw_locked (λ e. cc) (rw at refl) (rw at refl)
Move-Inv i inv at (not_mine ne) = Inv-same inv i spinning (λ e. cc) (rw at refl) (rw at refl)
Move-Inv i inv at (already_mine mine) = cc (inv.named_by i mine, ap named at)
Move-Inv i inv at (xchg_wins free) = Inv-won inv i won (λ e. cc) free refl at
Move-Inv {lk} i inv at (xchg_spins busy) =
    rw (← busy) (Inv-same inv i spinning (λ e. cc) (rw at refl) (rw at refl))
Move-Inv i inv at store_cpu = Inv-named inv i inside (λ e. cc) refl at
Move-Inv i inv at (unlock_free free) = cc (inv.taken i (rw at refl), free)
Move-Inv i inv at (unlock_locked busy) = Inv-same inv i leaving (λ e. cc) (rw at refl) (rw at refl)
Move-Inv i inv at (unlock_other ne) = absurd (ne (inv.name i (rw at refl)))
Move-Inv i inv at (unlock_mine mine) = Inv-same inv i holds (λ e. cc) (rw at refl) (rw at refl)
Move-Inv i inv at clear_cpu = Inv-cleared inv i cleared (λ e. cc) refl at
Move-Inv i inv at xchg_frees = Inv-freed inv i outside (λ e. cc) refl at

Reach-Inv : {s : Machine} → Reach s → Inv s.lk s.pc
Reach-Inv start = Inv-boot
Reach-Inv (later r (pick i mv)) = Move-Inv i (Reach-Inv r) refl mv

-- Mutual exclusion: however the CPUs interleave, two that are between taking the lock and giving it
-- back are the same, and while there is one the lock is marked as taken.
pub mutual_exclusion :
    {s : Machine} (i j : ℕ)
    → Reach s
    → owns (s.pc i) ≡ true
    → owns (s.pc j) ≡ true
    → (i ≡ j) × (s.lk.locked ≡ true)
mutual_exclusion i j r mine yours =
    ((Reach-Inv r).unique i j mine yours, (Reach-Inv r).taken i mine)

-- Neither `spin_lock` nor `spin_unlock` ever panics on a CPU that takes the lock only from outside
-- and gives it back only from inside; and a lock that is marked as taken has an owner.
pub spinlock_calm :
    {s : Machine}
    → Reach s
    → ((i : ℕ) → s.pc i ≢ panicked) × ((s.lk.locked ≡ false) ⊎ ((i : ℕ) × (owns (s.pc i) ≡ true)))
spinlock_calm {s} r = (
  (Reach-Inv r).calm,
  elim (Bool-cases s.lk.locked) [ inl busy ↦ inr ((Reach-Inv r).owner busy) | inr free ↦ inl free ],
)
