-- ===== src/Examples/Lock.antt =====
-- Two CPUs that want the lock.
use arch.Base.{◌≡◌, refl, ◌≢◌, ◌⊎◌, ℕ, true, false}
use arch.Lock.{Pc, panicked, Move, Machine, Reach, start, later, pick}
use arch.Lock.Safety.{owns, mutual_exclusion, spinlock_calm}

-- CPU 0 reads the lock, CPU 1 does too, CPU 0 wins, and CPU 1 spins.
contended : (s : Machine) × Reach s × (owns (s.pc 0) ≡ true) × (s.pc 1 ≡ Pc.spinning)
contended = (
  _,
  later
      (later (later (later start (pick 0 (Move.read_free refl))) (pick 1 (Move.read_free refl)))
        (pick 0 (Move.xchg_wins refl)))
      (pick 1 (Move.xchg_spins refl)),
  refl,
  refl,
)

mutual_exclusion_example : (◌≡◌ {A = ℕ} 0 0) × (contended.0.lk.locked ≡ true)
unfolding contended
mutual_exclusion_example = mutual_exclusion 0 0 contended.1 contended.2 contended.2

spinlock_calm_example :
    ((i : ℕ) → contended.0.pc i ≢ panicked)
    × ((contended.0.lk.locked ≡ false) ⊎ ((i : ℕ) × (owns (contended.0.pc i) ≡ true)))
spinlock_calm_example = spinlock_calm contended.1
