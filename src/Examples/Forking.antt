-- ===== src/Examples/Forking.antt =====
-- Runs of lib/fork.c on the small machine, in which environment 2 is a child of environment 0 with a
-- directory of its own, page 9, which has no tables yet.
use arch.Base.{ℕ, ◌≡◌, refl, true, false, ◌&&◌, some, [], ◌∷◌, arith, ◌==◌, if◌then◌else◌}
use arch.Kern.{Kern, Env, ok, pure, Ensures}
use arch.Pmap.Alloc.FreeList.{IsFreeList, IsFreeList-frame}
use arch.Pmap.Walk.{page_lookup}
use arch.Kern.Layout.{has_w}
use arch.User.Fork.{has_cow, duppage, pgfault, pftemp}
use arch.User.Duppage.{duppage_lem}
use arch.User.Pgfault.{pgfault_lem}
use arch.Base.{none, inr}
use arch.Examples.{machine, machine-IsFreeList, words, table, env_of}

abbrev forked_table : ℕ → Env
forked_table i = if i == 2 then env_of 4098 4096 4 false 9 else table i

abbrev forked : Kern
forked = record machine { envs = forked_table }

forked-IsFreeList : IsFreeList forked (6 ∷ 7 ∷ [])
forked-IsFreeList =
    IsFreeList-frame (6 ∷ 7 ∷ []) machine-IsFreeList refl refl (λ i q. refl) (λ i. refl)

duppage_lem_example :
    Ensures
      (λ r k'.
        (r ≡ 0)
        × (page_lookup 3 0x1000 k' ≡ ok (some (5, (4, 1))) k')
        × (page_lookup 9 0x1000 k' ≡ ok (some (5, (6, 1))) k')
        × (k'.mem 6 1 ≡ k'.mem 4 1)
        × (has_cow (k'.mem 4 1) ≡ true)
        × (has_w (k'.mem 4 1) ≡ false)
        × ((k'.pages 5).pp_ref ≡ 2)
        × IsFreeList k' (7 ∷ []))
      (duppage (pure 0) 4098 1 forked)
duppage_lem_example =
    duppage_lem (pure 0) {k = forked} {c = 0} {va = 0x1000} (6 ∷ 7 ∷ []) (7 ∷ []) refl
      (record { nonzero = omega arith; allowed = refl; space = refl })
      (record { nonzero = omega arith; allowed = refl; space = refl })
      (record { present = refl; table = refl; in_range = omega arith }) (inr (refl, refl)) refl refl
      refl (omega arith) refl (omega arith) (omega arith) (omega arith) (omega arith) (omega arith)
      (omega arith) forked-IsFreeList refl (omega arith) (omega arith) (omega arith)

-- Environment 0 has page 5 copy-on-write at 0x800000, with the table in page 10; there is no
-- table for PFTEMP.
abbrev faulting_words : ℕ → ℕ → ℕ
faulting_words p i =
    if p == 3 && i == 2 then 0xa007 else if p == 10 && i == 0 then 0x5805 else words p i

abbrev faulting : Kern
faulting = record machine { mem = faulting_words }

faulting-IsFreeList : IsFreeList faulting (6 ∷ 7 ∷ [])
faulting-IsFreeList =
    IsFreeList-frame (6 ∷ 7 ∷ []) machine-IsFreeList refl refl (λ i q. refl) (λ i. refl)

pgfault_lem_example :
    Ensures
      (λ _ k'.
        (page_lookup 3 0x80_0000 k' ≡ ok (some (6, (10, 0))) k')
        × (has_w (k'.mem 10 0) ≡ true)
        × (has_cow (k'.mem 10 0) ≡ false)
        × ((j : ℕ) → k'.mem 6 j ≡ faulting.mem 5 j)
        × ((k'.pages 6).pp_ref ≡ 1)
        × ((k'.pages 5).pp_ref ≡ 0)
        × IsFreeList k' (5 ∷ [])
        × (page_lookup 3 pftemp k' ≡ ok none k'))
      (pgfault (pure 0) 0x80_0123 7 faulting)
pgfault_lem_example =
    pgfault_lem (pure 0) {k = faulting} {c = 0} {addr = 0x80_0000} 0x80_0123 7 (7 ∷ []) [] refl
      (record { nonzero = omega arith; allowed = refl; space = refl }) (omega arith) refl refl
      (inr (refl, refl)) (record { present = refl; table = refl; in_range = omega arith }) refl refl
      refl (refl, (refl, (refl, (refl, (refl, tt))))) faulting-IsFreeList refl (omega arith)
      (omega arith) (omega arith)
