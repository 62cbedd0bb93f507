-- ===== src/Pmap/Walk/Entry.antt =====
-- The bits of page-table entries: what `|` of an address and flags keeps.
use arch.Base.{ℕ, ◌/◌, ◌^◌, ◌<◌, ◌≡◌, true, false, bit_or, arith, ap}
use arch.Base.{◌==◌, shr, shr-bit_or, bit_or-zero, bit_or_step}
use arch.Kern.Layout.{pgnum, has_p, page2pa}

shr_twelve : (x : ℕ) → shr x 12 ≡ x / 2 ^ 12
shr_twelve x = omega arith

-- Flags in the low 12 bits leave the page number.
pub pgnum-bit_or : (x perm : ℕ) → perm < 2 ^ 12 → pgnum (bit_or x perm) ≡ pgnum x
pgnum-bit_or x perm low = omega (
  arith,
  shr_twelve (bit_or x perm),
  shr-bit_or 12 x perm,
  ap (λ z. bit_or (shr x 12) z) flags,
  bit_or-zero (shr x 12),
  shr_twelve x,
)
  where
    flags : shr perm 12 ≡ 0
    flags = omega arith

pub has_p-bit_or : (x : ℕ) → has_p (bit_or x 1) ≡ true
has_p-bit_or x = ground (arith, bit_or_step x 1)

-- A present entry stays present whatever flags are added.
pub has_p-bit_or_left : (x perm : ℕ) → has_p x ≡ true → has_p (bit_or x perm) ≡ true
has_p-bit_or_left x perm h = ground (arith, bit_or_step x perm)

-- The entry that `page_insert` writes.
abbrev pub pte_of : ℕ → ℕ → ℕ
pte_of pp perm = bit_or (bit_or (page2pa pp) perm) 1

pub pgnum-pte_of : (pp perm : ℕ) → pp < 2 ^ 20 → perm < 2 ^ 12 → pgnum (pte_of pp perm) ≡ pp
pgnum-pte_of pp perm lt low = omega (
  arith,
  pgnum-bit_or (bit_or (page2pa pp) perm) 1 (omega arith),
  pgnum-bit_or (page2pa pp) perm low,
)

pub pte_of-ne_zero : (pp perm : ℕ) → (pte_of pp perm == 0) ≡ false
pte_of-ne_zero pp perm = ground (arith, has_p-bit_or (bit_or (page2pa pp) perm))

-- The entry that `pgdir_walk` writes into a directory.
pub pgnum-table : (pp : ℕ) → pp < 2 ^ 20 → pgnum (bit_or (page2pa pp) 7) ≡ pp
pgnum-table pp lt = omega (arith, pgnum-bit_or (page2pa pp) 7 (omega arith))

pub has_p-table : (pp : ℕ) → has_p (bit_or (page2pa pp) 7) ≡ true
has_p-table pp = ground (arith, bit_or_step (page2pa pp) 7)
