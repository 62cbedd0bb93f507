-- ===== src/Boot/Sectors.antt =====
-- What `readsect` and `readseg` of boot/main.c bring into memory.
use arch.Base.{
  ℕ, zero, suc, ◌+◌, ◌-◌, ◌*◌, ◌/◌, ◌%◌, ◌^◌, ◌≤◌, ◌<◌, ◌≡◌, refl, ◌∙◌, ap, true, some, ltb, arith,
  ◌⊎◌, inl, inr,
}
use native.Mathlib.Decide.{dec_lt}
use arch.Base.{lt→ltb}
use arch.Kern.Layout.{u32}
use arch.Boot.{Memory, Command, command, sectsize, readsect, read_sectors, readseg}

-- The drive holds the bytes `disk`: it answers a read command for one sector of the first device,
-- in LBA mode, with the 512 bytes of the sector that the three address bytes name.
pub record IsDrive (disk : ℕ → ℕ) (drive : Command → ℕ → ℕ) : Type 0 where
  pub sector :
      (l m h i : ℕ)
      → i < sectsize
      → drive (record { sectors = 1; lba_low = l; lba_mid = m; lba_high = h; device = 0xE0 }) i
        ≡ disk ((l + m * 2 ^ 8 + h * 2 ^ 16) * sectsize + i)

-- Memory `mem'` holds `n` sectors of the disk from sector `s` on at `pa`, and else is `mem`.
pub record Holds (disk : ℕ → ℕ) (pa n s : ℕ) (mem mem' : Memory) : Type 0 where
  pub inside : (a : ℕ) → pa ≤ a → a < pa + n * sectsize → mem' a ≡ disk (s * sectsize + (a - pa))
  pub outside : (a : ℕ) → (a < pa) ⊎ (pa + n * sectsize ≤ a) → mem' a ≡ mem a

-- The number of sectors that `readseg` reads.
abbrev pub sectors_of : (pa count : ℕ) → ℕ
sectors_of pa count = (pa % sectsize + count + 511) / sectsize

module _ {disk : ℕ → ℕ} {drive : Command → ℕ → ℕ} (d : IsDrive disk drive) where
  command-sector :
      (s i : ℕ) → s < 2 ^ 24 → i < sectsize → drive (command s) i ≡ disk (s * sectsize + i)
  command-sector s i small lt =
      rw top (d.sector (s % 2 ^ 8) (s / 2 ^ 8 % 2 ^ 8) (s / 2 ^ 16 % 2 ^ 8) i lt)
      ∙ ap (λ z. disk (z * sectsize + i)) bytes
    where
      top : s / 2 ^ 24 ≡ 0
      top = omega arith

      bytes : s % 2 ^ 8 + s / 2 ^ 8 % 2 ^ 8 * 2 ^ 8 + s / 2 ^ 16 % 2 ^ 8 * 2 ^ 16 ≡ s
      bytes = omega arith

  readsect-Holds :
      (pa s : ℕ) (mem : Memory) → s < 2 ^ 24 → Holds disk pa 1 s mem (readsect drive pa s mem)
  unfolding readsect
  readsect-Holds pa s mem small = record {
    inside = λ a from to. ground (arith, command-sector s (a - pa));
    outside = λ a out. ground (arith, out);
  }

  -- `n` rounds, where the end lies in the last of `n` sectors.
  read_sectors-Holds :
      (n fuel end_pa pa s : ℕ) (mem : Memory)
      → n < fuel
      → end_pa ≤ pa + n * sectsize
      → pa + n * sectsize < end_pa + sectsize
      → pa + n * sectsize < u32
      → s + n ≤ 2 ^ 24
      → (mem' : Memory) × (read_sectors drive fuel end_pa pa s mem ≡ some mem')
        × Holds disk pa n s mem mem'
  unfolding read_sectors
  read_sectors-Holds n zero end_pa pa s mem enough ends last fits small = elim enough [ ]
  read_sectors-Holds zero (suc fuel) end_pa pa s mem enough ends last fits small = (
    mem,
    ground arith,
    record { inside = λ a from to. absurd (omega arith); outside = λ a out. refl },
  )
  read_sectors-Holds (suc n) (suc fuel) end_pa pa s mem enough ends last fits small =
      let first = readsect-Holds pa s mem (omega arith) in
      let (mem', run, rest) =
        read_sectors-Holds n fuel end_pa (pa + sectsize) (s + 1) (readsect drive pa s mem)
          (omega arith) (omega arith) (omega arith) (omega arith) (omega arith) in
      let more : ltb pa end_pa ≡ true = lt→ltb pa end_pa (omega arith) in
      let next : (pa + sectsize) % u32 ≡ pa + sectsize = omega arith in
      let next' : (s + 1) % u32 ≡ s + 1 = omega arith in
      (
        mem',
        rw (more, next, next') run,
        record {
          inside = λ a from to. elim (dec_lt a (pa + sectsize)) [
            | yes lt ↦ rest.outside a (inl lt) ∙ first.inside a from (omega arith)
            | no ge ↦ rest.inside a (omega arith) (omega arith) ∙ ap disk (omega arith)
          ];
          outside = λ a out. elim out [
            | inl lt ↦ rest.outside a (inl (omega arith)) ∙ first.outside a (inl lt)
            | inr le ↦ rest.outside a (inr (omega arith)) ∙ first.outside a (inr (omega arith))
          ];
        },
      )

  -- `readseg` of a range that ends a sector or more below 2^32: memory then holds the sectors of
  -- the range, from the sector of the offset on, and the rest of memory is what it was.
  pub readseg-Holds :
      (pa count offset : ℕ) (mem : Memory)
      → pa + count ≤ u32 - sectsize
      → offset + count < 2 ^ 32
      → (mem' : Memory) × (readseg drive pa count offset mem ≡ some mem')
        × Holds disk (pa - pa % sectsize) (sectors_of pa count) (offset / sectsize + 1) mem mem'
  unfolding readseg
  readseg-Holds pa count offset mem fits small =
      let whole : (pa + count) % u32 ≡ pa + count = omega arith in
      rw whole (
        read_sectors-Holds (sectors_of pa count) _ (pa + count) (pa - pa % sectsize)
          (offset / sectsize + 1) mem (omega arith) (omega arith) (omega arith) (omega arith)
          (omega arith))
