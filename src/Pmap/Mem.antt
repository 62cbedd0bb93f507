-- ===== src/Pmap/Mem.antt =====
-- The checks of user addresses and the MMIO region of kern/pmap.c: `user_mem_check` and
-- `mmio_map_region`. (`user_mem_assert` can destroy the environment: see Sched/Destroy.antt.)
pub mod Pages
pub mod Check
use arch.Base.{
  ℕ, zero, suc, ◌+◌, ◌-◌, ◌%◌, ◌/◌, ◌^◌, ◌*◌, Bool, true, false, ◌&&◌, ◌||◌, Option, none, some,
  not,
}
use arch.Base.{bit_and, bit_or, ◌==◌, leb, ltb, if◌then◌else◌}
use arch.Kern.{
  Kern, M, panic, wild, out_of_fuel, ok, stop, pure, fail, get, modify, when, ◌>>=◌, ◌>>◌,
}
use arch.Kern.Layout.{u32, pgsize, has_p, round_down, round_up, mmiobase, mmiolim, e_fault}
use arch.Pmap.Walk.{PtePtr, pgdir_walk, boot_map_region}

-- The test of one page in `user_mem_check`.
unfoldable pub refuses : Option PtePtr → ℕ → ℕ → Kern → Bool
refuses none perm i k = true
refuses (some (t, j)) perm i k =
    leb mmiobase i || not (has_p (k.mem t j)) || not (bit_and (k.mem t j) perm == perm)

-- The loop of `user_mem_check` from the page `i`, with the rounds that the model allows.
unfoldable pub check_pages : ℕ → (pgdir va perm end i : ℕ) → M ℕ
check_pages zero pgdir va perm end i = fail out_of_fuel
check_pages (suc fuel) pgdir va perm end i =
    let rest = check_pages fuel pgdir va perm end ((i + pgsize) % u32) in
    if ltb i end
    then (do
      pte ← pgdir_walk pgdir i false
      bad ← get (refuses pte perm i)
      if bad
          then (do
            modify (λ k. record k { user_mem_check_addr = if ltb i va then va else i })
            pure e_fault)
          else rest)
    else pure 0

-- `env` is given by its page directory; the fuel is one more than the pages in the range.
unfoldable pub user_mem_check : (pgdir va len perm : ℕ) → M ℕ
user_mem_check pgdir va len perm =
    let begin = round_down va pgsize in
    let end = round_up ((va + len) % u32) pgsize in
    check_pages (suc ((end - begin) / pgsize)) pgdir va perm end begin

unfoldable pub mmio_map_region : (pa size : ℕ) → M ℕ
mmio_map_region pa size = do
  base ← get (λ k. k.mmio_base)
  let top = round_up ((pa + size) % u32) pgsize
  let first = round_down pa pgsize
  let bytes = (top + u32 - first) % u32
  if leb mmiolim ((base + bytes) % u32) then fail panic else do
    kern_pgdir ← get (λ k. k.kern_pgdir)
    boot_map_region kern_pgdir base bytes first 0x1a
    modify (λ k. record k { mmio_base = (base + bytes) % u32 })
    pure ((base + bytes + u32 - bytes) % u32)
