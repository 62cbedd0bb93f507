-- ===== src/Examples/Booting.antt =====
-- Runs of the boot loader and of the code that finds the processors.
use arch.Base.{ℕ, ◌+◌, ◌-◌, ◌*◌, ◌^◌, ◌<◌, ◌≡◌, refl, arith, inr, ◌==◌, if◌then◌else◌}
use arch.Boot.{Memory, Command, bootmain, entry, word32, sectsize}
use arch.Boot.Sectors.{IsDrive}
use arch.Boot.Segment.{Loaded}
use arch.Boot.Image.{IsKernel, kernel_of, segment, bootmain_lem}

-- An image with one segment of 5 bytes, which fills 600 bytes of memory from 0x100000 on.
abbrev image : ℕ → ℕ
image a =
    if a == 0
    then 0x7F
    else if a == 1
    then 0x45
    else if a == 2
    then 0x4C
    else if a == 3
    then 0x46
    else if a == 24
    then 12
    else if a == 26
    then 0x10
    else if a == 28
    then 52
    else if a == 44
    then 1
    else if a == 57
    then 0x10
    else if a == 66
    then 0x10
    else if a == 68
    then 5
    else if a == 72
    then 88
    else if a == 73
    then 2
    else 0

abbrev disk : ℕ → ℕ
disk a = image (a - 512)

abbrev drive : Command → ℕ → ℕ
drive c i = disk ((c.lba_low + c.lba_mid * 2 ^ 8 + c.lba_high * 2 ^ 16) * sectsize + i)

drive-IsDrive : IsDrive disk drive
drive-IsDrive = record { sector = λ l m h i lt. refl }

disk-IsKernel : IsKernel (kernel_of disk)
unfolding arch.Boot.proghdr
disk-IsKernel = record {
  magic = refl;
  headers = omega arith;
  fits = λ i lt.
      let e : i ≡ 0 = omega arith in
      rw e (record {
        shorter = omega arith;
        aligned = refl;
        below = omega arith;
        on_disk = omega arith;
        clear = inr (omega arith);
      });
  apart = λ i j lt lt'. absurd (omega arith);
}

bootmain_lem_example :
    (mem' : Memory) × (bootmain drive (λ a. 7) ≡ entry 0x10_000C mem')
    × ((i : ℕ) → i < 1 → Loaded (kernel_of disk) (segment (kernel_of disk) i) mem')
bootmain_lem_example = bootmain_lem drive-IsDrive disk-IsKernel (λ a. 7)
