-- ===== src/Boot.antt =====
-- The boot loader, boot/main.c: `bootmain`, `readseg` and `readsect` on byte-addressed memory. The
-- disk controller is a parameter: what it gives for the command that the ports receive.
pub mod Sectors
pub mod Segment
pub mod Image
use arch.Base.{
  ℕ, zero, suc, ◌+◌, ◌-◌, ◌*◌, ◌/◌, ◌%◌, ◌^◌, Bool, ◌&&◌, not, Option, none, some, ◌==◌, ltb, leb,
  if◌then◌else◌, bit_or, update,
}
use arch.Kern.Layout.{u32}

-- SECTSIZE
abbrev pub sectsize : ℕ
sectsize = 512

-- ELFHDR
abbrev pub elfhdr : ℕ
elfhdr = 0x1_0000

-- Physical memory, by byte
abbrev pub Memory : Type 0
Memory = ℕ → ℕ

-- Little-endian fields
abbrev pub word16 : Memory → ℕ → ℕ
word16 mem a = mem a + mem (a + 1) * 2 ^ 8

abbrev pub word32 : Memory → ℕ → ℕ
word32 mem a = word16 mem a + word16 mem (a + 2) * 2 ^ 16

-- What `readsect` writes to the ports 0x1F2 to 0x1F6; then 0x1F7 gets the read command.
pub record Command : Type 0 where
  pub sectors : ℕ
  pub lba_low : ℕ
  pub lba_mid : ℕ
  pub lba_high : ℕ
  pub device : ℕ

abbrev pub command : ℕ → Command
command offset = record {
  sectors = 1;
  lba_low = offset % 2 ^ 8;
  lba_mid = offset / 2 ^ 8 % 2 ^ 8;
  lba_high = offset / 2 ^ 16 % 2 ^ 8;
  device = bit_or (offset / 2 ^ 24) 0xE0 % 2 ^ 8;
}

-- The fields of `struct Proghdr` that are read
pub record Proghdr : Type 0 where
  pub p_offset : ℕ
  pub p_pa : ℕ
  pub p_filesz : ℕ
  pub p_memsz : ℕ

unfoldable pub proghdr : Memory → ℕ → Proghdr
proghdr mem ph = record {
  p_offset = word32 mem (ph + 4);
  p_pa = word32 mem (ph + 12);
  p_filesz = word32 mem (ph + 16);
  p_memsz = word32 mem (ph + 20);
}

-- The loop that clears the rest of a segment, with the rounds that the model allows. The header is
-- read again in each round.
unfoldable pub clear_rest : (fuel : ℕ) → (ph i : ℕ) → Memory → Option Memory
clear_rest zero ph i mem = none
clear_rest (suc fuel) ph i mem =
    let h = proghdr mem ph in
    let rest = clear_rest fuel ph (i + 1) (update mem ((h.p_pa + h.p_filesz + i) % u32) 0) in
    if ltb i ((h.p_memsz + u32 - h.p_filesz) % u32) then rest else some mem

module _ (drive : Command → ℕ → ℕ) where
  -- `insl` stores the bytes that the drive has for the command.
  unfoldable pub readsect : (dst offset : ℕ) → Memory → Memory
  readsect dst offset mem a =
      if leb dst a && ltb a (dst + sectsize) then drive (command offset) (a - dst) else mem a

  -- The loop of `readseg`, with the rounds that the model allows.
  unfoldable pub read_sectors : (fuel : ℕ) → (end_pa pa offset : ℕ) → Memory → Option Memory
  read_sectors zero end_pa pa offset mem = none
  read_sectors (suc fuel) end_pa pa offset mem =
      let rest =
        read_sectors fuel end_pa ((pa + sectsize) % u32) ((offset + 1) % u32)
          (readsect pa offset mem) in
      if ltb pa end_pa then rest else some mem

  unfoldable pub readseg : (pa count offset : ℕ) → Memory → Option Memory
  readseg pa count offset =
      let end_pa = (pa + count) % u32 in
      let start = pa - pa % sectsize in
      read_sectors ((end_pa - start) / sectsize + 2) end_pa start (offset / sectsize + 1)

  -- One round of the loop of `bootmain`. The number of bytes to clear, read at the start, bounds the
  -- rounds of the inner loop.
  unfoldable pub load_segment : (ph : ℕ) → Memory → Option Memory
  load_segment ph mem =
      let h = proghdr mem ph in
      elim (readseg h.p_pa h.p_memsz h.p_offset mem) [
        | none ↦ none
        | some mem1 ↦
            let g = proghdr mem1 ph in
            clear_rest ((g.p_memsz + u32 - g.p_filesz) % u32 + 1) ph 0 mem1
      ]

  unfoldable pub load_segments : (fuel : ℕ) → (ph eph : ℕ) → Memory → Option Memory
  load_segments zero ph eph mem = none
  load_segments (suc fuel) ph eph mem =
      let next : Option Memory = elim (load_segment ph mem) [
        | none ↦ none
        | some mem1 ↦ load_segments fuel ((ph + 32) % u32) eph mem1
      ] in
      if ltb ph eph then next else some mem

-- How `bootmain` ends: it calls the entry point, or it stops at `bad`, or the model's own bound.
pub data Booted : Type 0 where
  entry : ℕ → Memory → Booted
  bad : Memory → Booted
  out_of_rounds : Booted

-- ELF_MAGIC
abbrev pub elf_magic : ℕ
elf_magic = 0x464C_457F

-- `bootmain` behind the first read: the fields e_magic, e_phoff, e_phnum and e_entry.
unfoldable pub boot_image : (Command → ℕ → ℕ) → Memory → Booted
boot_image drive mem =
    let ph = (elfhdr + word32 mem (elfhdr + 28)) % u32 in
    let e_phnum = word16 mem (elfhdr + 44) in
    if not (word32 mem elfhdr == elf_magic)
    then bad mem
    else elim (load_segments drive (e_phnum + 1) ph ((ph + e_phnum * 32) % u32) mem) [
      | none ↦ out_of_rounds
      | some mem1 ↦ entry (word32 mem1 (elfhdr + 24)) mem1
    ]

unfoldable pub bootmain : (Command → ℕ → ℕ) → Memory → Booted
bootmain drive mem = elim (readseg drive elfhdr (sectsize * 8) 0 mem) [
  | none ↦ out_of_rounds
  | some mem1 ↦ boot_image drive mem1
]
