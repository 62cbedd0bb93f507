-- ===== src/Boot/Image.antt =====
-- `bootmain` of boot/main.c on a disk with a kernel image.
use arch.Base.{ℕ, zero, suc, ◌+◌, ◌*◌, ◌%◌, ◌≤◌, ◌<◌, ◌≡◌, refl, ◌∙◌, ap, some, arith, ◌⊎◌, lt→ltb}
use native.Mathlib.Decide.{dec_lt}
use arch.Kern.Layout.{u32}
use arch.Boot.{
  Memory, Command, Proghdr, proghdr, word16, word32, elfhdr, elf_magic, sectsize, load_segment,
  load_segments, boot_image, bootmain, entry, readseg,
}
use arch.Boot.Sectors.{IsDrive, readseg-Holds}
use arch.Boot.Segment.{
  HasHeaders, word16-HasHeaders, word32-HasHeaders, Fits, Loaded, Loaded-frame, segment_start,
  segment_end, load_segment-Loaded,
}

-- The kernel image begins at the second sector.
abbrev pub kernel_of : (disk : ℕ → ℕ) → ℕ → ℕ
kernel_of disk a = disk (sectsize + a)

abbrev pub e_phoff : (ℕ → ℕ) → ℕ
e_phoff file = word32 file 28

abbrev pub e_phnum : (ℕ → ℕ) → ℕ
e_phnum file = word16 file 44

abbrev pub segment : (ℕ → ℕ) → ℕ → Proghdr
segment file i = proghdr file (e_phoff file + i * 32)

-- An ELF file whose program headers lie in its first page, and whose segments can be loaded into
-- different sectors of memory.
pub record IsKernel (file : ℕ → ℕ) : Type 0 where
  pub magic : word32 file 0 ≡ elf_magic
  pub headers : e_phoff file + e_phnum file * 32 ≤ 4096
  pub fits : (i : ℕ) → i < e_phnum file → Fits (segment file i)
  pub apart :
      (i j : ℕ)
      → i < j
      → j < e_phnum file
      → (segment_end (segment file i) ≤ segment_start (segment file j))
        ⊎ (segment_end (segment file j) ≤ segment_start (segment file i))

load_segments-done :
    (drive : Command → ℕ → ℕ) (fuel ph : ℕ) (mem : Memory)
    → load_segments drive (suc fuel) ph ph mem ≡ some mem
unfolding load_segments
load_segments-done drive fuel ph mem = ground arith

load_segments-step :
    (drive : Command → ℕ → ℕ) (fuel ph eph : ℕ) (mem : Memory) {mem1 : Memory}
    → ph < eph
    → ph + 32 < u32
    → load_segment drive ph mem ≡ some mem1
    → load_segments drive (suc fuel) ph eph mem ≡ load_segments drive fuel (ph + 32) eph mem1
unfolding load_segments
load_segments-step drive fuel ph eph mem lt small run =
    rw (load_segments, lt→ltb ph eph lt, run, next) refl
  where
    next : (ph + 32) % u32 ≡ ph + 32
    next = omega arith

module _ {disk : ℕ → ℕ} {drive : Command → ℕ → ℕ} (d : IsDrive disk drive)
    (k : IsKernel (kernel_of disk)) where
  abbrev file : ℕ → ℕ
  file = kernel_of disk

  -- The loop of `bootmain`, with `n` segments left.
  load_segments-Loaded :
      (n fuel i : ℕ) (mem : Memory)
      → n < fuel
      → i + n ≡ e_phnum file
      → HasHeaders file mem
      → ((j : ℕ) → j < i → Loaded file (segment file j) mem)
      → (mem' : Memory) × (load_segments drive fuel
            (elfhdr + (e_phoff file + i * 32))
            (elfhdr + (e_phoff file + e_phnum file * 32))
            mem
          ≡ some mem')
        × HasHeaders file mem'
        × ((j : ℕ) → j < e_phnum file → Loaded file (segment file j) mem')
  load_segments-Loaded n zero i mem enough rest g done = elim enough [ ]
  load_segments-Loaded zero (suc fuel) i mem enough rest g done =
      let all : i ≡ e_phnum file = omega arith in
      (mem, rw all (load_segments-done drive fuel _ mem), g, λ j lt. done j (rw all lt))
  load_segments-Loaded (suc n) (suc fuel) i mem enough rest g done =
      let f = k.fits i (omega arith) in
      let inside : e_phoff file + i * 32 + 32 ≤ 4096 = omega (arith, k.headers) in
      let (mem1, run1, loaded, g1, kept) =
        load_segment-Loaded (e_phoff file + i * 32) inside (segment file i) refl f mem d (λ a. refl)
          g in
      let done1 : (j : ℕ) → j < i + 1 → Loaded file (segment file j) mem1 = λ j lt.
        elim (dec_lt j i) [
          | yes before ↦
              Loaded-frame (segment file j) (segment file i) (k.fits j (omega arith))
                (k.apart j i before (omega arith)) kept (done j before)
          | no last ↦ let e : j ≡ i = omega arith in rw e loaded
        ] in
      let (mem', run, g', all) =
        load_segments-Loaded n fuel (i + 1) mem1 (omega arith) (omega arith) g1 done1 in
      let next : elfhdr + (e_phoff file + i * 32) + 32 ≡ elfhdr + (e_phoff file + (i + 1) * 32) =
        omega arith in
      (
        mem',
        load_segments-step drive fuel _ _ mem (omega arith) (omega arith) run1
            ∙ ap
                (λ ph.
                  load_segments drive fuel ph (elfhdr + (e_phoff file + e_phnum file * 32)) mem1)
                next
            ∙ run,
        g',
        all,
      )

  headers_read :
      (mem : Memory)
      → (mem1 : Memory) × (readseg drive elfhdr (sectsize * 8) 0 mem ≡ some mem1)
        × HasHeaders file mem1
  headers_read mem =
      let (mem1, run, holds) =
        readseg-Holds d elfhdr (sectsize * 8) 0 mem (omega arith) (omega arith) in
      (
        mem1,
        run,
        λ x lt. holds.inside (elfhdr + x) (omega arith) (omega arith) ∙ ap disk (omega arith),
      )

  boot_image-entry :
      (mem : Memory)
      → HasHeaders file mem
      → (mem' : Memory) × (boot_image drive mem ≡ entry (word32 file 24) mem')
        × ((i : ℕ) → i < e_phnum file → Loaded file (segment file i) mem')
  unfolding boot_image
  boot_image-entry mem g =
      let number : word16 mem (elfhdr + 44) ≡ e_phnum file =
        word16-HasHeaders mem 44 g (omega arith) in
      let place : word32 mem (elfhdr + 28) ≡ e_phoff file =
        word32-HasHeaders mem 28 g (omega arith) in
      let mark : word32 mem elfhdr ≡ elf_magic =
        word32-HasHeaders mem 0 g (omega arith) ∙ k.magic in
      let (mem', run, g', all) =
        load_segments-Loaded (e_phnum file) (e_phnum file + 1) 0 mem (omega arith) (omega arith) g
          (λ j lt. absurd (omega arith)) in
      let start : word32 mem' (elfhdr + 24) ≡ word32 file 24 =
        word32-HasHeaders mem' 24 g' (omega arith) in
      let ph : (elfhdr + e_phoff file) % u32 ≡ elfhdr + (e_phoff file + 0 * 32) =
        omega (arith, k.headers) in
      let eph : (elfhdr + (e_phoff file + 0 * 32) + e_phnum file * 32) % u32
          ≡ elfhdr + (e_phoff file + e_phnum file * 32) =
        omega (arith, k.headers) in
      (mem', rw (boot_image, mark, number, place, ph, eph, run, start) refl, all)

  -- On a drive that holds a kernel image from its second sector on: `bootmain` ends in a call of the
  -- entry point of the image, and every segment of it is then in memory, with zeros behind the
  -- bytes that the file has of it.
  pub bootmain_lem :
      (mem : Memory)
      → (mem' : Memory) × (bootmain drive mem ≡ entry (word32 file 24) mem')
        × ((i : ℕ) → i < e_phnum file → Loaded file (segment file i) mem')
  unfolding bootmain
  bootmain_lem mem =
      let (mem1, read, g) = headers_read mem in
      let (mem', run, all) = boot_image-entry mem1 g in (mem', rw (bootmain, read) run, all)
