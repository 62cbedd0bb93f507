-- ===== src/Boot/Segment.antt =====
-- One program segment, as the loop of `bootmain` of boot/main.c loads it.
use native.Mathlib.Decide.{dec_lt}
use arch.Base.{
  ℕ, zero, suc, ◌+◌, ◌-◌, ◌*◌, ◌%◌, ◌^◌, ◌≤◌, ◌<◌, ◌≡◌, refl, ◌∙◌, ap, sym, ◌≢◌, some, lt→ltb,
  arith, ◌⊎◌, inl, inr, update, ==_ne, ==_refl,
}
use arch.Kern.Layout.{u32}
use arch.Boot.{
  Memory, Command, Proghdr, proghdr, word16, word32, elfhdr, sectsize, clear_rest, readseg,
  load_segment,
}
use arch.Boot.Sectors.{IsDrive, sectors_of, readseg-Holds}

-- The first page of the file, with its headers, is in memory at ELFHDR.
abbrev pub HasHeaders : (file : ℕ → ℕ) → Memory → Type 0
HasHeaders file mem = (x : ℕ) → x < 4096 → mem (elfhdr + x) ≡ file x

pub word16-HasHeaders :
    {file : ℕ → ℕ} (mem : Memory) (x : ℕ)
    → HasHeaders file mem
    → x + 2 ≤ 4096
    → word16 mem (elfhdr + x) ≡ word16 file x
word16-HasHeaders mem x h fits = rw (h x (omega arith), ap mem next ∙ h (x + 1) (omega arith)) refl
  where
    next : elfhdr + x + 1 ≡ elfhdr + (x + 1)
    next = omega arith

pub word32-HasHeaders :
    {file : ℕ → ℕ} (mem : Memory) (x : ℕ)
    → HasHeaders file mem
    → x + 4 ≤ 4096
    → word32 mem (elfhdr + x) ≡ word32 file x
word32-HasHeaders mem x h fits =
    rw
      (
        word16-HasHeaders mem x h (omega arith),
        ap (word16 mem) next ∙ word16-HasHeaders mem (x + 2) h (omega arith),
      )
      refl
  where
    next : elfhdr + x + 2 ≡ elfhdr + (x + 2)
    next = omega arith

pub proghdr-HasHeaders :
    {file : ℕ → ℕ} (mem : Memory) (p : ℕ)
    → HasHeaders file mem
    → p + 32 ≤ 4096
    → proghdr mem (elfhdr + p) ≡ proghdr file p
unfolding proghdr
proghdr-HasHeaders {file} mem p h fits = λ i. record {
  p_offset = field 4 (omega arith) i;
  p_pa = field 12 (omega arith) i;
  p_filesz = field 16 (omega arith) i;
  p_memsz = field 20 (omega arith) i;
}
  where
    field : (k : ℕ) → k < 28 → word32 mem (elfhdr + p + k) ≡ word32 file (p + k)
    field k lt =
        let shift : elfhdr + p + k ≡ elfhdr + (p + k) = omega arith in
        ap (word32 mem) shift ∙ word32-HasHeaders mem (p + k) h (omega arith)

-- The sectors that a segment fills, from this address on.
abbrev pub segment_start : Proghdr → ℕ
segment_start h = h.p_pa - h.p_pa % sectsize

abbrev pub segment_end : Proghdr → ℕ
segment_end h = segment_start h + sectors_of h.p_pa h.p_memsz * sectsize

abbrev pub IsOutside : Proghdr → ℕ → Type 0
IsOutside h a = (a < segment_start h) ⊎ (segment_end h ≤ a)

-- A segment that can be loaded: no larger in the file than in memory, at the same place of a sector
-- in both, a sector or more below the end of the address space, and clear of the headers.
pub record Fits (h : Proghdr) : Type 0 where
  pub shorter : h.p_filesz ≤ h.p_memsz
  pub aligned : h.p_pa % sectsize ≡ h.p_offset % sectsize
  pub below : h.p_pa + h.p_memsz ≤ u32 - sectsize
  pub on_disk : h.p_offset + h.p_memsz < 2 ^ 32
  pub clear : (segment_end h ≤ elfhdr) ⊎ (elfhdr + 4096 ≤ segment_start h)

-- Memory has the segment: what the file holds, and zeros behind it.
pub record Loaded (file : ℕ → ℕ) (h : Proghdr) (mem : Memory) : Type 0 where
  pub code : (i : ℕ) → i < h.p_filesz → mem (h.p_pa + i) ≡ file (h.p_offset + i)
  pub bss : (i : ℕ) → h.p_filesz ≤ i → i < h.p_memsz → mem (h.p_pa + i) ≡ 0

outside-HasHeaders :
    {file : ℕ → ℕ} {mem mem' : Memory} (h : Proghdr)
    → Fits h
    → HasHeaders file mem
    → ((a : ℕ) → IsOutside h a → mem' a ≡ mem a)
    → HasHeaders file mem'
outside-HasHeaders h f g same x lt = elim f.clear [
  | inl le ↦ same (elfhdr + x) (inr (omega arith)) ∙ g x lt
  | inr le ↦ same (elfhdr + x) (inl (omega arith)) ∙ g x lt
]

-- The rounds of the inner loop, for a header that memory still has.
clear_rest-done :
    (fuel ph i : ℕ) (mem : Memory) (h : Proghdr)
    → proghdr mem ph ≡ h
    → h.p_filesz ≤ h.p_memsz
    → h.p_memsz < u32
    → i ≡ h.p_memsz - h.p_filesz
    → clear_rest (suc fuel) ph i mem ≡ some mem
unfolding clear_rest
clear_rest-done fuel ph i mem h e le small last = rw e (ground arith)

clear_rest-step :
    (fuel ph i : ℕ) (mem : Memory) (h : Proghdr)
    → proghdr mem ph ≡ h
    → h.p_filesz ≤ h.p_memsz
    → h.p_pa + h.p_memsz < u32
    → i < h.p_memsz - h.p_filesz
    → clear_rest (suc fuel) ph i mem
      ≡ clear_rest fuel ph (i + 1) (update mem (h.p_pa + h.p_filesz + i) 0)
unfolding clear_rest
clear_rest-step fuel ph i mem h e le small lt = rw (e, size, lt→ltb _ _ lt, at) refl
  where
    size : (h.p_memsz + u32 - h.p_filesz) % u32 ≡ h.p_memsz - h.p_filesz
    size = omega arith

    at : (h.p_pa + h.p_filesz + i) % u32 ≡ h.p_pa + h.p_filesz + i
    at = omega arith

load_segment-eq :
    (drive : Command → ℕ → ℕ) (ph : ℕ) (mem : Memory) {mem1 mem2 : Memory} (h : Proghdr)
    → proghdr mem ph ≡ h
    → readseg drive h.p_pa h.p_memsz h.p_offset mem ≡ some mem1
    → proghdr mem1 ph ≡ h
    → h.p_filesz ≤ h.p_memsz
    → h.p_memsz < u32
    → clear_rest (h.p_memsz - h.p_filesz + 1) ph 0 mem1 ≡ some mem2
    → load_segment drive ph mem ≡ some mem2
unfolding load_segment
load_segment-eq drive ph mem h e read e1 le small run = rw (load_segment, e, read, e1, size) run
  where
    size : (h.p_memsz + u32 - h.p_filesz) % u32 ≡ h.p_memsz - h.p_filesz
    size = omega arith

module _ {file : ℕ → ℕ} (p : ℕ) (inside : p + 32 ≤ 4096) (h : Proghdr) (e : proghdr file p ≡ h)
    (f : Fits h) where
  -- The inner loop, with `n` bytes left to clear from the `i`th on.
  clear_rest-clears :
      (n fuel i : ℕ) (mem : Memory)
      → HasHeaders file mem
      → n < fuel
      → i + n ≡ h.p_memsz - h.p_filesz
      → (mem' : Memory) × (clear_rest fuel (elfhdr + p) i mem ≡ some mem')
        × ((a : ℕ) → h.p_pa + h.p_filesz + i ≤ a → a < h.p_pa + h.p_memsz → mem' a ≡ 0)
        × ((a : ℕ) → (a < h.p_pa + h.p_filesz + i) ⊎ (h.p_pa + h.p_memsz ≤ a) → mem' a ≡ mem a)
  clear_rest-clears n zero i mem g enough rest = elim enough [ ]
  clear_rest-clears zero (suc fuel) i mem g enough rest = (
    mem,
    clear_rest-done fuel (elfhdr + p) i mem h (proghdr-HasHeaders mem p g inside ∙ e) f.shorter
        (omega (arith, f.below)) (omega arith),
    λ a from to. absurd (omega (arith, f.shorter)),
    λ a out. refl,
  )
  clear_rest-clears (suc n) (suc fuel) i mem g enough rest =
      let here = h.p_pa + h.p_filesz + i in
      let mem1 : Memory = update mem here 0 in
      let other1 : (a : ℕ) → a ≢ here → mem1 a ≡ mem a = λ a ne. rw (==_ne a here ne) refl in
      let zero1 : mem1 here ≡ 0 = rw (==_refl here) refl in
      let g1 : HasHeaders file mem1 =
        outside-HasHeaders h f g (λ a out. other1 a (omega (arith, f.shorter, out))) in
      let (mem', run, zeros, other) =
        clear_rest-clears n fuel (i + 1) mem1 g1 (omega arith) (omega arith) in
      (
        mem',
        clear_rest-step fuel (elfhdr + p) i mem h (proghdr-HasHeaders mem p g inside ∙ e) f.shorter
              (omega (arith, f.below)) (omega arith)
            ∙ run,
        λ a from to. elim (dec_lt here a) [
          | yes lt ↦ zeros a (omega arith) to
          | no ge ↦ other a (inl (omega arith)) ∙ ap mem1 (omega arith) ∙ zero1
        ],
        λ a out. elim out [
          | inl lt ↦ other a (inl (omega arith)) ∙ other1 a (omega arith)
          | inr le ↦ other a (inr le) ∙ other1 a (omega (arith, f.shorter))
        ],
      )

  -- One round of the loop of `bootmain` loads the segment, and writes only to its sectors.
  pub load_segment-Loaded :
      {disk : ℕ → ℕ} {drive : Command → ℕ → ℕ} (mem : Memory)
      → IsDrive disk drive
      → ((a : ℕ) → file a ≡ disk (sectsize + a))
      → HasHeaders file mem
      → (mem' : Memory) × (load_segment drive (elfhdr + p) mem ≡ some mem')
        × Loaded file h mem'
        × HasHeaders file mem'
        × ((a : ℕ) → IsOutside h a → mem' a ≡ mem a)
  load_segment-Loaded {disk} {drive} mem d image g =
      let (mem1, read, holds) = readseg-Holds d h.p_pa h.p_memsz h.p_offset mem f.below f.on_disk in
      let g1 : HasHeaders file mem1 = outside-HasHeaders h f g holds.outside in
      let (mem2, run, zeros, other) =
        clear_rest-clears (h.p_memsz - h.p_filesz) (h.p_memsz - h.p_filesz + 1) 0 mem1 g1
          (omega arith) (omega arith) in
      let kept : (a : ℕ) → IsOutside h a → mem2 a ≡ mem a = λ a out. elim out [
        | inl lt ↦ other a (inl (omega arith)) ∙ holds.outside a (inl lt)
        | inr le ↦ other a (inr (omega arith)) ∙ holds.outside a (inr le)
      ] in
      (
        mem2,
        load_segment-eq drive (elfhdr + p) mem h (proghdr-HasHeaders mem p g inside ∙ e) read
            (proghdr-HasHeaders mem1 p g1 inside ∙ e) f.shorter (omega (arith, f.below)) run,
        record {
          code = λ i lt.
              other (h.p_pa + i) (inl (omega arith))
              ∙ holds.inside (h.p_pa + i) (omega arith) (omega (arith, f.shorter))
              ∙ ap disk (omega (arith, f.aligned))
              ∙ sym (image (h.p_offset + i));
          bss = λ i ge lt. zeros (h.p_pa + i) (omega arith) (omega arith);
        },
        outside-HasHeaders h f g kept,
        kept,
      )

-- A loaded segment stays loaded while another one, in other sectors, is loaded.
pub Loaded-frame :
    {file : ℕ → ℕ} {mem mem' : Memory} (h h' : Proghdr)
    → Fits h
    → (segment_end h ≤ segment_start h') ⊎ (segment_end h' ≤ segment_start h)
    → ((a : ℕ) → IsOutside h' a → mem' a ≡ mem a)
    → Loaded file h mem
    → Loaded file h mem'
Loaded-frame {mem} {mem'} h h' f apart kept l = record {
  code = λ i lt. same i (omega (arith, f.shorter)) ∙ l.code i lt;
  bss = λ i ge lt. same i lt ∙ l.bss i ge lt;
}
  where
    same : (i : ℕ) → i < h.p_memsz → mem' (h.p_pa + i) ≡ mem (h.p_pa + i)
    same i lt = elim apart [
      | inl le ↦ kept (h.p_pa + i) (inl (omega arith))
      | inr le ↦ kept (h.p_pa + i) (inr (omega arith))
    ]
