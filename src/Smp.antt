-- ===== src/Smp.antt =====
-- The multiprocessor configuration tables, kern/mpconfig.c: `sum`, `mpsearch1`, `mpsearch`, `mpconfig`
-- and `mp_init` on physical memory by bytes. Printing is left out.
pub mod Search
pub mod Table
pub mod Processors
use arch.Base.{
  ℕ, zero, suc, ◌+◌, ◌-◌, ◌*◌, ◌/◌, ◌%◌, ◌^◌, Bool, true, false, ◌&&◌, ◌||◌, not, Option, none,
  some, ◌==◌, ltb, leb, if◌then◌else◌, update, List, [], ◌∷◌,
}
use arch.Boot.{Memory, word16, word32}
use arch.Kern.Layout.{u32, pgnum}
use arch.Text.Strings.{memcmp}

-- NCPU
abbrev pub max_cpus : ℕ
max_cpus = 8

abbrev pub bytes : Memory → (a n : ℕ) → List ℕ
bytes mem a zero = []
bytes mem a (suc n) = mem a ∷ bytes mem (a + 1) n

-- `sum`: the bytes added up in a `uint8_t`, with the sum so far.
unfoldable pub sum : Memory → (addr len acc : ℕ) → ℕ
sum mem addr zero acc = acc
sum mem addr (suc len) acc = sum mem (addr + 1) len ((acc + mem addr) % 2 ^ 8)

-- Does `memcmp` return 0 on the four bytes at `a` and those of `text`?
abbrev pub has_signature : Memory → ℕ → (text : List ℕ) → Bool
has_signature mem a text = elim (memcmp (bytes mem a 4) text 4) [ none ↦ false | some r ↦ r == 0 ]

-- "_MP_" and "PCMP"
abbrev pub mp_text : List ℕ
mp_text = 95 ∷ 77 ∷ 80 ∷ 95 ∷ []

abbrev pub pcmp_text : List ℕ
pcmp_text = 80 ∷ 67 ∷ 77 ∷ 80 ∷ []

-- The test of one place in `mpsearch1`.
unfoldable pub is_mp : Memory → ℕ → Bool
is_mp mem a = has_signature mem a mp_text && (sum mem a 16 0 == 0)

-- How a search or the set-up comes back: with a pointer or state, with NULL, or not at all, because
-- KADDR panics; or the model's own bound.
pub data Found (A : Type 0) : Type 0 where
  found : A → Found A
  null panicked out_of_rounds : Found A

-- The loop of `mpsearch1`, with the rounds that the model allows.
unfoldable pub search_from : (rounds : ℕ) → Memory → (mp end : ℕ) → Found ℕ
search_from zero mem mp end = out_of_rounds
search_from (suc rounds) mem mp end =
    let rest = search_from rounds mem (mp + 16) end in
    if ltb mp end then (if is_mp mem mp then found mp else rest) else null

-- `npages` is the number of pages, against which KADDR tests.
unfoldable pub mpsearch1 : (npages : ℕ) → Memory → (a len : ℕ) → Found ℕ
mpsearch1 npages mem a len =
    let end = (a + len) % u32 in
    if leb npages (pgnum a) || leb npages (pgnum end)
    then panicked
    else search_from ((end - a) / 16 + 2) mem a end

-- The next place where the first one has nothing.
unfoldable pub or_else : {A : Type 0} → Found A → Found A → Found A
or_else null other = other
or_else (found a) other = found a
or_else panicked other = panicked
or_else out_of_rounds other = out_of_rounds

-- `mpsearch`; the BIOS data area is at 0x400.
unfoldable pub mpsearch : (npages : ℕ) → Memory → Found ℕ
mpsearch npages mem =
    let ebda = word16 mem 0x40E in
    let base = word16 mem 0x413 * 1024 in
    if leb npages (pgnum 0x400)
    then panicked
    else or_else
        (if not (ebda == 0)
          then mpsearch1 npages mem (ebda * 16) 1024
          else mpsearch1 npages mem ((base + u32 - 1024) % u32) 1024)
        (mpsearch1 npages mem 0xF_0000 0x1_0000)

-- The tests of `mpconfig` on the table at `conf`: signature, checksum, version, and the checksum of
-- the extended table.
unfoldable pub is_conf : Memory → ℕ → Bool
is_conf mem conf =
    has_signature mem conf pcmp_text
    && (sum mem conf (word16 mem (conf + 4)) 0 == 0)
    && (mem (conf + 6) == 1 || mem (conf + 6) == 4)
    && ((sum mem (conf + word16 mem (conf + 4)) (word16 mem (conf + 40)) 0 + mem (conf + 42))
          % 2 ^ 8
        == 0)

-- `mpconfig` behind the search: the two structures.
unfoldable pub conf_of : (npages : ℕ) → Memory → Found ℕ → Found (ℕ × ℕ)
conf_of npages mem null = null
conf_of npages mem panicked = panicked
conf_of npages mem out_of_rounds = out_of_rounds
conf_of npages mem (found mp) =
    let conf = word32 mem (mp + 4) in
    if (conf == 0) || not (mem (mp + 11) == 0)
    then null
    else if leb npages (pgnum conf)
    then panicked
    else if is_conf mem conf
    then found (mp, conf)
    else null

unfoldable pub mpconfig : (npages : ℕ) → Memory → Found (ℕ × ℕ)
mpconfig npages mem = conf_of npages mem (mpsearch npages mem)

-- The globals that `mp_init` sets; `bootcpu` is the index into `cpus`, and `imcr` says whether the
-- interrupts are switched over to the local APIC.
pub record Smp : Type 0 where
  pub cpu_id : ℕ → ℕ
  pub cpu_status : ℕ → ℕ
  pub bootcpu : ℕ
  pub ismp : Bool
  pub ncpu : ℕ
  pub lapicaddr : ℕ
  pub imcr : Bool

-- The case of a processor, MPPROC, with its flag MPPROC_BOOT.
unfoldable pub add_cpu : (boot : Bool) → Smp → Smp
add_cpu boot s =
    let s1 = if boot then record s { bootcpu = s.ncpu } else s in
    if ltb s1.ncpu max_cpus
    then record s1 { cpu_id = update s1.cpu_id s1.ncpu s1.ncpu; ncpu = s1.ncpu + 1 }
    else s1

-- The loop over the entries of the table, with the number of entries left.
unfoldable pub read_entries : ℕ → Memory → (p : ℕ) → Smp → Smp
read_entries zero mem p s = s
read_entries (suc n) mem p s =
    let cpu = read_entries n mem (p + 20) (add_cpu (mem (p + 3) / 2 % 2 == 1) s) in
    let other = read_entries n mem (p + 8) s in
    if mem p == 0 then cpu else if leb (mem p) 4 then other else record s { ismp = false }

-- The result of `mp_init`: it returns, or KADDR panics, or it stores behind the end of `cpus`.
pub data Init : Type 0 where
  done : Smp → Init
  panic overrun stuck : Init

-- `mp_init` behind the loop
unfoldable pub start_bootcpu : Memory → (mp : ℕ) → Smp → Init
start_bootcpu mem mp s =
    let s1 = record s { cpu_status = update s.cpu_status s.bootcpu 1 } in
    if leb max_cpus s.bootcpu
    then overrun
    else if not s.ismp
    then done (record s1 { ncpu = 1; lapicaddr = 0 })
    else if not (mem (mp + 12) == 0)
    then done (record s1 { imcr = true })
    else done s1

unfoldable pub init_from : Memory → Found (ℕ × ℕ) → Smp → Init
init_from mem null s = done s
init_from mem panicked s = panic
init_from mem out_of_rounds s = stuck
init_from mem (found (mp, conf)) s = start_bootcpu mem mp (
    read_entries (word16 mem (conf + 34)) mem (conf + 44)
      (record s { ismp = true; lapicaddr = word32 mem (conf + 36) }))

unfoldable pub mp_init : (npages : ℕ) → Memory → Smp → Init
mp_init npages mem s = init_from mem (mpconfig npages mem) (record s { bootcpu = 0 })
