-- ===== src/Smp/Table.antt =====
-- The entries of a configuration table, and what the loop of `mp_init` of kern/mpconfig.c makes of
-- them.
use arch.Base.{
  ℕ, ◌+◌, ◌/◌, ◌%◌, ◌≤◌, ◌<◌, ◌≡◌, refl, ◌∙◌, Bool, true, false, min, arith, List, [], ◌∷◌, ◌++◌,
  ◌==◌, length, leb, ==_ne, if◌then◌else◌,
}
use arch.Boot.{Memory}
use arch.Smp.{Smp, add_cpu, read_entries, max_cpus}

-- A processor, with its boot flag, or an entry of the types 1 to 4.
pub data Entry : Type 0 where
  cpu : Bool → Entry
  device : Entry

-- The bytes from `p` on are the entries.
abbrev pub Entries : Memory → (p : ℕ) → List Entry → Type 0
Entries mem p [] = Unit {0}
Entries mem p (cpu boot ∷ es) =
    (mem p ≡ 0) × ((mem (p + 3) / 2 % 2 == 1) ≡ boot) × Entries mem (p + 20) es
Entries mem p (device ∷ es) = (0 < mem p) × (mem p ≤ 4) × Entries mem (p + 8) es

-- The number of processors
abbrev pub cpus : List Entry → ℕ
cpus [] = 0
cpus (cpu boot ∷ es) = cpus es + 1
cpus (device ∷ es) = cpus es

-- The index of the last processor with the boot flag, where `n` processors come before the list and
-- the last such one of those is `b`.
abbrev pub boot_index : (n : ℕ) → List Entry → (b : ℕ) → ℕ
boot_index n [] b = b
boot_index n (cpu boot ∷ es) b = boot_index (n + 1) es (if boot then n else b)
boot_index n (device ∷ es) b = boot_index n es b

pub add_all : List Entry → Smp → Smp
add_all [] s = s
add_all (cpu boot ∷ es) s = add_all es (add_cpu boot s)
add_all (device ∷ es) s = add_all es s

pub read_entries-eq :
    (mem : Memory) (p : ℕ) (es : List Entry) (s : Smp)
    → Entries mem p es
    → read_entries (length es) mem p s ≡ add_all es s
unfolding read_entries add_all
read_entries-eq mem p [] s h = refl
read_entries-eq mem p (cpu boot ∷ es) s (type, flag, h) =
    rw (type, flag) (read_entries-eq mem (p + 20) es (add_cpu boot s) h)
read_entries-eq mem p (device ∷ es) s (pos, small, h) =
    let known : leb (mem p) 4 ≡ true = ground arith in
    rw (==_ne (mem p) 0 (omega arith), known) (read_entries-eq mem (p + 8) es s h)

-- Each processor found so far has its index as its identifier, and there are at most NCPU of them.
pub record IsNumbered (s : Smp) : Type 0 where
  pub few : s.ncpu ≤ max_cpus
  pub ids : (i : ℕ) → i < s.ncpu → s.cpu_id i ≡ i

add_cpu-IsNumbered : (boot : Bool) {s : Smp} → IsNumbered s → IsNumbered (add_cpu boot s)
unfolding add_cpu
add_cpu-IsNumbered true n = record {
  few = ground (arith, n.few);
  ids = λ i lt. ground (arith, n.ids i);
}
add_cpu-IsNumbered false n = record {
  few = ground (arith, n.few);
  ids = λ i lt. ground (arith, n.ids i);
}

pub add_all-IsNumbered : (es : List Entry) {s : Smp} → IsNumbered s → IsNumbered (add_all es s)
unfolding add_all
add_all-IsNumbered [] n = n
add_all-IsNumbered (cpu boot ∷ es) n = add_all-IsNumbered es (add_cpu-IsNumbered boot n)
add_all-IsNumbered (device ∷ es) n = add_all-IsNumbered es n

pub add_all-ncpu :
    (es : List Entry) (s : Smp)
    → s.ncpu ≤ max_cpus
    → (add_all es s).ncpu ≡ min max_cpus (s.ncpu + cpus es)
unfolding add_all add_cpu
add_all-ncpu [] s few = omega arith
add_all-ncpu (cpu boot ∷ es) s few = ground (arith, add_all-ncpu es (add_cpu boot s))
add_all-ncpu (device ∷ es) s few = add_all-ncpu es s few

-- What the loop leaves alone.
pub add_all-rest :
    (es : List Entry) (s : Smp)
    → ((add_all es s).ismp ≡ s.ismp) × ((add_all es s).lapicaddr ≡ s.lapicaddr)
unfolding add_all add_cpu
add_all-rest [] s = (refl, refl)
add_all-rest (cpu boot ∷ es) s = ground (arith, add_all-rest es (add_cpu boot s))
add_all-rest (device ∷ es) s = add_all-rest es s

add_cpu-more :
    (boot : Bool) (s : Smp)
    → s.ncpu < max_cpus
    → ((add_cpu boot s).ncpu ≡ s.ncpu + 1)
      × ((add_cpu boot s).bootcpu ≡ (if boot then s.ncpu else s.bootcpu))
unfolding add_cpu
add_cpu-more true s lt = ground arith
add_cpu-more false s lt = ground arith

pub add_all-boot :
    (es : List Entry) (s : Smp)
    → s.ncpu + cpus es ≤ max_cpus
    → (add_all es s).bootcpu ≡ boot_index s.ncpu es s.bootcpu
unfolding add_all
add_all-boot [] s few = refl
add_all-boot (cpu boot ∷ es) s few =
    let more = add_cpu-more boot s (omega arith) in
    add_all-boot es (add_cpu boot s) (omega (arith, more.0)) ∙ rw (more.0, more.1) refl
add_all-boot (device ∷ es) s few = add_all-boot es s few

pub boot_index-lt :
    (n : ℕ) (es : List Entry) (b : ℕ)
    → n + cpus es ≤ max_cpus
    → b < max_cpus
    → boot_index n es b < max_cpus
boot_index-lt n [] b few lt = lt
boot_index-lt n (cpu true ∷ es) b few lt = boot_index-lt (n + 1) es n (omega arith) (omega arith)
boot_index-lt n (cpu false ∷ es) b few lt = boot_index-lt (n + 1) es b (omega arith) lt
boot_index-lt n (device ∷ es) b few lt = boot_index-lt n es b few lt

pub add_all-append :
    (es1 es2 : List Entry) (s : Smp) → add_all (es1 ++ es2) s ≡ add_all es2 (add_all es1 s)
unfolding add_all
add_all-append [] es2 s = refl
add_all-append (cpu boot ∷ es1) es2 s = add_all-append es1 es2 (add_cpu boot s)
add_all-append (device ∷ es1) es2 s = add_all-append es1 es2 s

-- With NCPU processors found, a boot processor leaves `bootcpu` behind the end, and so it stays.
abbrev IsPast : Smp → Type 0
IsPast s = (s.ncpu ≡ max_cpus) × (s.bootcpu ≡ max_cpus)

add_cpu-IsPast : (boot : Bool) (s : Smp) → IsPast s → IsPast (add_cpu boot s)
unfolding add_cpu
add_cpu-IsPast true s h = ground arith
add_cpu-IsPast false s h = ground arith

add_all-IsPast : (es : List Entry) (s : Smp) → IsPast s → IsPast (add_all es s)
unfolding add_all
add_all-IsPast [] s h = h
add_all-IsPast (cpu boot ∷ es) s h = add_all-IsPast es (add_cpu boot s) (add_cpu-IsPast boot s h)
add_all-IsPast (device ∷ es) s h = add_all-IsPast es s h

add_cpu-boot : (s : Smp) → s.ncpu ≡ max_cpus → IsPast (add_cpu true s)
unfolding add_cpu
add_cpu-boot s h = ground arith

pub add_all-past :
    (es1 es2 : List Entry) (s : Smp)
    → s.ncpu ≡ 0
    → max_cpus ≤ cpus es1
    → (add_all (es1 ++ cpu true ∷ es2) s).bootcpu ≡ max_cpus
unfolding add_all
add_all-past es1 es2 s none_yet many =
    rw (add_all-append es1 (cpu true ∷ es2) s)
      (add_all-IsPast es2 (add_cpu true (add_all es1 s))
        (add_cpu-boot (add_all es1 s) (add_all-ncpu es1 s (omega arith) ∙ omega arith))).1
