-- ===== src/Examples/Processors.antt =====
-- Runs of `mp_init` on two configuration tables.
use arch.Base.{
  ℕ, ◌+◌, ◌-◌, ◌^◌, ◌<◌, ◌≡◌, refl, arith, true, false, inl, ◌==◌, leb, if◌then◌else◌, List, [],
  ◌∷◌,
}
use arch.Boot.{Memory}
use arch.Smp.{Smp, found, mpconfig, mpsearch1, mp_init, done, overrun}
use arch.Smp.Table.{Entry, cpu, device, cpus, boot_index}
use arch.Smp.Processors.{mp_init_lem, mp_init-overrun}

-- The byte of an association list of offsets, or 0
abbrev byte_at : List (ℕ × ℕ) → ℕ → ℕ
byte_at [] a = 0
byte_at ((i, b) ∷ xs) a = if i == a then b else byte_at xs a

-- The segment 0x9F0 of the extended BIOS data area is in the BIOS data area; the floating pointer
-- structure is at its start, and says that the table is at 0x8000.
abbrev memory_with : List (ℕ × ℕ) → Memory
memory_with conf a =
    if leb 0x9F00 a
    then byte_at
        ((0, 95) ∷ (1, 77) ∷ (2, 80) ∷ (3, 95) ∷ (5, 0x80) ∷ (8, 1) ∷ (9, 4) ∷ (10, 32) ∷ [])
        (a - 0x9F00)
    else if leb 0x8000 a
    then byte_at conf (a - 0x8000)
    else byte_at ((0x40E, 0xF0) ∷ (0x40F, 9) ∷ []) a

-- The boot processor, a bus, and another processor
abbrev two_cpus : Memory
two_cpus = memory_with (
    (0, 80)
    ∷ (1, 67)
    ∷ (2, 77)
    ∷ (3, 80)
    ∷ (4, 92)
    ∷ (6, 4)
    ∷ (7, 138)
    ∷ (34, 3)
    ∷ (38, 0xE0)
    ∷ (39, 0xFE)
    ∷ (47, 3)
    ∷ (64, 1)
    ∷ (75, 1)
    ∷ [])

-- Nine processors, of which the last one is the boot processor
abbrev nine_cpus : Memory
nine_cpus =
    memory_with (
      (0, 80)
      ∷ (1, 67)
      ∷ (2, 77)
      ∷ (3, 80)
      ∷ (4, 224)
      ∷ (6, 4)
      ∷ (7, 225)
      ∷ (34, 9)
      ∷ (207, 2)
      ∷ [])

abbrev unset : Smp
unset = record {
  cpu_id = λ i. 0;
  cpu_status = λ i. 0;
  bootcpu = 0;
  ismp = false;
  ncpu = 0;
  lapicaddr = 0;
  imcr = false;
}

accepted : mpconfig 16 two_cpus ≡ found (0x9F00, 0x8000)
unfolding mpconfig arch.Smp.mpsearch mpsearch1 arch.Smp.search_from arch.Smp.conf_of
    arch.Smp.is_conf arch.Smp.is_mp arch.Smp.sum arch.Smp.or_else arch.Text.Strings.memcmp
accepted = refl

accepted_nine : mpconfig 16 nine_cpus ≡ found (0x9F00, 0x8000)
unfolding mpconfig arch.Smp.mpsearch mpsearch1 arch.Smp.search_from arch.Smp.conf_of
    arch.Smp.is_conf arch.Smp.is_mp arch.Smp.sum arch.Smp.or_else arch.Text.Strings.memcmp
accepted_nine = refl

mp_init_lem_example :
    (s' : Smp) × (mp_init 16 two_cpus unset ≡ done s')
    × (s'.ncpu ≡ 2)
    × ((i : ℕ) → i < 2 → s'.cpu_id i ≡ i)
    × (s'.bootcpu ≡ 0)
    × (s'.cpu_status s'.bootcpu ≡ 1)
    × (s'.lapicaddr ≡ 0xFEE0_0000)
    × (s'.ismp ≡ true)
mp_init_lem_example =
    mp_init_lem 16 two_cpus unset accepted refl (cpu true ∷ device ∷ cpu false ∷ [])
      (refl, refl, (omega arith, omega arith, (refl, refl, tt))) refl (omega arith)

mp_init-overrun_example : mp_init 16 nine_cpus unset ≡ overrun
mp_init-overrun_example =
    mp_init-overrun 16 nine_cpus unset accepted_nine refl eight [] listed refl (omega arith)
  where
    eight : List Entry
    eight =
        cpu false
        ∷ cpu false
        ∷ cpu false
        ∷ cpu false
        ∷ cpu false
        ∷ cpu false
        ∷ cpu false
        ∷ cpu false
        ∷ []

    listed : arch.Smp.Table.Entries nine_cpus (0x8000 + 44) (arch.Base.◌++◌ eight (cpu true ∷ []))
    listed = (
      refl,
      refl,
      (
        refl,
        refl,
        (
          refl,
          refl,
          (refl, refl, (refl, refl, (refl, refl, (refl, refl, (refl, refl, (refl, refl, tt)))))),
        ),
      ),
    )
