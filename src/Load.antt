-- ===== src/Load.antt =====
-- How kern/env.c fills a new address space: `region_alloc`, `load_icode` and `env_create`. The ELF
-- image is a parameter, its bytes by offset. An address is stored to through the page tables that CR3
-- names, as in Trap/Fault.
pub mod Region
use arch.Base.{
  ℕ, zero, suc, ◌+◌, ◌-◌, ◌*◌, ◌/◌, ◌%◌, ◌^◌, true, false, not, none, some, ◌==◌, ltb,
  if◌then◌else◌,
}
use arch.Kern.{Env, M, panic, out_of_fuel, pure, fail, get, modify, when, ◌>>=◌, ◌>>◌, modify_env}
use arch.Kern.Layout.{u32, pgsize, ustacktop, round_down, round_up, is_neg}
use arch.Boot.{word16, word32, elf_magic}
use arch.Env.Alloc.{env_alloc, pgdir_of}
use arch.Env.Table.{deref}
use arch.Pmap.Alloc.{page_alloc}
use arch.Pmap.Walk.{page_insert}
use arch.Trap.Fault.{store_byte}

-- The loop of `region_alloc`, with the rounds that the model allows. What `page_insert` returns is
-- not looked at; 6 is PTE_U | PTE_W.
unfoldable pub alloc_pages : (fuel : ℕ) → (e eva cva : ℕ) → M (Unit {0})
alloc_pages zero e eva cva = fail out_of_fuel
alloc_pages (suc fuel) e eva cva =
    let rest = alloc_pages fuel e eva ((cva + pgsize) % u32) in
    if ltb cva eva
    then (do
      page ← page_alloc false
      elim page [
        | none ↦ fail panic
        | some pp ↦ do pgdir ← pgdir_of e; page_insert pgdir pp cva 6; rest
      ])
    else pure tt

unfoldable pub region_alloc : (e va len : ℕ) → M (Unit {0})
region_alloc e va len =
    let cva = round_down va pgsize in
    let eva = round_up ((va + len) % u32) pgsize in alloc_pages ((eva - cva) / pgsize + 1) e eva cva

-- `memcpy` of bytes of the image, and `memset` to 0, at user addresses, with the bytes left.
unfoldable pub copy_image : ℕ → (binary : ℕ → ℕ) → (va offset : ℕ) → M (Unit {0})
copy_image zero binary va offset = pure tt
copy_image (suc n) binary va offset =
    let rest = copy_image n binary ((va + 1) % u32) (offset + 1) in
    (store_byte va (binary offset) >> rest)

unfoldable pub clear_user : ℕ → (va : ℕ) → M (Unit {0})
clear_user zero va = pure tt
clear_user (suc n) va = let rest = clear_user n ((va + 1) % u32) in (store_byte va 0 >> rest)

-- One round of the loop of `load_icode`, for the program header at `ph`. ELF_PROG_LOAD is 1.
unfoldable pub load_header : (binary : ℕ → ℕ) → (e ph : ℕ) → M (Unit {0})
load_header binary e ph =
    let p_va = word32 binary (ph + 8) in
    let p_filesz = word32 binary (ph + 16) in
    let p_memsz = word32 binary (ph + 20) in
    when (word32 binary ph == 1) (do
      region_alloc e p_va p_memsz
      copy_image p_filesz binary p_va (word32 binary (ph + 4))
      when (ltb p_filesz p_memsz) (clear_user (p_memsz - p_filesz) ((p_va + p_filesz) % u32)))

-- The loop, with the headers left.
unfoldable pub load_headers : ℕ → (binary : ℕ → ℕ) → (e ph : ℕ) → M (Unit {0})
load_headers zero binary e ph = pure tt
load_headers (suc n) binary e ph =
    let rest = load_headers n binary e (ph + 32) in (load_header binary e ph >> rest)

unfoldable pub load_icode : (e : ℕ) → (binary : ℕ → ℕ) → M (Unit {0})
load_icode e binary = if not (word32 binary 0 == elf_magic) then fail panic else do
  pgdir ← pgdir_of e
  modify (λ k. record k { cr3 = pgdir })
  load_headers (word16 binary 44) binary e (word32 binary 28)
  modify (λ k. record k { cr3 = k.kern_pgdir })
  modify_env e (λ v. record v { env_tf = record v.env_tf { tf_eip = word32 binary 24 } })
  region_alloc e (ustacktop - pgsize) pgsize

unfoldable pub env_create : (binary : ℕ → ℕ) → (type : ℕ) → M (Unit {0})
env_create binary type = do
  r ← env_alloc 0
  if is_neg r.0 then fail panic else do
    e ← deref r.1
    modify_env e (λ v. record v { env_type = type; env_parent_id = 0 })
    load_icode e binary
