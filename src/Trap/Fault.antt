-- ===== src/Trap/Fault.antt =====
-- `page_fault_handler` of kern/trap.c, with the stores into the user's exception stack that it makes
-- through the page tables in use.
use arch.Base.{
  ℕ, zero, suc, ◌+◌, ◌-◌, ◌*◌, ◌/◌, ◌%◌, ◌^◌, ◌&&◌, Option, none, some, ◌==◌, if◌then◌else◌, ltb,
  List, [], ◌∷◌,
}
use arch.Kern.{
  Kern, Trapframe, PushRegs, M, panic, stop, pure, fail, get, ◌>>=◌, ◌>>◌, modify_env, set_word,
}
use arch.Kern.Layout.{u32, utop, pgsize, pdx, ptx, has_p, has_w, pgnum}
use arch.Env.Switch.{env_run}
use arch.Sched.Destroy.{env_destroy, user_mem_assert}
use arch.Syscall.Envs.{cur}

-- The page that the MMU finds for a write to `va` (inc/mmu.h): both entries present and writable.
unfoldable pub translate : ℕ → Kern → Option ℕ
translate va k =
    let pde = k.mem k.cr3 (pdx va) in
    let pte = k.mem (pgnum pde) (ptx va) in
    if has_p pde && has_w pde && (has_p pte && has_w pte) then some (pgnum pte) else none

-- The word `w` with its byte `i` replaced.
unfoldable pub set_byte : (w i b : ℕ) → ℕ
set_byte w i b = let p = 2 ^ (8 * i) in w / (p * 256) * (p * 256) + b * p + w % p

-- A byte stored by the kernel. A store that the MMU refuses is a page fault in kernel mode, on which
-- `page_fault_handler` panics.
unfoldable pub store_byte : (va b : ℕ) → M (Unit {0})
store_byte va b k = elim (translate va k) [
  | none ↦ stop panic k
  | some p ↦ let i = va % pgsize / 4 in set_word p i (set_byte (k.mem p i) (va % 4) b) k
]

unfoldable pub store_bytes : ℕ → (va v : ℕ) → M (Unit {0})
store_bytes zero va v = pure tt
store_bytes (suc n) va v =
    let rest = store_bytes n ((va + 1) % u32) (v / 256) in (store_byte va (v % 256) >> rest)

-- Words stored one after the other from `va` on.
unfoldable pub store_words : (va : ℕ) → List ℕ → M (Unit {0})
store_words va [] = pure tt
store_words va (w ∷ ws) = store_bytes 4 va w >> store_words ((va + 4) % u32) ws

-- `struct UTrapframe` in the order of its fields
unfoldable pub utrapframe : ℕ → Trapframe → List ℕ
utrapframe fault_va tf =
    fault_va ∷ tf.tf_err ∷ regs.reg_edi ∷ regs.reg_esi ∷ regs.reg_ebp ∷ regs.reg_oesp ∷ regs.reg_ebx
    ∷ regs.reg_edx ∷ regs.reg_ecx ∷ regs.reg_eax ∷ tf.tf_eip ∷ tf.tf_eflags ∷ tf.tf_esp ∷ []
  where
    regs : PushRegs
    regs = tf.tf_regs

-- The address of the frame: below the user's stack pointer if that is in the exception stack, and
-- below UXSTACKTOP otherwise, with a scratch word above.
unfoldable pub frame_addr : Trapframe → ℕ
frame_addr tf =
    (if ltb (utop - pgsize) tf.tf_esp && ltb tf.tf_esp utop then tf.tf_esp else utop) - 56

-- `fault_va` is what the CPU holds in CR2.
unfoldable pub page_fault_handler : (fault_va : ℕ) → Trapframe → M (Unit {0})
page_fault_handler fault_va tf = if tf.tf_cs % 4 == 0 then fail panic else do
  c ← cur
  upcall ← get (λ k. (k.envs c).env_pgfault_upcall)
  if upcall == 0 then env_destroy c else do
    user_mem_assert c (frame_addr tf) 56 6
    store_words (frame_addr tf) (utrapframe fault_va tf)
    modify_env c
        (λ v. record v { env_tf = record v.env_tf { tf_eip = upcall; tf_esp = frame_addr tf } })
    e ← cur
    env_run e
