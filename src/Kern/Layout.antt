-- ===== src/Kern/Layout.antt =====
-- The constants and address macros of inc/mmu.h, inc/memlayout.h, inc/env.h, inc/error.h,
-- inc/types.h and kern/pmap.h. An error code is the bit pattern of the negative `int`.
use arch.Base.{ℕ, ◌+◌, ◌-◌, ◌*◌, ◌/◌, ◌%◌, ◌^◌, Bool, bit_or, ◌==◌, leb}

-- one more than the largest 32-bit word
abbrev pub u32 : ℕ
u32 = 0x1_0000_0000

-- PGSIZE
abbrev pub pgsize : ℕ
pgsize = 4096

-- KERNBASE, and KSTACKTOP
abbrev pub kernbase : ℕ
kernbase = 0xf000_0000

-- IOPHYSMEM
abbrev pub iophysmem : ℕ
iophysmem = 0xa_0000

-- MMIOLIM
abbrev pub mmiolim : ℕ
mmiolim = 0xefc0_0000

-- MMIOBASE, and ULIM
abbrev pub mmiobase : ℕ
mmiobase = 0xef80_0000

-- UVPT
abbrev pub uvpt : ℕ
uvpt = 0xef40_0000

-- UTOP, UENVS and UXSTACKTOP
abbrev pub utop : ℕ
utop = 0xeec0_0000

-- USTACKTOP
abbrev pub ustacktop : ℕ
ustacktop = 0xeebf_e000

-- MPENTRY_PADDR
abbrev pub mpentry_paddr : ℕ
mpentry_paddr = 0x7000

-- PTE_P
abbrev pub pte_p : ℕ
pte_p = 1

-- PTE_U
abbrev pub pte_u : ℕ
pte_u = 4

-- PTE_SYSCALL
abbrev pub pte_syscall : ℕ
pte_syscall = 0xe07

-- NENV
abbrev pub nenv : ℕ
nenv = 1024

-- ENV_FREE
abbrev pub env_free_status : ℕ
env_free_status = 0

-- ENV_DYING
abbrev pub env_dying : ℕ
env_dying = 1

-- ENV_RUNNABLE
abbrev pub env_runnable : ℕ
env_runnable = 2

-- ENV_RUNNING
abbrev pub env_running : ℕ
env_running = 3

-- ENV_NOT_RUNNABLE
abbrev pub env_not_runnable : ℕ
env_not_runnable = 4

-- ENV_TYPE_USER
abbrev pub env_type_user : ℕ
env_type_user = 0

-- -E_BAD_ENV as an int32_t
abbrev pub e_bad_env : ℕ
e_bad_env = u32 - 2

-- -E_INVAL
abbrev pub e_inval : ℕ
e_inval = u32 - 3

-- -E_NO_MEM
abbrev pub e_no_mem : ℕ
e_no_mem = u32 - 4

-- -E_NO_FREE_ENV
abbrev pub e_no_free_env : ℕ
e_no_free_env = u32 - 5

-- -E_FAULT
abbrev pub e_fault : ℕ
e_fault = u32 - 6

-- -E_IPC_NOT_RECV
abbrev pub e_ipc_not_recv : ℕ
e_ipc_not_recv = u32 - 7

-- `r < 0` for an `int`
abbrev pub is_neg : ℕ → Bool
is_neg r = leb 0x8000_0000 r

abbrev pub pgnum : ℕ → ℕ
pgnum la = la / 2 ^ 12

abbrev pub pdx : ℕ → ℕ
pdx la = la / 2 ^ 22 % 1024

abbrev pub ptx : ℕ → ℕ
ptx la = la / 2 ^ 12 % 1024

abbrev pub pgaddr : ℕ → ℕ → ℕ → ℕ
pgaddr d t o = bit_or (bit_or (d * 2 ^ 22) (t * 2 ^ 12)) o

abbrev pub round_down : ℕ → ℕ → ℕ
round_down a n = a - a % n

abbrev pub round_up : ℕ → ℕ → ℕ
round_up a n = round_down ((a + n - 1) % u32) n

-- `pte & PTE_P` and `pte & PTE_W` as conditions
abbrev pub has_p : ℕ → Bool
has_p pte = pte % 2 == 1

abbrev pub has_w : ℕ → Bool
has_w pte = pte / 2 % 2 == 1

-- `PTE_ADDR(pte)`
abbrev pub pte_addr : ℕ → ℕ
pte_addr pte = pte / 2 ^ 12 * 2 ^ 12

-- `page2pa(pp)`
abbrev pub page2pa : ℕ → ℕ
page2pa pp = pp * 2 ^ 12 % u32
