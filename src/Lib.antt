-- ===== src/Lib.antt =====
-- The JOS kernel (mit6828/lab), its boot loader, the parts of its library that the kernel uses, and the
-- user-level fork.
--
-- The kernel manages physical pages, page tables and environments, schedules the environments on the
-- CPUs under one lock, and serves their system calls and traps. Everything but the lock itself runs
-- with the lock held, so the model is a state monad: `Kern` is the record of the kernel's globals as
-- the CPU that holds the lock sees them, `M A` a function from it to a result and a new state, or to
-- the reason why the function does not come back (`Exit`: a panic, a wild pointer, the return to user
-- mode, a halted CPU). A C function keeps its name.
--
-- Base: tests on numbers, lists and bits that the other files share.
-- Kern: the state, the monad and the run predicates `Ensures` and `Exits`; Kern/Layout has the
--   constants and macros of inc/mmu.h, inc/memlayout.h, inc/env.h, inc/error.h and inc/types.h.
-- Pmap/Alloc: boot_alloc, page_init, page_alloc, page_free and page_decref of
--   mit6828/lab/kern/pmap.c. `IsFreeList` says which pages the linked free list holds.
-- Pmap/Walk: pgdir_walk, boot_map_region, page_lookup, page_insert, page_remove, tlb_invalidate.
-- Pmap/View: a page directory and its tables as one map from addresses to entries, and what
--   boot_map_region and page_insert do to it.
-- Pmap/Startup: the tables of mit6828/lab/kern/entrypgdir.c that paging is turned on with.
-- Pmap/Kernmap: the regions that mem_init and mem_init_mp map.
-- Pmap/Mem: user_mem_check and mmio_map_region.
-- Env: mit6828/lab/kern/env.c. Env/Table has env_init and envid2env, Env/Alloc env_setup_vm,
--   env_alloc and env_free, Env/Switch env_run, env_pop_tf and the lock of
--   mit6828/lab/kern/spinlock.c.
-- Load: region_alloc, load_icode and env_create of mit6828/lab/kern/env.c.
-- Sched: mit6828/lab/kern/sched.c; Sched/Destroy has env_destroy and user_mem_assert, which schedule.
-- Syscall: mit6828/lab/kern/syscall.c, with the calls on environments, pages and messages in Envs,
--   Pages and Ipc, and the dispatch in Dispatch.
-- Trap: trap, trap_dispatch and page_fault_handler of mit6828/lab/kern/trap.c.
-- Lock: the lock of mit6828/lab/kern/spinlock.c once more, with several CPUs, as a step relation in
--   which one step is one shared access of one CPU.
-- Boot: mit6828/lab/boot/main.c, on memory by bytes: Boot/Sectors has what readseg reads, Boot/Segment
--   one segment, and Boot/Image the whole image.
-- Smp: mit6828/lab/kern/mpconfig.c: Smp/Search for the floating pointer, Smp/Table and Smp/Processors for
--   the entries of the table and mp_init.
-- User: mit6828/lab/lib/fork.c with the stubs of mit6828/lab/lib/syscall.c; an `int 0x30` is a call of
--   the kernel's syscall, and uvpt is read through the page that CR3 names. User/Room has the states in
--   which a table is there or is made, User/Steps and User/Private the calls of pgfault.
-- Debug: stab_binsearch of mit6828/lab/kern/kdebug.c; Debug/Info has debuginfo_eip, which gets the
--   tables as parameters.
-- Console: the circular input buffer of mit6828/lab/kern/console.c; Console/Screen has its cga_putc,
--   and Console/Readline mit6828/lab/lib/readline.c. Console/Keymaps and Console/Keyboard have the
--   tables and kbd_proc_data of console.c, and Console/Keyboard/Spec what its bytes mean.
-- Monitor: runcmd of mit6828/lab/kern/monitor.c, with the words of a line in Monitor/Words, the loop over
--   them in Monitor/Arguments and the choice of the command in Monitor/Commands.
-- Text: mit6828/lab/lib/string.c and mit6828/lab/lib/printfmt.c; Text/Format has vprintfmt, which
--   takes the list of its arguments and gives the characters it puts, Text/Buffer vsnprintf, and Text/Print
--   the vcprintf of mit6828/lab/lib/printf.c. Where an argument is missing or an `int` overflows in
--   vprintfmt, it has no result.
-- Examples: a small machine and concrete runs.
--
-- A pointer into an array is the index, with `none` for NULL; a page directory or table is the number
-- of its page, and physical memory a function of page and 32-bit word. Integers are numbers with the
-- wrap-around written out; a negative one is its bit pattern. A string is the list of the bytes up to
-- the end of its object.
--
-- Bounds: the loop of user_mem_check gets one round more than there are pages between the rounded
-- begin and the rounded end, which is all the rounds it can make; printnum gets 64 rounds, the digits
-- of a 64-bit number in base 2; stab_binsearch gets two rounds for each stab of its region and one,
-- which Debug/Termination shows to be enough, and vprintfmt one for each character of the format and
-- one, which Text/Format/Fuel shows. readseg gets a round for each sector between the rounded begin and
-- the end and two more, the clearing of a segment one for each byte and one, the loop over the program
-- headers one for each header and one, and with these Boot/Image shows that bootmain comes to its
-- end. mpsearch1 gets one for each 16 bytes and two, region_alloc one for each page and one, and the loops
-- of runcmd one for each byte of the buffer and one; Smp/Search, Load/Region and Monitor/Commands show
-- that these are enough. All other loops run over a range that is known at their start.
--
-- Parameters: the linker's symbol `end`, the CPU's EFLAGS and CR2 at a trap, the console's answer to
-- sys_cgetc, the characters that the devices give, what the disk has for a command, the bytes of
-- physical memory that the firmware leaves, those of an ELF image, and the addresses of the kernel's own
-- arrays. The kernel's own memory outside physical
-- pages is the record `Kern`, and the TLB is the log of the flushed addresses.
--
-- Not modelled: the detection of memory and the self-tests of pmap.c, descriptor tables, the serial and
-- parallel ports, interrupt controllers and the start of the other CPUs, the output of the monitor's
-- commands, the user-level IPC library, the user programs, the copy of xv6 and the digital designs under
-- edc. They are device programming, assembly, tests or code around the parts above.
pub mod Base
pub mod Kern
pub mod Boot
pub mod Smp
pub mod Pmap
pub mod Env
pub mod Sched
pub mod Syscall
pub mod Trap
pub mod Load
pub mod Lock
pub mod Console
pub mod Monitor
pub mod Debug
pub mod User
pub mod Text
pub mod Examples
