-- ===== src/Trap.antt =====
-- kern/trap.c: what the kernel does with a trap.
pub mod Fault
pub mod Dispatch
