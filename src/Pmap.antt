-- ===== src/Pmap.antt =====
-- kern/pmap.c: physical pages with their reference counts, and two-level page tables.
pub mod Alloc
pub mod Walk
pub mod View
pub mod Startup
pub mod Kernmap
pub mod Mem
