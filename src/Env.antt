-- ===== src/Env.antt =====
-- kern/env.c: the table of environments, its free list and their identifiers.
pub mod Table
pub mod Alloc
pub mod Switch
pub mod Ids
pub mod Fresh
pub mod Running
