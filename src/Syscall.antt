-- ===== src/Syscall.antt =====
-- kern/syscall.c: the system calls and their dispatch.
pub mod Envs
pub mod Pages
pub mod Ipc
pub mod Dispatch
pub mod Guard
pub mod Message
pub mod Mapping
