-- ===== src/Ramfs.antt =====
-- The RAM file system of arch/x86/fs/ramfs.c.
pub mod Node
pub mod Content
pub mod Tree
pub mod Lookup
pub mod Files
pub mod Reread
mod Examples
