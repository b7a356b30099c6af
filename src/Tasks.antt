-- ===== src/Tasks.antt =====
-- The task scheduler of arch/x86/kernel/task.c.
pub mod Schedule
pub mod Fair
pub mod Turns
mod Examples
