-- ===== src/Shell.antt =====
-- The shell's line editor, arch/x86/kernel/shell.c: shell_feed_char and what it calls. A character is
-- a byte below 256. The redrawing of the line is left out, and a line handed to
-- shell_process_line is recorded in the state.
pub mod Line
pub mod Feed
pub mod Zipper
pub mod Strings
pub mod Safe
pub mod Numbers
pub mod ReadBack
mod Examples
