-- ===== src/Screen.antt =====
-- The text screen of arch/x86/drivers/screen/screen.c: characters, scrolling and the cursor.
pub mod Print
pub mod Format
pub mod Bounds
pub mod Text
mod Examples
