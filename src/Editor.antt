-- ===== src/Editor.antt =====
-- The text editor of arch/x86/snake/snake.c.
pub mod Line
pub mod State
pub mod Edit
pub mod Page
pub mod Lines
pub mod Clone
pub mod Stacks
pub mod Valid
pub mod Spec
pub mod Pages
pub mod Breaks
pub mod Joins
pub mod Granted
pub mod Refine
pub mod Erase
pub mod Commands
pub mod Undo
pub mod Keys
pub mod Growth
pub mod File
pub mod Saved
pub mod Parsed
pub mod Found
pub mod Reopened
pub mod Session
pub mod Loop
pub mod Supply
pub mod Opening
pub mod Rounds
pub mod Runs
pub mod Decode
mod Examples
