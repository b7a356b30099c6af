-- ===== src/Keyboard.antt =====
-- The keyboard driver, arch/x86/drivers/keyboard/keyboard.c with its tables in
-- include/key_maps.h: the interrupt handler that turns scancodes into characters, and the ring
-- buffer between it and the readers. A character is a byte below 256. The mask `& 7` is written
-- `% 8`, `& 0x7F` is `% 128`, and the bit `& 0x80` of a byte is `/ 128 % 2`. The messages on the
-- screen are left out.
pub mod Qwerty
pub mod Azerty
pub mod Dvorak
pub mod State
pub mod Keystroke
pub mod Interrupt
pub mod Buffer
pub mod Keys
pub mod Handler
pub mod Output
pub mod Bounds
mod Examples
