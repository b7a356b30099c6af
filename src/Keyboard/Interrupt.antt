-- ===== src/Keyboard/Interrupt.antt =====
-- keyboard_handler of arch/x86/drivers/keyboard/keyboard.c.
use cobra_os.Base.{
  ℕ, zero, suc, ◌+◌, ◌%◌, Bool, true, false, not, ◌&&◌, ◌==◌, if◌then◌else◌, List, [], ◌∷◌,
}
use cobra_os.Keyboard.State.{
  ctrl_active, alt_active, key_is_down, key_set_down, key_clear_down, buffer_is_full, Keyboard,
}
use cobra_os.Keyboard.Keystroke.{
  released, handle_special_keys, handle_cursor_movement, accepts, put_if, process_character,
}

-- a write to a port: `outb(port, value)`
abbrev pub PortWrite : Type 0
PortWrite = ℕ × ℕ

-- What the handler reads: the values that its reads of KEYBOARD_STATUS_PORT give, one after the
-- other, and the byte at KEYBOARD_DATA_PORT.
pub record Input : Type 0 where
  pub status : ℕ → ℕ
  pub scancode : ℕ

-- The wait for data, `while ((inb(STATUS) & 0x01) == 0 && --timeout)`: what is left of `timeout`.
unfoldable pub wait : (ℕ → ℕ) → ℕ → ℕ → ℕ
wait status k zero = zero
wait status k (suc t) =
    let rest = wait status (k + 1) t in if status k % 2 == 0 then rest else suc t

-- the label `cleanup`
unfoldable pub cleanup : Keyboard → Keyboard × List PortWrite
unfolding buffer_is_full
cleanup s = (
  record s { buffer_overflow = if buffer_is_full s then s.buffer_overflow else false },
  (0x20, 0x20) ∷ [],
)

-- the handler after `handle_special_keys`, for the key `base`
unfoldable pub extended_key : Keyboard → ℕ → Bool → Keyboard
unfolding handle_cursor_movement ctrl_active alt_active
extended_key s base is_release =
    if is_release
    then s
    else if base == 0x1C
    then put_if (accepts s) s b'\n'
    else if base == 0x53 && ctrl_active s.mods && alt_active s.mods && not s.repeat_event
    then record s { reboot_requested = true }
    else if accepts s
    then handle_cursor_movement s base
    else s

unfoldable pub plain_key : Keyboard → ℕ → ℕ → Bool → Keyboard
unfolding process_character
plain_key s scancode base is_release =
    if base == 0x0E
    then (if is_release then s else put_if (accepts s) s 0x08)
    else if is_release
    then s
    else process_character s scancode

-- the handler's bookkeeping for a key that goes up or down
unfoldable pub track : Keyboard → ℕ → Keyboard
unfolding key_is_down key_set_down key_clear_down
track s scancode =
    let base = scancode % 128 in
    record s {
      repeat_event = not (released scancode) && key_is_down s.key_states base;
      key_states =
          if released scancode
          then key_clear_down s.key_states base
          else key_set_down s.key_states base;
    }

abbrev pub set_extended : Keyboard → Bool → Keyboard
set_extended s b = record s { mods = record (s.mods) { extended = b } }

-- the handler from the scancode on to `cleanup`
unfoldable pub receive : Keyboard → ℕ → Keyboard
unfolding track handle_special_keys extended_key plain_key
receive s scancode =
    if scancode == 0xE0
    then set_extended s true
    else if scancode == 0xE1
    then set_extended s false
    else (let extended = s.mods.extended in
        let base = scancode % 128 in
        let s1 = handle_special_keys (track s scancode) scancode extended in
        if extended
        then extended_key (set_extended s1 false) base (released scancode)
        else plain_key s1 scancode base (released scancode))

-- `keyboard_handler`. `check_stack_integrity` is always true and `fpu_in_use` always false.
unfoldable pub handler : Keyboard → Input → Keyboard × List PortWrite
handler s inp = if wait inp.status 0 1000 == 0 then cleanup s else cleanup (receive s inp.scancode)
