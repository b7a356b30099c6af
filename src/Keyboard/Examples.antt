-- ===== src/Keyboard/Examples.antt =====
-- The keyboard driver of arch/x86/drivers/keyboard/keyboard.c on concrete keystrokes.
use cobra_os.Base.{ℕ, ◌≡◌, refl, true, false, arith, List, [], ◌∷◌, ◌++◌, map}
use cobra_os.Base.Text.{codes}
use cobra_os.Keyboard.State.{Keyboard, no_mods, qwerty, init, key_is_down, buffer_put}
use cobra_os.Keyboard.Interrupt.{Input, handler, wait, cleanup, receive}
use cobra_os.Keyboard.Buffer.{contents, IsRing}
use cobra_os.Keyboard.Keys.{Agrees}
use cobra_os.Keyboard.Handler.{session, session-init-Agrees}
use cobra_os.Keyboard.Output.{Queued, emitted, handler-emitted}

abbrev raw : Keyboard
raw = record {
  mods = no_mods;
  current_layout = qwerty;
  key_buffer = λ i. 0;
  key_head = 0;
  key_tail = 0;
  buffer_overflow = false;
  reboot_requested = false;
  repeat_event = false;
  key_repeat_enabled = true;
  key_states = λ i. 0;
}

abbrev byte : ℕ → Input
byte c = record { status = λ n. 1; scancode = c }

abbrev silent : Input
silent = record { status = λ n. 4; scancode = 0x1E }

raw-IsRing : IsRing raw
raw-IsRing = record { head_in = omega arith; tail_in = omega arith }

raw-Agrees : Agrees raw
unfolding key_is_down
raw-Agrees = record {
  shift_left = refl;
  shift_right = refl;
  gui_left = refl;
  gui_right = refl;
  ctrl = λ h. cc;
  alt = λ h. cc;
}

-- shift down, 'a' twice (a repeat), shift up, 'b', Ctrl down, 'c', Del with E0 prefix
abbrev typing : List Input
typing =
    map byte (
      0x2A ∷ 0x1E ∷ 0x1E ∷ 0x9E ∷ 0xAA ∷ 0x30 ∷ 0xB0 ∷ 0x1D ∷ 0x2E ∷ 0xAE ∷ 0x9D ∷ 0xE0 ∷ 0x53 ∷ [])

contents-typing : contents (session raw typing) ≡ codes "AAb" ++ (0x03 ∷ 0x1B ∷ codes "[3~")
unfolding handler wait cleanup receive buffer_put key_is_down
contents-typing = refl

session-init-Agrees_example : Agrees (session (init raw) typing)
session-init-Agrees_example = session-init-Agrees raw typing

handler-emitted_example : Queued raw (handler raw (byte 0x1E)).0 (emitted raw 0x1E)
handler-emitted_example = handler-emitted raw (byte 0x1E) raw-IsRing (0, omega arith, refl)
