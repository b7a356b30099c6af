-- ===== src/Editor/Decode.antt =====
-- The keys that the keyboard driver (arch/x86/drivers/keyboard/keyboard.c) queues as escape sequences,
-- read back by kbd_read_event of arch/x86/snake/snake.c.
use cobra_os.Base.{ℕ, ◌≡◌, refl, List, [], ◌∷◌, ◌++◌, some}
use cobra_os.Keyboard.Keystroke.{cursor_sequence}
use cobra_os.Editor.Edit.{
  SpecialKey, key_up, key_down, key_left, key_right, key_home, key_end, key_delete,
}
use cobra_os.Editor.Keys.{key_special, letter_key, tilde_key, kbd_read_event}

-- the scancodes of the keys that move the cursor, and of Delete
pub data CursorKey : ℕ → SpecialKey → Type 0 where
  up : CursorKey 0x48 key_up
  down : CursorKey 0x50 key_down
  left : CursorKey 0x4B key_left
  right : CursorKey 0x4D key_right
  home : CursorKey 0x47 key_home
  end : CursorKey 0x4F key_end
  delete : CursorKey 0x53 key_delete

-- The escape sequence that the keyboard driver queues for a cursor key or Delete is read by the editor as
-- that key, whatever bytes follow it, and the bytes behind the sequence stay in the buffer.
pub kbd_read_event-cursor_sequence :
    {scancode : ℕ} {k : SpecialKey} (rest : List ℕ)
    → CursorKey scancode k
    → kbd_read_event (cursor_sequence scancode ++ rest)
      ≡ some (record { event = key_special k; rest = rest })
unfolding kbd_read_event cursor_sequence letter_key tilde_key
kbd_read_event-cursor_sequence [] up = refl
kbd_read_event-cursor_sequence (c ∷ l) up = refl
kbd_read_event-cursor_sequence [] down = refl
kbd_read_event-cursor_sequence (c ∷ l) down = refl
kbd_read_event-cursor_sequence [] left = refl
kbd_read_event-cursor_sequence (c ∷ l) left = refl
kbd_read_event-cursor_sequence [] right = refl
kbd_read_event-cursor_sequence (c ∷ l) right = refl
kbd_read_event-cursor_sequence [] home = refl
kbd_read_event-cursor_sequence (c ∷ l) home = refl
kbd_read_event-cursor_sequence [] end = refl
kbd_read_event-cursor_sequence (c ∷ l) end = refl
kbd_read_event-cursor_sequence rest delete = refl
