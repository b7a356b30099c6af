-- ===== src/Keyboard/Keystroke.antt =====
-- What one key does to the modifiers and to the buffer: handle_special_keys, handle_cursor_movement
-- and process_character of arch/x86/drivers/keyboard/keyboard.c.
use cobra_os.Base.{
  ℕ, ◌-◌, ◌/◌, ◌%◌, Bool, true, false, not, ◌&&◌, ◌||◌, xor, Option, none, some, leb, ◌==◌,
  if◌then◌else◌, List, [], ◌∷◌, get_elem?,
}
use cobra_os.Base.Text.{codes}
use cobra_os.Keyboard.Qwerty.{qwerty_lowercase_key_map, qwerty_uppercase_key_map}
use cobra_os.Keyboard.Azerty.{azerty_lowercase_key_map, azerty_uppercase_key_map}
use cobra_os.Keyboard.Dvorak.{dvorak_lowercase_key_map, dvorak_uppercase_key_map}
use cobra_os.Keyboard.State.{
  max_scancode, shift_active, ctrl_active, alt_active, buffer_put, Mods, Layout, Keyboard, qwerty,
  azerty, dvorak,
}

abbrev pub uppercase : Layout → List (List ℕ)
uppercase qwerty = qwerty_uppercase_key_map
uppercase azerty = azerty_uppercase_key_map
uppercase dvorak = dvorak_uppercase_key_map

abbrev pub lowercase : Layout → List (List ℕ)
lowercase qwerty = qwerty_lowercase_key_map
lowercase azerty = azerty_lowercase_key_map
lowercase dvorak = dvorak_lowercase_key_map

-- `none` is NULL
unfoldable pub get_char_from_scancode : Keyboard → ℕ → Option (List ℕ)
unfolding shift_active xor
get_char_from_scancode s scancode =
    if leb max_scancode scancode
    then none
    else if xor (shift_active s.mods) s.mods.caps_lock
    then get_elem? (uppercase s.current_layout) scancode
    else get_elem? (lowercase s.current_layout) scancode

-- `make ? … : …` on the modifier that the key `base` stands for
unfoldable pub special : ℕ → Bool → Bool → Bool → Mods → Mods
special base extended make repeat m =
    if base == 0x2A
    then record m { shift_left = make }
    else if base == 0x36
    then record m { shift_right = make }
    else if base == 0x1D
    then (if extended then record m { ctrl_right = make } else record m { ctrl_left = make })
    else if base == 0x38
    then (if extended then record m { alt_right = make } else record m { alt_left = make })
    else if base == 0x5B
    then record m { gui_left = make }
    else if base == 0x5C
    then record m { gui_right = make }
    else if base == 0x3A
    then (if make && not repeat then record m { caps_lock = not m.caps_lock } else m)
    else if base == 0x45
    then (if make && not repeat then record m { num_lock = not m.num_lock } else m)
    else if base == 0x46
    then (if make && not repeat then record m { scroll_lock = not m.scroll_lock } else m)
    else m

-- the top bit of a scancode byte: the key was released
abbrev pub released : ℕ → Bool
released scancode = not (scancode / 128 % 2 == 0)

unfoldable pub handle_special_keys : Keyboard → ℕ → Bool → Keyboard
unfolding special
handle_special_keys s scancode extended = record s {
  mods = special (scancode % 128) extended (not (released scancode)) s.repeat_event s.mods;
}

-- the escape sequence of a cursor key; `[]` for any other key
unfoldable pub cursor_sequence : ℕ → List ℕ
cursor_sequence scancode =
    if scancode == 0x48
    then 0x1B ∷ codes "[A"
    else if scancode == 0x50
    then 0x1B ∷ codes "[B"
    else if scancode == 0x4B
    then 0x1B ∷ codes "[D"
    else if scancode == 0x4D
    then 0x1B ∷ codes "[C"
    else if scancode == 0x47
    then 0x1B ∷ codes "[H"
    else if scancode == 0x4F
    then 0x1B ∷ codes "[F"
    else if scancode == 0x53
    then 0x1B ∷ codes "[3~"
    else []

-- the loop that puts a sequence and stops at the first byte that does not fit
unfoldable pub put_all : Keyboard → List ℕ → Keyboard
put_all s [] = s
put_all s (c ∷ cs) = let (ok, s') = buffer_put s c in elim ok [ true ↦ put_all s' cs | false ↦ s' ]

unfoldable pub handle_cursor_movement : Keyboard → ℕ → Keyboard
unfolding cursor_sequence put_all
handle_cursor_movement s scancode = put_all s (cursor_sequence scancode)

-- `!repeat_event || key_repeat_enabled`
abbrev pub accepts : Keyboard → Bool
accepts s = not s.repeat_event || s.key_repeat_enabled

abbrev pub put_if : Bool → Keyboard → ℕ → Keyboard
put_if true s c = (buffer_put s c).1
put_if false s c = s

-- a character with Ctrl held and Alt not held: 'a'..'z' as 'A'..'Z', then '@'..'_' as 0..31
unfoldable pub to_upper : ℕ → ℕ
to_upper c = if leb b'a' c && leb c b'z' then c - 0x20 else c

unfoldable pub process_byte : Keyboard → ℕ → Keyboard
unfolding to_upper ctrl_active alt_active
process_byte s c =
    if ctrl_active s.mods && not (alt_active s.mods)
    then (let u = to_upper c in
        put_if (accepts s) s (if leb b'@' u && leb u b'_' then u - b'@' else u))
    else put_if (accepts s) s c

unfoldable pub process_text : Keyboard → ℕ → Option (List ℕ) → Keyboard
unfolding process_byte
process_text s scancode none = s
process_text s scancode (some []) = s
process_text s scancode (some (c ∷ cs)) =
    if scancode == 0x1C
    then put_if (accepts s) s b'\n'
    else elim cs [ [] ↦ process_byte s c | _ ∷ _ ↦ s ]

unfoldable pub process_character : Keyboard → ℕ → Keyboard
unfolding process_text get_char_from_scancode
process_character s scancode = process_text s scancode (get_char_from_scancode s scancode)
