-- ===== src/Keyboard/State.antt =====
-- The static variables of arch/x86/drivers/keyboard/keyboard.c, the bitmap of the keys that are down,
-- and the ring buffer.
use cobra_os.Base.{
  ℕ, ◌+◌, ◌/◌, ◌%◌, ◌^◌, bit_and, bit_or, Bool, true, false, not, ◌||◌, Array, update, ltb, ◌==◌,
  if◌then◌else◌,
}
use cobra_os.Base.Bits.{complement}

-- KB_BUFFER_SIZE and MAX_SCANCODE
abbrev pub kb_buffer_size : ℕ
kb_buffer_size = 256

abbrev pub max_scancode : ℕ
max_scancode = 128

-- keyboard_mods_t
pub record Mods : Type 0 where
  pub shift_left : Bool
  pub shift_right : Bool
  pub ctrl_left : Bool
  pub ctrl_right : Bool
  pub alt_left : Bool
  pub alt_right : Bool
  pub gui_left : Bool
  pub gui_right : Bool
  pub caps_lock : Bool
  pub num_lock : Bool
  pub scroll_lock : Bool
  pub extended : Bool

pub data Layout : Type 0 where
  qwerty azerty dvorak : Layout

-- the file's static variables
pub record Keyboard : Type 0 where
  pub mods : Mods
  pub current_layout : Layout
  pub key_buffer : Array
  pub key_head : ℕ
  pub key_tail : ℕ
  pub buffer_overflow : Bool
  pub reboot_requested : Bool
  pub repeat_event : Bool
  pub key_repeat_enabled : Bool
  pub key_states : Array

unfoldable pub shift_active : Mods → Bool
shift_active m = m.shift_left || m.shift_right

unfoldable pub ctrl_active : Mods → Bool
ctrl_active m = m.ctrl_left || m.ctrl_right

unfoldable pub alt_active : Mods → Bool
alt_active m = m.alt_left || m.alt_right

unfoldable pub key_is_down : Array → ℕ → Bool
key_is_down states scancode = not (bit_and (states (scancode / 8)) (2 ^ (scancode % 8)) == 0)

unfoldable pub key_set_down : Array → ℕ → Array
key_set_down states scancode =
    update states (scancode / 8) (bit_or (states (scancode / 8)) (2 ^ (scancode % 8)))

unfoldable pub key_clear_down : Array → ℕ → Array
key_clear_down states scancode =
    update states (scancode / 8)
      (bit_and (states (scancode / 8)) (complement 8 (2 ^ (scancode % 8))))

unfoldable pub buffer_is_full : Keyboard → Bool
buffer_is_full s = (s.key_head + 1) % kb_buffer_size == s.key_tail

unfoldable pub buffer_put : Keyboard → ℕ → Bool × Keyboard
buffer_put s c =
    let next = (s.key_head + 1) % kb_buffer_size in
    if next == s.key_tail
    then (false, record s { buffer_overflow = true })
    else (true, record s { key_buffer = update s.key_buffer s.key_head c; key_head = next })

unfoldable pub buffer_get : Keyboard → ℕ × Keyboard
buffer_get s = (s.key_buffer s.key_tail, record s { key_tail = (s.key_tail + 1) % kb_buffer_size })

unfoldable pub has_char : Keyboard → Bool
has_char s = not (s.key_head == s.key_tail)

unfoldable pub get_char : Keyboard → ℕ × Keyboard
unfolding buffer_get
get_char s = if s.key_head == s.key_tail then (0, s) else buffer_get s

unfoldable pub consume_reboot_request : Keyboard → Bool × Keyboard
consume_reboot_request s = (s.reboot_requested, record s { reboot_requested = false })

unfoldable pub set_key_repeat : Keyboard → Bool → Keyboard
set_key_repeat s enabled = record s { key_repeat_enabled = enabled }

unfoldable pub set_layout : Keyboard → Layout → Keyboard
set_layout s layout = record s { current_layout = layout }

abbrev pub no_mods : Mods
no_mods = record {
  shift_left = false;
  shift_right = false;
  ctrl_left = false;
  ctrl_right = false;
  alt_left = false;
  alt_right = false;
  gui_left = false;
  gui_right = false;
  caps_lock = false;
  num_lock = false;
  scroll_lock = false;
  extended = false;
}

-- `init_keyboard`, without the port accesses; the bytes of the ring buffer stay
unfoldable pub init : Keyboard → Keyboard
unfolding set_layout
init s = record (set_layout s qwerty) {
  key_head = 0;
  key_tail = 0;
  buffer_overflow = false;
  reboot_requested = false;
  repeat_event = false;
  key_repeat_enabled = true;
  mods = no_mods;
  key_states = λ i. if ltb i 16 then 0 else s.key_states i;
}
