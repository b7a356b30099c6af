-- ===== src/Keyboard/Keys.antt =====
-- Which keys are down, and which modifiers the keyboard handler of
-- arch/x86/drivers/keyboard/keyboard.c holds to be active.
use cobra_os.Base.{
  ℕ, ◌/◌, ◌%◌, ◌≡◌, refl, Bool, true, false, not, ◌&&◌, ◌||◌, Array, arith, ◌==◌, ap, if◌then◌else◌,
  List, [], ◌∷◌, Option, none, some, Bool-cases, inl, inr,
}
use cobra_os.Base.Bits.{bit, bit_and-pow_zero, bit-set, bit-clear}
use cobra_os.Keyboard.State.{
  Keyboard, Mods, key_is_down, key_set_down, key_clear_down, buffer_put, ctrl_active, alt_active,
}
use cobra_os.Keyboard.Keystroke.{
  special, released, handle_special_keys, put_if, put_all, handle_cursor_movement,
  process_character, process_text, process_byte, accepts, get_char_from_scancode, cursor_sequence,
}
use cobra_os.Keyboard.Interrupt.{track, receive, extended_key, plain_key, set_extended}

key_is_down-bit : (m : Array) (k : ℕ) → key_is_down m k ≡ not (bit (m (k / 8)) (k % 8) == 0)
unfolding key_is_down
key_is_down-bit m k = ap not (bit_and-pow_zero (m (k / 8)) (k % 8))

-- Pressing key `j` changes what is known of that key alone.
pub key_is_down-set :
    (m : Array) (j k : ℕ)
    → key_is_down (key_set_down m j) k ≡ (if j == k then true else key_is_down m k)
unfolding key_set_down
key_is_down-set m j k = ground (
  arith,
  key_is_down-bit (key_set_down m j) k,
  key_is_down-bit m k,
  bit-set (m (j / 8)) (j % 8) (k % 8),
)

-- Releasing key `j` changes what is known of that key alone.
pub key_is_down-clear :
    (m : Array) (j k : ℕ)
    → key_is_down (key_clear_down m j) k ≡ (if j == k then false else key_is_down m k)
unfolding key_clear_down
key_is_down-clear m j k = ground (
  arith,
  key_is_down-bit (key_clear_down m j) k,
  key_is_down-bit m k,
  bit-clear 8 (m (j / 8)) (j % 8) (k % 8),
)

-- What the later steps of the handler leave alone: the modifiers and the keys.
pub record Kept (s t : Keyboard) : Type 0 where
  pub mods : t.mods ≡ s.mods
  pub states : t.key_states ≡ s.key_states
  pub repeat : t.repeat_event ≡ s.repeat_event
  pub enabled : t.key_repeat_enabled ≡ s.key_repeat_enabled

buffer_put-Kept : (s : Keyboard) (c : ℕ) → Kept s (buffer_put s c).1
unfolding buffer_put
buffer_put-Kept s c = ground arith

pub put_if-Kept : (b : Bool) (s : Keyboard) (c : ℕ) → Kept s (put_if b s c)
put_if-Kept true s c = buffer_put-Kept s c
put_if-Kept false s c = record { mods = refl; states = refl; repeat = refl; enabled = refl }

pub put_all-Kept : (s : Keyboard) (cs : List ℕ) → Kept s (put_all s cs)
unfolding put_all
put_all-Kept s [] = record { mods = refl; states = refl; repeat = refl; enabled = refl }
put_all-Kept s (c ∷ cs) = ground (arith, buffer_put-Kept s c, put_all-Kept (buffer_put s c).1 cs)

process_byte-Kept : (s : Keyboard) (c : ℕ) → Kept s (process_byte s c)
unfolding process_byte
process_byte-Kept s c = elim (Bool-cases (ctrl_active s.mods && not (alt_active s.mods))) [
  | inl e ↦ rw e (put_if-Kept (accepts s) s _)
  | inr e ↦ rw e (put_if-Kept (accepts s) s c)
]

process_text-Kept : (s : Keyboard) (k : ℕ) (t : Option (List ℕ)) → Kept s (process_text s k t)
unfolding process_text
process_text-Kept s k none = record { mods = refl; states = refl; repeat = refl; enabled = refl }
process_text-Kept s k (some []) = record {
  mods = refl;
  states = refl;
  repeat = refl;
  enabled = refl;
}
process_text-Kept s k (some (c ∷ [])) =
    ground (arith, process_byte-Kept s c, put_if-Kept (accepts s) s b'\n')
process_text-Kept s k (some (c ∷ d ∷ cs)) = ground (arith, put_if-Kept (accepts s) s b'\n')

pub plain_key-Kept : (s : Keyboard) (k b : ℕ) (r : Bool) → Kept s (plain_key s k b r)
unfolding plain_key process_character
plain_key-Kept s k b r =
    ground
      (arith, put_if-Kept (accepts s) s 0x08, process_text-Kept s k (get_char_from_scancode s k))

pub extended_key-Kept : (s : Keyboard) (b : ℕ) (r : Bool) → Kept s (extended_key s b r)
unfolding extended_key handle_cursor_movement
extended_key-Kept s b r =
    ground (arith, put_if-Kept (accepts s) s b'\n', put_all-Kept s (cursor_sequence b))

-- the two prefix bytes
abbrev pub is_prefix : ℕ → Bool
is_prefix scancode = scancode == 0xE0 || scancode == 0xE1

-- the state once keys and modifiers are brought up to date
abbrev pub settled : Keyboard → ℕ → Keyboard
settled s scancode =
    let t = handle_special_keys (track s scancode) scancode s.mods.extended in
    if s.mods.extended then set_extended t false else t

pub receive-Kept :
    (s : Keyboard) (scancode : ℕ)
    → is_prefix scancode ≡ false
    → Kept (settled s scancode) (receive s scancode)
unfolding receive
receive-Kept s k h = elim (Bool-cases s.mods.extended) [
  | inl e ↦ ground (arith, extended_key-Kept (settled s k) (k % 128) (released k))
  | inr e ↦ ground (arith, plain_key-Kept (settled s k) k (k % 128) (released k))
]

module _ (b : ℕ) (extended make repeat : Bool) (m : Mods) where
  special_shift_left :
      (special b extended make repeat m).shift_left ≡ (if b == 0x2A then make else m.shift_left)
  unfolding special
  special_shift_left = ground arith

  special_shift_right :
      (special b extended make repeat m).shift_right ≡ (if b == 0x36 then make else m.shift_right)
  unfolding special
  special_shift_right = ground arith

  special_gui_left :
      (special b extended make repeat m).gui_left ≡ (if b == 0x5B then make else m.gui_left)
  unfolding special
  special_gui_left = ground arith

  special_gui_right :
      (special b extended make repeat m).gui_right ≡ (if b == 0x5C then make else m.gui_right)
  unfolding special
  special_gui_right = ground arith

  special_ctrl :
      ((special b extended make repeat m).ctrl_left
        ≡ (if b == 0x1D && not extended then make else m.ctrl_left))
      × ((special b extended make repeat m).ctrl_right
          ≡ (if b == 0x1D && extended then make else m.ctrl_right))
  unfolding special
  special_ctrl = ground arith

  special_alt :
      ((special b extended make repeat m).alt_left
        ≡ (if b == 0x38 && not extended then make else m.alt_left))
      × ((special b extended make repeat m).alt_right
          ≡ (if b == 0x38 && extended then make else m.alt_right))
  unfolding special
  special_alt = ground arith

  pub special_locks :
      ((special b extended make repeat m).caps_lock
        ≡ (if b == 0x3A && make && not repeat then not m.caps_lock else m.caps_lock))
      × ((special b extended make repeat m).num_lock
          ≡ (if b == 0x45 && make && not repeat then not m.num_lock else m.num_lock))
      × ((special b extended make repeat m).scroll_lock
          ≡ (if b == 0x46 && make && not repeat then not m.scroll_lock else m.scroll_lock))
  unfolding special
  special_locks = ground arith

-- Shift and GUI are held to be active exactly while their keys are down. The left and the right key
-- of Ctrl, and of Alt, share one key code: they are held to be active whenever it is down.
pub record Agrees (s : Keyboard) : Type 0 where
  pub shift_left : s.mods.shift_left ≡ key_is_down s.key_states 0x2A
  pub shift_right : s.mods.shift_right ≡ key_is_down s.key_states 0x36
  pub gui_left : s.mods.gui_left ≡ key_is_down s.key_states 0x5B
  pub gui_right : s.mods.gui_right ≡ key_is_down s.key_states 0x5C
  pub ctrl : key_is_down s.key_states 0x1D ≡ true → ctrl_active s.mods ≡ true
  pub alt : key_is_down s.key_states 0x38 ≡ true → alt_active s.mods ≡ true

-- what the handler knows of a key after a scancode
pub key_is_down-track :
    (s : Keyboard) (scancode k : ℕ)
    → key_is_down (track s scancode).key_states k
      ≡ (if scancode % 128 == k then not (released scancode) else key_is_down s.key_states k)
unfolding track
key_is_down-track s c k =
    ground
      (arith, key_is_down-set s.key_states (c % 128) k, key_is_down-clear s.key_states (c % 128) k)

pub settled-mods :
    (s : Keyboard) (c : ℕ)
    → let m =
        special (c % 128) s.mods.extended (not (released c)) (track s c).repeat_event s.mods in
      ((settled s c).mods.shift_left ≡ m.shift_left)
      × ((settled s c).mods.shift_right ≡ m.shift_right)
      × ((settled s c).mods.gui_left ≡ m.gui_left)
      × ((settled s c).mods.gui_right ≡ m.gui_right)
      × ((settled s c).mods.ctrl_left ≡ m.ctrl_left)
      × ((settled s c).mods.ctrl_right ≡ m.ctrl_right)
      × ((settled s c).mods.alt_left ≡ m.alt_left)
      × ((settled s c).mods.alt_right ≡ m.alt_right)
      × ((settled s c).mods.caps_lock ≡ m.caps_lock)
      × ((settled s c).mods.num_lock ≡ m.num_lock)
      × ((settled s c).mods.scroll_lock ≡ m.scroll_lock)
      × ((settled s c).key_states ≡ (track s c).key_states)
unfolding handle_special_keys track
settled-mods s c = ground arith

pub settled-Agrees : (s : Keyboard) (c : ℕ) → Agrees s → Agrees (settled s c)
unfolding ctrl_active alt_active
settled-Agrees s c v =
    let b = c % 128 in
    let x = s.mods.extended in
    let k = not (released c) in
    let r = (track s c).repeat_event in
    let facts = settled-mods s c in
    let key = key_is_down-track s c in
    record {
      shift_left = ground (arith, facts, special_shift_left b x k r s.mods, key 0x2A, v.shift_left);
      shift_right =
          ground (arith, facts, special_shift_right b x k r s.mods, key 0x36, v.shift_right);
      gui_left = ground (arith, facts, special_gui_left b x k r s.mods, key 0x5B, v.gui_left);
      gui_right = ground (arith, facts, special_gui_right b x k r s.mods, key 0x5C, v.gui_right);
      ctrl = λ h. ground (arith, facts, special_ctrl b x k r s.mods, key 0x1D, v.ctrl);
      alt = λ h. ground (arith, facts, special_alt b x k r s.mods, key 0x38, v.alt);
    }
