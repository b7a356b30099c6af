-- ===== src/Keyboard/Handler.antt =====
-- The whole interrupt handler of arch/x86/drivers/keyboard/keyboard.c: what one interrupt, and a
-- session of them, does to the keys, the modifiers and the buffer.
use cobra_os.Base.{
  ℕ, zero, suc, ◌+◌, ◌%◌, ◌<◌, ◌≤◌, ◌≡◌, ◌≢◌, refl, Bool, true, false, not, ◌&&◌, arith, ◌==◌,
  if◌then◌else◌, List, [], ◌∷◌, Bool-cases, inl, inr, ==_ne,
}
use cobra_os.Keyboard.State.{Keyboard, init, key_is_down, ctrl_active, alt_active}
use cobra_os.Keyboard.Keystroke.{released}
use cobra_os.Keyboard.Interrupt.{Input, track, receive, cleanup, handler, wait, set_extended}
use cobra_os.Keyboard.Keys.{
  Kept, Agrees, is_prefix, settled, receive-Kept, settled-mods, settled-Agrees, key_is_down-track,
  special_locks,
}

-- a byte arrives within the 1000 reads of the status port that the handler makes
abbrev pub IsReady : Input → Type 0
IsReady inp = (n : ℕ) × (n < 1000) × (inp.status n % 2 ≡ 1)

wait_ready :
    (status : ℕ → ℕ) (t k n : ℕ) → k ≤ n → n < k + t → status n % 2 ≡ 1 → wait status k t ≢ 0
unfolding wait
wait_ready status zero k n lo hi h = absurd (omega arith)
wait_ready status (suc t) k n lo hi h = elim (Bool-cases (k == n)) [
  | inl e ↦ let same : status k % 2 ≡ 1 = ground arith in rw same (λ z. omega arith)
  | inr e ↦ ground (arith, wait_ready status t (k + 1) n (ground arith) (omega arith) h)
]

wait_timeout :
    (status : ℕ → ℕ) (t k : ℕ)
    → ((n : ℕ) → k ≤ n → n < k + t → status n % 2 ≡ 0)
    → wait status k t ≡ 0
unfolding wait
wait_timeout status zero k h = refl
wait_timeout status (suc t) k h =
    rw (h k (omega arith) (omega arith))
      (wait_timeout status t (k + 1) (λ n lo hi. h n (omega arith) (omega arith)))

cleanup-Kept : (s : Keyboard) → Kept s (cleanup s).0
unfolding cleanup
cleanup-Kept s = record { mods = refl; states = refl; repeat = refl; enabled = refl }

Kept-Agrees : {s t : Keyboard} → Kept s t → Agrees s → Agrees t
unfolding ctrl_active alt_active
Kept-Agrees {s} {t} k v = record {
  shift_left = ground (arith, k.mods, k.states, v.shift_left);
  shift_right = ground (arith, k.mods, k.states, v.shift_right);
  gui_left = ground (arith, k.mods, k.states, v.gui_left);
  gui_right = ground (arith, k.mods, k.states, v.gui_right);
  ctrl = λ h. rw k.mods (v.ctrl (rw (← k.states) h));
  alt = λ h. rw k.mods (v.alt (rw (← k.states) h));
}

set_extended-Agrees : (s : Keyboard) (b : Bool) → Agrees s → Agrees (set_extended s b)
unfolding ctrl_active alt_active
set_extended-Agrees s b v = record {
  shift_left = v.shift_left;
  shift_right = v.shift_right;
  gui_left = v.gui_left;
  gui_right = v.gui_right;
  ctrl = v.ctrl;
  alt = v.alt;
}

pub receive_prefix :
    (s : Keyboard) (c : ℕ) → is_prefix c ≡ true → receive s c ≡ set_extended s (c == 0xE0)
unfolding receive
receive_prefix s c h = ground arith

receive-Agrees : (s : Keyboard) (c : ℕ) → Agrees s → Agrees (receive s c)
receive-Agrees s c v = elim (Bool-cases (is_prefix c)) [
  | inl e ↦ rw (receive_prefix s c e) (set_extended-Agrees s (c == 0xE0) v)
  | inr e ↦ Kept-Agrees (receive-Kept s c e) (settled-Agrees s c v)
]

pub handler-receive :
    (s : Keyboard) (inp : Input) → IsReady inp → handler s inp ≡ cleanup (receive s inp.scancode)
unfolding handler
handler-receive s inp (n, lt, h) =
    rw (==_ne _ 0 (wait_ready inp.status 1000 0 n (omega arith) (omega arith) h))

handler-Kept :
    (s : Keyboard) (inp : Input)
    → IsReady inp
    → is_prefix inp.scancode ≡ false
    → Kept (settled s inp.scancode) (handler s inp).0
handler-Kept s inp ready plain =
    rw (handler-receive s inp ready)
      (ground (arith, cleanup-Kept (receive s inp.scancode), receive-Kept s inp.scancode plain))

-- Every interrupt, timed out or not, and whatever byte it delivers, keeps the modifiers in step with
-- the keys.
pub handler-Agrees : {s : Keyboard} (inp : Input) → Agrees s → Agrees (handler s inp).0
unfolding handler
handler-Agrees {s} inp v = elim (Bool-cases (wait inp.status 0 1000 == 0)) [
  | inl e ↦ rw (e, handler) (Kept-Agrees (cleanup-Kept s) v)
  | inr e ↦
      rw (e, handler)
        (Kept-Agrees (cleanup-Kept (receive s inp.scancode)) (receive-Agrees s inp.scancode v))
]

-- An interrupt that delivers a byte other than the prefixes 0xE0 and 0xE1 makes the key that the
-- byte names down (a make code) or up (a break code), and changes no other key.
pub handler_keys :
    (s : Keyboard) (inp : Input) (k : ℕ)
    → IsReady inp
    → is_prefix inp.scancode ≡ false
    → key_is_down (handler s inp).0.key_states k ≡ (
        if inp.scancode % 128 == k then not (released inp.scancode) else key_is_down s.key_states k)
handler_keys s inp k ready plain = ground (
  arith,
  handler-Kept s inp ready plain,
  settled-mods s inp.scancode,
  key_is_down-track s inp.scancode k,
)

-- When no read of the status port shows a byte, the handler acknowledges the interrupt and changes
-- nothing but the overflow flag, which it clears if the buffer has room.
pub handler_timeout :
    (s : Keyboard) (inp : Input)
    → ((n : ℕ) → n < 1000 → inp.status n % 2 ≡ 0)
    → handler s inp ≡ cleanup s
unfolding handler
handler_timeout s inp h = rw (wait_timeout inp.status 1000 0 (λ n _ lt. h n (omega arith)))

repeat_event-track :
    (s : Keyboard) (c : ℕ)
    → (track s c).repeat_event ≡ (not (released c) && key_is_down s.key_states (c % 128))
unfolding track
repeat_event-track s c = refl

-- An interrupt that delivers a byte other than a prefix toggles Caps Lock, Num Lock or Scroll Lock
-- exactly when the byte is the make code of its key and the key was up before: holding the key down
-- toggles it once.
pub handler_locks :
    (s : Keyboard) (inp : Input)
    → IsReady inp
    → is_prefix inp.scancode ≡ false
    → let toggles = λ (key : ℕ).
      inp.scancode % 128 == key
      && not (released inp.scancode)
      && not (key_is_down s.key_states key) in
      let m = (handler s inp).0.mods in
      (m.caps_lock ≡ (if toggles 0x3A then not s.mods.caps_lock else s.mods.caps_lock))
      × (m.num_lock ≡ (if toggles 0x45 then not s.mods.num_lock else s.mods.num_lock))
      × (m.scroll_lock ≡ (if toggles 0x46 then not s.mods.scroll_lock else s.mods.scroll_lock))
handler_locks s inp ready plain = ground (
  arith,
  handler-Kept s inp ready plain,
  settled-mods s inp.scancode,
  special_locks (inp.scancode % 128) s.mods.extended (not (released inp.scancode))
      (track s inp.scancode).repeat_event s.mods,
  repeat_event-track s inp.scancode,
)

-- the interrupts of a session, in order
abbrev pub session : Keyboard → List Input → Keyboard
session s [] = s
session s (inp ∷ inps) = session (handler s inp).0 inps

session-Agrees : (inps : List Input) {s : Keyboard} → Agrees s → Agrees (session s inps)
session-Agrees [] v = v
session-Agrees (inp ∷ inps) {s} v = session-Agrees inps (handler-Agrees inp v)

pub init-Agrees : (s : Keyboard) → Agrees (init s)
unfolding init ctrl_active alt_active key_is_down
init-Agrees s = record {
  shift_left = refl;
  shift_right = refl;
  gui_left = refl;
  gui_right = refl;
  ctrl = λ h. cc;
  alt = λ h. cc;
}

-- After `init_keyboard` and any sequence of interrupts, timed out or not and with any bytes, each Shift
-- and GUI flag is set exactly while its key is down, and Ctrl and Alt are active whenever the key
-- code that their two keys share is down.
pub session-init-Agrees : (s : Keyboard) (inps : List Input) → Agrees (session (init s) inps)
session-init-Agrees s inps = session-Agrees inps (init-Agrees s)
