-- ===== src/Keyboard/Output.antt =====
-- The characters that the interrupt handler of arch/x86/drivers/keyboard/keyboard.c puts into the
-- ring buffer.
use cobra_os.Base.{
  ℕ, ◌-◌, ◌%◌, ◌≡◌, refl, Bool, true, false, not, ◌&&◌, arith, ◌==◌, ap, ◌∙◌, if◌then◌else◌, List,
  [], ◌∷◌, Bool-cases, inl, inr, leb, Option, none, some,
}
use cobra_os.Keyboard.State.{Keyboard, Mods, ctrl_active, alt_active}
use cobra_os.Keyboard.Keystroke.{
  released, get_char_from_scancode, cursor_sequence, to_upper, accepts, process_byte, process_text,
  process_character, put_if, handle_cursor_movement, handle_special_keys,
}
use cobra_os.Keyboard.Interrupt.{Input, track, receive, cleanup, handler, extended_key, plain_key}
use cobra_os.Keyboard.Buffer.{
  contents, IsRing, enqueue_all, buffer_put-enqueue, put_all-enqueue_all,
}
use cobra_os.Keyboard.Keys.{is_prefix, settled}
use cobra_os.Keyboard.Handler.{IsReady, handler-receive, receive_prefix}

-- a byte typed with Ctrl held and Alt not held: letters and '@'..'_' become the control codes 0..31
abbrev pub control : ℕ → ℕ
control u = if leb b'@' u && leb u b'_' then u - b'@' else u

abbrev pub typed_byte : Mods → ℕ → ℕ
typed_byte m c = if ctrl_active m && not (alt_active m) then control (to_upper c) else c

-- the bytes of a key with the table entry `text`: a name of several letters types nothing
abbrev pub typed : Mods → ℕ → Option (List ℕ) → List ℕ
typed m scancode none = []
typed m scancode (some []) = []
typed m scancode (some (c ∷ [])) = (if scancode == 0x1C then b'\n' else typed_byte m c) ∷ []
typed m scancode (some (c ∷ d ∷ cs)) = if scancode == 0x1C then b'\n' ∷ [] else []

-- the bytes that a make code types in the state `t` that it has settled
abbrev pub keystroke : Keyboard → ℕ → Bool → List ℕ
keystroke t scancode extended =
    let base = scancode % 128 in
    if extended
    then (if base == 0x1C
        then b'\n' ∷ []
        else if base == 0x53 && ctrl_active t.mods && alt_active t.mods && not t.repeat_event
        then []
        else cursor_sequence base)
    else if base == 0x0E
    then 0x08 ∷ []
    else typed t.mods scancode (get_char_from_scancode t scancode)

-- the bytes that a byte other than a prefix types in the state `t` that it has settled
abbrev pub pressed : Keyboard → ℕ → Bool → List ℕ
pressed t scancode extended =
    if released scancode then [] else if accepts t then keystroke t scancode extended else []

-- the bytes that a scancode types in the state `s` before it
abbrev pub emitted : Keyboard → ℕ → List ℕ
emitted s scancode =
    if is_prefix scancode then [] else pressed (settled s scancode) scancode s.mods.extended

-- `t` has the buffer of `s` with the bytes `cs` queued behind it
abbrev pub Queued : Keyboard → Keyboard → List ℕ → Type 0
Queued s t cs = (contents t ≡ enqueue_all (contents s) cs) × IsRing t

put_if-Queued :
    (b : Bool) (s : Keyboard) (c : ℕ)
    → IsRing s
    → Queued s (put_if b s c) (if b then c ∷ [] else [])
put_if-Queued true s c v = let (_, e, _, v') = buffer_put-enqueue c v in (e, v')
put_if-Queued false s c v = (refl, v)

nothing-Queued : {s : Keyboard} (b : Bool) → IsRing s → Queued s s (if b then [] else [])
nothing-Queued true v = (refl, v)
nothing-Queued false v = (refl, v)

requested-Queued :
    {s : Keyboard} (b : Bool)
    → IsRing s
    → Queued s (record s { reboot_requested = true }) (if b then [] else [])
requested-Queued true v = (refl, record { head_in = v.head_in; tail_in = v.tail_in })
requested-Queued false v = (refl, record { head_in = v.head_in; tail_in = v.tail_in })

process_byte-Queued :
    (s : Keyboard) (c : ℕ)
    → IsRing s
    → Queued s (process_byte s c) (if accepts s then typed_byte s.mods c ∷ [] else [])
unfolding process_byte
process_byte-Queued s c v = elim (Bool-cases (ctrl_active s.mods && not (alt_active s.mods))) [
  | inl e ↦ rw e (put_if-Queued (accepts s) s _ v)
  | inr e ↦ rw e (put_if-Queued (accepts s) s c v)
]

process_text-Queued :
    (s : Keyboard) (k : ℕ) (t : Option (List ℕ))
    → IsRing s
    → Queued s (process_text s k t) (if accepts s then typed s.mods k t else [])
unfolding process_text
process_text-Queued s k none v = nothing-Queued (accepts s) v
process_text-Queued s k (some []) v = nothing-Queued (accepts s) v
process_text-Queued s k (some (c ∷ [])) v = elim (Bool-cases (k == 0x1C)) [
  | inl e ↦ rw e (put_if-Queued (accepts s) s b'\n' v)
  | inr e ↦ rw e (process_byte-Queued s c v)
]
process_text-Queued s k (some (c ∷ d ∷ cs)) v = elim (Bool-cases (k == 0x1C)) [
  | inl e ↦ rw e (put_if-Queued (accepts s) s b'\n' v)
  | inr e ↦ rw e (nothing-Queued (accepts s) v)
]

cursor-Queued :
    (b : Bool) (s : Keyboard) (k : ℕ)
    → IsRing s
    → Queued s (if b then handle_cursor_movement s k else s) (if b then cursor_sequence k else [])
unfolding handle_cursor_movement
cursor-Queued true s k v = put_all-enqueue_all (cursor_sequence k) v
cursor-Queued false s k v = (refl, v)

-- the bytes of a key behind the prefix 0xE0
abbrev extended_keystroke : Keyboard → ℕ → List ℕ
extended_keystroke t base =
    if base == 0x1C
    then b'\n' ∷ []
    else if base == 0x53 && ctrl_active t.mods && alt_active t.mods && not t.repeat_event
    then []
    else cursor_sequence base

extended_key-Queued :
    (t : Keyboard) (b : ℕ)
    → IsRing t
    → Queued t (extended_key t b false) (if accepts t then extended_keystroke t b else [])
unfolding extended_key
extended_key-Queued t b v = elim (Bool-cases (b == 0x1C)) [
  | inl e ↦ rw e (put_if-Queued (accepts t) t b'\n' v)
  | inr e ↦
      rw e
        (elim (Bool-cases
          (b == 0x53 && ctrl_active t.mods && alt_active t.mods && not t.repeat_event)) [
            | inl f ↦ rw f (requested-Queued (accepts t) v)
            | inr f ↦ rw f (cursor-Queued (accepts t) t b v)
          ])
]

plain_key-Queued :
    (t : Keyboard) (k b : ℕ)
    → IsRing t
    → Queued t (plain_key t k b false) (
        if accepts t
        then (if b == 0x0E then 0x08 ∷ [] else typed t.mods k (get_char_from_scancode t k))
        else [])
unfolding plain_key process_character
plain_key-Queued t k b v = elim (Bool-cases (b == 0x0E)) [
  | inl e ↦ rw e (put_if-Queued (accepts t) t 0x08 v)
  | inr e ↦ rw e (process_text-Queued t k (get_char_from_scancode t k) v)
]

-- settling touches neither the ring nor its indices
settled-Queued : (s : Keyboard) (c : ℕ) → IsRing s → Queued s (settled s c) []
unfolding handle_special_keys track
settled-Queued s c v = elim (Bool-cases s.mods.extended) [
  | inl e ↦ rw e (refl, record { head_in = v.head_in; tail_in = v.tail_in })
  | inr e ↦ rw e (refl, record { head_in = v.head_in; tail_in = v.tail_in })
]

Queued-trans : (s t u : Keyboard) (cs : List ℕ) → Queued s t [] → Queued t u cs → Queued s u cs
Queued-trans s t u cs p q = (q.0 ∙ ap (λ l. enqueue_all l cs) p.0, q.1)

plain_key_released : (t : Keyboard) (k b : ℕ) → plain_key t k b true ≡ t
unfolding plain_key
plain_key_released t k b = ground arith

receive_pressed :
    (s : Keyboard) (c : ℕ)
    → is_prefix c ≡ false
    → receive s c ≡ (
        if s.mods.extended
        then extended_key (settled s c) (c % 128) (released c)
        else plain_key (settled s c) c (c % 128) (released c))
unfolding receive
receive_pressed s c h = ground arith

pressed-Queued :
    (t : Keyboard) (c : ℕ) (extended : Bool)
    → IsRing t
    → Queued t
        (if extended
          then extended_key t (c % 128) (released c)
          else plain_key t c (c % 128) (released c))
        (pressed t c extended)
unfolding extended_key
pressed-Queued t c true v = elim (Bool-cases (released c)) [
  | inl e ↦ rw e (refl, v)
  | inr e ↦ rw e (extended_key-Queued t (c % 128) v)
]
pressed-Queued t c false v = elim (Bool-cases (released c)) [
  | inl e ↦ rw (e, plain_key_released t c (c % 128)) (refl, v)
  | inr e ↦ rw e (plain_key-Queued t c (c % 128) v)
]

receive-Queued : (s : Keyboard) (c : ℕ) → IsRing s → Queued s (receive s c) (emitted s c)
receive-Queued s c v = elim (Bool-cases (is_prefix c)) [
  | inl e ↦
      rw (receive_prefix s c e) (rw e (refl, record { head_in = v.head_in; tail_in = v.tail_in }))
  | inr e ↦
      rw (e, receive_pressed s c e)
        (Queued-trans s (settled s c) _ (pressed (settled s c) c s.mods.extended)
          (settled-Queued s c v)
          (pressed-Queued (settled s c) c s.mods.extended (settled-Queued s c v).1))
]

-- An interrupt that delivers a byte queues, behind the bytes that wait, those that the scancode
-- types, as far as there is room: none for a prefix, for a key that goes up, and for a key held down
-- while key repeat is off. The indices stay in the ring.
pub handler-emitted :
    (s : Keyboard) (inp : Input)
    → IsRing s
    → IsReady inp
    → Queued s (handler s inp).0 (emitted s inp.scancode)
unfolding cleanup
handler-emitted s inp v ready =
    let q = receive-Queued s inp.scancode v in
    rw (handler-receive s inp ready) (q.0, record { head_in = q.1.head_in; tail_in = q.1.tail_in })
