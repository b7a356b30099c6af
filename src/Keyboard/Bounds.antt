-- ===== src/Keyboard/Bounds.antt =====
-- How much one interrupt of arch/x86/drivers/keyboard/keyboard.c can add to the ring buffer.
use cobra_os.Base.{
  ℕ, ◌+◌, ◌%◌, ◌≤◌, ◌≡◌, true, arith, ap, List, [], ◌∷◌, Option, none, some, length, length-append,
}
use cobra_os.Keyboard.State.{Keyboard, Mods, buffer_is_full}
use cobra_os.Keyboard.Keystroke.{get_char_from_scancode, cursor_sequence}
use cobra_os.Keyboard.Interrupt.{Input, receive, cleanup, handler}
use cobra_os.Keyboard.Buffer.{
  contents, IsRing, capacity, enqueue, enqueue_all, buffer_is_full-count,
}
use cobra_os.Keyboard.Keys.{settled}
use cobra_os.Keyboard.Handler.{IsReady, handler-receive}
use cobra_os.Keyboard.Output.{typed, emitted, handler-emitted}

length-enqueue_all : (cs q : List ℕ) → length (enqueue_all q cs) ≤ length q + length cs
length-enqueue_all [] q = omega arith
length-enqueue_all (c ∷ cs) q =
    omega (arith, length-enqueue_all cs (enqueue q c), length-enqueue q c)
  where
    length-enqueue : (q : List ℕ) (c : ℕ) → length (enqueue q c) ≤ length q + 1
    length-enqueue q c = ground (arith, length-append q (c ∷ []))

length-typed : (m : Mods) (k : ℕ) (t : Option (List ℕ)) → length (typed m k t) ≤ 1
length-typed m k none = omega arith
length-typed m k (some []) = omega arith
length-typed m k (some (c ∷ [])) = omega arith
length-typed m k (some (c ∷ d ∷ cs)) = ground arith

length-cursor_sequence : (k : ℕ) → length (cursor_sequence k) ≤ 4
unfolding cursor_sequence
length-cursor_sequence k = ground arith

length-emitted : (s : Keyboard) (c : ℕ) → length (emitted s c) ≤ 4
length-emitted s c = ground (
  arith,
  length-typed (settled s c).mods c (get_char_from_scancode (settled s c) c),
  length-cursor_sequence (c % 128),
)

cleanup_flag :
    (s : Keyboard) → (cleanup s).0.buffer_overflow ≡ true → buffer_is_full (cleanup s).0 ≡ true
unfolding cleanup buffer_is_full
cleanup_flag s h = ground arith

-- One interrupt adds at most four bytes to those that wait, and when it returns with the overflow
-- flag up, the buffer is full.
pub handler_bounded :
    (s : Keyboard) (inp : Input)
    → IsRing s
    → IsReady inp
    → (length (contents (handler s inp).0) ≤ length (contents s) + 4)
      × ((handler s inp).0.buffer_overflow ≡ true → length (contents (handler s inp).0) ≡ capacity)
handler_bounded s inp v ready =
    let q = handler-emitted s inp v ready in
    (
      omega (
        arith,
        ap length q.0,
        length-enqueue_all (emitted s inp.scancode) (contents s),
        length-emitted s inp.scancode,
      ),
      λ up.
          let full : buffer_is_full (handler s inp).0 ≡ true =
            rw (handler-receive s inp ready)
              (cleanup_flag (receive s inp.scancode) (rw (← handler-receive s inp ready) up)) in
          ground (arith, full, buffer_is_full-count q.1),
    )
