-- ===== src/Keyboard/Buffer.antt =====
-- The ring buffer of arch/x86/drivers/keyboard/keyboard.c, as the queue of the bytes that it holds.
use cobra_os.Base.{
  ℕ, zero, suc, ◌+◌, ◌-◌, ◌%◌, ◌<◌, ◌≡◌, ◌≢◌, refl, sym, true, false, Array, update, arith, ◌==◌,
  ap, ◌∙◌, if◌then◌else◌, List, [], ◌∷◌, ◌++◌, length, ltb, Bool-cases, inl, inr,
}
use cobra_os.Keyboard.State.{
  Keyboard, kb_buffer_size, buffer_is_full, buffer_put, get_char, has_char,
}
use cobra_os.Keyboard.Keystroke.{put_all}

-- the number of bytes that wait to be read
abbrev pub count : Keyboard → ℕ
count s = (s.key_head + kb_buffer_size - s.key_tail) % kb_buffer_size

-- `n` bytes of the ring from index `t` on
abbrev pub ring : Array → ℕ → ℕ → List ℕ
ring m t zero = []
ring m t (suc n) = m t ∷ ring m ((t + 1) % kb_buffer_size) n

-- the bytes that wait, oldest first
abbrev pub contents : Keyboard → List ℕ
contents s = ring s.key_buffer s.key_tail (count s)

-- both indices lie in the ring
pub record IsRing (s : Keyboard) : Type 0 where
  pub head_in : s.key_head < kb_buffer_size
  pub tail_in : s.key_tail < kb_buffer_size

length-ring : (m : Array) (t n : ℕ) → length (ring m t n) ≡ n
length-ring m t zero = refl
length-ring m t (suc n) = ap suc (length-ring m ((t + 1) % kb_buffer_size) n)

pub length-contents : (s : Keyboard) → length (contents s) ≡ count s
length-contents s = length-ring s.key_buffer s.key_tail (count s)

-- A byte written just past the waiting bytes comes last.
ring-update :
    (m : Array) (t n k v : ℕ)
    → t < kb_buffer_size
    → n < 255
    → k ≡ (t + n) % kb_buffer_size
    → ring (update m k v) t (suc n) ≡ ring m t n ++ (v ∷ [])
ring-update m t zero k v ht hn e = ground arith
ring-update m t (suc n) k v ht hn e = ground (
  arith,
  ring-update m ((t + 1) % kb_buffer_size) n k v (omega arith) (omega arith) (omega arith),
)

ring-head :
    (m : Array) (t n : ℕ) → n ≢ 0 → ring m t n ≡ m t ∷ ring m ((t + 1) % kb_buffer_size) (n - 1)
ring-head m t zero h = absurd (h refl)
ring-head m t (suc n) h = ap (λ k. m t ∷ ring m ((t + 1) % kb_buffer_size) k) (omega arith)

-- the queue that the ring stands for: at most 255 bytes wait
abbrev pub capacity : ℕ
capacity = 255

abbrev pub enqueue : List ℕ → ℕ → List ℕ
enqueue q c = if ltb (length q) capacity then q ++ (c ∷ []) else q

-- what `buffer_put` leaves when there is room
abbrev stored : Keyboard → ℕ → Keyboard
stored s c = record s {
  key_buffer = update s.key_buffer s.key_head c;
  key_head = (s.key_head + 1) % kb_buffer_size;
}

abbrev HasRoom : Keyboard → Type 0
HasRoom s = ((s.key_head + 1) % kb_buffer_size == s.key_tail) ≡ false

count-stored : {s : Keyboard} (c : ℕ) → IsRing s → HasRoom s → count (stored s c) ≡ suc (count s)
count-stored c v room = ground arith

contents-stored :
    {s : Keyboard} (c : ℕ) → IsRing s → HasRoom s → contents (stored s c) ≡ contents s ++ (c ∷ [])
contents-stored {s} c v room =
    ap (ring (stored s c).key_buffer s.key_tail) (count-stored c v room)
    ∙ ring-update s.key_buffer s.key_tail (count s) s.key_head c v.tail_in (ground arith)
        (omega arith)

-- On indices in the ring, `buffer_put` appends the byte and returns true while fewer than 255 bytes
-- wait; else it returns false, keeps the bytes and raises the overflow flag. The indices stay in
-- the ring.
pub buffer_put-enqueue :
    {s : Keyboard} (c : ℕ)
    → IsRing s
    → let (ok, s') = buffer_put s c in
      (ok ≡ ltb (length (contents s)) capacity)
      × (contents s' ≡ enqueue (contents s) c)
      × (s'.buffer_overflow ≡ (if ok then s.buffer_overflow else true))
      × IsRing s'
unfolding buffer_put
buffer_put-enqueue {s} c v = elim (Bool-cases ((s.key_head + 1) % kb_buffer_size == s.key_tail)) [
  | inl full ↦ ground (arith, length-contents s)
  | inr room ↦ rw room (
    ground (arith, length-contents s),
    ground (arith, length-contents s, contents-stored c v room),
    refl,
    omega arith,
  )
]

-- the oldest byte and the rest; 0 from an empty queue
abbrev pub dequeue : List ℕ → ℕ × List ℕ
dequeue [] = (0, [])
dequeue (c ∷ q) = (c, q)

-- On indices in the ring, `keyboard_get_char` takes the oldest byte and leaves the rest, or returns 0
-- and leaves no byte when none waits. `keyboard_has_char` tells which. The indices stay in the ring.
pub get_char-dequeue :
    {s : Keyboard}
    → IsRing s
    → let (c, s') = get_char s in
      ((c, contents s') ≡ dequeue (contents s))
      × (has_char s ≡ ltb 0 (length (contents s)))
      × IsRing s'
unfolding get_char has_char
get_char-dequeue {s} v = elim (Bool-cases (s.key_head == s.key_tail)) [
  | inl empty ↦
      let none_wait : contents s ≡ [] = ap (ring s.key_buffer s.key_tail) {y = 0} (ground arith) in
      ground (arith, none_wait)
  | inr left ↦
      let rest : List ℕ = ring s.key_buffer ((s.key_tail + 1) % kb_buffer_size) (count s - 1) in
      let front : contents s ≡ s.key_buffer s.key_tail ∷ rest =
        ring-head s.key_buffer s.key_tail (count s) (ground arith) in
      let fewer : (s.key_head + kb_buffer_size - (s.key_tail + 1) % kb_buffer_size) % kb_buffer_size
          ≡ count s - 1 =
        ground arith in
      rw (left, front)
        (
          ap
              (λ n.
                (s.key_buffer s.key_tail, ring s.key_buffer ((s.key_tail + 1) % kb_buffer_size) n))
              fewer,
          ground arith,
          omega arith,
        )
]

pub buffer_is_full-count :
    {s : Keyboard} → IsRing s → buffer_is_full s ≡ (length (contents s) == capacity)
unfolding buffer_is_full
buffer_is_full-count {s} v = ground (arith, length-contents s)

-- every byte of `cs` in turn that fits
abbrev pub enqueue_all : List ℕ → List ℕ → List ℕ
enqueue_all q [] = q
enqueue_all q (c ∷ cs) = enqueue_all (enqueue q c) cs

enqueue_all_full : (q cs : List ℕ) → ltb (length q) capacity ≡ false → enqueue_all q cs ≡ q
enqueue_all_full q [] h = refl
enqueue_all_full q (c ∷ cs) h = rw h (enqueue_all_full q cs h)

-- The loop that stops at the first byte that does not fit stores what the queue takes.
pub put_all-enqueue_all :
    (cs : List ℕ) {s : Keyboard}
    → IsRing s
    → (contents (put_all s cs) ≡ enqueue_all (contents s) cs) × IsRing (put_all s cs)
unfolding put_all
put_all-enqueue_all [] v = (refl, v)
put_all-enqueue_all (c ∷ cs) {s} v =
    let (fits, kept, _, v') = buffer_put-enqueue c v in
    elim (Bool-cases (buffer_put s c).0) [
      | inl ok ↦
          let (rest, v'') = put_all-enqueue_all cs v' in
          rw (ok, put_all) (rest ∙ ap (λ q. enqueue_all q cs) kept, v'')
      | inr failed ↦
          let full : ltb (length (contents s)) capacity ≡ false = sym fits ∙ failed in
          let same : enqueue (contents s) c ≡ contents s = rw full in
          rw (failed, put_all)
            (
              kept
                  ∙ same
                  ∙ sym (enqueue_all_full (contents s) cs full)
                  ∙ ap (λ q. enqueue_all q cs) (sym same),
              v',
            )
    ]
