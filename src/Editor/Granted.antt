-- ===== src/Editor/Granted.antt =====
-- The memory operations of arch/x86/snake/snake.c succeed as long as kmalloc does.
use cobra_os.Base.{
  ℕ, zero, suc, ◌+◌, ◌-◌, ◌≤◌, ◌≡◌, refl, update, leb, true, some, arith, Bool-cases, inl, inr,
}
pub use cobra_os.Memory.Heap.{Abundant}
use cobra_os.Editor.Line.{
  Heap, later, Line, line_move, line_reserve, line_insert_char, empty_line, line_split, line_join,
}
use cobra_os.Editor.State.{EditorState, clone_line, clone_lines, clone_heap, editor_state_clone}

line_reserve-ok :
    (l : Line) (needed : ℕ) (h : Heap) → Abundant h → (line_reserve l needed h).ok ≡ true
unfolding line_reserve line_move
line_reserve-ok l needed h a =
    let (b, e) = a 0 in
    elim (Bool-cases (leb needed l.cap)) [
      | inl fits ↦ rw fits refl
      | inr grows ↦ rw (grows, e) refl
    ]

pub line_insert_char-ok :
    (l : Line) (pos c : ℕ) (h : Heap)
    → pos ≤ l.len
    → Abundant h
    → (line_insert_char l pos c h).ok ≡ true
unfolding line_insert_char
line_insert_char-ok l pos c h le a = ground (arith, line_reserve-ok l (l.len + 2) h a)

pub line_split-ok :
    (l : Line) (pos : ℕ) (h : Heap) → pos ≤ l.len → Abundant h → (line_split l pos h).tail.ok ≡ true
unfolding line_split
line_split-ok l pos h le a = ground (arith, line_reserve-ok empty_line (l.len - pos + 1) h a)

pub line_join-ok : (dest src : Line) (h : Heap) → Abundant h → (line_join dest src h).ok ≡ true
unfolding line_join
line_join-ok dest src h a = ground (arith, line_reserve-ok dest (dest.len + src.len + 1) h a)

clone_heap-Abundant : (n : ℕ) (h : Heap) → Abundant h → Abundant (clone_heap n h)
unfolding clone_heap
clone_heap-Abundant zero h a = a
clone_heap-Abundant (suc n) h a =
    let (b, e) = a 0 in rw (e, clone_heap) (clone_heap-Abundant n (later h) (λ k. a (suc k)))

clone_lines-some :
    (n : ℕ) (src : ℕ → Line) (i : ℕ) (dst : ℕ → Line) (h : Heap)
    → Abundant h
    → (ls : ℕ → Line) × (clone_lines n src i dst h ≡ some ls)
unfolding clone_lines
clone_lines-some zero src i dst h a = (dst, refl)
clone_lines-some (suc n) src i dst h a =
    let (b, e) = a 0 in
    rw (e, clone_lines)
      (clone_lines-some n src (suc i) (update dst i (clone_line (src i) b)) (later h)
        (λ k. a (suc k)))

-- A clone is made, and memory is left.
pub editor_state_clone-some :
    (p : EditorState) (h : Heap)
    → Abundant h
    → ((st : EditorState) × ((editor_state_clone p h).state ≡ some st))
      × Abundant (editor_state_clone p h).heap
unfolding editor_state_clone
editor_state_clone-some p h a =
    let (b, e) = a 0 in
    let (ls, f) = clone_lines-some p.num_lines p.lines 0 p.lines (later h) (λ k. a (suc k)) in
    rw (e, f, editor_state_clone)
      ((record p { lines = ls }, refl), clone_heap-Abundant p.num_lines (later h) (λ k. a (suc k)))
