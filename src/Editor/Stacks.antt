-- ===== src/Editor/Stacks.antt =====
-- The undo and redo stacks of arch/x86/snake/snake.c as lists of at most 100 states.
use cobra_os.Base.{
  ℕ, zero, suc, ◌+◌, ◌-◌, ◌<◌, ◌≤◌, ◌≡◌, refl, ap, ◌∙◌, update, window, window_cong, window_agree,
  window-snoc, ltb, leb, ◌&&◌, if◌then◌else◌, List, [], ◌∷◌, ◌++◌, drop, Option, none, some, arith,
  Bool-cases, inl, inr, ◌==◌,
}
use mathlib.Core.Path.{ap₂}
use cobra_os.Editor.Line.{Heap}
use cobra_os.Editor.State.{
  max_undo_levels, EditorState, Stack, editor_state_clone, drop_oldest, undo_stack_push,
  undo_stack_pop, undo_stack_clear, undo_stack_top, push_clone,
}
use cobra_os.Editor.Page.{IsPage, IsStack}
use cobra_os.Editor.Clone.{editor_state_clone-SamePage, same-IsPage}

-- the states of a stack, the oldest first
abbrev pub contents : Stack → List EditorState
contents s = window s.states 0 s.top

drop_oldest_at :
    (f : ℕ → EditorState) (k n j : ℕ)
    → drop_oldest f k n j ≡ (if leb k j && ltb j (k + n) then f (j + 1) else f j)
unfolding drop_oldest
drop_oldest_at f k zero j = ground arith
drop_oldest_at f k (suc n) j = ground (arith, drop_oldest_at (update f k (f (suc k))) (suc k) n j)

-- A push appends the state, and first drops the oldest one from a stack of 100.
pub contents-undo_stack_push :
    (s : Stack) (st : EditorState)
    → s.top ≤ max_undo_levels
    → contents (undo_stack_push s st)
      ≡ drop (if leb max_undo_levels s.top then 1 else 0) (contents s) ++ (st ∷ [])
unfolding undo_stack_push
contents-undo_stack_push s st le = elim (Bool-cases (leb max_undo_levels s.top)) [
  | inl full ↦ rw full (
      ap (window f 0) {x = s.top} {y = suc (s.top - 1)} (ground arith)
      ∙ window-snoc f 0 (s.top - 1)
      ∙ ap₂ ◌++◌
          (window_agree f s.states 0 1 (s.top - 1)
              (λ k lt. ground (arith, drop_oldest_at s.states 0 (s.top - 1) (0 + k)))
            ∙ ap (λ n. drop 1 (window s.states 0 n)) {x = suc (s.top - 1)} {y = s.top}
                (ground arith))
          (ap (λ x. x ∷ []) (ground arith)))
  | inr room ↦ rw room (
      ap (window g 0) {x = s.top + 1} {y = suc s.top} (omega arith)
      ∙ window-snoc g 0 s.top
      ∙ ap₂ ◌++◌ (window_cong g s.states 0 s.top (λ j p q. ground arith))
          (ap (λ x. x ∷ []) (ground arith)))
]
  where
    f : ℕ → EditorState
    f = update (drop_oldest s.states 0 (s.top - 1)) (s.top - 1) st

    g : ℕ → EditorState
    g = update s.states s.top st

-- Undo takes what was pushed last.
pub undo_stack_top-push :
    (s : Stack) (st : EditorState)
    → (undo_stack_top (undo_stack_push s st) ≡ st) × (0 < (undo_stack_push s st).top)
unfolding undo_stack_push
undo_stack_top-push s st = elim (Bool-cases (leb max_undo_levels s.top)) [
  | inl full ↦ rw full (ground arith, ground arith)
  | inr room ↦ rw room (ground arith, ground arith)
]

pub undo_stack_push-IsStack :
    (s : Stack) (st : EditorState) → IsStack s → IsPage st → IsStack (undo_stack_push s st)
unfolding undo_stack_push
undo_stack_push-IsStack s st v p = elim (Bool-cases (leb max_undo_levels s.top)) [
  | inl full ↦ rw full (record {
    bounded = v.bounded;
    pages = λ i lt. elim (Bool-cases (i == s.top - 1)) [
      | inl here ↦ rw here p
      | inr below ↦ rw (below, moved i (ground arith)) (v.pages (i + 1) (ground arith))
    ];
  })
  | inr room ↦ rw room (record {
    bounded = ground (arith, v.bounded);
    pages = λ i lt. elim (Bool-cases (i == s.top)) [
      | inl here ↦ rw here p
      | inr below ↦ rw below (v.pages i (ground arith))
    ];
  })
]
  where
    moved : (i : ℕ) → i < s.top - 1 → drop_oldest s.states 0 (s.top - 1) i ≡ s.states (i + 1)
    moved i lt = ground (arith, drop_oldest_at s.states 0 (s.top - 1) i)

pub undo_stack_pop-IsStack : (s : Stack) → IsStack s → IsStack (undo_stack_pop s)
unfolding undo_stack_pop
undo_stack_pop-IsStack s v = record {
  bounded = omega (arith, v.bounded);
  pages = λ i lt. v.pages i (omega arith);
}

pub undo_stack_clear-IsStack : (s : Stack) → IsStack (undo_stack_clear s)
unfolding undo_stack_clear
undo_stack_clear-IsStack s = record { bounded = omega arith; pages = λ i lt. absurd (omega arith) }

push_state :
    (s : Stack) (o : Option EditorState)
    → IsStack s
    → ((st : EditorState) → o ≡ some st → IsPage st)
    → IsStack (push_clone s o)
unfolding push_clone
push_state s none v k = v
push_state s (some st) v k = undo_stack_push-IsStack s st v (k st refl)

-- Pushing what editor_state_clone returned for a valid page.
pub push_clone-IsStack :
    (s : Stack) (p : EditorState) (h : Heap)
    → IsStack s
    → IsPage p
    → IsStack (push_clone s (editor_state_clone p h).state)
push_clone-IsStack s p h v q = on_state (editor_state_clone p h).state refl
  where
    on_state :
        (o : Option EditorState) → (editor_state_clone p h).state ≡ o → IsStack (push_clone s o)
    on_state o e =
        push_state s o v (λ st f. same-IsPage (editor_state_clone-SamePage p st h (e ∙ f)) q)
