-- ===== src/Editor/State.antt =====
-- The editor's state and its undo and redo stacks, arch/x86/snake/snake.c.
use cobra_os.Base.{
  ℕ, zero, suc, ◌+◌, ◌-◌, update, leb, ◌==◌, if◌then◌else◌, Bool, true, false, List, Option, none,
  some,
}
use cobra_os.Memory.Copy.{memcpy}
use cobra_os.Editor.Line.{Heap, later, Line}

-- SCREEN_WIDTH, TEXT_HEIGHT and MAX_UNDO_LEVELS
abbrev pub screen_width : ℕ
screen_width = 80

abbrev pub text_height : ℕ
text_height = 24

abbrev pub max_undo_levels : ℕ
max_undo_levels = 100

pub record EditorState : Type 0 where
  pub lines : ℕ → Line
  pub num_lines : ℕ
  pub cursor_x : ℕ
  pub cursor_y : ℕ
  pub scroll_x : ℕ
  pub scroll_y : ℕ

-- a stack of states with its `top`, counted from 0 where the source counts from -1
pub record Stack : Type 0 where
  pub states : ℕ → EditorState
  pub top : ℕ

-- `page` are the fields that an EditorState keeps; `filename` is `none` for NULL; `heap` are the
-- answers of kmalloc to come. `stacks_null` is set when kmalloc refused the stacks, which the source
-- tests nowhere: a command then writes through NULL, so a well-formed editor has them.
pub record Editor : Type 0 where
  pub page : EditorState
  pub filename : Option (List ℕ)
  pub modified : Bool
  pub file_ends_with_newline : Bool
  pub undo_stack : Stack
  pub redo_stack : Stack
  pub stacks_null : Bool
  pub heap : Heap

-- what editor_state_clone returns, `none` for a state whose `lines` is NULL
pub record Clone : Type 0 where
  pub state : Option EditorState
  pub heap : Heap

-- the copy of a line in a fresh block
abbrev pub clone_line : Line → (ℕ → ℕ) → Line
clone_line l b = record {
  null = false;
  bytes = update (memcpy b 0 l.bytes 0 l.len) l.len 0;
  len = l.len;
  cap = l.len + 1;
}

-- the loop of editor_state_clone from line `i` on, with `n` rounds left; `none` when a call of
-- kmalloc fails
unfoldable pub clone_lines : ℕ → (ℕ → Line) → ℕ → (ℕ → Line) → Heap → Option (ℕ → Line)
clone_lines zero src i dst h = some dst
clone_lines (suc n) src i dst h = elim (h 0) [
  | none ↦ none
  | some b ↦ clone_lines n src (suc i) (update dst i (clone_line (src i) b)) (later h)
]

-- the answers left after that loop
unfoldable pub clone_heap : ℕ → Heap → Heap
clone_heap zero h = h
clone_heap (suc n) h = elim (h 0) [ none ↦ later h | some b ↦ clone_heap n (later h) ]

-- The contents of the fresh array of lines do not matter: each of them is written.
unfoldable pub editor_state_clone : EditorState → Heap → Clone
editor_state_clone p h = elim (h 0) [
  | none ↦ record { state = none; heap = later h }
  | some b ↦ record {
    state = elim (clone_lines p.num_lines p.lines 0 p.lines (later h)) [
      | none ↦ none
      | some ls ↦ some (record p { lines = ls })
    ];
    heap = clone_heap p.num_lines (later h);
  }
]

unfoldable pub editor_state_restore : Editor → EditorState → Editor
editor_state_restore ed st = record ed { page = st; modified = true }

-- `for (i = k + 1; i < k + 1 + n; i++) stack[i - 1] = stack[i]`
unfoldable pub drop_oldest : (ℕ → EditorState) → ℕ → ℕ → ℕ → EditorState
drop_oldest f k zero = f
drop_oldest f k (suc n) = drop_oldest (update f k (f (suc k))) (suc k) n

unfoldable pub undo_stack_push : Stack → EditorState → Stack
undo_stack_push s st =
    if leb max_undo_levels s.top
    then record { states = update (drop_oldest s.states 0 (s.top - 1)) (s.top - 1) st; top = s.top }
    else record { states = update s.states s.top st; top = s.top + 1 }

-- the state that undo_stack_pop returns; the stack loses it
abbrev pub undo_stack_top : Stack → EditorState
undo_stack_top s = s.states (s.top - 1)

unfoldable pub undo_stack_pop : Stack → Stack
undo_stack_pop s = record s { top = s.top - 1 }

unfoldable pub undo_stack_clear : Stack → Stack
undo_stack_clear s = record s { top = 0 }

-- push the clone, if there is one
unfoldable pub push_clone : Stack → Option EditorState → Stack
push_clone s none = s
push_clone s (some st) = undo_stack_push s st

unfoldable pub editor_push_undo : Editor → Editor
editor_push_undo ed =
    let cl = editor_state_clone ed.page ed.heap in
    record ed { undo_stack = push_clone ed.undo_stack cl.state; heap = cl.heap }

abbrev pub is_some : Option EditorState → Bool
is_some none = false
is_some (some st) = true

-- what editor_push_undo returns
unfoldable pub undo_pushed : Editor → Bool
undo_pushed ed = is_some (editor_state_clone ed.page ed.heap).state

unfoldable pub editor_discard_last_undo : Editor → Editor
editor_discard_last_undo ed =
    if ed.undo_stack.top == 0 then ed else record ed { undo_stack = undo_stack_pop ed.undo_stack }

unfoldable pub editor_clear_redo : Editor → Editor
editor_clear_redo ed = record ed { redo_stack = undo_stack_clear ed.redo_stack }

unfoldable pub editor_undo : Editor → Editor
editor_undo ed =
    let cl = editor_state_clone ed.page ed.heap in
    if ed.undo_stack.top == 0
    then ed
    else editor_state_restore
        (record ed {
          redo_stack = push_clone ed.redo_stack cl.state;
          undo_stack = undo_stack_pop ed.undo_stack;
          heap = cl.heap;
        })
        (undo_stack_top ed.undo_stack)

unfoldable pub editor_redo : Editor → Editor
editor_redo ed =
    let cl = editor_state_clone ed.page ed.heap in
    if ed.redo_stack.top == 0
    then ed
    else editor_state_restore
        (record ed {
          undo_stack = push_clone ed.undo_stack cl.state;
          redo_stack = undo_stack_pop ed.redo_stack;
          heap = cl.heap;
        })
        (undo_stack_top ed.redo_stack)
