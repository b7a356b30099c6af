-- ===== src/Editor/Undo.antt =====
-- Undo and redo of arch/x86/snake/snake.c.
use cobra_os.Base.{
  ◌+◌, ◌-◌, ◌<◌, ◌≡◌, refl, ap, sym, subst, ◌∙◌, ltb, ◌==◌, ◌||◌, Bool, true, false, Array, Option,
  none, some, inl, inr, arith, Bool-cases,
}
use cobra_os.Editor.Line.{Heap, later, line_join}
use cobra_os.Editor.State.{
  EditorState, Stack, Editor, editor_state_clone, editor_push_undo, undo_pushed, push_clone,
  editor_clear_redo, editor_undo, editor_redo, editor_state_restore, undo_stack_top,
}
use cobra_os.Editor.Edit.{
  len_at, changed, editor_scroll_to_cursor, editor_insert_char, newline_with, editor_insert_newline,
  editor_delete_backward, editor_delete_forward,
}
use cobra_os.Editor.Page.{IsPage, IsValid, view}
use cobra_os.Editor.Lines.{line_delete_char-Deleted}
use cobra_os.Editor.Clone.{editor_state_clone-SamePage, view-same}
use cobra_os.Editor.Stacks.{undo_stack_top-push, undo_stack_pop-IsStack, push_clone-IsStack}
use cobra_os.Editor.Granted.{Abundant, editor_state_clone-some}
use cobra_os.Editor.Refine.{editor_push_undo-IsValid, insert_char_ok, newline_ok, insert_newline_ok}
use cobra_os.Editor.Erase.{delete_backward_ok, delete_forward_ok}
use cobra_os.Editor.Commands.{
  Command, insert, newline, backspace, delete, perform, command_ok, command-ok,
}

-- whether the command finds something to change
abbrev pub changes : Command → EditorState → Bool
changes (insert c) p = true
changes newline p = true
changes backspace p = ltb 0 p.cursor_x || ltb 0 p.cursor_y
changes delete p = ltb p.cursor_x (len_at p p.cursor_y) || ltb (p.cursor_y + 1) p.num_lines

changed-undo_stack :
    (e : Editor) (q : EditorState) (h : Heap) → (changed e q h).undo_stack ≡ e.undo_stack
unfolding changed editor_scroll_to_cursor editor_clear_redo
changed-undo_stack e q h = refl

newline_with-undo_stack :
    (pushed : Bool) (e : Editor) (o : Option Array) (h : Heap)
    → newline_ok e.page o h ≡ true
    → (newline_with pushed e o h).undo_stack ≡ e.undo_stack
unfolding newline_with newline_ok
newline_with-undo_stack pushed e none h ok = cc
newline_with-undo_stack pushed e (some b) h ok = rw ok (changed-undo_stack e _ _)

-- A command that succeeds and changes the text leaves the page before it on the undo stack.
perform-undo_stack :
    (k : Command) (ed : Editor)
    → IsValid ed
    → command_ok k ed ≡ true
    → changes k ed.page ≡ true
    → (perform k ed).undo_stack ≡ (editor_push_undo ed).undo_stack
unfolding editor_insert_char editor_insert_newline editor_delete_backward editor_delete_forward
    insert_char_ok insert_newline_ok delete_backward_ok delete_forward_ok
perform-undo_stack (insert c) ed v ok ch = rw ok (changed-undo_stack (editor_push_undo ed) _ _)
perform-undo_stack newline ed v ok ch =
    let e = editor_push_undo ed in
    newline_with-undo_stack (undo_pushed ed) e (e.heap 0) (later e.heap) ok
perform-undo_stack backspace ed v ok ch =
    let e = editor_push_undo ed in
    let p = e.page in
    let (j, same) = editor_push_undo-IsValid ed v in
    let t = j.page_valid.in_text in
    elim (Bool-cases (ltb 0 p.cursor_x)) [
      | inl inside ↦
          let (done, kept, del) =
            line_delete_char-Deleted (p.lines p.cursor_y) (p.cursor_x - 1) e.heap
              (t.lines_there p.cursor_y t.row) (ground (arith, t.col)) in
          rw (inside, done) (changed-undo_stack e _ _)
      | inr start ↦ elim (Bool-cases (ltb 0 p.cursor_y)) [
        | inl below ↦
            let fine : (line_join (p.lines (p.cursor_y - 1)) (p.lines p.cursor_y) e.heap).ok
                ≡ true =
              rw (start, below) at ok in
            rw (start, below, fine) (changed-undo_stack e _ _)
        | inr first ↦ absurd (nothing p ed.page same start first ch)
      ]
    ]
  where
    nothing :
        (p q : EditorState)
        → p ≡ q
        → ltb 0 p.cursor_x ≡ false
        → ltb 0 p.cursor_y ≡ false
        → (ltb 0 q.cursor_x || ltb 0 q.cursor_y) ≡ true
        → ⊥
    nothing p q e a b c =
        ground
          (arith, ap (λ (q : EditorState). q.cursor_x) e, ap (λ (q : EditorState). q.cursor_y) e)
perform-undo_stack delete ed v ok ch =
    let e = editor_push_undo ed in
    let p = e.page in
    let (j, same) = editor_push_undo-IsValid ed v in
    let t = j.page_valid.in_text in
    elim (Bool-cases (ltb p.cursor_x (len_at p p.cursor_y))) [
      | inl inside ↦
          let (done, kept, del) =
            line_delete_char-Deleted (p.lines p.cursor_y) p.cursor_x e.heap
              (t.lines_there p.cursor_y t.row) (ground arith) in
          rw (inside, done) (changed-undo_stack e _ _)
      | inr end ↦ elim (Bool-cases (ltb (p.cursor_y + 1) p.num_lines)) [
        | inl above ↦
            let fine : (line_join (p.lines p.cursor_y) (p.lines (p.cursor_y + 1)) e.heap).ok
                ≡ true =
              rw (end, above) at ok in
            rw (end, above, fine) (changed-undo_stack e _ _)
        | inr last ↦ absurd (nothing end last (subst (λ q. changes delete q ≡ true) (sym same) ch))
      ]
    ]
  where
    p' : EditorState
    p' = (editor_push_undo ed).page

    nothing :
        ltb p'.cursor_x (len_at p' p'.cursor_y) ≡ false
        → ltb (p'.cursor_y + 1) p'.num_lines ≡ false
        → changes delete p' ≡ true
        → ⊥
    nothing a b c = ground arith

-- the clone on top of a stack
push_clone-top :
    (s : Stack) (p : EditorState) (h : Heap)
    → IsPage p
    → Abundant h
    → let s' = push_clone s (editor_state_clone p h).state in
      (view (undo_stack_top s') ≡ view p) × (0 < s'.top)
unfolding push_clone
push_clone-top s p h v a =
    let ((st, e), more) = editor_state_clone-some p h a in
    let (top, pos) = undo_stack_top-push s st in
    rw e (ap view top ∙ view-same (editor_state_clone-SamePage p st h e) v.in_text, pos)

editor_undo-page :
    (ed : Editor) → 0 < ed.undo_stack.top → (editor_undo ed).page ≡ undo_stack_top ed.undo_stack
unfolding editor_undo editor_state_restore
editor_undo-page ed pos = elim (Bool-cases (ed.undo_stack.top == 0)) [
  | inl empty ↦ absurd (ground arith)
  | inr some_left ↦ rw some_left refl
]

-- In a valid editor, while kmalloc succeeds, undo straight after an editing command that found something
-- to change gives back the text and the cursor from before the command.
pub view-editor_undo :
    (k : Command) (ed : Editor)
    → IsValid ed
    → Abundant ed.heap
    → changes k ed.page ≡ true
    → view (editor_undo (perform k ed)).page ≡ view ed.page
unfolding editor_push_undo
view-editor_undo k ed v a ch =
    let same = perform-undo_stack k ed v (command-ok k ed v a) ch in
    let (top, pos) = push_clone-top ed.undo_stack ed.page ed.heap v.page_valid a in
    ap view (editor_undo-page (perform k ed) (subst (λ (s : Stack). 0 < s.top) (sym same) pos))
    ∙ ap (λ (s : Stack). view (undo_stack_top s)) same
    ∙ top

-- Undo and redo keep a valid editor valid.
pub editor_undo-IsValid : (ed : Editor) → IsValid ed → IsValid (editor_undo ed)
unfolding editor_undo editor_state_restore
editor_undo-IsValid ed v = elim (Bool-cases (ed.undo_stack.top == 0)) [
  | inl empty ↦ rw empty v
  | inr some_left ↦ rw some_left (record {
    page_valid = v.undo_valid.pages (ed.undo_stack.top - 1) (ground arith);
    undo_valid = undo_stack_pop-IsStack ed.undo_stack v.undo_valid;
    redo_valid = push_clone-IsStack ed.redo_stack ed.page ed.heap v.redo_valid v.page_valid;
    stacks_there = v.stacks_there;
  })
]

pub editor_redo-IsValid : (ed : Editor) → IsValid ed → IsValid (editor_redo ed)
unfolding editor_redo editor_state_restore
editor_redo-IsValid ed v = elim (Bool-cases (ed.redo_stack.top == 0)) [
  | inl empty ↦ rw empty v
  | inr some_left ↦ rw some_left (record {
    page_valid = v.redo_valid.pages (ed.redo_stack.top - 1) (ground arith);
    undo_valid = push_clone-IsStack ed.undo_stack ed.page ed.heap v.undo_valid v.page_valid;
    redo_valid = undo_stack_pop-IsStack ed.redo_stack v.redo_valid;
    stacks_there = v.stacks_there;
  })
]

editor_undo-redo_stack :
    (ed : Editor)
    → 0 < ed.undo_stack.top
    → (editor_undo ed).redo_stack
      ≡ push_clone ed.redo_stack (editor_state_clone ed.page ed.heap).state
unfolding editor_undo editor_state_restore
editor_undo-redo_stack ed pos = elim (Bool-cases (ed.undo_stack.top == 0)) [
  | inl empty ↦ absurd (ground arith)
  | inr some_left ↦ rw some_left refl
]

editor_redo-page :
    (ed : Editor) → 0 < ed.redo_stack.top → (editor_redo ed).page ≡ undo_stack_top ed.redo_stack
unfolding editor_redo editor_state_restore
editor_redo-page ed pos = elim (Bool-cases (ed.redo_stack.top == 0)) [
  | inl empty ↦ absurd (ground arith)
  | inr some_left ↦ rw some_left refl
]

-- In a valid editor, while kmalloc succeeds, redo straight after an undo that had something to undo
-- gives back the text and the cursor from before the undo.
pub view-editor_redo :
    (ed : Editor)
    → IsValid ed
    → Abundant ed.heap
    → 0 < ed.undo_stack.top
    → view (editor_redo (editor_undo ed)).page ≡ view ed.page
view-editor_redo ed v a pos =
    let (top, filled) = push_clone-top ed.redo_stack ed.page ed.heap v.page_valid a in
    let kept = editor_undo-redo_stack ed pos in
    ap view (editor_redo-page (editor_undo ed) (subst (λ (s : Stack). 0 < s.top) (sym kept) filled))
    ∙ ap (λ (s : Stack). view (undo_stack_top s)) kept
    ∙ top
