-- ===== src/Editor/Erase.antt =====
-- Backspace and Delete of arch/x86/snake/snake.c remove a character or a line break, or leave the text
-- as it was.
use cobra_os.Base.{
  ◌+◌, ◌-◌, ◌≤◌, ◌≡◌, ap, sym, ◌∙◌, ltb, window, if◌then◌else◌, Bool, true, false, inl, inr, arith,
  Bool-cases,
}
use cobra_os.Editor.Line.{line_delete_char, line_join}
use cobra_os.Editor.State.{EditorState, Editor, editor_push_undo, undo_pushed}
use cobra_os.Editor.Edit.{len_at, join_at, editor_delete_backward, editor_delete_forward}
use cobra_os.Editor.Lines.{line_delete_char-Deleted, line_join-Joined}
use cobra_os.Editor.Page.{texts, IsValid, View, view}
use cobra_os.Editor.Spec.{
  backspaced, deleted, joined_above, joined_below, erased_before, erased_after,
}
use cobra_os.Editor.Pages.{with_line-InText, view-Deleted_before, view-Deleted_after}
use cobra_os.Editor.Joins.{joined_up, view-Joined_before, view-Joined_after}
use cobra_os.Editor.Refine.{Effect, editor_push_undo-IsValid, changed-Effect, refused-Effect}

-- Where nothing stands to be removed, the command does what it promises by changing nothing.
nothing-Effect :
    (ed ed' : Editor) (v : View) → view ed.page ≡ v → Effect ed ed' v false → Effect ed ed' v true
nothing-Effect ed ed' v w f = record {
  effect_valid = f.effect_valid;
  effect = ap view f.effect ∙ w;
}

-- whether kmalloc let the command join two lines, where it has to
unfoldable pub delete_backward_ok : Editor → Bool
delete_backward_ok ed =
    let e = editor_push_undo ed in
    let p = e.page in
    if ltb 0 p.cursor_x
    then true
    else if ltb 0 p.cursor_y
    then (line_join (p.lines (p.cursor_y - 1)) (p.lines p.cursor_y) e.heap).ok
    else true

-- the first position of the text has nothing before it
backspaced-start :
    (p : EditorState) → p.cursor_x ≡ 0 → p.cursor_y ≡ 0 → view p ≡ backspaced (view p)
backspaced-start p x y =
    ap (λ ls. joined_above ls (view p)) (sym (ap (texts p.lines 0) y))
    ∙ ap (λ b. erased_before b (view p)) (sym (ap (window (p.lines p.cursor_y).bytes 0) x))

pub delete_backward-Effect :
    (ed : Editor)
    → IsValid ed
    → Effect ed (editor_delete_backward ed) (backspaced (view ed.page)) (delete_backward_ok ed)
unfolding editor_delete_backward delete_backward_ok
delete_backward-Effect ed i =
    let e = editor_push_undo ed in
    let p = e.page in
    let (j, same) = editor_push_undo-IsValid ed i in
    let t = j.page_valid.in_text in
    let goal = ap (λ q. backspaced (view q)) same in
    elim (Bool-cases (ltb 0 p.cursor_x)) [
      | inl inside ↦
          let (ok, kept, del) =
            line_delete_char-Deleted (p.lines p.cursor_y) (p.cursor_x - 1) e.heap
              (t.lines_there p.cursor_y t.row) (ground (arith, t.col)) in
          let r = line_delete_char (p.lines p.cursor_y) (p.cursor_x - 1) e.heap in
          rw (inside, ok)
            (changed-Effect ed e _ r.heap (backspaced (view ed.page)) j
              (with_line-InText p r.line (p.cursor_x - 1) t del.del_null
                (omega (arith, del.del_len, t.col)))
              (view-Deleted_before p r.line t (ground arith) del ∙ goal))
      | inr start ↦ elim (Bool-cases (ltb 0 p.cursor_y)) [
        | inl below ↦
            let r = line_join (p.lines (p.cursor_y - 1)) (p.lines p.cursor_y) e.heap in
            elim (Bool-cases r.ok) [
              | inl ok ↦
                  let joined = view-Joined_before p r.line t (ground arith) (ground arith) (
                    line_join-Joined (p.lines (p.cursor_y - 1)) (p.lines p.cursor_y) e.heap
                      (t.lines_there (p.cursor_y - 1) (omega (arith, t.row))) ok) in
                  rw (start, below, ok)
                    (changed-Effect ed e (joined_up p r.line) r.heap (backspaced (view ed.page)) j
                      joined.1 (joined.0 ∙ goal))
              | inr fails ↦
                  rw (start, below, fails)
                    (refused-Effect ed e (undo_pushed ed) r.heap (backspaced (view ed.page)) j same)
            ]
        | inr first ↦
            rw (start, first)
              (nothing-Effect ed _ (backspaced (view ed.page))
                (ap view (sym same) ∙ backspaced-start p (ground arith) (ground arith) ∙ goal)
                (refused-Effect ed e (undo_pushed ed) e.heap (backspaced (view ed.page)) j same))
      ]
    ]

unfoldable pub delete_forward_ok : Editor → Bool
delete_forward_ok ed =
    let e = editor_push_undo ed in
    let p = e.page in
    if ltb p.cursor_x (len_at p p.cursor_y)
    then true
    else if ltb (p.cursor_y + 1) p.num_lines
    then (line_join (p.lines p.cursor_y) (p.lines (p.cursor_y + 1)) e.heap).ok
    else true

-- the last position of the text has nothing after it
deleted-end :
    (p : EditorState)
    → len_at p p.cursor_y ≤ p.cursor_x
    → p.num_lines ≤ p.cursor_y + 1
    → view p ≡ deleted (view p)
deleted-end p x y =
    ap (λ ls. joined_below ls (view p))
      (sym (
        ap (texts p.lines (p.cursor_y + 1)) {x = p.num_lines - (p.cursor_y + 1)} {y = 0}
          (omega arith)))
    ∙ ap (λ b. erased_after b (view p))
        (sym (
          ap (window (p.lines p.cursor_y).bytes p.cursor_x) {x = len_at p p.cursor_y - p.cursor_x}
            {y = 0} (omega arith)))

pub delete_forward-Effect :
    (ed : Editor)
    → IsValid ed
    → Effect ed (editor_delete_forward ed) (deleted (view ed.page)) (delete_forward_ok ed)
unfolding editor_delete_forward delete_forward_ok
delete_forward-Effect ed i =
    let e = editor_push_undo ed in
    let p = e.page in
    let (j, same) = editor_push_undo-IsValid ed i in
    let t = j.page_valid.in_text in
    let goal = ap (λ q. deleted (view q)) same in
    elim (Bool-cases (ltb p.cursor_x (len_at p p.cursor_y))) [
      | inl inside ↦
          let (ok, kept, del) =
            line_delete_char-Deleted (p.lines p.cursor_y) p.cursor_x e.heap
              (t.lines_there p.cursor_y t.row) (ground arith) in
          let r = line_delete_char (p.lines p.cursor_y) p.cursor_x e.heap in
          rw (inside, ok)
            (changed-Effect ed e _ r.heap (deleted (view ed.page)) j
              (with_line-InText p r.line p.cursor_x t del.del_null (ground (arith, del.del_len)))
              (view-Deleted_after p r.line t (ground arith) del ∙ goal))
      | inr end ↦ elim (Bool-cases (ltb (p.cursor_y + 1) p.num_lines)) [
        | inl above ↦
            let r = line_join (p.lines p.cursor_y) (p.lines (p.cursor_y + 1)) e.heap in
            elim (Bool-cases r.ok) [
              | inl ok ↦
                  let joined = view-Joined_after p r.line t (ground arith) (ground arith) (
                    line_join-Joined (p.lines p.cursor_y) (p.lines (p.cursor_y + 1)) e.heap
                      (t.lines_there p.cursor_y t.row) ok) in
                  rw (end, above, ok)
                    (changed-Effect ed e (join_at p p.cursor_y r.line) r.heap
                      (deleted (view ed.page)) j joined.1 (joined.0 ∙ goal))
              | inr fails ↦
                  rw (end, above, fails)
                    (refused-Effect ed e (undo_pushed ed) r.heap (deleted (view ed.page)) j same)
            ]
        | inr last ↦
            rw (end, last)
              (nothing-Effect ed _ (deleted (view ed.page))
                (ap view (sym same) ∙ deleted-end p (ground arith) (ground arith) ∙ goal)
                (refused-Effect ed e (undo_pushed ed) e.heap (deleted (view ed.page)) j same))
      ]
    ]
