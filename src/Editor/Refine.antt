-- ===== src/Editor/Refine.antt =====
-- The editing commands of arch/x86/snake/snake.c edit a text with a cursor, or leave it as it was.
use cobra_os.Base.{
  ℕ, ◌+◌, ◌≡◌, refl, ap, ◌∙◌, ◌==◌, if◌then◌else◌, Bool, true, false, Array, Option, none, some,
  inl, inr, arith, Bool-cases,
}
use cobra_os.Editor.Line.{Heap, later, line_insert_char, line_split}
use cobra_os.Editor.State.{
  EditorState, Editor, editor_push_undo, undo_pushed, editor_discard_last_undo, editor_clear_redo,
}
use cobra_os.Editor.Edit.{
  scroll_page, editor_scroll_to_cursor, changed, refused, editor_insert_char, split_at,
  newline_with, editor_insert_newline,
}
use cobra_os.Editor.Lines.{line_insert_char-Inserted, line_split-Cut}
use cobra_os.Editor.Page.{InText, IsValid, View, view}
use cobra_os.Editor.Stacks.{undo_stack_pop-IsStack, undo_stack_clear-IsStack, push_clone-IsStack}
use cobra_os.Editor.Valid.{scroll_page-IsPage}
use cobra_os.Editor.Spec.{typed, line_broken}
use cobra_os.Editor.Pages.{with_line-InText, view-Inserted}
use cobra_os.Editor.Breaks.{view-Cut}

-- A command left a valid editor. It did what it promises, or it left the page as it was.
pub record Effect (ed ed' : Editor) (v : View) (done : Bool) : Type 0 where
  pub effect_valid : IsValid ed'
  pub effect : if done then view ed'.page ≡ v else ed'.page ≡ ed.page

-- the state after the page is cloned onto the undo stack
pub editor_push_undo-IsValid :
    (ed : Editor)
    → IsValid ed
    → IsValid (editor_push_undo ed) × ((editor_push_undo ed).page ≡ ed.page)
unfolding editor_push_undo
editor_push_undo-IsValid ed v = (
  record {
    page_valid = v.page_valid;
    undo_valid = push_clone-IsStack ed.undo_stack ed.page ed.heap v.undo_valid v.page_valid;
    redo_valid = v.redo_valid;
    stacks_there = v.stacks_there;
  },
  refl,
)

pub changed-Effect :
    (ed e : Editor) (q : EditorState) (h : Heap) (v : View)
    → IsValid e
    → InText q
    → view q ≡ v
    → Effect ed (changed e q h) v true
unfolding changed editor_scroll_to_cursor editor_clear_redo scroll_page
changed-Effect ed e q h v i t w = record {
  effect_valid = record {
    page_valid = scroll_page-IsPage q t;
    undo_valid = i.undo_valid;
    redo_valid = undo_stack_clear-IsStack e.redo_stack;
    stacks_there = i.stacks_there;
  };
  effect = w;
}

pub refused-Effect :
    (ed e : Editor) (pushed : Bool) (h : Heap) (v : View)
    → IsValid e
    → e.page ≡ ed.page
    → Effect ed (refused pushed e h) v false
unfolding refused editor_discard_last_undo
refused-Effect ed e true h v i w = elim (Bool-cases (e.undo_stack.top == 0)) [
  | inl none_left ↦ rw none_left (record {
    effect_valid = record {
      page_valid = i.page_valid;
      undo_valid = i.undo_valid;
      redo_valid = i.redo_valid;
      stacks_there = i.stacks_there;
    };
    effect = w;
  })
  | inr some_left ↦ rw some_left (record {
    effect_valid = record {
      page_valid = i.page_valid;
      undo_valid = undo_stack_pop-IsStack e.undo_stack i.undo_valid;
      redo_valid = i.redo_valid;
      stacks_there = i.stacks_there;
    };
    effect = w;
  })
]
refused-Effect ed e false h v i w = record {
  effect_valid = record {
    page_valid = i.page_valid;
    undo_valid = i.undo_valid;
    redo_valid = i.redo_valid;
    stacks_there = i.stacks_there;
  };
  effect = w;
}

-- whether kmalloc let the command insert the character
unfoldable pub insert_char_ok : Editor → ℕ → Bool
insert_char_ok ed c =
    let e = editor_push_undo ed in
    (line_insert_char (e.page.lines e.page.cursor_y) e.page.cursor_x c e.heap).ok

pub insert_char-Effect :
    (ed : Editor) (c : ℕ)
    → IsValid ed
    → Effect ed (editor_insert_char ed c) (typed c (view ed.page)) (insert_char_ok ed c)
unfolding editor_insert_char insert_char_ok
insert_char-Effect ed c i =
    let e = editor_push_undo ed in
    let p = e.page in
    let r = line_insert_char (p.lines p.cursor_y) p.cursor_x c e.heap in
    let (j, same) = editor_push_undo-IsValid ed i in
    let t = j.page_valid.in_text in
    elim (Bool-cases r.ok) [
      | inl ok ↦
          let ins =
            line_insert_char-Inserted (p.lines p.cursor_y) p.cursor_x c e.heap
              (t.lines_there p.cursor_y t.row) t.col ok in
          rw ok (
            changed-Effect ed e _ r.heap (typed c (view ed.page)) j
              (with_line-InText p r.line (p.cursor_x + 1) t ins.ins_null
                (omega (arith, ins.ins_len, t.col)))
              (view-Inserted p r.line c t ins ∙ ap (λ q. typed c (view q)) same))
      | inr fails ↦
          rw fails (refused-Effect ed e (undo_pushed ed) r.heap (typed c (view ed.page)) j same)
    ]

-- whether kmalloc, which answers `o` first, let the command break the line
unfoldable pub newline_ok : EditorState → Option Array → Heap → Bool
newline_ok p none h = false
newline_ok p (some b) h = (line_split (p.lines p.cursor_y) p.cursor_x h).tail.ok

unfoldable pub insert_newline_ok : Editor → Bool
insert_newline_ok ed = let e = editor_push_undo ed in newline_ok e.page (e.heap 0) (later e.heap)

newline_with-Effect :
    (ed e : Editor) (pushed : Bool) (o : Option Array) (h : Heap)
    → IsValid e
    → e.page ≡ ed.page
    → Effect ed (newline_with pushed e o h) (line_broken (view ed.page)) (newline_ok e.page o h)
unfolding newline_with newline_ok
newline_with-Effect ed e pushed none h j same =
    refused-Effect ed e pushed h (line_broken (view ed.page)) j same
newline_with-Effect ed e pushed (some b) h j same =
    let p = e.page in
    let r = line_split (p.lines p.cursor_y) p.cursor_x h in
    let t = j.page_valid.in_text in
    elim (Bool-cases r.tail.ok) [
      | inl ok ↦
          let cut = view-Cut p r.head r.tail.line t (
            line_split-Cut (p.lines p.cursor_y) p.cursor_x h (t.lines_there p.cursor_y t.row) t.col
              ok) in
          rw ok (
            changed-Effect ed e (split_at p r.head r.tail.line) r.tail.heap
              (line_broken (view ed.page)) j cut.1 (cut.0 ∙ ap (λ q. line_broken (view q)) same))
      | inr fails ↦
          rw fails (refused-Effect ed e pushed r.tail.heap (line_broken (view ed.page)) j same)
    ]

pub insert_newline-Effect :
    (ed : Editor)
    → IsValid ed
    → Effect ed (editor_insert_newline ed) (line_broken (view ed.page)) (insert_newline_ok ed)
unfolding editor_insert_newline insert_newline_ok
insert_newline-Effect ed i =
    let e = editor_push_undo ed in
    let (j, same) = editor_push_undo-IsValid ed i in
    newline_with-Effect ed e (undo_pushed ed) (e.heap 0) (later e.heap) j same
