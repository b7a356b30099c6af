-- ===== src/Editor/Commands.antt =====
-- The four editing commands of arch/x86/snake/snake.c together: each keeps the editor well formed and,
-- as long as kmalloc succeeds, does what it promises.
use cobra_os.Base.{ℕ, suc, ◌+◌, ◌-◌, ◌≡◌, if◌then◌else◌, Bool, true, false, ◌⊎◌, inl, inr, arith}
use cobra_os.Editor.Line.{later}
use cobra_os.Editor.State.{Editor, editor_push_undo}
use cobra_os.Editor.Edit.{
  editor_insert_char, editor_insert_newline, editor_delete_backward, editor_delete_forward,
}
use cobra_os.Editor.Page.{IsValid, View, view}
use cobra_os.Editor.Spec.{typed, line_broken, backspaced, deleted}
use cobra_os.Editor.Granted.{
  Abundant, line_insert_char-ok, line_split-ok, line_join-ok, editor_state_clone-some,
}
use cobra_os.Editor.Refine.{
  Effect, editor_push_undo-IsValid, insert_char_ok, insert_char-Effect, newline_ok,
  insert_newline_ok, insert_newline-Effect,
}
use cobra_os.Editor.Erase.{
  delete_backward_ok, delete_backward-Effect, delete_forward_ok, delete_forward-Effect,
}

pub data Command : Type 0 where
  insert : ℕ → Command
  newline backspace delete : Command

abbrev pub perform : Command → Editor → Editor
perform (insert c) ed = editor_insert_char ed c
perform newline ed = editor_insert_newline ed
perform backspace ed = editor_delete_backward ed
perform delete ed = editor_delete_forward ed

-- what the command makes of the text
abbrev pub promise : Command → View → View
promise (insert c) v = typed c v
promise newline v = line_broken v
promise backspace v = backspaced v
promise delete v = deleted v

abbrev pub command_ok : Command → Editor → Bool
command_ok (insert c) ed = insert_char_ok ed c
command_ok newline ed = insert_newline_ok ed
command_ok backspace ed = delete_backward_ok ed
command_ok delete ed = delete_forward_ok ed

pub perform-Effect :
    (k : Command) (ed : Editor)
    → IsValid ed
    → Effect ed (perform k ed) (promise k (view ed.page)) (command_ok k ed)
perform-Effect (insert c) ed v = insert_char-Effect ed c v
perform-Effect newline ed v = insert_newline-Effect ed v
perform-Effect backspace ed v = delete_backward-Effect ed v
perform-Effect delete ed v = delete_forward-Effect ed v

-- A valid editor stays valid under each editing command, whatever kmalloc answers, and the command
-- either changes the text as it promises or leaves text, cursor and scroll position as they were.
pub perform_atomic :
    (k : Command) (ed : Editor)
    → IsValid ed
    → IsValid (perform k ed)
      × ((view (perform k ed).page ≡ promise k (view ed.page)) ⊎ ((perform k ed).page ≡ ed.page))
perform_atomic k ed v =
    let f = perform-Effect k ed v in (f.effect_valid, split (command_ok k ed) f.effect)
  where
    split :
        (b : Bool)
        → (if b
            then view (perform k ed).page ≡ promise k (view ed.page)
            else (perform k ed).page ≡ ed.page)
        → (view (perform k ed).page ≡ promise k (view ed.page)) ⊎ ((perform k ed).page ≡ ed.page)
    split true e = inl e
    split false e = inr e

editor_push_undo-Abundant : (ed : Editor) → Abundant ed.heap → Abundant (editor_push_undo ed).heap
unfolding editor_push_undo
editor_push_undo-Abundant ed a = (editor_state_clone-some ed.page ed.heap a).1

pub command-ok :
    (k : Command) (ed : Editor) → IsValid ed → Abundant ed.heap → command_ok k ed ≡ true
unfolding insert_char_ok insert_newline_ok newline_ok delete_backward_ok delete_forward_ok
command-ok (insert c) ed v a =
    let e = editor_push_undo ed in
    let t = (editor_push_undo-IsValid ed v).0.page_valid.in_text in
    line_insert_char-ok (e.page.lines e.page.cursor_y) e.page.cursor_x c e.heap t.col
      (editor_push_undo-Abundant ed a)
command-ok newline ed v a =
    let e = editor_push_undo ed in
    let t = (editor_push_undo-IsValid ed v).0.page_valid.in_text in
    let more = editor_push_undo-Abundant ed a in
    let (b, f) = more 0 in
    rw f (
      line_split-ok (e.page.lines e.page.cursor_y) e.page.cursor_x (later e.heap) t.col
        (λ k. more (suc k)))
command-ok backspace ed v a =
    let e = editor_push_undo ed in
    let p = e.page in
    ground (
      arith,
      line_join-ok (p.lines (p.cursor_y - 1)) (p.lines p.cursor_y) e.heap
          (editor_push_undo-Abundant ed a),
    )
command-ok delete ed v a =
    let e = editor_push_undo ed in
    let p = e.page in
    ground (
      arith,
      line_join-ok (p.lines p.cursor_y) (p.lines (p.cursor_y + 1)) e.heap
          (editor_push_undo-Abundant ed a),
    )

-- In a valid editor, while kmalloc succeeds: typing puts the character before the cursor, Enter breaks
-- the line there, Backspace removes the character before the cursor or else the line break, and Delete
-- the one behind it. At the ends of the text, where there is nothing to remove, the text is kept.
pub view-perform :
    (k : Command) (ed : Editor)
    → IsValid ed
    → Abundant ed.heap
    → view (perform k ed).page ≡ promise k (view ed.page)
view-perform k ed v a =
    granted (command_ok k ed) (command-ok k ed v a) (perform-Effect k ed v).effect
  where
    granted :
        (b : Bool)
        → b ≡ true
        → (if b
            then view (perform k ed).page ≡ promise k (view ed.page)
            else (perform k ed).page ≡ ed.page)
        → view (perform k ed).page ≡ promise k (view ed.page)
    granted true y e = e
    granted false y e = cc
