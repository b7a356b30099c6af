-- ===== src/Editor/Runs.antt =====
-- The loop of editor_run and the dialog for filenames, arch/x86/snake/snake.c, on any key events.
use cobra_os.Base.{
  ℕ, suc, ◌<◌, ◌≡◌, ◌⊎◌, Option-cases, inl, inr, update, Bool, Array, List, [], ◌∷◌, Option, none,
  some, arith,
}
use cobra_os.Editor.State.{Editor}
use cobra_os.Editor.Edit.{
  SpecialKey, key_up, key_down, key_left, key_right, key_home, key_end, key_pageup, key_pagedown,
  key_delete, key_backspace, key_enter, key_tab, key_save, key_quit, key_esc, move,
  editor_scroll_to_cursor, editor_move_cursor,
}
use cobra_os.Editor.Keys.{KeyEvent, key_char, key_special}
use cobra_os.Editor.Page.{IsValid}
use cobra_os.Editor.Granted.{Abundant}
use cobra_os.Editor.Valid.{move-InText, scroll_page-IsPage}
use cobra_os.Editor.Commands.{insert, newline, backspace, delete, perform-Effect}
use cobra_os.Editor.Undo.{editor_undo-IsValid, editor_redo-IsValid}
use cobra_os.Editor.Session.{Prompt, prompt_from, editor_prompt_filename}
use cobra_os.Editor.File.{save_with, editor_load, editor_save}
use cobra_os.Editor.Loop.{Session, editor_run}
use cobra_os.Editor.Supply.{IsStable, Stocked, Stocked-IsStable}
use cobra_os.Editor.Opening.{editor_load-IsValid}
use cobra_os.Editor.Rounds.{NoOpening, editor_run-keeps}

editor_move_cursor-IsValid :
    (ed : Editor) (k : SpecialKey) → IsValid ed → IsValid (editor_move_cursor ed k)
unfolding editor_move_cursor editor_scroll_to_cursor
editor_move_cursor-IsValid ed k v = record {
  page_valid = scroll_page-IsPage (move k ed.page) (move-InText k ed.page v.page_valid.in_text);
  undo_valid = v.undo_valid;
  redo_valid = v.redo_valid;
  stacks_there = v.stacks_there;
}

IsValid-IsStable : IsStable IsValid
IsValid-IsStable = record {
  undo_keeps = editor_undo-IsValid;
  redo_keeps = editor_redo-IsValid;
  insert_keeps = λ ed c v. (perform-Effect (insert c) ed v).effect_valid;
  newline_keeps = λ ed v. (perform-Effect newline ed v).effect_valid;
  backward_keeps = λ ed v. (perform-Effect backspace ed v).effect_valid;
  forward_keeps = λ ed v. (perform-Effect delete ed v).effect_valid;
  move_keeps = editor_move_cursor-IsValid;
}

-- well formed, while kmalloc succeeds
abbrev Thriving : Editor → Type 0
Thriving ed = IsValid ed × Stocked ed

Thriving-IsStable : IsStable Thriving
Thriving-IsStable =
    let f = IsValid-IsStable in
    let g = Stocked-IsStable in
    record {
      undo_keeps = λ ed v. (f.undo_keeps ed v.0, g.undo_keeps ed v.1);
      redo_keeps = λ ed v. (f.redo_keeps ed v.0, g.redo_keeps ed v.1);
      insert_keeps = λ ed c v. (f.insert_keeps ed c v.0, g.insert_keeps ed c v.1);
      newline_keeps = λ ed v. (f.newline_keeps ed v.0, g.newline_keeps ed v.1);
      backward_keeps = λ ed v. (f.backward_keeps ed v.0, g.backward_keeps ed v.1);
      forward_keeps = λ ed v. (f.forward_keeps ed v.0, g.forward_keeps ed v.1);
      move_keeps = λ ed k v. (f.move_keeps ed k v.0, g.move_keeps ed k v.1);
    }

save_with-IsValid :
    (ed : Editor) (w : Bool) (b : Option Array) → IsValid ed → IsValid (save_with ed w b).editor
unfolding save_with
save_with-IsValid ed w none v = record {
  page_valid = v.page_valid;
  undo_valid = v.undo_valid;
  redo_valid = v.redo_valid;
  stacks_there = v.stacks_there;
}
save_with-IsValid ed w (some b) v = record {
  page_valid = v.page_valid;
  undo_valid = v.undo_valid;
  redo_valid = v.redo_valid;
  stacks_there = v.stacks_there;
}

editor_save-IsValid : (ed : Editor) (w : Bool) → IsValid ed → IsValid (editor_save ed w).editor
unfolding editor_save
editor_save-IsValid ed w v = elim (Option-cases ed.filename) [
  | inl e ↦ rw (e, editor_save) v
  | inr (name, e) ↦ rw (e, editor_save) (save_with-IsValid ed w (ed.heap 0) v)
]

save_with-Stocked :
    (ed : Editor) (w : Bool) (b : Option Array) → Stocked ed → Stocked (save_with ed w b).editor
unfolding save_with
save_with-Stocked ed w none a = λ k. a (suc k)
save_with-Stocked ed w (some b) a = λ k. a (suc k)

editor_save-Stocked : (ed : Editor) (w : Bool) → Stocked ed → Stocked (editor_save ed w).editor
unfolding editor_save
editor_save-Stocked ed w a = elim (Option-cases ed.filename) [
  | inl e ↦ rw (e, editor_save) a
  | inr (name, e) ↦ rw (e, editor_save) (save_with-Stocked ed w (ed.heap 0) a)
]

-- From a well-formed editor, any sequence of key events leaves a well-formed editor, through all
-- commands, loads, saves and confirmations, until the loop ends or the events do, whatever the file
-- system answers: without Ctrl+O for any answers of kmalloc, and with it while kmalloc succeeds. The
-- cursor stands in the text and on the screen, and each stack holds at most 100 well-formed pages.
pub editor_run-IsValid :
    (fresh : Editor) (buf : Array) (skip : ℕ) (es : List KeyEvent) (s : Session)
    → NoOpening es ⊎ Abundant s.editor.heap
    → IsValid s.editor
    → IsValid (editor_run fresh buf skip es s).editor
editor_run-IsValid fresh buf skip es s (inl h) v =
    editor_run-keeps IsValid IsValid-IsStable editor_save-IsValid fresh buf skip es s (inl h) v
editor_run-IsValid fresh buf skip es s (inr a) v =
    (editor_run-keeps Thriving Thriving-IsStable saved fresh buf skip es s (inr opened) (v, a)).0
  where
    saved : (ed : Editor) (w : Bool) → Thriving ed → Thriving (editor_save ed w).editor
    saved ed w (v, a) = (editor_save-IsValid ed w v, editor_save-Stocked ed w a)

    opened :
        (ed : Editor) (path : List ℕ) (file : Option (Array × ℕ))
        → Thriving ed
        → Thriving (editor_load ed fresh path file)
    opened ed path file (v, a) = editor_load-IsValid ed fresh path file a v

-- a filename in the dialog's buffer: room for it and its NUL
pub record IsName (size : ℕ) (p : Prompt) : Type 0 where
  pub name_fits : p.pos < size
  pub name_closed : p.buf p.pos ≡ 0

-- the dialog's answer, if there is one, holds a filename in the buffer
abbrev pub AllName : ℕ → Option Prompt → Type 0
AllName size none = Unit
AllName size (some p) = IsName size p

prompt_from-IsName :
    (es : List KeyEvent) (size : ℕ) (buf : Array) (pos : ℕ)
    → pos < size
    → buf pos ≡ 0
    → AllName size (prompt_from es size buf pos)
unfolding prompt_from
prompt_from-IsName [] size buf pos lt e = tt
prompt_from-IsName (key_char c ∷ es) size buf pos lt e =
    prompt_from-IsName es size _ _ (ground arith) (ground arith)
prompt_from-IsName (key_special key_enter ∷ es) size buf pos lt e = record {
  name_fits = lt;
  name_closed = ground arith;
}
prompt_from-IsName (key_special key_esc ∷ es) size buf pos lt e = record {
  name_fits = lt;
  name_closed = e;
}
prompt_from-IsName (key_special key_backspace ∷ es) size buf pos lt e =
    prompt_from-IsName es size _ _ (ground arith) (ground arith)
prompt_from-IsName (key_special key_up ∷ es) size buf pos lt e =
    prompt_from-IsName es size buf pos lt e
prompt_from-IsName (key_special key_down ∷ es) size buf pos lt e =
    prompt_from-IsName es size buf pos lt e
prompt_from-IsName (key_special key_left ∷ es) size buf pos lt e =
    prompt_from-IsName es size buf pos lt e
prompt_from-IsName (key_special key_right ∷ es) size buf pos lt e =
    prompt_from-IsName es size buf pos lt e
prompt_from-IsName (key_special key_home ∷ es) size buf pos lt e =
    prompt_from-IsName es size buf pos lt e
prompt_from-IsName (key_special key_end ∷ es) size buf pos lt e =
    prompt_from-IsName es size buf pos lt e
prompt_from-IsName (key_special key_pageup ∷ es) size buf pos lt e =
    prompt_from-IsName es size buf pos lt e
prompt_from-IsName (key_special key_pagedown ∷ es) size buf pos lt e =
    prompt_from-IsName es size buf pos lt e
prompt_from-IsName (key_special key_delete ∷ es) size buf pos lt e =
    prompt_from-IsName es size buf pos lt e
prompt_from-IsName (key_special key_tab ∷ es) size buf pos lt e =
    prompt_from-IsName es size buf pos lt e
prompt_from-IsName (key_special key_save ∷ es) size buf pos lt e =
    prompt_from-IsName es size buf pos lt e
prompt_from-IsName (key_special key_quit ∷ es) size buf pos lt e =
    prompt_from-IsName es size buf pos lt e

-- Whatever is typed into the dialog, the filename and its NUL stay within the dialog's buffer, which has
-- at least one byte.
pub editor_prompt_filename-IsName :
    (es : List KeyEvent) (size : ℕ) (buf : Array)
    → 0 < size
    → AllName size (editor_prompt_filename es size buf)
unfolding editor_prompt_filename
editor_prompt_filename-IsName es size buf pos =
    prompt_from-IsName es size (update buf 0 0) 0 pos (ground arith)
