-- ===== src/Editor/Examples.antt =====
-- The editor's theorems at concrete editors, and runs of its code (arch/x86/snake/snake.c).
use cobra_os.Base.{
  ℕ, ◌*◌, ◌^◌, ◌≤◌, ◌≡◌, refl, List, Array, window, ◌==◌, if◌then◌else◌, true, false, [], ◌∷◌, ◌++◌,
  some, ◌⊎◌, inr, arith,
}
use cobra_os.Base.Text.{codes}
use cobra_os.Keyboard.Keystroke.{cursor_sequence}
use cobra_os.Memory.Copy.{memcpy, memmove}
use cobra_os.Memory.{memmove-memcpy}
use cobra_os.Editor.Line.{Heap, Line, grow, line_insert_char}
use cobra_os.Editor.State.{EditorState, Stack, Editor, editor_undo, editor_redo}
use cobra_os.Editor.Edit.{key_backspace, key_enter, key_up}
use cobra_os.Editor.Page.{IsPage, IsStack, IsValid, view}
use cobra_os.Editor.Granted.{Abundant}
use cobra_os.Editor.Commands.{newline, backspace, perform, promise, perform_atomic, view-perform}
use cobra_os.Editor.Undo.{view-editor_undo, view-editor_redo}
use cobra_os.Editor.Growth.{IsStored, le-grow, line_insert_char-IsStored}
use cobra_os.Editor.File.{editor_load, editor_save, save_buffer, save_total, line_length}
use cobra_os.Editor.Saved.{save_buffer-save_total}
use cobra_os.Editor.Reopened.{editor_save-editor_load}
use cobra_os.Editor.Keys.{KeyEvent, key_char, key_special, kbd_read_event}
use cobra_os.Editor.Session.{editor_prompt_filename}
use cobra_os.Editor.Loop.{Session, editor_run}
use cobra_os.Editor.Runs.{editor_run-IsValid, AllName, editor_prompt_filename-IsName}
use cobra_os.Editor.Decode.{CursorKey, kbd_read_event-cursor_sequence}

abbrev plenty : Heap
plenty n = some (λ k. 0)

plenty-Abundant : Abundant plenty
plenty-Abundant n = (λ k. 0, refl)

-- "ab"
abbrev ab : Line
ab = record {
  null = false;
  bytes = λ i. if i == 0 then b'a' else if i == 1 then b'b' else 0;
  len = 2;
  cap = 3;
}

-- two lines "ab", the cursor behind the first character of the second one
abbrev two_lines : EditorState
two_lines = record {
  lines = λ i. ab;
  num_lines = 2;
  cursor_x = 1;
  cursor_y = 1;
  scroll_x = 0;
  scroll_y = 0;
}

abbrev one_state : Stack
one_state = record { states = λ i. two_lines; top = 1 }

abbrev sample : Editor
sample = record {
  page = two_lines;
  filename = some (codes "/a");
  modified = false;
  file_ends_with_newline = true;
  undo_stack = one_state;
  redo_stack = one_state;
  stacks_null = false;
  heap = plenty;
}

two_lines-IsPage : IsPage two_lines
two_lines-IsPage = record {
  in_text = record { row = omega arith; col = omega arith; lines_there = λ i lt. refl };
  visible = record {
    left_of = omega arith;
    right_of = omega arith;
    above = omega arith;
    below = omega arith;
  };
}

one_state-IsStack : IsStack one_state
one_state-IsStack = record { bounded = omega arith; pages = λ i lt. two_lines-IsPage }

sample-IsValid : IsValid sample
sample-IsValid = record {
  page_valid = two_lines-IsPage;
  undo_valid = one_state-IsStack;
  redo_valid = one_state-IsStack;
  stacks_there = refl;
}

-- x, Ctrl+S, Enter, Ctrl+O with the path f, Ctrl+Z, and Ctrl+Q with the answer y
abbrev events : List KeyEvent
events =
    key_char b'x'
    ∷ key_char 19
    ∷ key_special key_enter
    ∷ key_char 15
    ∷ key_char b'f'
    ∷ key_special key_enter
    ∷ key_char 26
    ∷ key_char 17
    ∷ key_char b'y'
    ∷ []

abbrev begun : Session
begun = record {
  running = true;
  editor = sample;
  files = λ n. some (λ k. 0x0A, 3);
  written = λ n. true;
}

editor_run-IsValid_example : IsValid (editor_run sample (λ k. 0) 0 events begun).editor
editor_run-IsValid_example =
    editor_run-IsValid sample (λ k. 0) 0 events begun (inr plenty-Abundant) sample-IsValid

view-perform_example : view (perform backspace sample).page ≡ promise backspace (view sample.page)
view-perform_example = view-perform backspace sample sample-IsValid plenty-Abundant

perform_atomic_example :
    IsValid (perform newline sample)
    × ((view (perform newline sample).page ≡ promise newline (view sample.page))
        ⊎ ((perform newline sample).page ≡ sample.page))
perform_atomic_example = perform_atomic newline sample sample-IsValid

view-editor_undo_example : view (editor_undo (perform newline sample)).page ≡ view sample.page
view-editor_undo_example = view-editor_undo newline sample sample-IsValid plenty-Abundant refl

view-editor_redo_example : view (editor_redo (editor_undo sample)).page ≡ view sample.page
view-editor_redo_example = view-editor_redo sample sample-IsValid plenty-Abundant (omega arith)

le-grow_example : (100 ≤ grow 5 16 100) × ((j : ℕ) × (grow 5 16 100 ≡ 16 * 2 ^ j))
le-grow_example = le-grow 5 16 100 (omega arith) (omega arith)

ab-IsStored : IsStored ab
ab-IsStored = record { there = refl; fits = omega arith; closed = refl }

line_insert_char-IsStored_example : IsStored (line_insert_char ab 1 b'x' plenty).line
line_insert_char-IsStored_example =
    line_insert_char-IsStored ab 1 b'x' plenty ab-IsStored (omega arith)

save_buffer-save_total_example : (save_buffer sample (λ k. 0)).pos ≡ save_total sample
save_buffer-save_total_example = save_buffer-save_total sample (λ k. 0) (omega arith)

-- "hhh\nh"
abbrev hello : Array
hello k = if k == 3 then 0x0A else b'h'

editor_save-editor_load_example :
    (editor_save (editor_load sample sample (codes "/h") (some (hello, 5))) true).output
    ≡ some (window hello 0 5)
editor_save-editor_load_example =
    editor_save-editor_load sample sample (codes "/h") hello 5 true plenty-Abundant
      (λ k lt. ground arith)

memmove-memcpy_example : memmove hello 2 1 4 4 ≡ memcpy hello 2 hello 1 4 4
memmove-memcpy_example = memmove-memcpy hello 2 1 4 4

kbd_read_event-cursor_sequence_example :
    kbd_read_event (cursor_sequence 0x48 ++ codes "x")
    ≡ some (record { event = key_special key_up; rest = codes "x" })
kbd_read_event-cursor_sequence_example = kbd_read_event-cursor_sequence (codes "x") CursorKey.up

editor_prompt_filename-IsName_example : AllName 4 (
    editor_prompt_filename
      (key_char b'a' ∷ key_char b'b' ∷ key_special key_backspace ∷ key_special key_enter ∷ [])
      4
      (λ k. 0))
editor_prompt_filename-IsName_example =
    editor_prompt_filename-IsName
      (key_char b'a' ∷ key_char b'b' ∷ key_special key_backspace ∷ key_special key_enter ∷ []) 4
      (λ k. 0) (omega arith)

-- In a file "ab\r\nabc" the second line has three characters, but the '\r' is sought at index 2 of the
-- file, where the first line's stands: the line loses its last character.
abbrev with_return : Array
with_return k = if k == 2 then 0x0D else if k == 3 then 0x0A else b'a'

line_length-with_return : (line_length with_return 0 3 ≡ 2) × (line_length with_return 4 7 ≡ 2)
unfolding line_length
line_length-with_return = (refl, refl)
