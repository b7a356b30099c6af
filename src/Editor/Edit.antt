-- ===== src/Editor/Edit.antt =====
-- The editing commands and cursor moves of arch/x86/snake/snake.c.
use cobra_os.Base.{
  ℕ, ◌+◌, ◌-◌, update, ltb, leb, if◌then◌else◌, Bool, true, Array, Option, none, some,
}
use cobra_os.Memory.Copy.{memmove}
use cobra_os.Editor.Line.{
  Heap, later, Line, line_insert_char, line_delete_char, line_split, line_join,
}
use cobra_os.Editor.State.{
  screen_width, text_height, EditorState, Editor, editor_push_undo, undo_pushed,
  editor_discard_last_undo, editor_clear_redo,
}

pub data SpecialKey : Type 0 where
  key_up key_down key_left key_right key_home key_end key_pageup key_pagedown : SpecialKey
  key_delete key_backspace key_enter key_tab key_save key_quit key_esc : SpecialKey

-- `scroll` moved so that `cursor` is one of the `size` visible positions
abbrev pub scrolled : ℕ → ℕ → ℕ → ℕ
scrolled size cursor scroll =
    let s = if ltb cursor scroll then cursor else scroll in
    if leb (s + size) cursor then cursor - size + 1 else s

unfoldable pub scroll_page : EditorState → EditorState
scroll_page p = record p {
  scroll_x = scrolled screen_width p.cursor_x p.scroll_x;
  scroll_y = scrolled text_height p.cursor_y p.scroll_y;
}

unfoldable pub editor_scroll_to_cursor : Editor → Editor
editor_scroll_to_cursor ed = record ed { page = scroll_page ed.page }

-- the length of the line `y`
abbrev pub len_at : EditorState → ℕ → ℕ
len_at p y = (p.lines y).len

-- the cursor on line `y`, moved left to the end of a shorter line
abbrev pub onto_line : EditorState → ℕ → EditorState
onto_line p y = record p {
  cursor_y = y;
  cursor_x = if ltb (len_at p y) p.cursor_x then len_at p y else p.cursor_x;
}

-- the switch of editor_move_cursor
unfoldable pub move : SpecialKey → EditorState → EditorState
move key_left p =
    if ltb 0 p.cursor_x
    then record p { cursor_x = p.cursor_x - 1 }
    else if ltb 0 p.cursor_y
    then record p { cursor_y = p.cursor_y - 1; cursor_x = len_at p (p.cursor_y - 1) }
    else p
move key_right p =
    if ltb p.cursor_x (len_at p p.cursor_y)
    then record p { cursor_x = p.cursor_x + 1 }
    else if ltb (p.cursor_y + 1) p.num_lines
    then record p { cursor_y = p.cursor_y + 1; cursor_x = 0 }
    else p
move key_up p = if ltb 0 p.cursor_y then onto_line p (p.cursor_y - 1) else record p { cursor_x = 0 }
move key_down p =
    if ltb (p.cursor_y + 1) p.num_lines
    then onto_line p (p.cursor_y + 1)
    else record p { cursor_x = len_at p p.cursor_y }
move key_home p = record p { cursor_x = 0 }
move key_end p = record p { cursor_x = len_at p p.cursor_y }
move key_pageup p = onto_line p (if ltb text_height p.cursor_y then p.cursor_y - text_height else 0)
move key_pagedown p = onto_line p (
    if ltb (p.cursor_y + text_height) p.num_lines
    then p.cursor_y + text_height
    else p.num_lines - 1)
move key_delete p = p
move key_backspace p = p
move key_enter p = p
move key_tab p = p
move key_save p = p
move key_quit p = p
move key_esc p = p

unfoldable pub editor_move_cursor : Editor → SpecialKey → Editor
editor_move_cursor ed key = editor_scroll_to_cursor (record ed { page = move key ed.page })

-- `modified = true; editor_clear_redo(ed); editor_scroll_to_cursor(ed)` on a changed page
unfoldable pub changed : Editor → EditorState → Heap → Editor
changed ed p h =
    editor_scroll_to_cursor (editor_clear_redo (record ed { page = p; modified = true; heap = h }))

-- `if (undo_pushed) editor_discard_last_undo(ed)`
unfoldable pub refused : Bool → Editor → Heap → Editor
refused pushed ed h =
    let e = record ed { heap = h } in if pushed then editor_discard_last_undo e else e

unfoldable pub editor_insert_char : Editor → ℕ → Editor
editor_insert_char ed c =
    let e = editor_push_undo ed in
    let p = e.page in
    let r = line_insert_char (p.lines p.cursor_y) p.cursor_x c e.heap in
    if r.ok
    then changed e
        (record p { lines = update p.lines p.cursor_y r.line; cursor_x = p.cursor_x + 1 }) r.heap
    else refused (undo_pushed ed) e r.heap

-- the page with the line `y` split: the lines below move down by one
abbrev pub split_at : EditorState → Line → Line → EditorState
split_at p head tail =
    let ls = update p.lines p.cursor_y head in
    record p {
      lines =
          update (memmove ls (p.cursor_y + 2) (p.cursor_y + 1) (p.num_lines - p.cursor_y - 1))
            (p.cursor_y + 1) tail;
      num_lines = p.num_lines + 1;
      cursor_y = p.cursor_y + 1;
      cursor_x = 0;
    }

-- editor_insert_newline from the call of kmalloc for the longer array of lines on
unfoldable pub newline_with : Bool → Editor → Option Array → Heap → Editor
newline_with pushed e none h = refused pushed e h
newline_with pushed e (some b) h =
    let p = e.page in
    let r = line_split (p.lines p.cursor_y) p.cursor_x h in
    if r.tail.ok
    then changed e (split_at p r.head r.tail.line) r.tail.heap
    else refused pushed e r.tail.heap

unfoldable pub editor_insert_newline : Editor → Editor
editor_insert_newline ed =
    let e = editor_push_undo ed in newline_with (undo_pushed ed) e (e.heap 0) (later e.heap)

-- the page with the line after `y` joined to it: the lines below move up by one
abbrev pub join_at : EditorState → ℕ → Line → EditorState
join_at p y joined =
    let ls = update p.lines y joined in
    record p {
      lines = memmove ls (y + 1) (y + 2) (p.num_lines - (y + 1) - 1);
      num_lines = p.num_lines - 1;
    }

unfoldable pub editor_delete_backward : Editor → Editor
editor_delete_backward ed =
    let e = editor_push_undo ed in
    let p = e.page in
    if ltb 0 p.cursor_x
    then (let r = line_delete_char (p.lines p.cursor_y) (p.cursor_x - 1) e.heap in
        if r.ok
        then changed e
            (record p { lines = update p.lines p.cursor_y r.line; cursor_x = p.cursor_x - 1 })
            r.heap
        else refused (undo_pushed ed) e r.heap)
    else if ltb 0 p.cursor_y
    then (let y = p.cursor_y - 1 in
        let r = line_join (p.lines y) (p.lines p.cursor_y) e.heap in
        if r.ok
        then changed e (record (join_at p y r.line) { cursor_y = y; cursor_x = len_at p y }) r.heap
        else refused (undo_pushed ed) e r.heap)
    else refused (undo_pushed ed) e e.heap

unfoldable pub editor_delete_forward : Editor → Editor
editor_delete_forward ed =
    let e = editor_push_undo ed in
    let p = e.page in
    if ltb p.cursor_x (len_at p p.cursor_y)
    then (let r = line_delete_char (p.lines p.cursor_y) p.cursor_x e.heap in
        if r.ok
        then changed e (record p { lines = update p.lines p.cursor_y r.line }) r.heap
        else refused (undo_pushed ed) e r.heap)
    else if ltb (p.cursor_y + 1) p.num_lines
    then (let r = line_join (p.lines p.cursor_y) (p.lines (p.cursor_y + 1)) e.heap in
        if r.ok
        then changed e (join_at p p.cursor_y r.line) r.heap
        else refused (undo_pushed ed) e r.heap)
    else refused (undo_pushed ed) e e.heap
