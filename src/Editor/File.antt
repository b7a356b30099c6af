-- ===== src/Editor/File.antt =====
-- Opening and saving in arch/x86/snake/snake.c: editor_init, editor_parse_buffer, editor_load and
-- editor_save. What fs_read_file and fs_write_file return is an input.
use cobra_os.Base.{
  ℕ, zero, suc, ◌+◌, ◌-◌, ◌^◌, Array, update, window, ltb, ◌==◌, ◌&&◌, ◌||◌, if◌then◌else◌, Bool,
  true, false, List, Option, none, some,
}
use cobra_os.Memory.Copy.{memcpy}
use cobra_os.Editor.Line.{Heap, later, Line}
use cobra_os.Editor.State.{Editor, undo_stack_clear}

-- an empty line in a block of one byte
abbrev pub blank_line : Array → Line
blank_line b = record { null = false; bytes = update b 0 0; len = 0; cap = 1 }

abbrev pub is_none : Option Array → Bool
is_none none = true
is_none (some b) = false

-- editor_init from the answers to its four calls of kmalloc on. An editor without lines keeps what
-- stood in its other fields.
unfoldable pub init_with : Editor → Option Array → Option Array → Heap → Editor
init_with ed none line h = record ed { page = record ed.page { num_lines = 0 }; heap = h }
init_with ed (some b) none h = record ed { page = record ed.page { num_lines = 0 }; heap = later h }
init_with ed (some b) (some d) h = record {
  page = record {
    lines = update ed.page.lines 0 (blank_line d);
    num_lines = 1;
    cursor_x = 0;
    cursor_y = 0;
    scroll_x = 0;
    scroll_y = 0;
  };
  filename = none;
  modified = false;
  file_ends_with_newline = false;
  undo_stack = undo_stack_clear ed.undo_stack;
  redo_stack = undo_stack_clear ed.redo_stack;
  stacks_null = is_none (h 1) || is_none (h 2);
  heap = λ n. h (n + 3);
}

-- `heap` of the uninitialised editor are the answers to come
unfoldable pub editor_init : Editor → Editor
editor_init ed = init_with ed (ed.heap 0) (ed.heap 1) (later ed.heap)

-- the variables of editor_parse_buffer
pub record Parse : Type 0 where
  pub ok : Bool
  pub lines : ℕ → Line
  pub num_lines : ℕ
  pub start : ℕ
  pub heap : Heap

-- `line_len`: the source looks for the '\r' at `buf[line_len - 1]`
unfoldable pub line_length : Array → ℕ → ℕ → ℕ
line_length buf start i = let n = i - start in if ltb 0 n && buf (n - 1) == 0x0D then n - 1 else n

-- a line that ends at `i`, with kmalloc's answers for the array of lines and for the line
unfoldable pub add_line : Parse → Array → ℕ → Option Array → Option Array → Parse
add_line p buf i none line = record p { ok = false; heap = later p.heap }
add_line p buf i (some b) none = record p { ok = false; heap = later (later p.heap) }
add_line p buf i (some b) (some d) =
    let n = line_length buf p.start i in
    record p {
      lines = update p.lines p.num_lines (record {
        null = false;
        bytes = update (memcpy d 0 buf p.start n) n 0;
        len = n;
        cap = n + 1;
      });
      num_lines = p.num_lines + 1;
      start = i + 1;
      heap = later (later p.heap);
    }

-- the body of the loop
unfoldable pub parse_step : Array → ℕ → ℕ → Parse → Parse
parse_step buf end i p =
    if i == end || buf i == 0x0A then add_line p buf i (p.heap 0) (p.heap 1) else p

-- `for (i = …; i <= end; i++)` with `n` rounds left; a failed call of kmalloc leaves it
unfoldable pub parse_from : ℕ → Array → ℕ → ℕ → Parse → Parse
parse_from zero buf end i p = p
parse_from (suc n) buf end i p =
    let q = parse_step buf end i p in
    let rest = parse_from n buf end (suc i) q in if q.ok then rest else q

-- the last character is a line break
unfoldable pub ends_with_newline : Array → ℕ → Bool
ends_with_newline buf n = ltb 0 n && buf (n - 1) == 0x0A

unfoldable pub text_end : Array → ℕ → ℕ
text_end buf n = if ends_with_newline buf n then n - 1 else n

-- The loop runs at least once, at `end`, so the source's case of no line at all does not arise.
unfoldable pub editor_parse_buffer : (ℕ → Line) → Heap → Array → ℕ → Parse
editor_parse_buffer ls h buf n =
    parse_from (suc (text_end buf n)) buf (text_end buf n) 0
      (record { ok = true; lines = ls; num_lines = 0; start = 0; heap = h })

-- editor_load with what fs_read_file read, or `none` for its error. `fresh` is the uninitialised
-- editor on the stack; `path` is the new filename, if kmalloc grants a copy.
unfoldable pub load_parsed : Editor → Editor → List ℕ → Parse → Bool → Editor
load_parsed ed new_ed path p ends =
    if p.ok
    then record new_ed {
      page = record new_ed.page { lines = p.lines; num_lines = p.num_lines };
      filename = elim (p.heap 0) [ none ↦ none | some b ↦ some path ];
      modified = false;
      file_ends_with_newline = ends;
      heap = later p.heap;
    }
    else record ed { heap = p.heap }

unfoldable pub editor_load : Editor → Editor → List ℕ → Option (Array × ℕ) → Editor
editor_load ed fresh path none = ed
editor_load ed fresh path (some (buf, n)) =
    let new_ed = editor_init (record fresh { heap = ed.heap }) in
    load_parsed ed new_ed path (editor_parse_buffer new_ed.page.lines new_ed.heap buf n)
      (ends_with_newline buf n)

-- the size of the buffer that editor_save asks for, less the closing NUL
unfoldable pub total_from : (ℕ → Line) → ℕ → ℕ → ℕ
total_from ls i zero = 0
total_from ls i (suc n) = (ls i).len + 1 + total_from ls (suc i) n

unfoldable pub save_total : Editor → ℕ
save_total ed =
    let t = total_from ed.page.lines 0 ed.page.num_lines in
    if ed.file_ends_with_newline then t else if t == 0 then 2 ^ 32 - 1 else t - 1

pub record Buffer : Type 0 where
  pub bytes : Array
  pub pos : ℕ

-- a line written at `pos`, and the line break behind it
unfoldable pub save_line : Line → Bool → Buffer → Buffer
save_line l newline b =
    let f = memcpy b.bytes b.pos l.bytes 0 l.len in
    let pos = b.pos + l.len in
    if newline
    then record { bytes = update f pos 0x0A; pos = pos + 1 }
    else record { bytes = f; pos = pos }

-- the loop of editor_save from line `i` on, with `n` rounds left
unfoldable pub save_from : ℕ → (ℕ → Line) → ℕ → ℕ → Bool → Buffer → Buffer
save_from zero ls i num ends b = b
save_from (suc n) ls i num ends b =
    save_from n ls (suc i) num ends (save_line (ls i) (ltb i (num - 1) || ends) b)

-- what editor_save hands to fs_write_file, in the block that kmalloc granted
unfoldable pub save_buffer : Editor → Array → Buffer
save_buffer ed block =
    let b =
      save_from ed.page.num_lines ed.page.lines 0 ed.page.num_lines ed.file_ends_with_newline
        (record { bytes = block; pos = 0 }) in
    record b { bytes = update b.bytes b.pos 0 }

-- the result and the new state of editor_save, and the bytes written if it comes to that; `written` is
-- whether fs_write_file returns 0
pub record Save : Type 0 where
  pub saved : Bool
  pub editor : Editor
  pub output : Option (List ℕ)

unfoldable pub save_with : Editor → Bool → Option Array → Save
save_with ed written none = record {
  saved = false;
  editor = record ed { heap = later ed.heap };
  output = none;
}
save_with ed written (some block) =
    let b = save_buffer ed block in
    record {
      saved = written;
      editor = record ed {
        modified = if written then false else ed.modified;
        heap = later ed.heap;
      };
      output = some (window b.bytes 0 b.pos);
    }

unfoldable pub editor_save : Editor → Bool → Save
editor_save ed written = elim ed.filename [
  | none ↦ record { saved = false; editor = ed; output = none }
  | some name ↦ save_with ed written (ed.heap 0)
]
