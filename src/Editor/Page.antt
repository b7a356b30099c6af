-- ===== src/Editor/Page.antt =====
-- The editor's page, arch/x86/snake/snake.c, as a text with a cursor, and when it is well formed.
use cobra_os.Base.{ℕ, ◌+◌, ◌-◌, ◌<◌, ◌≤◌, ◌≡◌, window, List, false}
use cobra_os.Editor.Line.{Line}
use cobra_os.Editor.State.{screen_width, text_height, max_undo_levels, EditorState, Stack, Editor}
use cobra_os.Editor.Edit.{len_at}

-- the cursor stands in the text, and no line is NULL
pub record InText (p : EditorState) : Type 0 where
  pub row : p.cursor_y < p.num_lines
  pub col : p.cursor_x ≤ len_at p p.cursor_y
  pub lines_there : (i : ℕ) → i < p.num_lines → (p.lines i).null ≡ false

-- the cursor stands on the screen
pub record IsVisible (p : EditorState) : Type 0 where
  pub left_of : p.scroll_x ≤ p.cursor_x
  pub right_of : p.cursor_x < p.scroll_x + screen_width
  pub above : p.scroll_y ≤ p.cursor_y
  pub below : p.cursor_y < p.scroll_y + text_height

pub record IsPage (p : EditorState) : Type 0 where
  pub in_text : InText p
  pub visible : IsVisible p

-- at most 100 states, all well formed
pub record IsStack (s : Stack) : Type 0 where
  pub bounded : s.top ≤ max_undo_levels
  pub pages : (i : ℕ) → i < s.top → IsPage (s.states i)

pub record IsValid (ed : Editor) : Type 0 where
  pub page_valid : IsPage ed.page
  pub undo_valid : IsStack ed.undo_stack
  pub redo_valid : IsStack ed.redo_stack
  pub stacks_there : ed.stacks_null ≡ false

-- the characters of a line, and of `n` lines from `i` on
abbrev pub text : Line → List ℕ
text l = window l.bytes 0 l.len

abbrev pub texts : (ℕ → Line) → ℕ → ℕ → List (List ℕ)
texts ls i n = window (λ j. text (ls j)) i n

-- a text with a cursor: the lines above, the two parts of the cursor's line, the lines below
pub record View : Type 0 where
  pub lines_above : List (List ℕ)
  pub before : List ℕ
  pub after : List ℕ
  pub lines_below : List (List ℕ)

abbrev pub before : EditorState → List ℕ
before p = window (p.lines p.cursor_y).bytes 0 p.cursor_x

abbrev pub after : EditorState → List ℕ
after p = window (p.lines p.cursor_y).bytes p.cursor_x (len_at p p.cursor_y - p.cursor_x)

abbrev pub view : EditorState → View
view p = record {
  lines_above = texts p.lines 0 p.cursor_y;
  before = before p;
  after = after p;
  lines_below = texts p.lines (p.cursor_y + 1) (p.num_lines - (p.cursor_y + 1));
}
