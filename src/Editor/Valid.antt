-- ===== src/Editor/Valid.antt =====
-- Every command of the editor in arch/x86/snake/snake.c keeps its state well formed.
use cobra_os.Base.{ℕ, ◌+◌, ◌-◌, ◌<◌, ◌≤◌, ltb, arith, Bool-cases, inl, inr}
use cobra_os.Editor.State.{screen_width, text_height, EditorState}
use cobra_os.Editor.Edit.{
  SpecialKey, scrolled, scroll_page, move, len_at, onto_line, key_up, key_down, key_left, key_right,
  key_home, key_end, key_pageup, key_pagedown, key_delete, key_backspace, key_enter, key_tab,
  key_save, key_quit, key_esc,
}
use cobra_os.Editor.Page.{InText, IsPage}

-- Scrolling puts the cursor on the screen.
scrolled-visible :
    (size cursor scroll : ℕ)
    → 0 < size
    → (scrolled size cursor scroll ≤ cursor) × (cursor < scrolled size cursor scroll + size)
scrolled-visible size cursor scroll pos = (ground arith, ground arith)

pub scroll_page-IsPage : (p : EditorState) → InText p → IsPage (scroll_page p)
unfolding scroll_page
scroll_page-IsPage p v =
    let x = scrolled-visible screen_width p.cursor_x p.scroll_x (omega arith) in
    let y = scrolled-visible text_height p.cursor_y p.scroll_y (omega arith) in
    record {
      in_text = record { row = v.row; col = v.col; lines_there = v.lines_there };
      visible = record { left_of = x.0; right_of = x.1; above = y.0; below = y.1 };
    }

onto_line-InText : (p : EditorState) (y : ℕ) → InText p → y < p.num_lines → InText (onto_line p y)
onto_line-InText p y v lt = record { row = lt; col = ground arith; lines_there = v.lines_there }

-- the cursor set within its line
at_column :
    (p : EditorState) (x y : ℕ)
    → InText p
    → y < p.num_lines
    → x ≤ len_at p y
    → InText (record p { cursor_x = x; cursor_y = y })
at_column p x y v row col = record { row = row; col = col; lines_there = v.lines_there }

pub move-InText : (key : SpecialKey) (p : EditorState) → InText p → InText (move key p)
unfolding move
move-InText key_left p v = elim (Bool-cases (ltb 0 p.cursor_x)) [
  | inl inside ↦ rw inside (at_column p (p.cursor_x - 1) p.cursor_y v v.row (omega (arith, v.col)))
  | inr start ↦ rw start (elim (Bool-cases (ltb 0 p.cursor_y)) [
    | inl below ↦ rw below (
        at_column p (len_at p (p.cursor_y - 1)) (p.cursor_y - 1) v (omega (arith, v.row))
          (omega arith))
    | inr first ↦ rw first v
  ])
]
move-InText key_right p v = elim (Bool-cases (ltb p.cursor_x (len_at p p.cursor_y))) [
  | inl inside ↦ rw inside (at_column p (p.cursor_x + 1) p.cursor_y v v.row (ground arith))
  | inr end ↦ rw end (elim (Bool-cases (ltb (p.cursor_y + 1) p.num_lines)) [
    | inl above ↦ rw above (at_column p 0 (p.cursor_y + 1) v (ground arith) (omega arith))
    | inr last ↦ rw last v
  ])
]
move-InText key_up p v = elim (Bool-cases (ltb 0 p.cursor_y)) [
  | inl below ↦ rw below (onto_line-InText p (p.cursor_y - 1) v (omega (arith, v.row)))
  | inr first ↦ rw first (at_column p 0 p.cursor_y v v.row (omega arith))
]
move-InText key_down p v = elim (Bool-cases (ltb (p.cursor_y + 1) p.num_lines)) [
  | inl above ↦ rw above (onto_line-InText p (p.cursor_y + 1) v (ground arith))
  | inr last ↦ rw last (at_column p (len_at p p.cursor_y) p.cursor_y v v.row (omega arith))
]
move-InText key_home p v = at_column p 0 p.cursor_y v v.row (omega arith)
move-InText key_end p v = at_column p (len_at p p.cursor_y) p.cursor_y v v.row (omega arith)
move-InText key_pageup p v = onto_line-InText p _ v (ground (arith, v.row))
move-InText key_pagedown p v = onto_line-InText p _ v (ground (arith, v.row))
move-InText key_delete p v = v
move-InText key_backspace p v = v
move-InText key_enter p v = v
move-InText key_tab p v = v
move-InText key_save p v = v
move-InText key_quit p v = v
move-InText key_esc p v = v
