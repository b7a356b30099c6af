-- ===== src/Editor/Clone.antt =====
-- editor_state_clone of arch/x86/snake/snake.c copies a page with all its characters, or fails when
-- kmalloc does.
use cobra_os.Base.{
  ℕ, zero, suc, ◌+◌, ◌-◌, ◌<◌, ◌≤◌, ◌≡◌, refl, sym, ap, ◌∙◌, update, window_cong, Option, none,
  some, arith, Option-cases, Bool-cases, ◌==◌, eq_of_==, window, inl, inr,
}
use cobra_os.Memory.{memcpy_at}
use cobra_os.Editor.Line.{Heap, later, Line}
use cobra_os.Editor.State.{EditorState, clone_line, clone_lines, editor_state_clone}
use cobra_os.Editor.Edit.{len_at}
use cobra_os.Editor.Lines.{SameText}
use cobra_os.Editor.Page.{InText, IsVisible, IsPage, text, texts, view}

some_eq : {A : Type 0} {a b : A} → some a ≡ some b → a ≡ b
some_eq e = cc

clone_line-SameText : (l : Line) (b : ℕ → ℕ) → SameText (clone_line l b) l
clone_line-SameText l b = record {
  same_null = refl;
  same_len = refl;
  same_bytes = λ k lt. ground (arith, memcpy_at b 0 l.bytes 0 l.len k);
}

clone_lines-SameText :
    (n : ℕ) (src : ℕ → Line) (i : ℕ) (dst : ℕ → Line) (h : Heap) (ls : ℕ → Line) (j : ℕ)
    → clone_lines n src i dst h ≡ some ls
    → (i ≤ j → j < i + n → SameText (ls j) (src j)) × (j < i → ls j ≡ dst j)
unfolding clone_lines
clone_lines-SameText zero src i dst h ls j e =
    (λ p q. absurd (omega arith), λ lt. ap (λ o. o j) (sym (some_eq e)))
clone_lines-SameText (suc n) src i dst h ls j e = elim (Option-cases (h 0)) [
  | inl null ↦ absurd (none_ne (rw (null, clone_lines) at e))
  | inr (b, got) ↦
      let dst' = update dst i (clone_line (src i) b) in
      let ih =
        clone_lines-SameText n src (suc i) dst' (later h) ls j (rw (got, clone_lines) at e) in
      (
        λ p q. elim (Bool-cases (j == i)) [
          | inl here ↦
              let c : ls j ≡ clone_line (src j) b =
                ih.1 (ground arith) ∙ at_index b (eq_of_== j i here) in
              rw c (clone_line-SameText (src j) b)
          | inr there ↦ ih.0 (ground arith) (omega arith)
        ],
        λ lt. ih.1 (omega arith) ∙ ground arith,
      )
]
  where
    none_ne : ◌≡◌ {A = Option (ℕ → Line)} none (some ls) → ⊥
    none_ne e = cc

    at_index : (b : ℕ → ℕ) → j ≡ i → update dst i (clone_line (src i) b) j ≡ clone_line (src j) b
    at_index b e = ground arith

-- the same text, cursor and scroll position
pub record SamePage (p q : EditorState) : Type 0 where
  pub same_num : p.num_lines ≡ q.num_lines
  pub same_x : p.cursor_x ≡ q.cursor_x
  pub same_y : p.cursor_y ≡ q.cursor_y
  pub same_scroll_x : p.scroll_x ≡ q.scroll_x
  pub same_scroll_y : p.scroll_y ≡ q.scroll_y
  pub same_lines : (i : ℕ) → i < q.num_lines → SameText (p.lines i) (q.lines i)

with_lines :
    (p st : EditorState) (h : Heap) (o : Option (ℕ → Line))
    → clone_lines p.num_lines p.lines 0 p.lines h ≡ o
    → elim o as (λ o. Option EditorState) [ none ↦ none | some ls ↦ some (record p { lines = ls }) ]
      ≡ some st
    → SamePage st p
with_lines p st h none e f = cc
with_lines p st h (some ls) e f = rw (← some_eq f) (record {
  same_num = refl;
  same_x = refl;
  same_y = refl;
  same_scroll_x = refl;
  same_scroll_y = refl;
  same_lines = λ i lt.
      (clone_lines-SameText p.num_lines p.lines 0 p.lines h ls i e).0 (omega arith) (omega arith);
})

-- A clone is the page it was made of.
pub editor_state_clone-SamePage :
    (p st : EditorState) (h : Heap) → (editor_state_clone p h).state ≡ some st → SamePage st p
unfolding editor_state_clone
editor_state_clone-SamePage p st h e = elim (Option-cases (h 0)) [
  | inl null ↦ absurd (none_ne (rw (null, editor_state_clone) at e))
  | inr (b, got) ↦
      with_lines p st (later h) (clone_lines p.num_lines p.lines 0 p.lines (later h)) refl
        (rw (got, editor_state_clone) at e)
]
  where
    none_ne : ◌≡◌ {A = Option EditorState} none (some st) → ⊥
    none_ne e = cc

module _ {p q : EditorState} (s : SamePage p q) where
  open s use {same_num, same_x, same_y, same_scroll_x, same_scroll_y, same_lines}

  line_at : q.cursor_y < q.num_lines → SameText (p.lines p.cursor_y) (q.lines q.cursor_y)
  line_at row = rw same_y (same_lines q.cursor_y row)

  pub same-InText : InText q → InText p
  same-InText v = record {
    row = omega (arith, v.row);
    col = omega (arith, v.col, (line_at v.row).same_len);
    lines_there = λ i lt. (same_lines i (omega arith)).same_null;
  }

  pub same-IsVisible : IsVisible q → IsVisible p
  same-IsVisible v = record {
    left_of = omega (arith, v.left_of);
    right_of = omega (arith, v.right_of);
    above = omega (arith, v.above);
    below = omega (arith, v.below);
  }

  pub same-IsPage : IsPage q → IsPage p
  same-IsPage v = record { in_text = same-InText v.in_text; visible = same-IsVisible v.visible }

  same-text : (i : ℕ) → i < q.num_lines → text (p.lines i) ≡ text (q.lines i)
  same-text i lt =
      let l = same_lines i lt in
      ap (window (p.lines i).bytes 0) l.same_len
      ∙ window_cong (p.lines i).bytes (q.lines i).bytes 0 (q.lines i).len
          (λ k a b. l.same_bytes k (omega arith))

  same-window :
      (i m n : ℕ)
      → m ≡ n
      → i + n ≤ (q.lines q.cursor_y).len
      → q.cursor_y < q.num_lines
      → window (p.lines p.cursor_y).bytes i m ≡ window (q.lines q.cursor_y).bytes i n
  same-window i m n e le row =
      ap (window (p.lines p.cursor_y).bytes i) e
      ∙ window_cong (p.lines p.cursor_y).bytes (q.lines q.cursor_y).bytes i n
          (λ k a b. (line_at row).same_bytes k (omega arith))

  same-texts : (i m n : ℕ) → m ≡ n → i + n ≤ q.num_lines → texts p.lines i m ≡ texts q.lines i n
  same-texts i m n e le =
      ap (texts p.lines i) e
      ∙ window_cong (λ j. text (p.lines j)) (λ j. text (q.lines j)) i n
          (λ j a b. same-text j (omega arith))

  pub view-same : InText q → view p ≡ view q
  view-same v = λ t. record {
    lines_above = same-texts 0 p.cursor_y q.cursor_y same_y (omega (arith, v.row)) t;
    before = same-window 0 p.cursor_x q.cursor_x same_x (omega (arith, v.col)) v.row t;
    after =
        (ap (λ x. window (p.lines p.cursor_y).bytes x (len_at p p.cursor_y - x)) same_x
            ∙ same-window q.cursor_x (len_at p p.cursor_y - q.cursor_x)
                (len_at q q.cursor_y - q.cursor_x) (omega (arith, (line_at v.row).same_len))
                (omega (arith, v.col)) v.row)
          t;
    lines_below =
        (ap (λ y. texts p.lines (y + 1) (p.num_lines - (y + 1))) same_y
            ∙ same-texts (q.cursor_y + 1) (p.num_lines - (q.cursor_y + 1))
                (q.num_lines - (q.cursor_y + 1)) (omega arith) (omega (arith, v.row)))
          t;
  }
