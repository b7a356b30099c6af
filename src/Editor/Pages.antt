-- ===== src/Editor/Pages.antt =====
-- What a changed line, or changed lines, make of a page of the editor in arch/x86/snake/snake.c.
use cobra_os.Base.{
  ℕ, suc, ◌+◌, ◌-◌, ◌<◌, ◌≤◌, ◌≡◌, refl, ap, sym, ◌∙◌, update, window, window_cong, window_agree,
  window-snoc, ◌==◌, ==_refl, [], ◌∷◌, ◌++◌, false, arith, Bool-cases, inl, inr,
}
use mathlib.Core.Path.{ap₂}
use cobra_os.Editor.Line.{Line}
use cobra_os.Editor.State.{EditorState}
use cobra_os.Editor.Edit.{len_at}
use cobra_os.Editor.Lines.{Inserted, Deleted}
use cobra_os.Editor.Page.{InText, text, texts, view}
use cobra_os.Editor.Spec.{
  typed, backspaced, erased_before, erased_before-snoc, deleted, erased_after,
}

pub texts_cong :
    (f g : ℕ → Line) (i n : ℕ)
    → ((j : ℕ) → i ≤ j → j < i + n → f j ≡ g j)
    → texts f i n ≡ texts g i n
texts_cong f g i n h =
    window_cong (λ j. text (f j)) (λ j. text (g j)) i n (λ j p q. ap text (h j p q))

pub texts_agree :
    (f g : ℕ → Line) (i j n : ℕ)
    → ((k : ℕ) → k < n → f (i + k) ≡ g (j + k))
    → texts f i n ≡ texts g j n
texts_agree f g i j n h =
    window_agree (λ j. text (f j)) (λ j. text (g j)) i j n (λ k lt. ap text (h k lt))

pub update_same : {A : Type 0} (f : ℕ → A) (i : ℕ) (v : A) → update f i v i ≡ v
update_same f i v = rw (==_refl i) refl

-- every line but the one at `y` is there
pub there_but :
    (p : EditorState) (y : ℕ) (l : Line)
    → InText p
    → l.null ≡ false
    → (i : ℕ) → i < p.num_lines
    → (update p.lines y l i).null ≡ false
there_but p y l v e i lt = elim (Bool-cases (i == y)) [
  | inl here ↦ rw here e
  | inr there ↦ rw there (v.lines_there i lt)
]

-- the page with another line at the cursor
abbrev pub with_line : EditorState → Line → ℕ → EditorState
with_line p l x = record p { lines = update p.lines p.cursor_y l; cursor_x = x }

module _ (p : EditorState) (l' : Line) (x : ℕ) where
  pub with_line-above : texts (with_line p l' x).lines 0 p.cursor_y ≡ texts p.lines 0 p.cursor_y
  with_line-above = texts_cong (with_line p l' x).lines p.lines 0 p.cursor_y (λ j a b. ground arith)

  pub with_line-below :
      (n : ℕ) → texts (with_line p l' x).lines (p.cursor_y + 1) n ≡ texts p.lines (p.cursor_y + 1) n
  with_line-below n =
      texts_cong (with_line p l' x).lines p.lines (p.cursor_y + 1) n (λ j a b. ground arith)

  pub with_line-InText : InText p → l'.null ≡ false → x ≤ l'.len → InText (with_line p l' x)
  with_line-InText v e le = record {
    row = v.row;
    col = omega (arith, le, ap (λ (l : Line). l.len) (update_same p.lines p.cursor_y l'));
    lines_there = there_but p p.cursor_y l' v e;
  }

module _ (p : EditorState) (l' : Line) (c : ℕ) where
  -- A character typed at the cursor.
  pub view-Inserted :
      InText p
      → Inserted l' (p.lines p.cursor_y) p.cursor_x c
      → view (with_line p l' (p.cursor_x + 1)) ≡ typed c (view p)
  view-Inserted v r =
      let l = p.lines p.cursor_y in
      λ t. record {
        lines_above = with_line-above p l' (p.cursor_x + 1) t;
        before =
            (ap (λ (l : Line). window l.bytes 0 (p.cursor_x + 1))
                  (update_same p.lines p.cursor_y l')
                ∙ ap (window l'.bytes 0) {x = p.cursor_x + 1} {y = suc p.cursor_x} (omega arith)
                ∙ window-snoc l'.bytes 0 p.cursor_x
                ∙ ap₂ ◌++◌
                    (window_cong l'.bytes l.bytes 0 p.cursor_x
                      (λ k a b. ground (arith, r.ins_bytes k, v.col)))
                    (ap (λ x. x ∷ []) {y = c}
                      (ground (arith, r.ins_bytes (0 + p.cursor_x), v.col))))
              t;
        after =
            (ap (λ (l : Line). window l.bytes (p.cursor_x + 1) (l.len - (p.cursor_x + 1)))
                  (update_same p.lines p.cursor_y l')
                ∙ ap (window l'.bytes (p.cursor_x + 1)) {y = l.len - p.cursor_x}
                    (omega (arith, r.ins_len))
                ∙ window_agree l'.bytes l.bytes (p.cursor_x + 1) p.cursor_x (l.len - p.cursor_x)
                    (λ k lt. ground (arith, r.ins_bytes (p.cursor_x + 1 + k))))
              t;
        lines_below = with_line-below p l' (p.cursor_x + 1) (p.num_lines - (p.cursor_y + 1)) t;
      }

module _ (p : EditorState) (l' : Line) where
  -- The character before the cursor removed.
  pub view-Deleted_before :
      InText p
      → 0 < p.cursor_x
      → Deleted l' (p.lines p.cursor_y) (p.cursor_x - 1)
      → view (with_line p l' (p.cursor_x - 1)) ≡ backspaced (view p)
  view-Deleted_before v pos r =
      let l = p.lines p.cursor_y in
      (λ t. record {
        lines_above = with_line-above p l' (p.cursor_x - 1) t;
        before =
            (ap (λ (l : Line). window l.bytes 0 (p.cursor_x - 1))
                  (update_same p.lines p.cursor_y l')
                ∙ window_cong l'.bytes l.bytes 0 (p.cursor_x - 1)
                    (λ k a b. ground (arith, r.del_bytes k, v.col)))
              t;
        after =
            (ap (λ (l : Line). window l.bytes (p.cursor_x - 1) (l.len - (p.cursor_x - 1)))
                  (update_same p.lines p.cursor_y l')
                ∙ ap (window l'.bytes (p.cursor_x - 1)) {y = l.len - p.cursor_x}
                    (omega (arith, r.del_len))
                ∙ window_agree l'.bytes l.bytes (p.cursor_x - 1) p.cursor_x (l.len - p.cursor_x)
                    (λ k lt. ground (arith, r.del_bytes (p.cursor_x - 1 + k))))
              t;
        lines_below = with_line-below p l' (p.cursor_x - 1) (p.num_lines - (p.cursor_y + 1)) t;
      })
      ∙ sym (
          erased_before-snoc (window l.bytes 0 (p.cursor_x - 1)) (l.bytes (0 + (p.cursor_x - 1)))
            (view p))
      ∙ ap (λ b. erased_before b (view p))
          (sym (
            ap (window l.bytes 0) {y = suc (p.cursor_x - 1)} (omega arith)
            ∙ window-snoc l.bytes 0 (p.cursor_x - 1)))

  -- The character at the cursor removed.
  pub view-Deleted_after :
      InText p
      → p.cursor_x < len_at p p.cursor_y
      → Deleted l' (p.lines p.cursor_y) p.cursor_x
      → view (with_line p l' p.cursor_x) ≡ deleted (view p)
  view-Deleted_after v lt r =
      let l = p.lines p.cursor_y in
      (λ t. record {
        lines_above = with_line-above p l' p.cursor_x t;
        before =
            (ap (λ (l : Line). window l.bytes 0 p.cursor_x) (update_same p.lines p.cursor_y l')
                ∙ window_cong l'.bytes l.bytes 0 p.cursor_x
                    (λ k a b. ground (arith, r.del_bytes k)))
              t;
        after =
            (ap (λ (l : Line). window l.bytes p.cursor_x (l.len - p.cursor_x))
                  (update_same p.lines p.cursor_y l')
                ∙ ap (window l'.bytes p.cursor_x) {y = l.len - p.cursor_x - 1}
                    (omega (arith, r.del_len))
                ∙ window_agree l'.bytes l.bytes p.cursor_x (suc p.cursor_x) (l.len - p.cursor_x - 1)
                    (λ k b. ground (arith, r.del_bytes (p.cursor_x + k))))
              t;
        lines_below = with_line-below p l' p.cursor_x (p.num_lines - (p.cursor_y + 1)) t;
      })
      ∙ ap (λ b. erased_after b (view p))
          (sym (ap (window l.bytes p.cursor_x) {y = suc (l.len - p.cursor_x - 1)} (omega arith)))
