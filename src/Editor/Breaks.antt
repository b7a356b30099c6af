-- ===== src/Editor/Breaks.antt =====
-- A line break made on a page of the editor in arch/x86/snake/snake.c.
use cobra_os.Base.{
  ℕ, suc, ◌+◌, ◌-◌, ◌<◌, ◌≡◌, ap, ◌∙◌, update, window, window_cong, window_agree, window-snoc, ltb,
  ◌==◌, if◌then◌else◌, [], ◌∷◌, ◌++◌, false, arith, Bool-cases, inl, inr,
}
use mathlib.Core.Path.{ap₂}
use cobra_os.Editor.Line.{Line}
use cobra_os.Editor.State.{EditorState}
use cobra_os.Editor.Edit.{split_at}
use cobra_os.Editor.Lines.{Cut}
use cobra_os.Editor.Page.{InText, text, texts, before, view}
use cobra_os.Editor.Spec.{line_broken}
use cobra_os.Memory.{copied, memmove_at}
use cobra_os.Editor.Pages.{texts_cong, texts_agree}

-- A line break at the cursor.
pub view-Cut :
    (p : EditorState) (head tail : Line)
    → InText p
    → Cut head tail (p.lines p.cursor_y) p.cursor_x
    → (view (split_at p head tail) ≡ line_broken (view p)) × InText (split_at p head tail)
view-Cut p head tail v r = (
  λ t. record {
    lines_above =
        (ap (texts q.lines 0) {x = p.cursor_y + 1} {y = suc p.cursor_y} (omega arith)
            ∙ window-snoc (λ j. text (q.lines j)) 0 p.cursor_y
            ∙ ap₂ ◌++◌
                (texts_cong q.lines p.lines 0 p.cursor_y (λ j a b. ground (arith, line_at j)))
                (ap (λ x. x ∷ []) {y = before p}
                  (ap text {x = q.lines (0 + p.cursor_y)} {y = head}
                      (ground (arith, line_at (0 + p.cursor_y)))
                    ∙ ap (window head.bytes 0) r.head_len
                    ∙ window_cong head.bytes l.bytes 0 p.cursor_x
                        (λ k a b. r.head_bytes k (omega arith)))))
          t;
    before = [];
    after =
        (ap (λ (l : Line). window l.bytes 0 (l.len - 0)) at_tail
            ∙ ap (window tail.bytes 0) {y = l.len - p.cursor_x} (omega (arith, r.tail_len))
            ∙ window_agree tail.bytes l.bytes 0 p.cursor_x (l.len - p.cursor_x)
                (λ k lt. ground (arith, r.tail_bytes k)))
          t;
    lines_below =
        (ap (texts q.lines (p.cursor_y + 1 + 1)) {x = p.num_lines + 1 - (p.cursor_y + 1 + 1)}
              {y = p.num_lines - (p.cursor_y + 1)} (omega arith)
            ∙ texts_agree q.lines p.lines (p.cursor_y + 1 + 1) (p.cursor_y + 1)
                (p.num_lines - (p.cursor_y + 1))
                (λ k lt. ground (arith, line_at (p.cursor_y + 1 + 1 + k))))
          t;
  },
  record { row = omega (arith, v.row); col = omega arith; lines_there = there },
)
  where
    l : Line
    l = p.lines p.cursor_y

    q : EditorState
    q = split_at p head tail

    ls : ℕ → Line
    ls = update p.lines p.cursor_y head

    n : ℕ
    n = p.num_lines - p.cursor_y - 1

    line_at :
        (j : ℕ)
        → q.lines j ≡ (
            if j == p.cursor_y + 1
            then tail
            else copied ls (p.cursor_y + 2) ls (p.cursor_y + 1) n j)
    line_at j = ground (arith, memmove_at ls (p.cursor_y + 2) (p.cursor_y + 1) n j)

    at_tail : q.lines (p.cursor_y + 1) ≡ tail
    at_tail = ground (arith, line_at (p.cursor_y + 1))

    null_of : (i : ℕ) (m : Line) → q.lines i ≡ m → m.null ≡ false → (q.lines i).null ≡ false
    null_of i m e f = ap (λ (l : Line). l.null) e ∙ f

    there : (i : ℕ) → i < q.num_lines → (q.lines i).null ≡ false
    there i lt = elim (Bool-cases (i == p.cursor_y + 1)) [
      | inl new ↦ null_of i tail (ground (arith, line_at i)) r.tail_null
      | inr other ↦ elim (Bool-cases (i == p.cursor_y)) [
        | inl cut ↦ null_of i head (ground (arith, line_at i)) r.head_null
        | inr whole ↦ elim (Bool-cases (ltb i p.cursor_y)) [
          | inl up ↦
              null_of i (p.lines i) (ground (arith, line_at i))
                (v.lines_there i (ground (arith, v.row)))
          | inr down ↦
              null_of i (p.lines (i - 1)) (ground (arith, line_at i))
                (v.lines_there (i - 1) (ground (arith, v.row)))
        ]
      ]
    ]
