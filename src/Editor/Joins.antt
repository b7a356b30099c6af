-- ===== src/Editor/Joins.antt =====
-- Line breaks removed on a page of the editor in arch/x86/snake/snake.c.
use cobra_os.Base.{
  ℕ, suc, ◌+◌, ◌-◌, ◌<◌, ◌≤◌, ◌≡◌, ap, sym, ◌∙◌, update, window, window_cong, window_agree,
  window-snoc, ltb, ◌==◌, [], ◌∷◌, ◌++◌, false, arith, Bool-cases, inl, inr,
}
use cobra_os.Editor.Line.{Line}
use cobra_os.Editor.State.{EditorState}
use cobra_os.Editor.Edit.{len_at, join_at}
use cobra_os.Editor.Lines.{Joined}
use cobra_os.Editor.Page.{InText, text, texts, view}
use cobra_os.Editor.Spec.{
  backspaced, erased_before, deleted, erased_after, joined_above, joined_below, joined_above-snoc,
}
use cobra_os.Memory.{copied, memmove_at}
use cobra_os.Editor.Pages.{texts_cong, texts_agree}

-- the lines after a join
module _ (p : EditorState) (y : ℕ) (joined : Line) where
  line_at :
      (j : ℕ)
      → (join_at p y joined).lines j
        ≡ copied
            (update p.lines y joined)
            (y + 1)
            (update p.lines y joined)
            (y + 2)
            (p.num_lines - (y + 1) - 1)
            j
  line_at j = memmove_at (update p.lines y joined) (y + 1) (y + 2) (p.num_lines - (y + 1) - 1) j

  at_joined : (join_at p y joined).lines y ≡ joined
  at_joined = ground (arith, line_at y)

  above_joined : texts (join_at p y joined).lines 0 y ≡ texts p.lines 0 y
  above_joined =
      texts_cong (join_at p y joined).lines p.lines 0 y (λ j a b. ground (arith, line_at j))

  below_joined :
      (n : ℕ)
      → y + 2 + n ≤ p.num_lines
      → texts (join_at p y joined).lines (y + 1) n ≡ texts p.lines (y + 2) n
  below_joined n le =
      texts_agree (join_at p y joined).lines p.lines (y + 1) (y + 2) n
        (λ k lt. ground (arith, line_at (y + 1 + k)))

  there_joined :
      InText p
      → joined.null ≡ false
      → (i : ℕ) → i < p.num_lines - 1
      → ((join_at p y joined).lines i).null ≡ false
  there_joined v e i lt = elim (Bool-cases (i == y)) [
    | inl here ↦
        ap (λ (l : Line). l.null) {x = (join_at p y joined).lines i} {y = joined}
          (ground (arith, line_at i))
        ∙ e
    | inr other ↦ elim (Bool-cases (ltb i y)) [
      | inl up ↦
          ap (λ (l : Line). l.null) {x = (join_at p y joined).lines i} {y = p.lines i}
            (ground (arith, line_at i))
          ∙ v.lines_there i (omega arith)
      | inr down ↦
          ap (λ (l : Line). l.null) {x = (join_at p y joined).lines i} {y = p.lines (i + 1)}
            (ground (arith, line_at i))
          ∙ v.lines_there (i + 1) (omega arith)
    ]
  ]

-- the page after Backspace at the start of a line
abbrev pub joined_up : EditorState → Line → EditorState
joined_up p joined = record (join_at p (p.cursor_y - 1) joined) {
  cursor_y = p.cursor_y - 1;
  cursor_x = len_at p (p.cursor_y - 1);
}

-- The line break before the cursor removed.
pub view-Joined_before :
    (p : EditorState) (joined : Line)
    → InText p
    → p.cursor_x ≡ 0
    → 0 < p.cursor_y
    → Joined joined (p.lines (p.cursor_y - 1)) (p.lines p.cursor_y)
    → (view (joined_up p joined) ≡ backspaced (view p)) × InText (joined_up p joined)
view-Joined_before p joined v start pos r = (
  (λ t. record {
    lines_above = above_joined p y joined t;
    before =
        (ap (λ (l : Line). window l.bytes 0 (len_at p y)) (at_joined p y joined)
            ∙ window_cong joined.bytes prev.bytes 0 prev.len
                (λ k a b. ground (arith, r.join_bytes k)))
          t;
    after =
        (ap (λ (l : Line). window l.bytes prev.len (l.len - prev.len)) (at_joined p y joined)
            ∙ ap (window joined.bytes prev.len) {y = cur.len - 0} (omega (arith, r.join_len))
            ∙ window_agree joined.bytes cur.bytes prev.len 0 (cur.len - 0)
                (λ k lt. ground (arith, r.join_bytes (prev.len + k)))
            ∙ ap (λ x. window cur.bytes x (cur.len - x)) (sym start))
          t;
    lines_below =
        (ap (texts (join_at p y joined).lines (y + 1)) {x = p.num_lines - 1 - (y + 1)}
              {y = p.num_lines - (p.cursor_y + 1)} (omega arith)
            ∙ below_joined p y joined (p.num_lines - (p.cursor_y + 1)) (omega (arith, v.row))
            ∙ ap (λ i. texts p.lines i (p.num_lines - (p.cursor_y + 1))) {y = p.cursor_y + 1}
                (omega arith))
          t;
  })
      ∙ sym (joined_above-snoc (texts p.lines 0 y) (text (p.lines y)) (view p))
      ∙ ap (λ ls. joined_above ls (view p))
          (sym (
            ap (texts p.lines 0) {y = suc y} (omega arith)
            ∙ window-snoc (λ j. text (p.lines j)) 0 y
            ∙ ap (λ i. texts p.lines 0 y ++ (text (p.lines i) ∷ [])) {x = 0 + y} {y = y}
                (omega arith)))
      ∙ ap (λ b. erased_before b (view p)) (ap (window cur.bytes 0) (sym start)),
  record {
    row = omega (arith, v.row);
    col = omega (arith, r.join_len, ap (λ (l : Line). l.len) (at_joined p y joined));
    lines_there = there_joined p y joined v r.join_null;
  },
)
  where
    y : ℕ
    y = p.cursor_y - 1

    prev : Line
    prev = p.lines y

    cur : Line
    cur = p.lines p.cursor_y

-- The line break at the cursor removed.
pub view-Joined_after :
    (p : EditorState) (joined : Line)
    → InText p
    → len_at p p.cursor_y ≤ p.cursor_x
    → p.cursor_y + 1 < p.num_lines
    → Joined joined (p.lines p.cursor_y) (p.lines (p.cursor_y + 1))
    → (view (join_at p p.cursor_y joined) ≡ deleted (view p)) × InText (join_at p p.cursor_y joined)
view-Joined_after p joined v end more r = (
  (λ t. record {
    lines_above = above_joined p y joined t;
    before =
        (ap (λ (l : Line). window l.bytes 0 p.cursor_x) (at_joined p y joined)
            ∙ window_cong joined.bytes cur.bytes 0 p.cursor_x
                (λ k a b. ground (arith, r.join_bytes k, v.col)))
          t;
    after =
        (ap (λ (l : Line). window l.bytes p.cursor_x (l.len - p.cursor_x)) (at_joined p y joined)
            ∙ ap (window joined.bytes p.cursor_x) {y = next.len} (omega (arith, r.join_len, v.col))
            ∙ window_agree joined.bytes next.bytes p.cursor_x 0 next.len
                (λ k lt. ground (arith, r.join_bytes (p.cursor_x + k), v.col)))
          t;
    lines_below =
        (ap (texts (join_at p y joined).lines (y + 1)) {x = p.num_lines - 1 - (y + 1)} {y = n}
              (omega arith)
            ∙ below_joined p y joined n (omega arith))
          t;
  })
      ∙ ap (λ ls. joined_below ls (view p))
          (sym (
            ap (texts p.lines (y + 1)) {y = suc n} (omega arith)
            ∙ ap (λ i. text next ∷ texts p.lines i n) {y = y + 2} (omega arith)))
      ∙ ap (λ b. erased_after b (view p))
          (sym (
            ap (window cur.bytes p.cursor_x) {x = len_at p p.cursor_y - p.cursor_x} {y = 0}
              (omega arith))),
  record {
    row = omega arith;
    col = omega (arith, r.join_len, v.col, ap (λ (l : Line). l.len) (at_joined p y joined));
    lines_there = there_joined p y joined v r.join_null;
  },
)
  where
    y : ℕ
    y = p.cursor_y

    n : ℕ
    n = p.num_lines - (p.cursor_y + 1) - 1

    cur : Line
    cur = p.lines p.cursor_y

    next : Line
    next = p.lines (p.cursor_y + 1)
