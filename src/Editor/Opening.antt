-- ===== src/Editor/Opening.antt =====
-- What editor_load of arch/x86/snake/snake.c leaves while kmalloc succeeds, whatever the file holds.
use cobra_os.Base.{
  ℕ, zero, suc, ◌+◌, ◌<◌, ◌≡◌, refl, Array, ◌==◌, ◌||◌, Bool, Option, none, some, true, false,
  arith, Bool-cases, inl, inr, List,
}
use cobra_os.Editor.Line.{Heap, Line}
use cobra_os.Editor.State.{Editor, undo_stack_clear}
use cobra_os.Editor.Page.{IsValid}
use cobra_os.Editor.Granted.{Abundant}
use cobra_os.Editor.File.{
  Parse, init_with, editor_init, add_line, parse_from, text_end, editor_parse_buffer, editor_load,
  ends_with_newline,
}
use cobra_os.Editor.Found.{parse_from-step, parse_from_zero, parse_step-end, parse_step-inside}
use cobra_os.Editor.Reopened.{editor_init-Abundant, loaded, load_parsed-ok}
use cobra_os.Editor.Supply.{Stocked}

-- lines that are there, while kmalloc succeeds
record IsParsed (p : Parse) : Type 0 where
  parsed_ok : p.ok ≡ true
  lines_there : (i : ℕ) → i < p.num_lines → (p.lines i).null ≡ false
  supplied : Abundant p.heap

add_line-IsParsed :
    (p : Parse) (buf : Array) (i : ℕ) (b d : Array)
    → IsParsed p
    → IsParsed (add_line p buf i (some b) (some d))
unfolding add_line
add_line-IsParsed p buf i b d v = record {
  parsed_ok = v.parsed_ok;
  lines_there = λ j lt. elim (Bool-cases (j == p.num_lines)) [
    | inl e ↦ rw e refl
    | inr e ↦ rw e (v.lines_there j (ground arith))
  ];
  supplied = λ k. v.supplied (suc (suc k));
}

add_line_num :
    (p : Parse) (buf : Array) (i : ℕ) (b d : Array)
    → 0 < (add_line p buf i (some b) (some d)).num_lines
unfolding add_line
add_line_num p buf i b d = omega arith

-- From any position on, the loop ends with at least one line.
parse_from-IsParsed :
    (n : ℕ) (buf : Array) (end i : ℕ) (p : Parse)
    → IsParsed p
    → i + n ≡ end
    → IsParsed (parse_from (suc n) buf end i p) × (0 < (parse_from (suc n) buf end i p).num_lines)
parse_from-IsParsed zero buf end i p v e =
    let (b, f) = v.supplied 0 in
    let (d, g) = v.supplied 1 in
    let q = add_line p buf i (some b) (some d) in
    let w = add_line-IsParsed p buf i b d v in
    let step = parse_step-end buf end i p b d (ground arith) f g in
    rw (parse_from-step 0 buf end i p q step w.parsed_ok, parse_from_zero buf end (suc i) q)
      (w, add_line_num p buf i b d)
parse_from-IsParsed (suc n) buf end i p v e = elim (Bool-cases (i == end || buf i == 0x0A)) [
  | inl at ↦
      let (b, f) = v.supplied 0 in
      let (d, g) = v.supplied 1 in
      let q = add_line p buf i (some b) (some d) in
      let w = add_line-IsParsed p buf i b d v in
      let step = parse_step-end buf end i p b d at f g in
      rw (parse_from-step (suc n) buf end i p q step w.parsed_ok)
        (parse_from-IsParsed n buf end (suc i) q w (omega arith))
  | inr between ↦
      rw (parse_from-step (suc n) buf end i p p (parse_step-inside buf end i p between) v.parsed_ok)
        (parse_from-IsParsed n buf end (suc i) p v (omega arith))
]

editor_parse_buffer-IsParsed :
    (ls : ℕ → Line) (h : Heap) (buf : Array) (n : ℕ)
    → Abundant h
    → IsParsed (editor_parse_buffer ls h buf n) × (0 < (editor_parse_buffer ls h buf n).num_lines)
unfolding editor_parse_buffer
editor_parse_buffer-IsParsed ls h buf n a =
    parse_from-IsParsed (text_end buf n) buf (text_end buf n) 0
      (record { ok = true; lines = ls; num_lines = 0; start = 0; heap = h })
      (record { parsed_ok = refl; lines_there = λ i lt. absurd (omega arith); supplied = a })
      (omega arith)

-- an editor at the top of its text, with empty stacks
record IsFresh (ed : Editor) : Type 0 where
  at_row : ed.page.cursor_y ≡ 0
  at_col : ed.page.cursor_x ≡ 0
  scrolled_row : ed.page.scroll_y ≡ 0
  scrolled_col : ed.page.scroll_x ≡ 0
  no_undo : ed.undo_stack.top ≡ 0
  no_redo : ed.redo_stack.top ≡ 0
  has_stacks : ed.stacks_null ≡ false

editor_init-IsFresh : (ed : Editor) → Stocked ed → IsFresh (editor_init ed)
unfolding editor_init init_with undo_stack_clear
editor_init-IsFresh ed a =
    let (b, e) = a 0 in
    let (c, f) = a 1 in
    let (d, g) = a 2 in
    let (x, y) = a 3 in
    rw (e, f, g, y)
      (record {
        at_row = refl;
        at_col = refl;
        scrolled_row = refl;
        scrolled_col = refl;
        no_undo = refl;
        no_redo = refl;
        has_stacks = refl;
      })

loaded-IsValid :
    (ed : Editor) (path : List ℕ) (p : Parse) (ends : Bool)
    → IsFresh ed
    → IsParsed p
    → 0 < p.num_lines
    → IsValid (loaded ed path p ends)
loaded-IsValid ed path p ends fr v pos = record {
  page_valid = record {
    in_text = record {
      row = omega (arith, fr.at_row);
      col = omega (arith, fr.at_col);
      lines_there = v.lines_there;
    };
    visible = record {
      left_of = omega (arith, fr.scrolled_col);
      right_of = omega (arith, fr.at_col);
      above = omega (arith, fr.scrolled_row);
      below = omega (arith, fr.at_row);
    };
  };
  undo_valid = record {
    bounded = omega (arith, fr.no_undo);
    pages = λ i lt. absurd (omega (arith, fr.no_undo));
  };
  redo_valid = record {
    bounded = omega (arith, fr.no_redo);
    pages = λ i lt. absurd (omega (arith, fr.no_redo));
  };
  stacks_there = fr.has_stacks;
}

pub editor_load-IsValid :
    (ed fresh : Editor) (path : List ℕ) (file : Option (Array × ℕ))
    → Stocked ed
    → IsValid ed
    → IsValid (editor_load ed fresh path file) × Stocked (editor_load ed fresh path file)
unfolding editor_load
editor_load-IsValid ed fresh path none a v = (v, a)
editor_load-IsValid ed fresh path (some (buf, n)) a v =
    let blank : Editor = record fresh { heap = ed.heap } in
    let new_ed = editor_init blank in
    let (w, pos) =
      editor_parse_buffer-IsParsed new_ed.page.lines new_ed.heap buf n
        (editor_init-Abundant blank a) in
    let (b, e) = w.supplied 0 in
    let q = editor_parse_buffer new_ed.page.lines new_ed.heap buf n in
    rw (load_parsed-ok ed new_ed path q (ends_with_newline buf n) b w.parsed_ok e) (
      loaded-IsValid new_ed path q (ends_with_newline buf n) (editor_init-IsFresh blank a) w pos,
      λ k. w.supplied (suc k),
    )
