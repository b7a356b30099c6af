-- ===== src/Editor/Reopened.antt =====
-- A file without carriage returns, opened and saved by arch/x86/snake/snake.c, is the file again.
use cobra_os.Base.{
  ℕ, zero, suc, ◌+◌, ◌-◌, ◌≤◌, ◌≡◌, refl, ap, sym, ◌∙◌, Array, window, window-snoc, Bool, true,
  false, List, [], ◌∷◌, ◌++◌, append-nil, Option, none, some, arith, Bool-cases, inl, inr,
}
use cobra_os.Editor.Line.{Heap, later, Line}
use cobra_os.Editor.State.{Editor}
use cobra_os.Editor.Page.{texts}
use cobra_os.Editor.Granted.{Abundant}
use cobra_os.Editor.File.{
  Parse, text_end, ends_with_newline, editor_parse_buffer, editor_init, init_with, load_parsed,
  editor_load, editor_save, Save, save_with,
}
use cobra_os.Editor.Saved.{ending, joined, save_buffer-joined}
use cobra_os.Editor.Parsed.{split_lines, joined-split_lines, NoReturns, found}
use cobra_os.Editor.Found.{parse_from-found}

text_end-le : (buf : Array) (n : ℕ) → text_end buf n ≤ n
unfolding text_end
text_end-le buf n = ground arith

last_line_break :
    (buf : Array) (n : ℕ)
    → ends_with_newline buf n ≡ true
    → window buf 0 (n - 1) ++ (0x0A ∷ []) ≡ window buf 0 n
unfolding ends_with_newline
last_line_break buf zero c = cc
last_line_break buf (suc n) c =
    ap (λ m. window buf 0 m ++ (0x0A ∷ [])) {x = suc n - 1} {y = n} (omega arith)
    ∙ ap (λ k. window buf 0 n ++ (k ∷ [])) {x = 0x0A} {y = buf (0 + n)} (ground arith)
    ∙ sym (window-snoc buf 0 n)

-- A file's text, and its closing line break.
text_end-ending :
    (buf : Array) (n : ℕ)
    → window buf 0 (text_end buf n) ++ ending (ends_with_newline buf n) ≡ window buf 0 n
unfolding text_end
text_end-ending buf n = elim (Bool-cases (ends_with_newline buf n)) [
  | inl closed ↦ rw closed (last_break closed)
  | inr open_end ↦ rw open_end (append-nil (window buf 0 n))
]
  where
    last_break :
        ends_with_newline buf n ≡ true → window buf 0 (n - 1) ++ (0x0A ∷ []) ≡ window buf 0 n
    last_break c = last_line_break buf n c

-- The lines that editor_parse_buffer finds.
editor_parse_buffer-found :
    (ls : ℕ → Line) (h : Heap) (buf : Array) (n : ℕ)
    → Abundant h
    → NoReturns buf n
    → let q = editor_parse_buffer ls h buf n in
      (q.ok ≡ true) × Abundant q.heap × (found q ≡ split_lines [] (window buf 0 (text_end buf n)))
unfolding editor_parse_buffer
editor_parse_buffer-found ls h buf n a plain =
    parse_from-found (text_end buf n) buf (text_end buf n) 0
      (record { ok = true; lines = ls; num_lines = 0; start = 0; heap = h }) refl a
      (λ k lt. plain k (omega (arith, text_end-le buf n))) (omega arith) (omega arith)

pub editor_init-Abundant : (ed : Editor) → Abundant ed.heap → Abundant (editor_init ed).heap
unfolding editor_init init_with
editor_init-Abundant ed a = let (b, e) = a 0 in let (d, f) = a 1 in rw (e, f) (λ n. a (suc (n + 3)))

save_with-output :
    (ed : Editor) (written : Bool) (o : Option Array) (b : Array)
    → o ≡ some b
    → (save_with ed written o).output
      ≡ some (joined ed.file_ends_with_newline (texts ed.page.lines 0 ed.page.num_lines))
unfolding save_with
save_with-output ed written none b e = cc
save_with-output ed written (some c) b e = ap some (save_buffer-joined ed c)

-- the editor after its file was read
abbrev pub loaded : Editor → List ℕ → Parse → Bool → Editor
loaded new_ed path p ends = record new_ed {
  page = record new_ed.page { lines = p.lines; num_lines = p.num_lines };
  filename = some path;
  modified = false;
  file_ends_with_newline = ends;
  heap = later p.heap;
}

pub load_parsed-ok :
    (ed new_ed : Editor) (path : List ℕ) (p : Parse) (ends : Bool) (b : Array)
    → p.ok ≡ true
    → p.heap 0 ≡ some b
    → load_parsed ed new_ed path p ends ≡ loaded new_ed path p ends
unfolding load_parsed
load_parsed-ok ed new_ed path p ends b ok e = rw (ok, e) refl

editor_save-loaded :
    (new_ed : Editor) (path : List ℕ) (p : Parse) (ends written : Bool)
    → editor_save (loaded new_ed path p ends) written
      ≡ save_with (loaded new_ed path p ends) written (p.heap 1)
unfolding editor_save
editor_save-loaded new_ed path p ends written = refl

saved_parse :
    (ed new_ed : Editor) (path : List ℕ) (p : Parse) (ends written : Bool)
    → p.ok ≡ true
    → Abundant p.heap
    → (editor_save (load_parsed ed new_ed path p ends) written).output
      ≡ some (joined ends (found p))
saved_parse ed new_ed path p ends written ok a =
    let (b, e) = a 0 in
    let (d, f) = a 1 in
    ap (λ ed. (editor_save ed written).output) (load_parsed-ok ed new_ed path p ends b ok e)
    ∙ ap (λ (s : Save). s.output) (editor_save-loaded new_ed path p ends written)
    ∙ save_with-output (loaded new_ed path p ends) written (p.heap 1) d f

-- While kmalloc succeeds, a file without carriage returns that is opened and saved again is written with
-- the bytes that were read, with or without a line break at its end.
pub editor_save-editor_load :
    (ed fresh : Editor) (path : List ℕ) (buf : Array) (n : ℕ) (written : Bool)
    → Abundant ed.heap
    → NoReturns buf n
    → (editor_save (editor_load ed fresh path (some (buf, n))) written).output
      ≡ some (window buf 0 n)
unfolding editor_load
editor_save-editor_load ed fresh path buf n written a plain =
    let new_ed = editor_init (record fresh { heap = ed.heap }) in
    let q = editor_parse_buffer new_ed.page.lines new_ed.heap buf n in
    let ends = ends_with_newline buf n in
    let (ok, more, lines) =
      editor_parse_buffer-found new_ed.page.lines new_ed.heap buf n
        (editor_init-Abundant (record fresh { heap = ed.heap }) a) plain in
    saved_parse ed new_ed path q ends written ok more
    ∙ ap (λ ls. some (joined ends ls)) lines
    ∙ ap some (joined-split_lines ends [] (window buf 0 (text_end buf n)) ∙ text_end-ending buf n)
