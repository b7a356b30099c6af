-- ===== src/Editor/Saved.antt =====
-- What editor_save of arch/x86/snake/snake.c writes: the lines with their line breaks, and exactly the
-- number of bytes it asked memory for.
use cobra_os.Base.{
  ℕ, zero, suc, ◌+◌, ◌-◌, ◌<◌, ◌≡◌, ap, sym, ◌∙◌, Array, update, window, window_cong, window-add,
  window_agree, ltb, ◌||◌, if◌then◌else◌, Bool, true, false, List, [], ◌∷◌, ◌++◌, append-nil,
  append_assoc, arith,
}
use mathlib.Core.Path.{ap₂}
use cobra_os.Memory.{copied, memcpy_at}
use cobra_os.Editor.Line.{Line}
use cobra_os.Editor.State.{Editor}
use cobra_os.Editor.Page.{text, texts}
use cobra_os.Editor.File.{total_from, save_total, Buffer, save_line, save_from, save_buffer}

-- the line break that ends a file, if it has one
abbrev pub ending : Bool → List ℕ
ending ends = if ends then 0x0A ∷ [] else []

-- a file's characters from its lines
abbrev pub joined : Bool → List (List ℕ) → List ℕ
joined ends [] = []
joined ends (t ∷ []) = t ++ ending ends
joined ends (t ∷ u ∷ l) = t ++ (0x0A ∷ joined ends (u ∷ l))

-- the bytes written so far
abbrev written : Buffer → List ℕ
written b = window b.bytes 0 b.pos

written-copied :
    (l : Line) (f : Array) (pos : ℕ)
    → (g : Array) → ((j : ℕ) → g j ≡ copied f pos l.bytes 0 l.len j)
    → window g 0 (pos + l.len) ≡ window f 0 pos ++ text l
written-copied l f pos g h =
    window-add g 0 pos l.len
    ∙ ap₂ ◌++◌ (window_cong g f 0 pos (λ j a b. ground (arith, h j)))
        (window_agree g l.bytes (0 + pos) 0 l.len (λ k lt. ground (arith, h (0 + pos + k))))

written-save_line :
    (l : Line) (newline : Bool) (b : Buffer)
    → written (save_line l newline b) ≡ written b ++ (text l ++ ending newline)
unfolding save_line
written-save_line l true b =
    window-add (save_line l true b).bytes 0 (b.pos + l.len) 1
    ∙ ap₂ ◌++◌
        (window_cong (save_line l true b).bytes (save_line l false b).bytes 0 (b.pos + l.len)
            (λ j a c. ground arith)
          ∙ written-copied l b.bytes b.pos (save_line l false b).bytes
              (λ j. memcpy_at b.bytes b.pos l.bytes 0 l.len j))
        (ap (λ x. x ∷ []) {y = 0x0A} (ground arith))
    ∙ append_assoc (written b) (text l) (0x0A ∷ [])
written-save_line l false b =
    written-copied l b.bytes b.pos (save_line l false b).bytes
      (λ j. memcpy_at b.bytes b.pos l.bytes 0 l.len j)
    ∙ ap (λ t. written b ++ t) (sym (append-nil (text l)))

written-save_from :
    (n : ℕ) (ls : ℕ → Line) (i num : ℕ) (ends : Bool) (b : Buffer)
    → i + n ≡ num
    → written (save_from n ls i num ends b) ≡ written b ++ joined ends (texts ls i n)
unfolding save_from
written-save_from zero ls i num ends b e = sym (append-nil (written b))
written-save_from (suc zero) ls i num ends b e =
    written-save_line (ls i) (ltb i (num - 1) || ends) b
    ∙ ap (λ f. written b ++ (text (ls i) ++ ending f)) {y = ends} (ground arith)
written-save_from (suc (suc n)) ls i num ends b e =
    written-save_from (suc n) ls (suc i) num ends (save_line (ls i) (ltb i (num - 1) || ends) b)
      (omega arith)
    ∙ ap (λ w. w ++ joined ends (texts ls (suc i) (suc n)))
        (written-save_line (ls i) (ltb i (num - 1) || ends) b
          ∙ ap (λ f. written b ++ (text (ls i) ++ ending f)) {y = true} (ground arith))
    ∙ append_assoc (written b) (text (ls i) ++ (0x0A ∷ [])) (joined ends (texts ls (suc i) (suc n)))
    ∙ ap (λ w. written b ++ w)
        (append_assoc (text (ls i)) (0x0A ∷ []) (joined ends (texts ls (suc i) (suc n))))

-- The bytes that editor_save hands to the file system are the lines, each but the last with a line
-- break behind it, and the last one too if the file ended with a line break.
pub save_buffer-joined :
    (ed : Editor) (block : Array)
    → let b = save_buffer ed block in
      window b.bytes 0 b.pos
      ≡ joined ed.file_ends_with_newline (texts ed.page.lines 0 ed.page.num_lines)
unfolding save_buffer
save_buffer-joined ed block =
    let p = ed.page in
    let b =
      save_from p.num_lines p.lines 0 p.num_lines ed.file_ends_with_newline
        (record { bytes = block; pos = 0 }) in
    window_cong (update b.bytes b.pos 0) b.bytes 0 b.pos (λ j x y. ground arith)
    ∙ written-save_from p.num_lines p.lines 0 p.num_lines ed.file_ends_with_newline
        (record { bytes = block; pos = 0 }) (omega arith)

pos-save_from :
    (n : ℕ) (ls : ℕ → Line) (i num : ℕ) (ends : Bool) (b : Buffer)
    → i + n ≡ num
    → (save_from n ls i num ends b).pos
      ≡ b.pos + (if ends then total_from ls i n else total_from ls i n - 1)
unfolding save_from save_line total_from
pos-save_from zero ls i num ends b e = ground arith
pos-save_from (suc zero) ls i num ends b e = ground arith
pos-save_from (suc (suc n)) ls i num ends b e = ground (
  arith,
  pos-save_from (suc n) ls (suc i) num ends (save_line (ls i) (ltb i (num - 1) || ends) b)
      (omega arith),
)

total_from-pos : (n : ℕ) (ls : ℕ → Line) (i : ℕ) → 0 < n → 0 < total_from ls i n
unfolding total_from
total_from-pos zero ls i pos = absurd (omega arith)
total_from-pos (suc n) ls i pos = omega arith

-- With at least one line, editor_save fills the buffer that it asked for exactly: with the bytes that
-- it writes and one NUL.
pub save_buffer-save_total :
    (ed : Editor) (block : Array)
    → 0 < ed.page.num_lines
    → (save_buffer ed block).pos ≡ save_total ed
unfolding save_buffer save_total
save_buffer-save_total ed block some_line =
    let p = ed.page in
    ground (
      arith,
      total_from-pos p.num_lines p.lines 0 some_line,
      pos-save_from p.num_lines p.lines 0 p.num_lines ed.file_ends_with_newline
          (record { bytes = block; pos = 0 }) (omega arith),
    )
