-- ===== src/Editor/Parsed.antt =====
-- A file without carriage returns, opened and saved by arch/x86/snake/snake.c.
use cobra_os.Base.{
  ℕ, suc, ◌+◌, ◌-◌, ◌<◌, ◌≤◌, ◌≡◌, ◌≢◌, refl, ap, sym, ◌∙◌, Array, update, window, window-snoc,
  window_agree, ltb, ◌==◌, Bool, true, false, List, [], ◌∷◌, ◌++◌, append_assoc, some, arith,
  Bool-cases, inl, inr,
}
use mathlib.Core.Path.{ap₂}
use cobra_os.Memory.Copy.{memcpy}
use cobra_os.Memory.{memcpy_at}
use cobra_os.Editor.Line.{Line}
use cobra_os.Editor.Page.{text, texts}
use cobra_os.Editor.Pages.{texts_cong}
use cobra_os.Editor.File.{Parse, line_length, add_line}
use cobra_os.Editor.Saved.{ending, joined}

-- the lines of a text; `cur` is the part of the first one that was read already
pub split_lines : List ℕ → List ℕ → List (List ℕ)
split_lines cur [] = cur ∷ []
split_lines cur (c ∷ cs) = elim (c == 0x0A) [
  | true ↦ cur ∷ split_lines [] cs
  | false ↦ split_lines (cur ++ (c ∷ [])) cs
]

pub split_lines_nil : (cur : List ℕ) → split_lines cur [] ≡ cur ∷ []
unfolding split_lines
split_lines_nil cur = refl

pub split_lines_break :
    (cur : List ℕ) (c : ℕ) (cs : List ℕ)
    → (c == 0x0A) ≡ true
    → split_lines cur (c ∷ cs) ≡ cur ∷ split_lines [] cs
unfolding split_lines
split_lines_break cur c cs e = rw (e, split_lines) refl

pub split_lines_plain :
    (cur : List ℕ) (c : ℕ) (cs : List ℕ)
    → (c == 0x0A) ≡ false
    → split_lines cur (c ∷ cs) ≡ split_lines (cur ++ (c ∷ [])) cs
unfolding split_lines
split_lines_plain cur c cs e = rw (e, split_lines) refl

split_lines-cons :
    (cur xs : List ℕ) → (u : List ℕ) × (l : List (List ℕ)) × (split_lines cur xs ≡ u ∷ l)
unfolding split_lines
split_lines-cons cur [] = (cur, [], refl)
split_lines-cons cur (c ∷ cs) = elim (Bool-cases (c == 0x0A)) [
  | inl br ↦ rw (br, split_lines) (cur, split_lines [] cs, refl)
  | inr plain ↦ rw (plain, split_lines) (split_lines-cons (cur ++ (c ∷ [])) cs)
]

-- Joining the lines of a text gives the text.
pub joined-split_lines :
    (ends : Bool) (cur xs : List ℕ) → joined ends (split_lines cur xs) ≡ cur ++ (xs ++ ending ends)
unfolding split_lines
joined-split_lines ends cur [] = refl
joined-split_lines ends cur (c ∷ cs) = elim (Bool-cases (c == 0x0A)) [
  | inl br ↦
      let (u, l, e) = split_lines-cons [] cs in
      rw (br, split_lines)
        (ap (λ ls. joined ends (cur ∷ ls)) e
          ∙ ap (λ ls. cur ++ (0x0A ∷ joined ends ls)) (sym e)
          ∙ ap (λ t. cur ++ (0x0A ∷ t)) (joined-split_lines ends [] cs)
          ∙ ap (λ d. cur ++ (d ∷ (cs ++ ending ends))) {x = 0x0A} {y = c} (ground arith))
  | inr plain ↦
      rw (plain, split_lines)
        (joined-split_lines ends (cur ++ (c ∷ [])) cs
          ∙ append_assoc cur (c ∷ []) (cs ++ ending ends))
]

-- no carriage return among the first `n` characters
abbrev pub NoReturns : Array → ℕ → Type 0
NoReturns buf n = (k : ℕ) → k < n → buf k ≢ 0x0D

line_length-plain :
    (buf : Array) (start i n : ℕ) → NoReturns buf n → i ≤ n → line_length buf start i ≡ i - start
unfolding line_length
line_length-plain buf start i n plain le = elim (Bool-cases (ltb 0 (i - start))) [
  | inl pos ↦ ground (arith, plain (i - start - 1) (ground arith))
  | inr empty ↦ rw empty refl
]

-- what the loop has found so far
abbrev pub found : Parse → List (List ℕ)
found p = texts p.lines 0 p.num_lines

pub add_line-found :
    (p : Parse) (buf : Array) (i n : ℕ) (b d : Array)
    → NoReturns buf n
    → i ≤ n
    → p.start ≤ i
    → found (add_line p buf i (some b) (some d))
      ≡ found p ++ (window buf p.start (i - p.start) ∷ [])
unfolding add_line
add_line-found p buf i n b d plain le lo =
    ap (texts q.lines 0) {x = p.num_lines + 1} {y = suc p.num_lines} (omega arith)
    ∙ window-snoc (λ j. text (q.lines j)) 0 p.num_lines
    ∙ ap₂ ◌++◌ (texts_cong q.lines p.lines 0 p.num_lines (λ j x y. ground arith)) (
        ap (λ x. x ∷ []) {y = window buf p.start (i - p.start)}
          (ap text {x = q.lines (0 + p.num_lines)} {y = l} (ground arith)
            ∙ window_agree l.bytes buf 0 p.start (line_length buf p.start i) (λ k lt.
              ground (arith, memcpy_at d 0 buf p.start (line_length buf p.start i) (0 + k)))
            ∙ ap (window buf p.start) (line_length-plain buf p.start i n plain le)))
  where
    q : Parse
    q = add_line p buf i (some b) (some d)

    l : Line
    l = record {
      null = false;
      bytes =
          update (memcpy d 0 buf p.start (line_length buf p.start i)) (line_length buf p.start i) 0;
      len = line_length buf p.start i;
      cap = line_length buf p.start i + 1;
    }
