-- ===== src/Editor/Found.antt =====
-- The loop of editor_parse_buffer in arch/x86/snake/snake.c finds the lines of a file without carriage
-- returns.
use cobra_os.Base.{
  ℕ, zero, suc, ◌+◌, ◌-◌, ◌≤◌, ◌≡◌, refl, ap, sym, ◌∙◌, Array, window, window-snoc, ◌==◌, ◌||◌,
  true, false, [], ◌∷◌, ◌++◌, append_assoc, some, arith, Bool-cases, inl, inr,
}
use mathlib.Core.Path.{ap₂}
use cobra_os.Editor.Granted.{Abundant}
use cobra_os.Editor.File.{Parse, add_line, parse_step, parse_from}
use cobra_os.Editor.Parsed.{
  split_lines, split_lines_nil, split_lines_break, split_lines_plain, NoReturns, found,
  add_line-found,
}

pub parse_from-step :
    (n : ℕ) (buf : Array) (end i : ℕ) (p q : Parse)
    → parse_step buf end i p ≡ q
    → q.ok ≡ true
    → parse_from (suc n) buf end i p ≡ parse_from n buf end (suc i) q
unfolding parse_from
parse_from-step n buf end i p q e ok = rw (e, ok) refl

pub parse_from_zero : (buf : Array) (end i : ℕ) (p : Parse) → parse_from 0 buf end i p ≡ p
unfolding parse_from
parse_from_zero buf end i p = refl

pub parse_step-end :
    (buf : Array) (end i : ℕ) (p : Parse) (b d : Array)
    → (i == end || buf i == 0x0A) ≡ true
    → p.heap 0 ≡ some b
    → p.heap 1 ≡ some d
    → parse_step buf end i p ≡ add_line p buf i (some b) (some d)
unfolding parse_step
parse_step-end buf end i p b d e f g = rw (e, f, g) refl

pub parse_step-inside :
    (buf : Array) (end i : ℕ) (p : Parse)
    → (i == end || buf i == 0x0A) ≡ false
    → parse_step buf end i p ≡ p
unfolding parse_step
parse_step-inside buf end i p e = rw e refl

-- The rest of a text, with kmalloc succeeding.
pub parse_from-found :
    (n : ℕ) (buf : Array) (end i : ℕ) (p : Parse)
    → p.ok ≡ true
    → Abundant p.heap
    → NoReturns buf end
    → i + n ≡ end
    → p.start ≤ i
    → let q = parse_from (suc n) buf end i p in
      (q.ok ≡ true)
      × Abundant q.heap
      × (found q ≡ found p ++ split_lines (window buf p.start (i - p.start)) (window buf i n))
unfolding add_line
parse_from-found zero buf end i p ok a plain e lo =
    let (b, f) = a 0 in
    let (d, g) = a 1 in
    let q = add_line p buf i (some b) (some d) in
    let step = parse_step-end buf end i p b d (ground arith) f g in
    rw (parse_from-step 0 buf end i p q step ok, parse_from_zero buf end (suc i) q)
      (
        ok,
        (λ k. a (suc (suc k))),
        add_line-found p buf i end b d plain (omega arith) lo
            ∙ ap (λ t. found p ++ t) (sym (split_lines_nil (window buf p.start (i - p.start)))),
      )
parse_from-found (suc n) buf end i p ok a plain e lo = elim (Bool-cases (buf i == 0x0A)) [
  | inl br ↦
      let (b, f) = a 0 in
      let (d, g) = a 1 in
      let q = add_line p buf i (some b) (some d) in
      let cur = window buf p.start (i - p.start) in
      let step = parse_step-end buf end i p b d (ground arith) f g in
      let ih =
        parse_from-found n buf end (suc i) q ok (λ k. a (suc (suc k))) plain (omega arith)
          (omega arith) in
      rw (parse_from-step (suc n) buf end i p q step ok) (
        ih.0,
        ih.1,
        ih.2
            ∙ ap₂ ◌++◌ (add_line-found p buf i end b d plain (omega arith) lo) (
                ap (λ m. split_lines (window buf (i + 1) m) (window buf (suc i) n))
                  {x = suc i - (i + 1)} {y = 0} (omega arith))
            ∙ append_assoc (found p) (cur ∷ []) (split_lines [] (window buf (suc i) n))
            ∙ ap (λ t. found p ++ t)
                (sym (split_lines_break cur (buf i) (window buf (suc i) n) br)),
      )
  | inr inside ↦
      let step = parse_step-inside buf end i p (ground arith) in
      let ih = parse_from-found n buf end (suc i) p ok a plain (omega arith) (omega arith) in
      rw (parse_from-step (suc n) buf end i p p step ok) (
        ih.0,
        ih.1,
        ih.2
            ∙ ap (λ t. found p ++ split_lines t (window buf (suc i) n)) (longer buf p.start i lo)
            ∙ ap (λ t. found p ++ t)
                (sym (
                  split_lines_plain (window buf p.start (i - p.start)) (buf i)
                    (window buf (suc i) n) inside)),
      )
]
  where
    longer :
        (f : Array) (s i : ℕ) → s ≤ i → window f s (suc i - s) ≡ window f s (i - s) ++ (f i ∷ [])
    longer f s i le =
        ap (window f s) {x = suc i - s} {y = suc (i - s)} (omega arith)
        ∙ window-snoc f s (i - s)
        ∙ ap (λ k. window f s (i - s) ++ (f k ∷ [])) {x = s + (i - s)} {y = i} (omega arith)
