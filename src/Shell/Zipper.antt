-- ===== src/Shell/Zipper.antt =====
-- The command buffer of arch/x86/kernel/shell.c as the text before the cursor and the text from the
-- cursor on.
use cobra_os.Base.{
  ℕ, zero, suc, ◌+◌, ◌-◌, ◌<◌, ◌≤◌, ◌≡◌, refl, ap, ◌∙◌, Array, update, window, window_agree,
  window-snoc, ltb, leb, ◌==◌, ◌&&◌, if◌then◌else◌, List, [], ◌∷◌, ◌++◌, arith, Bool-cases, inl,
  inr,
}
use mathlib.Core.Path.{ap₂}
use cobra_os.Shell.Line.{
  Shell, max_cmd_len, shift_right, shift_left, insert_char, delete_char_before, delete_char_at,
}

-- the cursor stands in the line, and the line with its NUL fits the buffer
pub record IsLine (s : Shell) : Type 0 where
  pub pos_in : s.cmd_pos ≤ s.cmd_len
  pub len_in : s.cmd_len < max_cmd_len

abbrev pub before : Shell → List ℕ
before s = window s.cmd_buffer 0 s.cmd_pos

abbrev pub after : Shell → List ℕ
after s = window s.cmd_buffer s.cmd_pos (s.cmd_len - s.cmd_pos)

shift_right_at :
    (f : Array) (p n j : ℕ)
    → shift_right f p n j ≡ (if ltb p j && leb j (p + n) then f (j - 1) else f j)
unfolding shift_right
shift_right_at f p zero j = ground arith
shift_right_at f p (suc n) j =
    ground (arith, shift_right_at (update f (p + suc n) (f (p + n))) p n j)

shift_left_at :
    (f : Array) (k n j : ℕ)
    → shift_left f k n j ≡ (if leb k j && ltb j (k + n) then f (j + 1) else f j)
unfolding shift_left
shift_left_at f k zero j = ground arith
shift_left_at f k (suc n) j = ground (arith, shift_left_at (update f k (f (suc k))) (suc k) n j)

-- what `insert_char` leaves when there is room
abbrev inserted : Shell → ℕ → Shell
inserted s c = record s {
  cmd_buffer = update (shift_right s.cmd_buffer s.cmd_pos (s.cmd_len - s.cmd_pos)) s.cmd_pos c;
  cmd_len = s.cmd_len + 1;
  cmd_pos = s.cmd_pos + 1;
}

before-inserted : (s : Shell) (c : ℕ) → before (inserted s c) ≡ before s ++ (c ∷ [])
before-inserted s c =
    ap (window (inserted s c).cmd_buffer 0) add_one
    ∙ window-snoc (inserted s c).cmd_buffer 0 s.cmd_pos
    ∙ ap₂ ◌++◌
        (window_agree (inserted s c).cmd_buffer s.cmd_buffer 0 0 s.cmd_pos (λ k lt.
          ground (arith, shift_right_at s.cmd_buffer s.cmd_pos (s.cmd_len - s.cmd_pos) (0 + k))))
        (ground arith)
  where
    add_one : s.cmd_pos + 1 ≡ suc s.cmd_pos
    add_one = omega arith

after-inserted : (s : Shell) (c : ℕ) → s.cmd_pos ≤ s.cmd_len → after (inserted s c) ≡ after s
after-inserted s c h =
    ap (window (inserted s c).cmd_buffer (s.cmd_pos + 1)) same
    ∙ window_agree (inserted s c).cmd_buffer s.cmd_buffer (s.cmd_pos + 1) s.cmd_pos
        (s.cmd_len - s.cmd_pos)
        (λ k lt. ground (
          arith,
          shift_right_at s.cmd_buffer s.cmd_pos (s.cmd_len - s.cmd_pos) (s.cmd_pos + 1 + k),
        ))
  where
    same : s.cmd_len + 1 - (s.cmd_pos + 1) ≡ s.cmd_len - s.cmd_pos
    same = omega arith

-- In a valid line, typing a character puts it just before the cursor and keeps the text behind the
-- cursor; a line of 255 characters takes no more. The line stays valid.
pub before-insert_char :
    {s : Shell} (c : ℕ)
    → IsLine s
    → let s' = insert_char s c in
      (before s' ≡ (if leb (max_cmd_len - 1) s.cmd_len then before s else before s ++ (c ∷ [])))
      × (after s' ≡ after s)
      × IsLine s'
unfolding insert_char
before-insert_char {s} c v = elim (Bool-cases (leb (max_cmd_len - 1) s.cmd_len)) [
  | inl full ↦ rw full (refl, refl, v)
  | inr room ↦ rw room (
    before-inserted s c,
    after-inserted s c v.pos_in,
    record { pos_in = omega (arith, v.pos_in); len_in = ground (arith, v.len_in) },
  )
]

-- In a valid line with text before the cursor, Backspace removes the last character of that text and
-- keeps the text behind the cursor; at the start of the line it changes nothing. The line stays
-- valid.
pub before-delete_char_before :
    {s : Shell}
    → IsLine s
    → let s' = delete_char_before s in
      (before s
        ≡ (if s.cmd_pos == 0 then before s' else before s' ++ (s.cmd_buffer (s.cmd_pos - 1) ∷ [])))
      × (after s' ≡ after s)
      × IsLine s'
unfolding delete_char_before
before-delete_char_before {s} v = elim (Bool-cases (s.cmd_pos == 0)) [
  | inl start ↦ rw start (refl, refl, v)
  | inr inside ↦
      let pos : 0 < s.cmd_pos = ground arith in
      rw inside (
        front pos,
        back pos,
        record { pos_in = omega (arith, v.pos_in); len_in = omega (arith, v.len_in) },
      )
]
  where
    f : Array
    f = shift_left s.cmd_buffer (s.cmd_pos - 1) (s.cmd_len - 1 - (s.cmd_pos - 1))

    front :
        0 < s.cmd_pos → before s ≡ window f 0 (s.cmd_pos - 1) ++ (s.cmd_buffer (s.cmd_pos - 1) ∷ [])
    front pos =
        ap (window s.cmd_buffer 0) {y = suc (s.cmd_pos - 1)} (omega arith)
        ∙ window-snoc s.cmd_buffer 0 (s.cmd_pos - 1)
        ∙ ap₂ ◌++◌
            (window_agree s.cmd_buffer f 0 0 (s.cmd_pos - 1) (λ k lt. ground (
              arith,
              shift_left_at s.cmd_buffer (s.cmd_pos - 1) (s.cmd_len - 1 - (s.cmd_pos - 1)) (0 + k),
            )))
            (ground arith)

    back : 0 < s.cmd_pos → window f (s.cmd_pos - 1) (s.cmd_len - 1 - (s.cmd_pos - 1)) ≡ after s
    back pos =
        ap (window f (s.cmd_pos - 1)) {y = s.cmd_len - s.cmd_pos} (omega arith)
        ∙ window_agree f s.cmd_buffer (s.cmd_pos - 1) s.cmd_pos (s.cmd_len - s.cmd_pos) (λ k lt.
          ground (
            arith,
            shift_left_at s.cmd_buffer (s.cmd_pos - 1) (s.cmd_len - 1 - (s.cmd_pos - 1))
                (s.cmd_pos - 1 + k),
          ))

-- In a valid line, the Delete key removes the first character behind the cursor and keeps the text
-- before it; at the end of the line it changes nothing. The line stays valid.
pub after-delete_char_at :
    {s : Shell}
    → IsLine s
    → let s' = delete_char_at s in
      (before s' ≡ before s)
      × (after s
          ≡ (if leb s.cmd_len s.cmd_pos then after s' else s.cmd_buffer s.cmd_pos ∷ after s'))
      × IsLine s'
unfolding delete_char_at
after-delete_char_at {s} v = elim (Bool-cases (leb s.cmd_len s.cmd_pos)) [
  | inl end ↦ rw end (refl, refl, v)
  | inr inside ↦
      let lt : s.cmd_pos < s.cmd_len = ground arith in
      rw inside (front, back lt, record { pos_in = omega arith; len_in = omega (arith, v.len_in) })
]
  where
    f : Array
    f = shift_left s.cmd_buffer s.cmd_pos (s.cmd_len - 1 - s.cmd_pos)

    front : window f 0 s.cmd_pos ≡ before s
    front = window_agree f s.cmd_buffer 0 0 s.cmd_pos (λ k lt.
        ground (arith, shift_left_at s.cmd_buffer s.cmd_pos (s.cmd_len - 1 - s.cmd_pos) (0 + k)))

    back :
        s.cmd_pos < s.cmd_len
        → after s ≡ s.cmd_buffer s.cmd_pos ∷ window f s.cmd_pos (s.cmd_len - 1 - s.cmd_pos)
    back lt =
        ap (window s.cmd_buffer s.cmd_pos) {y = suc (s.cmd_len - 1 - s.cmd_pos)} (omega arith)
        ∙ ap (λ t. s.cmd_buffer s.cmd_pos ∷ t)
            (window_agree s.cmd_buffer f (suc s.cmd_pos) s.cmd_pos (s.cmd_len - 1 - s.cmd_pos)
              (λ k lt. ground (
                arith,
                shift_left_at s.cmd_buffer s.cmd_pos (s.cmd_len - 1 - s.cmd_pos) (s.cmd_pos + k),
              )))
