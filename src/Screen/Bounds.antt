-- ===== src/Screen/Bounds.antt =====
-- Printing by arch/x86/drivers/screen/screen.c stays on the screen.
use cobra_os.Base.{
  ℕ, zero, suc, ◌+◌, ◌-◌, ◌*◌, ◌<◌, ◌≤◌, ◌≡◌, refl, ◌∙◌, Array, update, ltb, leb, ◌==◌, ◌&&◌,
  if◌then◌else◌, List, [], ◌∷◌, false, arith, Bool-cases, inl, inr,
}
use cobra_os.Memory.Copy.{memmove}
use cobra_os.Memory.{memmove_at}
use cobra_os.Screen.Print.{
  screen_width, screen_height, Screen, blank, set_cursor_offset, blank_cells, scroll, text_end,
  erase_cell, back, put, typed, settle_row, settle_col, cprint, vprint,
}

-- the cursor is on the screen
pub record OnScreen (s : Screen) : Type 0 where
  pub row_in : s.cursor_row < screen_height
  pub col_in : s.cursor_col < screen_width

-- the number of cells
abbrev pub cell_count : ℕ
cell_count = screen_width * screen_height

pub blank_cells_at :
    (f : Array) (i v n j : ℕ)
    → blank_cells f i v n j ≡ (if leb i j && ltb j (i + n) then v else f j)
unfolding blank_cells
blank_cells_at f i v zero j = ground arith
blank_cells_at f i v (suc n) j = ground (arith, blank_cells_at (update f i v) (suc i) v n j)

text_end-le : (f : Array) (row v col : ℕ) → text_end f row v col ≤ col
unfolding text_end
text_end-le f row v zero = omega arith
text_end-le f row v (suc col) = ground (arith, text_end-le f row v col)

-- what a step leaves: a cursor within its row, and cells behind the screen untouched
record Kept (t s : Screen) : Type 0 where
  kept_row : t.cursor_row ≤ screen_height
  kept_col : t.cursor_col < screen_width
  kept_cells : (j : ℕ) → cell_count ≤ j → t.video_memory j ≡ s.video_memory j

back-Kept : (s : Screen) → OnScreen s → Kept (erase_cell (back s)) s
unfolding back
back-Kept s v =
    let e = text_end-le s.video_memory (s.cursor_row - 1) (blank s) (screen_width - 1) in
    elim (Bool-cases (ltb 0 s.cursor_col)) [
      | inl inside ↦ rw inside (record {
        kept_row = omega (arith, v.row_in);
        kept_col = omega (arith, v.col_in);
        kept_cells = λ j le. ground (arith, v.row_in, v.col_in);
      })
      | inr start ↦ elim (Bool-cases (ltb 0 s.cursor_row)) [
        | inl below ↦
            rw (start, below)
              (record {
                kept_row = omega (arith, v.row_in);
                kept_col = omega (arith, e);
                kept_cells = λ j le. ground (arith, v.row_in, e);
              })
        | inr first ↦
            rw (start, first)
              (record {
                kept_row = omega (arith, v.row_in);
                kept_col = v.col_in;
                kept_cells = λ j le. ground (arith, v.row_in, v.col_in);
              })
      ]
    ]

typed-Kept : (s : Screen) (c : ℕ) → OnScreen s → Kept (typed s c) s
unfolding typed put
typed-Kept s c v = elim (Bool-cases (c == 0x0A)) [
  | inl line ↦ rw line (record {
    kept_row = omega (arith, v.row_in);
    kept_col = omega arith;
    kept_cells = λ j le. refl;
  })
  | inr other ↦ elim (Bool-cases (c == 0x08)) [
    | inl bs ↦ rw (other, bs) (back-Kept s v)
    | inr char ↦
        rw (other, char)
          (record {
            kept_row = ground (arith, v.row_in);
            kept_col = ground (arith, v.col_in);
            kept_cells = λ j le. ground (arith, v.row_in, v.col_in);
          })
  ]
]

scroll_cells : (s : Screen) (j : ℕ) → cell_count ≤ j → (scroll s).video_memory j ≡ s.video_memory j
unfolding scroll
scroll_cells s j le = ground (
  arith,
  blank_cells_at (memmove s.video_memory 0 80 1920) 1920 (blank s) 80 j,
  memmove_at s.video_memory 0 80 1920 j,
)

settle-OnScreen :
    (t s : Screen)
    → Kept t s
    → OnScreen (settle_col (settle_row t))
      × ((j : ℕ) → cell_count ≤ j → (settle_col (settle_row t)).video_memory j ≡ s.video_memory j)
unfolding settle_row settle_col scroll
settle-OnScreen t s k = elim (Bool-cases (leb screen_height t.cursor_row)) [
  | inl over ↦ rw over (
    record { row_in = omega arith; col_in = omega arith },
    λ j le. scroll_cells t j le ∙ k.kept_cells j le,
  )
  | inr fits ↦
      let narrow : leb screen_width t.cursor_col ≡ false = ground (arith, k.kept_col) in
      rw (fits, narrow) (record { row_in = ground arith; col_in = k.kept_col }, k.kept_cells)
]

-- A character printed on the screen leaves the cursor on the screen, and nothing is written outside the
-- screen's cells.
cprint-OnScreen :
    (s : Screen) (c : ℕ)
    → OnScreen s
    → OnScreen (cprint s c)
      × ((j : ℕ) → cell_count ≤ j → (cprint s c).video_memory j ≡ s.video_memory j)
unfolding cprint set_cursor_offset
cprint-OnScreen s c v =
    let (w, kept) = settle-OnScreen (typed s c) s (typed-Kept s c v) in
    (record { row_in = omega (arith, w.row_in, w.col_in); col_in = omega arith }, kept)

-- From a cursor on the screen, printing any characters, line breaks and backspaces among them, leaves the
-- cursor on the screen and writes nothing outside the screen's 80 times 25 cells.
pub vprint-OnScreen :
    (s : Screen) (cs : List ℕ) (j : ℕ)
    → OnScreen s
    → cell_count ≤ j
    → OnScreen (vprint s cs) × ((vprint s cs).video_memory j ≡ s.video_memory j)
unfolding vprint
vprint-OnScreen s [] j v le = (v, refl)
vprint-OnScreen s (c ∷ cs) j v le =
    let (w, kept) = cprint-OnScreen s c v in
    let (u, rest) = vprint-OnScreen (cprint s c) cs j w le in (u, rest ∙ kept j le)
