-- ===== src/Screen/Text.antt =====
-- Text printed by arch/x86/drivers/screen/screen.c appears on the screen.
use cobra_os.Base.{
  ℕ, suc, ◌+◌, ◌<◌, ◌≤◌, ◌≡◌, ◌≢◌, refl, ap, ◌∙◌, window, leb, ◌==◌, ==_ne, if◌then◌else◌, ◌⊎◌,
  List, [], ◌∷◌, map, length, All, false, arith, Bool-cases, inl, inr,
}
use mathlib.Core.Path.{ap₂}
use cobra_os.Screen.Print.{
  screen_width, screen_height, Screen, vga_entry, set_cursor_offset, cell, put, typed, settle_row,
  settle_col, cprint, vprint,
}
use cobra_os.Screen.Bounds.{OnScreen, cell_count}

-- a character that is neither a line break nor a backspace
abbrev pub IsPlain : ℕ → Type 0
IsPlain c = (c ≢ 0x0A) × (c ≢ 0x08)

-- what one plain character does, with a cell left behind it
record Printed (t s : Screen) (c : ℕ) : Type 0 where
  on_screen : OnScreen t
  next_cell : cell t ≡ cell s + 1
  same_colors : t.colors ≡ s.colors
  printed :
      (j : ℕ) → t.video_memory j ≡ (if j == cell s then vga_entry c s.colors else s.video_memory j)

cprint-Printed :
    (s : Screen) (c : ℕ)
    → IsPlain c
    → OnScreen s
    → cell s + 1 < cell_count
    → Printed (cprint s c) s c
unfolding cprint typed put settle_row settle_col set_cursor_offset
cprint-Printed s c (no_break, no_back) v lt =
    let a = ==_ne c 0x0A no_break in
    let b = ==_ne c 0x08 no_back in
    elim (Bool-cases (leb screen_width (s.cursor_col + 1))) [
      | inl wraps ↦
          let up : leb screen_height (s.cursor_row + 1) ≡ false = ground (arith, v.col_in) in
          rw (a, b, wraps, up)
            (record {
              on_screen = record { row_in = ground (arith, v.col_in); col_in = omega arith };
              next_cell = ground (arith, v.col_in);
              same_colors = refl;
              printed = λ j. refl;
            })
      | inr stays ↦
          let up : leb screen_height s.cursor_row ≡ false = ground (arith, v.row_in) in
          rw (a, b, stays, up, stays)
            (record {
              on_screen = record { row_in = ground (arith, v.row_in); col_in = omega arith };
              next_cell = ground (arith, v.col_in);
              same_colors = refl;
              printed = λ j. refl;
            })
    ]

-- Plain characters that fit before the last cell are printed one after the other from the cursor on, in
-- the colors of the screen; the cursor moves behind them, and every other cell keeps what it showed.
pub vprint-text :
    (s : Screen) (cs : List ℕ)
    → All IsPlain cs
    → OnScreen s
    → cell s + length cs < cell_count
    → let t = vprint s cs in
      (cell t ≡ cell s + length cs)
      × (window t.video_memory (cell s) (length cs) ≡ map (λ c. vga_entry c s.colors) cs)
      × ((j : ℕ) → (j < cell s) ⊎ (cell s + length cs ≤ j) → t.video_memory j ≡ s.video_memory j)
unfolding vprint
vprint-text s [] v on lt = (omega arith, refl, λ j o. refl)
vprint-text s (c ∷ cs) (p, ps) on lt =
    let r = cprint-Printed s c p on (omega arith) in
    let t = cprint s c in
    let (end, row, rest) = vprint-text t cs ps r.on_screen (omega (arith, r.next_cell)) in
    (
      omega (arith, end, r.next_cell),
      ap₂ ◌∷◌ (rest (cell s) (inl (omega (arith, r.next_cell))) ∙ r.printed (cell s) ∙ ground arith)
          (ap (λ i. window (vprint t cs).video_memory i (length cs)) {x = suc (cell s)} {y = cell t}
              (omega (arith, r.next_cell))
            ∙ row
            ∙ ap (λ k. map (λ c. vga_entry c k) cs) r.same_colors),
      λ j o. outside j (rest j) (r.printed j) r.next_cell o,
    )
  where
    t : Screen
    t = cprint s c

    outside :
        (j : ℕ)
        → ((j < cell t) ⊎ (cell t + length cs ≤ j)
            → (vprint t cs).video_memory j ≡ t.video_memory j)
        → t.video_memory j ≡ (if j == cell s then vga_entry c s.colors else s.video_memory j)
        → cell t ≡ cell s + 1
        → (j < cell s) ⊎ (cell s + suc (length cs) ≤ j)
        → (vprint t cs).video_memory j ≡ s.video_memory j
    outside j rest here next (inl lt) = rest (inl (omega arith)) ∙ ground arith
    outside j rest here next (inr le) = rest (inr (omega arith)) ∙ ground arith
