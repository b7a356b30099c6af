-- ===== src/Screen/Examples.antt =====
-- The screen's theorems at a concrete screen (arch/x86/drivers/screen/screen.c).
use cobra_os.Base.{ℕ, ◌+◌, ◌<◌, ◌≤◌, ◌≡◌, ◌⊎◌, window, ◌∷◌, map, arith}
use cobra_os.Base.Text.{codes}
use cobra_os.Screen.Print.{Screen, vga_entry, cell, vprint}
use cobra_os.Screen.Bounds.{OnScreen, vprint-OnScreen}
use cobra_os.Screen.Text.{vprint-text}

-- the cursor at the end of the first row
abbrev row_end : Screen
row_end = record {
  video_memory = λ i. 0;
  colors = 15;
  cursor_row = 0;
  cursor_col = 79;
  hardware = 79;
}

row_end-OnScreen : OnScreen row_end
row_end-OnScreen = record { row_in = omega arith; col_in = omega arith }

vprint-OnScreen_example :
    OnScreen (vprint row_end (10 ∷ 8 ∷ codes "hi"))
    × ((vprint row_end (10 ∷ 8 ∷ codes "hi")).video_memory 2000 ≡ 0)
vprint-OnScreen_example =
    vprint-OnScreen row_end (10 ∷ 8 ∷ codes "hi") 2000 row_end-OnScreen (omega arith)

vprint-text_example :
    let t = vprint row_end (codes "hi") in
    (cell t ≡ 79 + 2)
    × (window t.video_memory 79 2 ≡ map (λ c. vga_entry c 15) (codes "hi"))
    × ((j : ℕ) → (j < 79) ⊎ (79 + 2 ≤ j) → t.video_memory j ≡ 0)
vprint-text_example =
    vprint-text row_end (codes "hi")
      ((λ e. omega arith, λ e. omega arith), ((λ e. omega arith, λ e. omega arith), tt))
      row_end-OnScreen (omega arith)
