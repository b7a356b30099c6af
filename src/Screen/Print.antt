-- ===== src/Screen/Print.antt =====
-- cprint, vprint, scroll and the cursor of arch/x86/drivers/screen/screen.c. The video memory is an array
-- of 16-bit cells; `hardware` is the cursor's position as the video controller was last told it.
use cobra_os.Base.{
  ℕ, zero, suc, ◌+◌, ◌-◌, ◌*◌, ◌/◌, ◌%◌, ◌^◌, Array, update, ltb, leb, ◌==◌, if◌then◌else◌, List,
  [], ◌∷◌,
}
use cobra_os.Memory.Copy.{memmove}

abbrev pub screen_width : ℕ
screen_width = 80

abbrev pub screen_height : ℕ
screen_height = 25

pub record Screen : Type 0 where
  pub video_memory : Array
  pub colors : ℕ
  pub cursor_row : ℕ
  pub cursor_col : ℕ
  pub hardware : ℕ

abbrev pub vga_color_entry : ℕ → ℕ → ℕ
vga_color_entry fg bg = (fg + bg * 16) % 2 ^ 8

-- `uc | color << 8` on a byte and a byte
abbrev pub vga_entry : ℕ → ℕ → ℕ
vga_entry uc color = uc % 2 ^ 8 + color % 2 ^ 8 * 2 ^ 8

abbrev pub blank : Screen → ℕ
blank s = vga_entry b' ' s.colors

unfoldable pub set_text_color : Screen → ℕ → ℕ → Screen
set_text_color s fg bg = record s { colors = vga_color_entry fg bg }

abbrev pub get_offset : ℕ → ℕ → ℕ
get_offset col row = 2 * (row * screen_width + col)

unfoldable pub set_cursor_offset : Screen → ℕ → Screen
set_cursor_offset s offset = record s {
  cursor_row = offset / 2 / screen_width;
  cursor_col = offset / 2 % screen_width;
  hardware = offset / 2 % 2 ^ 16;
}

-- `for (col = …; …) video_memory[i] = vga_entry(' ', colors)`, `n` cells from `i` on
unfoldable pub blank_cells : Array → ℕ → ℕ → ℕ → Array
blank_cells f i v zero = f
blank_cells f i v (suc n) = blank_cells (update f i v) (suc i) v n

unfoldable pub scroll : Screen → Screen
scroll s = record s {
  video_memory =
      blank_cells (memmove s.video_memory 0 screen_width ((screen_height - 1) * screen_width))
        ((screen_height - 1) * screen_width) (blank s) screen_width;
  cursor_row = screen_height - 1;
  cursor_col = 0;
}

unfoldable pub clear_screen_row : Screen → ℕ → Screen
clear_screen_row s row = record s {
  video_memory = blank_cells s.video_memory (row * screen_width) (blank s) screen_width;
}

unfoldable pub clear_screen : Screen → Screen
clear_screen s =
    set_cursor_offset
      (record s {
        video_memory = blank_cells s.video_memory 0 (blank s) (screen_width * screen_height);
        cursor_row = 0;
        cursor_col = 0;
      })
      (get_offset 0 0)

unfoldable pub set_cursor_position : Screen → ℕ → ℕ → Screen
set_cursor_position s x y =
    set_cursor_offset (record s { cursor_col = x; cursor_row = y }) (get_offset x y)

abbrev pub cell : Screen → ℕ
cell s = s.cursor_row * screen_width + s.cursor_col

-- the loop of '\b' that looks for the end of the text in a row
unfoldable pub text_end : Array → ℕ → ℕ → ℕ → ℕ
text_end f row v zero = zero
text_end f row v (suc col) =
    let rest = text_end f row v col in
    if f (row * screen_width + suc col) == v then rest else suc col

abbrev pub erase_cell : Screen → Screen
erase_cell s = record s { video_memory = update s.video_memory (cell s) (blank s) }

unfoldable pub back : Screen → Screen
back s =
    if ltb 0 s.cursor_col
    then record s { cursor_col = s.cursor_col - 1 }
    else if ltb 0 s.cursor_row
    then record s {
      cursor_row = s.cursor_row - 1;
      cursor_col = text_end s.video_memory (s.cursor_row - 1) (blank s) (screen_width - 1);
    }
    else s

unfoldable pub put : Screen → ℕ → Screen
put s c =
    let wraps = leb screen_width (s.cursor_col + 1) in
    record s {
      video_memory = update s.video_memory (cell s) (vga_entry c s.colors);
      cursor_col = if wraps then 0 else s.cursor_col + 1;
      cursor_row = if wraps then s.cursor_row + 1 else s.cursor_row;
    }

-- the branches of cprint on the character
unfoldable pub typed : Screen → ℕ → Screen
typed s c =
    if c == 0x0A
    then record s { cursor_row = s.cursor_row + 1; cursor_col = 0 }
    else if c == 0x08
    then erase_cell (back s)
    else put s c

-- the rest of cprint
unfoldable pub settle_row : Screen → Screen
settle_row s =
    if leb screen_height s.cursor_row
    then record (scroll s) { cursor_row = screen_height - 1 }
    else s

unfoldable pub settle_col : Screen → Screen
settle_col s =
    if leb screen_width s.cursor_col then record s { cursor_col = screen_width - 1 } else s

unfoldable pub cprint : Screen → ℕ → Screen
cprint s c =
    let t = settle_col (settle_row (typed s c)) in
    set_cursor_offset t (get_offset t.cursor_col t.cursor_row)

unfoldable pub vprint : Screen → List ℕ → Screen
vprint s [] = s
vprint s (c ∷ cs) = vprint (cprint s c) cs

-- cprint_color: print in other colors and restore them
unfoldable pub cprint_color : Screen → ℕ → ℕ → ℕ → Screen
cprint_color s c fg bg =
    set_text_color (cprint (set_text_color s fg bg) c) (s.colors % 16) (s.colors / 16)
