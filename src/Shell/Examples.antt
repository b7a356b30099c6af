-- ===== src/Shell/Examples.antt =====
-- The line editor of arch/x86/kernel/shell.c on concrete input.
use cobra_os.Base.{ℕ, ◌≡◌, refl, arith, List, [], ◌∷◌, ◌++◌, none, ◌==◌, if◌then◌else◌}
use cobra_os.Base.Text.{codes}
use cobra_os.Shell.Line.{Shell, esc_none, shift_left, shift_right}
use cobra_os.Shell.Feed.{feed_char}
use cobra_os.Shell.Zipper.{IsLine}
use cobra_os.Shell.Safe.{IsSafe, feed_char-IsSafe}

-- "abd" with the cursor before 'b'
abbrev abd : Shell
abd = record {
  cmd_buffer = λ i. if i == 0 then b'a' else if i == 1 then b'b' else if i == 2 then b'd' else 0;
  cmd_pos = 1;
  cmd_len = 3;
  history = λ i j. 0;
  history_count = 0;
  history_index = none;
  esc_state = esc_none;
  esc_buf = λ i. 0;
  esc_pos = 0;
  submitted = [];
}

abbrev feed_all : Shell → List ℕ → Shell
feed_all s [] = s
feed_all s (c ∷ cs) = feed_all (feed_char s c) cs

-- right, 'c', Delete, Enter, up, Backspace, Enter
submitted_lines :
    (feed_all abd (
      0x1B ∷ codes "[Cc"
      ++ (0x1B ∷ codes "[3~" ++ (0x0A ∷ 0x1B ∷ codes "[A" ++ (0x08 ∷ 0x0A ∷ []))))).submitted
    ≡ codes "ab" ∷ codes "abc" ∷ []
unfolding feed_char shift_left shift_right
submitted_lines = refl

abd-IsLine : IsLine abd
abd-IsLine = omega arith

abd-IsSafe : IsSafe abd
abd-IsSafe = record { line = abd-IsLine; lines = λ i. (0, omega arith, refl); escape = tt }

feed_char-IsSafe_example : IsSafe (feed_char abd 0x0A)
feed_char-IsSafe_example = feed_char-IsSafe 0x0A abd-IsSafe
