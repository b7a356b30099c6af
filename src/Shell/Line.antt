-- ===== src/Shell/Line.antt =====
-- The command buffer of arch/x86/kernel/shell.c: insertion, deletion and cursor moves. The loops that
-- shift characters recur on the number of rounds left.
use cobra_os.Base.{
  ℕ, zero, suc, ◌+◌, ◌-◌, Array, update, ltb, leb, ◌==◌, if◌then◌else◌, List, Option,
}

-- MAX_CMD_LEN and HISTORY_SIZE
abbrev pub max_cmd_len : ℕ
max_cmd_len = 256

abbrev pub history_size : ℕ
history_size = 20

pub data EscState : Type 0 where
  esc_none esc_start esc_bracket : EscState

-- the file's static variables; `history_index` is `none` for -1, and `submitted` are the lines that
-- were handed to shell_process_line, the last one first
pub record Shell : Type 0 where
  pub cmd_buffer : Array
  pub cmd_pos : ℕ
  pub cmd_len : ℕ
  pub history : ℕ → Array
  pub history_count : ℕ
  pub history_index : Option ℕ
  pub esc_state : EscState
  pub esc_buf : Array
  pub esc_pos : ℕ
  pub submitted : List (List ℕ)

-- `for (i = pos + n; i > pos; i--) f[i] = f[i - 1]`
unfoldable pub shift_right : Array → ℕ → ℕ → Array
shift_right f pos zero = f
shift_right f pos (suc n) = shift_right (update f (pos + suc n) (f (pos + n))) pos n

-- `for (i = k; i < k + n; i++) f[i] = f[i + 1]`
unfoldable pub shift_left : Array → ℕ → ℕ → Array
shift_left f k zero = f
shift_left f k (suc n) = shift_left (update f k (f (suc k))) (suc k) n

unfoldable pub insert_char : Shell → ℕ → Shell
insert_char s c = if leb (max_cmd_len - 1) s.cmd_len then s else record s {
  cmd_buffer = update (shift_right s.cmd_buffer s.cmd_pos (s.cmd_len - s.cmd_pos)) s.cmd_pos c;
  cmd_len = s.cmd_len + 1;
  cmd_pos = s.cmd_pos + 1;
}

unfoldable pub delete_char_before : Shell → Shell
delete_char_before s = if s.cmd_pos == 0 then s else record s {
  cmd_buffer = shift_left s.cmd_buffer (s.cmd_pos - 1) (s.cmd_len - 1 - (s.cmd_pos - 1));
  cmd_len = s.cmd_len - 1;
  cmd_pos = s.cmd_pos - 1;
}

unfoldable pub delete_char_at : Shell → Shell
delete_char_at s = if leb s.cmd_len s.cmd_pos then s else record s {
  cmd_buffer = shift_left s.cmd_buffer s.cmd_pos (s.cmd_len - 1 - s.cmd_pos);
  cmd_len = s.cmd_len - 1;
}

unfoldable pub move_left : Shell → Shell
move_left s = if ltb 0 s.cmd_pos then record s { cmd_pos = s.cmd_pos - 1 } else s

unfoldable pub move_right : Shell → Shell
move_right s = if ltb s.cmd_pos s.cmd_len then record s { cmd_pos = s.cmd_pos + 1 } else s

unfoldable pub move_home : Shell → Shell
move_home s = record s { cmd_pos = 0 }

unfoldable pub move_end : Shell → Shell
move_end s = record s { cmd_pos = s.cmd_len }
