-- ===== src/Shell/Feed.antt =====
-- shell_feed_char of arch/x86/kernel/shell.c: escape sequences, the history and the line editor. The
-- loops of strlen, strcpy and strcmp take at most the 256 steps of a buffer.
use cobra_os.Base.{
  ℕ, zero, suc, ◌+◌, ◌-◌, ◌%◌, Bool, true, false, ◌&&◌, ◌||◌, Array, update, cells, ltb, leb, ◌==◌,
  if◌then◌else◌, ◌∷◌, Option, none, some,
}
use cobra_os.Shell.Line.{
  Shell, EscState, esc_none, esc_start, esc_bracket, max_cmd_len, history_size, insert_char,
  delete_char_before, delete_char_at, move_left, move_right, move_home, move_end,
}

-- `strlen(str + i)`, counted from `i` on
unfoldable pub strlen_from : ℕ → Array → ℕ → ℕ
strlen_from zero f i = i
strlen_from (suc n) f i = let rest = strlen_from n f (suc i) in if f i == 0 then i else rest

unfoldable pub strlen : Array → ℕ
unfolding strlen_from
strlen f = strlen_from max_cmd_len f 0

-- `strcpy(dest + i, from + i)`
unfoldable pub strcpy_from : ℕ → Array → Array → ℕ → Array
strcpy_from zero dest from i = dest
strcpy_from (suc n) dest from i =
    let rest = strcpy_from n (update dest i (from i)) from (suc i) in
    if from i == 0 then update dest i 0 else rest

unfoldable pub strcpy : Array → Array → Array
unfolding strcpy_from
strcpy dest from = strcpy_from max_cmd_len dest from 0

-- `strcmp(s1 + i, s2 + i) == 0`
unfoldable pub same_from : ℕ → Array → Array → ℕ → Bool
same_from zero s1 s2 i = true
same_from (suc n) s1 s2 i =
    let rest = same_from n s1 s2 (suc i) in
    if s1 i == s2 i then (if s1 i == 0 then true else rest) else false

unfoldable pub same_string : Array → Array → Bool
unfolding same_from
same_string s1 s2 = same_from max_cmd_len s1 s2 0

unfoldable pub add_history : Shell → Array → Shell
unfolding same_string strcpy
add_history s cmd =
    if ltb 0 s.history_count && same_string (s.history ((s.history_count - 1) % history_size)) cmd
    then s
    else (let slot = s.history_count % history_size in
        record s {
          history = λ i. if i == slot then strcpy (s.history slot) cmd else s.history i;
          history_count = s.history_count + 1;
        })

-- the line that `history_index` names, with the cursor at its end
unfoldable pub recall : Shell → ℕ → Shell
unfolding strcpy strlen
recall s index =
    let line = strcpy s.cmd_buffer (s.history (index % history_size)) in
    record s {
      history_index = some index;
      cmd_buffer = line;
      cmd_len = strlen line;
      cmd_pos = strlen line;
    }

-- ESC [ A
unfoldable pub history_up : Shell → Shell
unfolding recall
history_up s =
    if s.history_count == 0
    then s
    else recall s (elim s.history_index [
      | none ↦ s.history_count - 1
      | some i ↦ if ltb 0 i then i - 1 else i
    ])

-- ESC [ B, with `history_index` matched
unfoldable pub history_down_from : Option ℕ → Shell → Shell
unfolding recall strlen
history_down_from none s = s
history_down_from (some i) s =
    if ltb (i + 1) s.history_count
    then recall s (i + 1)
    else (let line = update s.cmd_buffer 0 0 in
        record s {
          history_index = none;
          cmd_buffer = line;
          cmd_len = strlen line;
          cmd_pos = strlen line;
        })

unfoldable pub history_down : Shell → Shell
unfolding history_down_from
history_down s = history_down_from s.history_index s

unfoldable pub handle_escape : Shell → ℕ → Shell
unfolding history_up history_down move_right move_left move_home move_end delete_char_at
handle_escape s final =
    if final == b'A'
    then history_up s
    else if final == b'B'
    then history_down s
    else if final == b'C'
    then move_right s
    else if final == b'D'
    then move_left s
    else if final == b'H'
    then move_home s
    else if final == b'F'
    then move_end s
    else if final == b'~'
    then (if leb 3 s.esc_pos && s.esc_buf 2 == b'3' then delete_char_at s else s)
    else s

abbrev pub reset_escape : Shell → Shell
reset_escape s = record s { esc_state = esc_none; esc_pos = 0 }

-- the byte is stored in `esc_buf` first
abbrev pub store_escape : Shell → ℕ → Shell
store_escape s c = record s { esc_buf = update s.esc_buf s.esc_pos c; esc_pos = s.esc_pos + 1 }

-- a byte behind ESC
unfoldable pub feed_start : Shell → ℕ → Shell
feed_start s c = if c == b'[' then record s { esc_state = esc_bracket } else reset_escape s

-- a byte behind ESC [
unfoldable pub feed_bracket : Shell → ℕ → Shell
unfolding handle_escape
feed_bracket s c =
    if (leb b'A' c && leb c b'D') || c == b'H' || c == b'F'
    then reset_escape (handle_escape s c)
    else if c == b'~'
    then reset_escape (handle_escape s b'~')
    else if ltb s.esc_pos 7
    then s
    else reset_escape s

-- the Enter key: the line goes into the history and to shell_process_line
unfoldable pub submit : Shell → Shell
unfolding add_history
submit s =
    let line = update s.cmd_buffer s.cmd_len 0 in
    let t = add_history (record s { cmd_buffer = line }) line in
    let u =
      (if ltb 0 s.cmd_len
        then record t { submitted = cells line s.cmd_len ∷ s.submitted }
        else s) in
    record u { cmd_len = 0; cmd_pos = 0; history_index = none }

-- a byte outside an escape sequence
unfoldable pub feed_plain : Shell → ℕ → Shell
unfolding submit delete_char_before insert_char
feed_plain s c =
    if c == 0x1B
    then record s { esc_state = esc_start; esc_pos = 1; esc_buf = update s.esc_buf 0 0x1B }
    else if c == b'\n'
    then submit s
    else if c == 0x08 || c == 0x7F
    then delete_char_before s
    else if leb 32 c && leb c 126
    then insert_char s c
    else s

unfoldable pub feed_in : EscState → Shell → ℕ → Shell
unfolding feed_start feed_bracket feed_plain
feed_in esc_none s c = feed_plain s c
feed_in esc_start s c = feed_start (store_escape s c) c
feed_in esc_bracket s c = feed_bracket (store_escape s c) c

unfoldable pub feed_char : Shell → ℕ → Shell
unfolding feed_in
feed_char s c = feed_in s.esc_state s c
