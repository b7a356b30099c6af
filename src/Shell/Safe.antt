-- ===== src/Shell/Safe.antt =====
-- No byte fed to the shell of arch/x86/kernel/shell.c takes it out of its buffers.
use cobra_os.Base.{
  ℕ, ◌+◌, ◌-◌, ◌%◌, ◌<◌, ◌≤◌, ◌≡◌, refl, Array, update, ltb, leb, ◌==◌, ◌&&◌, ◌||◌, arith,
  Bool-cases, inl, inr, Option, none, some,
}
use cobra_os.Shell.Line.{
  Shell, EscState, esc_none, esc_start, esc_bracket, history_size, insert_char, delete_char_before,
  move_left, move_right, move_home, move_end,
}
use cobra_os.Shell.Feed.{
  strcpy, add_history, recall, history_up, history_down_from, history_down, handle_escape,
  feed_start, feed_bracket, submit, feed_plain, feed_in, feed_char, same_string, store_escape,
  reset_escape,
}
use cobra_os.Shell.Strings.{Terminated, strlen-lt, strcpy-Terminated}
use cobra_os.Shell.Zipper.{
  IsLine, before-insert_char, before-delete_char_before, after-delete_char_at,
}

-- where the escape parser stands in its buffer of 8 bytes
abbrev pub InEscape : EscState → ℕ → Type 0
InEscape esc_none p = Unit
InEscape esc_start p = p ≡ 1
InEscape esc_bracket p = (2 ≤ p) × (p < 7)

-- The line fits its buffer, every line of the history ends within its row, and the next byte of an
-- escape sequence fits `esc_buf`.
pub record IsSafe (s : Shell) : Type 0 where
  pub line : IsLine s
  pub lines : (i : ℕ) → Terminated (s.history i)
  pub escape : InEscape s.esc_state s.esc_pos

recall-IsLine : (s : Shell) (i : ℕ) → ((i : ℕ) → Terminated (s.history i)) → IsLine (recall s i)
unfolding recall
recall-IsLine s i h =
    let lt =
      strlen-lt (strcpy s.cmd_buffer (s.history (i % history_size)))
        (strcpy-Terminated s.cmd_buffer (s.history (i % history_size)) (h (i % history_size))) in
    record { pos_in = omega arith; len_in = lt }

-- The line fits its buffer, and every line of the history ends within its row.
record HasLines (s : Shell) : Type 0 where
  line : IsLine s
  lines : (i : ℕ) → Terminated (s.history i)

history_up-IsLine : {s : Shell} → HasLines s → IsLine (history_up s)
unfolding history_up
history_up-IsLine {s} v = elim (Bool-cases (s.history_count == 0)) [
  | inl e ↦ rw e v.line
  | inr e ↦ rw e (recall-IsLine s _ v.lines)
]

history_down_from-IsLine : {s : Shell} (o : Option ℕ) → HasLines s → IsLine (history_down_from o s)
unfolding history_down_from
history_down_from-IsLine none v = v.line
history_down_from-IsLine {s} (some i) v = elim (Bool-cases (ltb (i + 1) s.history_count)) [
  | inl e ↦ rw e (recall-IsLine s (i + 1) v.lines)
  | inr e ↦
      let lt = strlen-lt (update s.cmd_buffer 0 0) (0, omega arith, refl) in
      rw e (record { pos_in = omega arith; len_in = lt })
]

history_down-IsLine : {s : Shell} → HasLines s → IsLine (history_down s)
unfolding history_down
history_down-IsLine {s} v = history_down_from-IsLine s.history_index v

move-IsLine :
    {s : Shell}
    → IsLine s
    → IsLine (move_left s) × IsLine (move_right s) × IsLine (move_home s) × IsLine (move_end s)
unfolding move_left move_right move_home move_end
move-IsLine v = (ground arith, ground arith, ground arith, ground arith)

handle_escape-IsLine : {s : Shell} (c : ℕ) → HasLines s → IsLine (handle_escape s c)
unfolding handle_escape
handle_escape-IsLine {s} c v = ground (
  arith,
  history_up-IsLine v,
  history_down-IsLine v,
  move-IsLine v.line,
  after-delete_char_at v.line,
  v.line,
)

history-handle_escape : (s : Shell) (c : ℕ) → (handle_escape s c).history ≡ s.history
unfolding handle_escape
history-handle_escape s c = ground arith

add_history-lines :
    (s : Shell) (cmd : Array)
    → Terminated cmd
    → ((i : ℕ) → Terminated (s.history i))
    → (i : ℕ) → Terminated ((add_history s cmd).history i)
unfolding add_history
add_history-lines s cmd t h i =
    elim (Bool-cases (
      ltb 0 s.history_count
      && same_string (s.history ((s.history_count - 1) % history_size)) cmd)) [
        | inl e ↦ rw e (h i)
        | inr e ↦ rw e (elim (Bool-cases (i == s.history_count % history_size)) [
          | inl f ↦ rw f (strcpy-Terminated (s.history (s.history_count % history_size)) cmd t)
          | inr f ↦ rw f (h i)
        ])
      ]

add_history-escape :
    (s : Shell) (cmd : Array)
    → ((add_history s cmd).esc_state ≡ s.esc_state) × ((add_history s cmd).esc_pos ≡ s.esc_pos)
unfolding add_history
add_history-escape s cmd =
    elim (Bool-cases (
      ltb 0 s.history_count
      && same_string (s.history ((s.history_count - 1) % history_size)) cmd)) [
        | inl e ↦ rw e (refl, refl)
        | inr e ↦ rw e (refl, refl)
      ]

submit-IsSafe : {s : Shell} → IsSafe s → IsSafe (submit s)
unfolding submit
submit-IsSafe {s} v = elim (Bool-cases (ltb 0 s.cmd_len)) [
  | inl e ↦
      let line : Array = update s.cmd_buffer s.cmd_len 0 in
      let ended : Terminated line = (s.cmd_len, v.line.len_in, ground arith) in
      let kept = add_history-escape (record s { cmd_buffer = line }) line in
      rw e (record {
        line = record { pos_in = omega arith; len_in = omega arith };
        lines = add_history-lines (record s { cmd_buffer = line }) line ended v.lines;
        escape = rw (kept.0, kept.1) v.escape;
      })
  | inr e ↦ rw e (record {
    line = record { pos_in = omega arith; len_in = omega arith };
    lines = v.lines;
    escape = v.escape;
  })
]

-- What the line operations leave alone.
record SameRest (s t : Shell) : Type 0 where
  history : t.history ≡ s.history
  state : t.esc_state ≡ s.esc_state
  pos : t.esc_pos ≡ s.esc_pos

insert_char-SameRest : (s : Shell) (c : ℕ) → SameRest s (insert_char s c)
unfolding insert_char
insert_char-SameRest s c = ground arith

delete_char_before-SameRest : (s : Shell) → SameRest s (delete_char_before s)
unfolding delete_char_before
delete_char_before-SameRest s = ground arith

SameRest-IsSafe : {s t : Shell} → SameRest s t → IsLine t → IsSafe s → IsSafe t
SameRest-IsSafe r l v = record {
  line = l;
  lines = rw r.history v.lines;
  escape = rw (r.state, r.pos) v.escape;
}

feed_plain-IsSafe : {s : Shell} (c : ℕ) → IsSafe s → IsSafe (feed_plain s c)
unfolding feed_plain
feed_plain-IsSafe {s} c v = elim (Bool-cases (c == 0x1B)) [
  | inl e ↦ rw e (record {
    line = record { pos_in = v.line.pos_in; len_in = v.line.len_in };
    lines = v.lines;
    escape = refl;
  })
  | inr e ↦ rw e (elim (Bool-cases (c == b'\n')) [
    | inl f ↦ rw f (submit-IsSafe v)
    | inr f ↦ rw f (elim (Bool-cases (c == 0x08 || c == 0x7F)) [
      | inl g ↦
          rw g
            (SameRest-IsSafe (delete_char_before-SameRest s) (before-delete_char_before v.line).2 v)
      | inr g ↦ rw g (elim (Bool-cases (leb 32 c && leb c 126)) [
        | inl h ↦
            rw h (SameRest-IsSafe (insert_char-SameRest s c) (before-insert_char c v.line).2 v)
        | inr h ↦ rw h v
      ])
    ])
  ])
]

-- An escape sequence is over.
reset_escape-IsSafe :
    (s : Shell) → IsLine s → ((i : ℕ) → Terminated (s.history i)) → IsSafe (reset_escape s)
reset_escape-IsSafe s l h = record {
  line = record { pos_in = l.pos_in; len_in = l.len_in };
  lines = h;
  escape = tt;
}

escaped-IsSafe : {s : Shell} (c : ℕ) → HasLines s → IsSafe (reset_escape (handle_escape s c))
escaped-IsSafe {s} c v =
    reset_escape-IsSafe (handle_escape s c) (handle_escape-IsLine c v)
      (rw (history-handle_escape s c) v.lines)

feed_start-IsSafe :
    {s : Shell} (c : ℕ)
    → s.esc_pos ≡ 2
    → IsLine s
    → ((i : ℕ) → Terminated (s.history i))
    → IsSafe (feed_start s c)
unfolding feed_start
feed_start-IsSafe {s} c p l h = elim (Bool-cases (c == b'[')) [
  | inl e ↦ rw e (record {
    line = record { pos_in = l.pos_in; len_in = l.len_in };
    lines = h;
    escape = (omega arith, omega arith);
  })
  | inr e ↦ rw e (reset_escape-IsSafe s l h)
]

feed_bracket-IsSafe :
    {s : Shell} (c : ℕ)
    → s.esc_state ≡ esc_bracket
    → 2 ≤ s.esc_pos
    → HasLines s
    → IsSafe (feed_bracket s c)
unfolding feed_bracket
feed_bracket-IsSafe {s} c state p v =
    elim (Bool-cases ((leb b'A' c && leb c b'D') || c == b'H' || c == b'F')) [
      | inl e ↦ rw e (escaped-IsSafe c v)
      | inr e ↦ rw e (elim (Bool-cases (c == b'~')) [
        | inl f ↦ rw f (escaped-IsSafe b'~' v)
        | inr f ↦ rw f (elim (Bool-cases (ltb s.esc_pos 7)) [
          | inl g ↦
              rw g (record { line = v.line; lines = v.lines; escape = rw state (p, ground arith) })
          | inr g ↦ rw g (reset_escape-IsSafe s v.line v.lines)
        ])
      ])
    ]

feed_in-IsSafe :
    (e : EscState) {s : Shell} (c : ℕ) → s.esc_state ≡ e → IsSafe s → IsSafe (feed_in e s c)
unfolding feed_in
feed_in-IsSafe esc_none c state v = feed_plain-IsSafe c v
feed_in-IsSafe esc_start {s} c state v =
    let at : s.esc_pos ≡ 1 = rw state at v.escape in
    feed_start-IsSafe {s = store_escape s c} c (omega arith)
      (record { pos_in = v.line.pos_in; len_in = v.line.len_in }) v.lines
feed_in-IsSafe esc_bracket {s} c state v =
    let at : (2 ≤ s.esc_pos) × (s.esc_pos < 7) = rw state at v.escape in
    feed_bracket-IsSafe {s = store_escape s c} c state (omega arith)
      (record { line = record { pos_in = v.line.pos_in; len_in = v.line.len_in }; lines = v.lines })

-- Any byte fed to a safe shell, in or outside an escape sequence, leaves it safe: the cursor stays in
-- the line, the line with its NUL fits the 256 bytes of its buffer, each line of the history ends
-- within its row, and the next byte of an escape sequence fits the 8 bytes of its buffer.
pub feed_char-IsSafe : {s : Shell} (c : ℕ) → IsSafe s → IsSafe (feed_char s c)
unfolding feed_char
feed_char-IsSafe {s} c v = feed_in-IsSafe s.esc_state c refl v
