-- ===== src/Editor/Supply.antt =====
-- What a turn of editor_run in arch/x86/snake/snake.c keeps; and while kmalloc succeeds, every turn
-- leaves it so.
use cobra_os.Base.{
  ℕ, suc, ◌+◌, ◌-◌, ltb, leb, ◌==◌, ◌&&◌, ◌||◌, if◌then◌else◌, Bool, true, false, Array, Option,
  none, some,
}
use cobra_os.Editor.Line.{
  Heap, later, Line, Attempt, Split, empty_line, line_move, line_reserve, line_insert_char,
  line_delete_char, line_split, line_join,
}
use cobra_os.Editor.State.{
  EditorState, Editor, editor_state_restore, editor_push_undo, undo_pushed,
  editor_discard_last_undo, editor_clear_redo, editor_undo, editor_redo,
}
use cobra_os.Editor.Edit.{
  SpecialKey, key_up, key_down, key_left, key_right, key_home, key_end, key_pageup, key_pagedown,
  key_delete, key_backspace, key_enter, key_tab, key_save, key_quit, key_esc, editor_move_cursor,
  editor_scroll_to_cursor, changed, refused, editor_insert_char, newline_with,
  editor_insert_newline, editor_delete_backward, editor_delete_forward,
}
use cobra_os.Editor.Granted.{Abundant, editor_state_clone-some}
use cobra_os.Editor.Keys.{KeyEvent, key_char, key_special}
use cobra_os.Editor.Session.{Turn, turn_char, turn_special, turn}

-- a test both of whose branches have a property
pub either : {A : Type 0} (P : A → Type 0) (b : Bool) (t u : A) → P t → P u → P (if b then t else u)
either P true t u v w = v
either P false t u v w = w

-- a property that the operations of the event loop keep
pub record IsStable (P : Editor → Type 0) : Type 0 where
  pub undo_keeps : (ed : Editor) → P ed → P (editor_undo ed)
  pub redo_keeps : (ed : Editor) → P ed → P (editor_redo ed)
  pub insert_keeps : (ed : Editor) (c : ℕ) → P ed → P (editor_insert_char ed c)
  pub newline_keeps : (ed : Editor) → P ed → P (editor_insert_newline ed)
  pub backward_keeps : (ed : Editor) → P ed → P (editor_delete_backward ed)
  pub forward_keeps : (ed : Editor) → P ed → P (editor_delete_forward ed)
  pub move_keeps : (ed : Editor) (k : SpecialKey) → P ed → P (editor_move_cursor ed k)

module _ (P : Editor → Type 0) (st : IsStable P) where
  abbrev Kept : Turn → Type 0
  Kept t = P t.editor

  turn_char-keeps : (c : ℕ) (ed : Editor) → P ed → Kept (turn_char c ed)
  unfolding turn_char
  turn_char-keeps c ed v = either Kept (c == 26) _ _ (st.undo_keeps ed v) (
      either Kept (c == 25) _ _ (st.redo_keeps ed v) (
        either Kept (c == 15) _ _ v (
          either Kept (c == 17) _ _ (either Kept ed.modified _ _ v v) (
            either Kept (c == 19) _ _ v (
              either Kept (c == 0x0D || c == 0x0A) _ _ (st.newline_keeps ed v) (
                either Kept (c == 0x09) _ _ (st.insert_keeps ed 0x09 v)
                  (either Kept (leb 32 c && ltb c 127) _ _ (st.insert_keeps ed c v) v)))))))

  turn_special-keeps : (k : SpecialKey) (ed : Editor) → P ed → Kept (turn_special k ed)
  unfolding turn_special
  turn_special-keeps key_up ed v = st.move_keeps ed key_up v
  turn_special-keeps key_down ed v = st.move_keeps ed key_down v
  turn_special-keeps key_left ed v = st.move_keeps ed key_left v
  turn_special-keeps key_right ed v = st.move_keeps ed key_right v
  turn_special-keeps key_home ed v = st.move_keeps ed key_home v
  turn_special-keeps key_end ed v = st.move_keeps ed key_end v
  turn_special-keeps key_pageup ed v = st.move_keeps ed key_pageup v
  turn_special-keeps key_pagedown ed v = st.move_keeps ed key_pagedown v
  turn_special-keeps key_backspace ed v = st.backward_keeps ed v
  turn_special-keeps key_delete ed v = st.forward_keeps ed v
  turn_special-keeps key_enter ed v = st.newline_keeps ed v
  turn_special-keeps key_save ed v = v
  turn_special-keeps key_quit ed v = v
  turn_special-keeps key_esc ed v = v
  turn_special-keeps key_tab ed v = v

  pub turn-keeps : (e : KeyEvent) (ed : Editor) → P ed → Kept (turn e ed)
  unfolding turn
  turn-keeps (key_char c) ed v = turn_char-keeps c ed v
  turn-keeps (key_special k) ed v = turn_special-keeps k ed v

abbrev Supplied : Attempt → Type 0
Supplied r = Abundant r.heap

line_move-Supplied :
    (l : Line) (needed : ℕ) (b : Option Array) (h : Heap)
    → Abundant h
    → Supplied (line_move l needed b h)
unfolding line_move
line_move-Supplied l needed none h a = a
line_move-Supplied l needed (some b) h a = a

line_reserve-Supplied :
    (l : Line) (needed : ℕ) (h : Heap) → Abundant h → Supplied (line_reserve l needed h)
unfolding line_reserve
line_reserve-Supplied l needed h a =
    either Supplied (leb needed l.cap) _ _ a
      (line_move-Supplied l needed (h 0) (later h) (λ k. a (suc k)))

line_insert_char-Supplied :
    (l : Line) (pos c : ℕ) (h : Heap) → Abundant h → Supplied (line_insert_char l pos c h)
unfolding line_insert_char
line_insert_char-Supplied l pos c h a =
    let s = line_reserve-Supplied l (l.len + 2) h a in
    either Supplied (ltb l.len pos) _ _ a
      (either Supplied (line_reserve l (l.len + 2) h).ok _ _ s s)

line_delete_char-Supplied :
    (l : Line) (pos : ℕ) (h : Heap) → Abundant h → Supplied (line_delete_char l pos h)
unfolding line_delete_char
line_delete_char-Supplied l pos h a = either Supplied (leb l.len pos) _ _ a a

line_join-Supplied : (l m : Line) (h : Heap) → Abundant h → Supplied (line_join l m h)
unfolding line_join
line_join-Supplied l m h a =
    let s = line_reserve-Supplied l (l.len + m.len + 1) h a in
    either Supplied (line_reserve l (l.len + m.len + 1) h).ok _ _ s s

abbrev Tailed : Split → Type 0
Tailed s = Supplied s.tail

line_split-Supplied :
    (l : Line) (pos : ℕ) (h : Heap) → Abundant h → Supplied (line_split l pos h).tail
unfolding line_split
line_split-Supplied l pos h a =
    let s = line_reserve-Supplied empty_line (l.len - pos + 1) h a in
    let r = line_reserve empty_line (l.len - pos + 1) h in
    either Tailed (ltb l.len pos) _ _ a (either Tailed r.ok _ _ s s)

-- an editor for which kmalloc succeeds
abbrev pub Stocked : Editor → Type 0
Stocked ed = Abundant ed.heap

changed-Stocked : (ed : Editor) (p : EditorState) (h : Heap) → Abundant h → Stocked (changed ed p h)
unfolding changed editor_scroll_to_cursor editor_clear_redo
changed-Stocked ed p h a = a

refused-Stocked : (b : Bool) (ed : Editor) (h : Heap) → Abundant h → Stocked (refused b ed h)
unfolding refused editor_discard_last_undo
refused-Stocked b ed h a = either Stocked b _ _ (either Stocked (ed.undo_stack.top == 0) _ _ a a) a

-- a command that succeeds or not, with the answers that are left
answered :
    (b ok : Bool) (ed : Editor) (p : EditorState) (h : Heap)
    → Abundant h
    → Stocked (if ok then changed ed p h else refused b ed h)
answered b ok ed p h a = either Stocked ok _ _ (changed-Stocked ed p h a) (refused-Stocked b ed h a)

editor_push_undo-Stocked : (ed : Editor) → Stocked ed → Stocked (editor_push_undo ed)
unfolding editor_push_undo
editor_push_undo-Stocked ed a = (editor_state_clone-some ed.page ed.heap a).1

editor_insert_char-Stocked : (ed : Editor) (c : ℕ) → Stocked ed → Stocked (editor_insert_char ed c)
unfolding editor_insert_char
editor_insert_char-Stocked ed c a =
    answered (undo_pushed ed) _ (editor_push_undo ed) _ _
      (line_insert_char-Supplied _ _ c _ (editor_push_undo-Stocked ed a))

newline_with-Stocked :
    (b : Bool) (ed : Editor) (o : Option Array) (h : Heap)
    → Abundant h
    → Stocked (newline_with b ed o h)
unfolding newline_with
newline_with-Stocked b ed none h a = refused-Stocked b ed h a
newline_with-Stocked b ed (some d) h a =
    answered b _ ed _ _ (line_split-Supplied (ed.page.lines ed.page.cursor_y) ed.page.cursor_x h a)

editor_insert_newline-Stocked : (ed : Editor) → Stocked ed → Stocked (editor_insert_newline ed)
unfolding editor_insert_newline
editor_insert_newline-Stocked ed a =
    newline_with-Stocked (undo_pushed ed) (editor_push_undo ed) _ _
      (λ k. editor_push_undo-Stocked ed a (suc k))

editor_delete_backward-Stocked : (ed : Editor) → Stocked ed → Stocked (editor_delete_backward ed)
unfolding editor_delete_backward
editor_delete_backward-Stocked ed a =
    let e = editor_push_undo ed in
    let s = editor_push_undo-Stocked ed a in
    either Stocked (ltb 0 e.page.cursor_x) _ _
      (answered (undo_pushed ed) _ e _ _ (line_delete_char-Supplied _ _ _ s))
      (either Stocked (ltb 0 e.page.cursor_y) _ _
        (answered (undo_pushed ed) _ e _ _ (line_join-Supplied _ _ _ s))
        (refused-Stocked (undo_pushed ed) e e.heap s))

editor_delete_forward-Stocked : (ed : Editor) → Stocked ed → Stocked (editor_delete_forward ed)
unfolding editor_delete_forward
editor_delete_forward-Stocked ed a =
    let e = editor_push_undo ed in
    let s = editor_push_undo-Stocked ed a in
    either Stocked (ltb e.page.cursor_x (e.page.lines e.page.cursor_y).len) _ _
      (answered (undo_pushed ed) _ e _ _ (line_delete_char-Supplied _ _ _ s))
      (either Stocked (ltb (e.page.cursor_y + 1) e.page.num_lines) _ _
        (answered (undo_pushed ed) _ e _ _ (line_join-Supplied _ _ _ s))
        (refused-Stocked (undo_pushed ed) e e.heap s))

editor_undo-Stocked : (ed : Editor) → Stocked ed → Stocked (editor_undo ed)
unfolding editor_undo editor_state_restore
editor_undo-Stocked ed a =
    either Stocked (ed.undo_stack.top == 0) _ _ a (editor_state_clone-some ed.page ed.heap a).1

editor_redo-Stocked : (ed : Editor) → Stocked ed → Stocked (editor_redo ed)
unfolding editor_redo editor_state_restore
editor_redo-Stocked ed a =
    either Stocked (ed.redo_stack.top == 0) _ _ a (editor_state_clone-some ed.page ed.heap a).1

editor_move_cursor-Stocked :
    (ed : Editor) (k : SpecialKey) → Stocked ed → Stocked (editor_move_cursor ed k)
unfolding editor_move_cursor editor_scroll_to_cursor
editor_move_cursor-Stocked ed k a = a

pub Stocked-IsStable : IsStable Stocked
Stocked-IsStable = record {
  undo_keeps = editor_undo-Stocked;
  redo_keeps = editor_redo-Stocked;
  insert_keeps = editor_insert_char-Stocked;
  newline_keeps = editor_insert_newline-Stocked;
  backward_keeps = editor_delete_backward-Stocked;
  forward_keeps = editor_delete_forward-Stocked;
  move_keeps = editor_move_cursor-Stocked;
}
