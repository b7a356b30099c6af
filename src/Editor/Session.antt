-- ===== src/Editor/Session.antt =====
-- A turn of the loop of editor_run and the editor's two dialogs, arch/x86/snake/snake.c. Drawing is left
-- out.
use cobra_os.Base.{
  ℕ, ◌+◌, ◌-◌, update, ltb, leb, ◌==◌, ◌&&◌, ◌||◌, if◌then◌else◌, Bool, true, false, Array, List,
  [], ◌∷◌, Option, none, some,
}
use cobra_os.Editor.State.{Editor, editor_undo, editor_redo}
use cobra_os.Editor.Edit.{
  SpecialKey, key_up, key_down, key_left, key_right, key_home, key_end, key_pageup, key_pagedown,
  key_delete, key_backspace, key_enter, key_tab, key_save, key_quit, key_esc, editor_move_cursor,
  editor_insert_char, editor_insert_newline, editor_delete_backward, editor_delete_forward,
}
use cobra_os.Editor.Keys.{KeyEvent, key_char, key_special}

-- what editor_run does next: read another event, open the dialog for a file, save, ask whether to save
-- before it ends, or end
pub data Action : Type 0 where
  go_on open_dialog save_file ask_save leave : Action

pub record Turn : Type 0 where
  pub action : Action
  pub editor : Editor

abbrev pub stay : Editor → Turn
stay ed = record { action = go_on; editor = ed }

unfoldable pub turn_char : ℕ → Editor → Turn
turn_char c ed =
    if c == 26
    then stay (editor_undo ed)
    else if c == 25
    then stay (editor_redo ed)
    else if c == 15
    then record { action = open_dialog; editor = ed }
    else if c == 17
    then (if ed.modified
        then record { action = ask_save; editor = ed }
        else record { action = leave; editor = ed })
    else if c == 19
    then record { action = save_file; editor = ed }
    else if c == 0x0D || c == 0x0A
    then stay (editor_insert_newline ed)
    else if c == 0x09
    then stay (editor_insert_char ed 0x09)
    else if leb 32 c && ltb c 127
    then stay (editor_insert_char ed c)
    else stay ed

unfoldable pub turn_special : SpecialKey → Editor → Turn
turn_special key_up ed = stay (editor_move_cursor ed key_up)
turn_special key_down ed = stay (editor_move_cursor ed key_down)
turn_special key_left ed = stay (editor_move_cursor ed key_left)
turn_special key_right ed = stay (editor_move_cursor ed key_right)
turn_special key_home ed = stay (editor_move_cursor ed key_home)
turn_special key_end ed = stay (editor_move_cursor ed key_end)
turn_special key_pageup ed = stay (editor_move_cursor ed key_pageup)
turn_special key_pagedown ed = stay (editor_move_cursor ed key_pagedown)
turn_special key_backspace ed = stay (editor_delete_backward ed)
turn_special key_delete ed = stay (editor_delete_forward ed)
turn_special key_enter ed = stay (editor_insert_newline ed)
turn_special key_save ed = record { action = save_file; editor = ed }
turn_special key_quit ed = record { action = leave; editor = ed }
turn_special key_esc ed = stay ed
turn_special key_tab ed = stay ed

unfoldable pub turn : KeyEvent → Editor → Turn
turn (key_char c) ed = turn_char c ed
turn (key_special k) ed = turn_special k ed

-- editor_confirm_save on the events to come: the answer, `none` while none of them is one
unfoldable pub editor_confirm_save : List KeyEvent → Option Bool
editor_confirm_save [] = none
editor_confirm_save (key_special k ∷ es) = editor_confirm_save es
editor_confirm_save (key_char c ∷ es) =
    let rest = editor_confirm_save es in
    if c == b'y' || c == b'Y'
    then some true
    else if c == b'n' || c == b'N'
    then some false
    else rest

-- what editor_prompt_filename returns, and the text in its buffer
pub record Prompt : Type 0 where
  pub accepted : Bool
  pub buf : Array
  pub pos : ℕ

-- a printable character, if the buffer has room for it
abbrev pub prompt_takes : ℕ → ℕ → ℕ → Bool
prompt_takes size pos c = leb 32 c && ltb c 127 && ltb pos (size - 1)

-- the loop of editor_prompt_filename on the events to come, with `pos` characters in the buffer
unfoldable pub prompt_from : List KeyEvent → ℕ → Array → ℕ → Option Prompt
prompt_from [] size buf pos = none
prompt_from (key_special k ∷ es) size buf pos = elim k [
  | key_enter ↦ some (record { accepted = ltb 0 pos; buf = update buf pos 0; pos = pos })
  | key_esc ↦ some (record { accepted = false; buf = buf; pos = pos })
  | key_backspace ↦
      prompt_from es size (if ltb 0 pos then update buf (pos - 1) 0 else buf)
        (if ltb 0 pos then pos - 1 else pos)
  | other ↦ prompt_from es size buf pos
]
prompt_from (key_char c ∷ es) size buf pos =
    prompt_from es size
      (if prompt_takes size pos c then update (update buf pos c) (pos + 1) 0 else buf)
      (if prompt_takes size pos c then pos + 1 else pos)

unfoldable pub editor_prompt_filename : List KeyEvent → ℕ → Array → Option Prompt
editor_prompt_filename es size buf = prompt_from es size (update buf 0 0) 0
