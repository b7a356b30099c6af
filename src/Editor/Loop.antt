-- ===== src/Editor/Loop.antt =====
-- The loop of editor_run, arch/x86/snake/snake.c, with its dialogs, its loads and its saves. The key
-- events, and what fs_read_file and fs_write_file return, are inputs; drawing is left out.
use cobra_os.Base.{
  ℕ, zero, suc, ◌==◌, ◌||◌, if◌then◌else◌, Bool, true, false, Array, window, List, [], ◌∷◌, length,
  Option, none, some,
}
use cobra_os.Editor.State.{Editor}
use cobra_os.Editor.Edit.{key_enter, key_esc}
use cobra_os.Editor.Keys.{KeyEvent, key_char, key_special}
use cobra_os.Editor.File.{editor_init, editor_parse_buffer, editor_load, editor_save}
use cobra_os.Editor.Session.{
  Action, go_on, open_dialog, save_file, ask_save, leave, turn, editor_confirm_save, Prompt,
  editor_prompt_filename,
}

-- MAX_PATH_LEN, the size of the array for the path
abbrev pub path_size : ℕ
path_size = 256

-- `running`, the editor, what the reads of files to come return, and whether the saves to come succeed
-- in fs_write_file
pub record Session : Type 0 where
  pub running : Bool
  pub editor : Editor
  pub files : ℕ → Option (Array × ℕ)
  pub written : ℕ → Bool

-- what a round of the loop leaves, and how many events it read behind its first one
pub record Round : Type 0 where
  pub session : Session
  pub read : ℕ

abbrev pub stop : Session → Session
stop s = record s { running = false }

-- the number of events that editor_prompt_filename reads
unfoldable pub prompt_events : List KeyEvent → ℕ
prompt_events [] = 0
prompt_events (key_char c ∷ es) = suc (prompt_events es)
prompt_events (key_special k ∷ es) = elim k [
  | key_enter ↦ 1
  | key_esc ↦ 1
  | other ↦ suc (prompt_events es)
]

-- the number of events that editor_confirm_save reads
unfoldable pub confirm_events : List KeyEvent → ℕ
confirm_events [] = 0
confirm_events (key_special k ∷ es) = suc (confirm_events es)
confirm_events (key_char c ∷ es) =
    let rest = confirm_events es in
    if (c == b'y' || c == b'Y') || (c == b'n' || c == b'N') then 1 else suc rest

-- what editor_load returns
unfoldable pub load_ok : Editor → Editor → Option (Array × ℕ) → Bool
load_ok ed fresh none = false
load_ok ed fresh (some (buf, n)) =
    let new_ed = editor_init (record fresh { heap = ed.heap }) in
    (editor_parse_buffer new_ed.page.lines new_ed.heap buf n).ok

-- one event more is read, behind a message, unless all went well
abbrev pub unless : Bool → ℕ → ℕ
unless ok n = if ok then n else suc n

-- Ctrl+O, with what its dialog returns, `none` if it is still open when the events end; `fresh` is the
-- new editor on the stack before it is written
unfoldable pub open_with : Option Prompt → Editor → List KeyEvent → Session → Round
open_with none fresh es s = record { session = s; read = length es }
open_with (some p) fresh es s =
    if p.accepted
    then record {
      session = record s {
        editor = editor_load s.editor fresh (window p.buf 0 p.pos) (s.files 0);
        files = λ n. s.files (suc n);
      };
      read = unless (load_ok s.editor fresh (s.files 0)) (prompt_events es);
    }
    else record { session = s; read = prompt_events es }

-- what a save leaves
abbrev pub after_save : Session → Session
after_save s = record s {
  editor = (editor_save s.editor (s.written 0)).editor;
  written = λ n. s.written (suc n);
}

abbrev pub save_ok : Session → Bool
save_ok s = (editor_save s.editor (s.written 0)).saved

-- Ctrl+S and KEY_SAVE
unfoldable pub save_now : Session → Round
save_now s = record { session = after_save s; read = unless (save_ok s) 0 }

-- the save that the answer 'y' asks for: the loop goes on if it fails
unfoldable pub save_and_stop : List KeyEvent → Session → Round
save_and_stop es s = record {
  session = if save_ok s then stop (after_save s) else after_save s;
  read = unless (save_ok s) (confirm_events es);
}

-- Ctrl+Q in an editor that was modified, with the answer to its question
unfoldable pub quit_with : Option Bool → List KeyEvent → Session → Round
quit_with none es s = record { session = s; read = length es }
quit_with (some true) es s = save_and_stop es s
quit_with (some false) es s = record { session = stop s; read = confirm_events es }

-- what is left to do behind a turn, with the events to come; `buf` is the array for the path on the stack
unfoldable pub finish : Action → Editor → Array → List KeyEvent → Session → Round
finish go_on fresh buf es s = record { session = s; read = 0 }
finish open_dialog fresh buf es s = open_with (editor_prompt_filename es path_size buf) fresh es s
finish save_file fresh buf es s = save_now s
finish ask_save fresh buf es s = quit_with (editor_confirm_save es) es s
finish leave fresh buf es s = record { session = stop s; read = 0 }

-- a round of the loop at the event `e`, with the events to come
unfoldable pub round : Editor → Array → KeyEvent → List KeyEvent → Session → Round
round fresh buf e es s =
    let t = turn e s.editor in finish t.action fresh buf es (record s { editor = t.editor })

-- The loop of editor_run on the events to come, of which the first `skip` were read by a dialog or
-- behind a message. The loop is left when `running` is false, or stands where the events end.
unfoldable pub editor_run : Editor → Array → ℕ → List KeyEvent → Session → Session
editor_run fresh buf skip [] s = s
editor_run fresh buf (suc skip) (e ∷ es) s = editor_run fresh buf skip es s
editor_run fresh buf zero (e ∷ es) s =
    let r = round fresh buf e es s in
    let rest = editor_run fresh buf r.read es r.session in if s.running then rest else s
