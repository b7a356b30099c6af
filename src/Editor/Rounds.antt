-- ===== src/Editor/Rounds.antt =====
-- What the whole loop of editor_run in arch/x86/snake/snake.c keeps, with its saves and its loads.
use cobra_os.Base.{
  ℕ, zero, suc, ◌≡◌, ◌≢◌, refl, ap, ◌⊎◌, All, Bool-cases, inl, inr, ltb, leb, ◌==◌, ◌&&◌, ◌||◌,
  Bool, true, false, Array, List, [], ◌∷◌, Option, none, some, arith,
}
use cobra_os.Editor.State.{Editor}
use cobra_os.Editor.Edit.{
  SpecialKey, key_up, key_down, key_left, key_right, key_home, key_end, key_pageup, key_pagedown,
  key_delete, key_backspace, key_enter, key_tab, key_save, key_quit, key_esc,
}
use cobra_os.Editor.Keys.{KeyEvent, key_char, key_special}
use cobra_os.Editor.File.{editor_load, editor_save}
use cobra_os.Editor.Session.{
  Action, go_on, open_dialog, save_file, ask_save, leave, Turn, turn_char, turn_special, turn,
  editor_confirm_save, Prompt, editor_prompt_filename,
}
use cobra_os.Editor.Loop.{
  path_size, Session, Round, open_with, after_save, save_ok, save_now, save_and_stop, quit_with,
  finish, round, editor_run,
}
use cobra_os.Editor.Supply.{either, IsStable, turn-keeps}

-- Only Ctrl+O opens the dialog for a file.
abbrev NoDialog : Turn → Type 0
NoDialog t = t.action ≢ open_dialog

turn_char-NoDialog : (c : ℕ) (ed : Editor) → (c == 15) ≡ false → NoDialog (turn_char c ed)
unfolding turn_char
turn_char-NoDialog c ed other = either NoDialog (c == 26) _ _ (cc) (
    either NoDialog (c == 25) _ _ (cc) (
      rw other (
        either NoDialog (c == 17) _ _ (either NoDialog ed.modified _ _ (cc) (cc)) (
          either NoDialog (c == 19) _ _ (cc) (
            either NoDialog (c == 0x0D || c == 0x0A) _ _ (cc) (
              either NoDialog (c == 0x09) _ _ (cc)
                (either NoDialog (leb 32 c && ltb c 127) _ _ (cc) (cc))))))))

turn_special-NoDialog : (k : SpecialKey) (ed : Editor) → NoDialog (turn_special k ed)
unfolding turn_special
turn_special-NoDialog key_up ed = cc
turn_special-NoDialog key_down ed = cc
turn_special-NoDialog key_left ed = cc
turn_special-NoDialog key_right ed = cc
turn_special-NoDialog key_home ed = cc
turn_special-NoDialog key_end ed = cc
turn_special-NoDialog key_pageup ed = cc
turn_special-NoDialog key_pagedown ed = cc
turn_special-NoDialog key_backspace ed = cc
turn_special-NoDialog key_delete ed = cc
turn_special-NoDialog key_enter ed = cc
turn_special-NoDialog key_save ed = cc
turn_special-NoDialog key_quit ed = cc
turn_special-NoDialog key_esc ed = cc
turn_special-NoDialog key_tab ed = cc

turn-NoDialog : (e : KeyEvent) (ed : Editor) → e ≢ key_char 15 → NoDialog (turn e ed)
unfolding turn
turn-NoDialog (key_char c) ed h = elim (Bool-cases (c == 15)) [
  | inl e ↦ absurd (h (ap key_char (ground arith)))
  | inr e ↦ turn_char-NoDialog c ed e
]
turn-NoDialog (key_special k) ed h = turn_special-NoDialog k ed

-- no event is Ctrl+O
abbrev pub NoOpening : List KeyEvent → Type 0
NoOpening es = All (λ e. e ≢ key_char 15) es

module _ (P : Editor → Type 0) (st : IsStable P)
    (save_keeps : (ed : Editor) (w : Bool) → P ed → P (editor_save ed w).editor) (fresh : Editor)
    (buf : Array) where
  -- every load keeps the property
  abbrev LoadsKeep : Type 0
  LoadsKeep =
      (ed : Editor) (path : List ℕ) (file : Option (Array × ℕ))
      → P ed
      → P (editor_load ed fresh path file)

  abbrev InOrder : Session → Type 0
  InOrder s = P s.editor

  abbrev RoundInOrder : Round → Type 0
  RoundInOrder r = InOrder r.session

  quit_with-keeps :
      (a : Option Bool) (es : List KeyEvent) (s : Session)
      → InOrder s
      → RoundInOrder (quit_with a es s)
  unfolding quit_with save_and_stop
  quit_with-keeps none es s v = v
  quit_with-keeps (some true) es s v =
      let saved : InOrder (after_save s) = save_keeps s.editor (s.written 0) v in
      either InOrder (save_ok s) _ _ saved saved
  quit_with-keeps (some false) es s v = v

  open_with-keeps :
      (a : Option Prompt) (es : List KeyEvent) (s : Session)
      → LoadsKeep
      → InOrder s
      → RoundInOrder (open_with a fresh es s)
  unfolding open_with
  open_with-keeps none es s loads v = v
  open_with-keeps (some p) es s loads v =
      either RoundInOrder p.accepted _ _ (loads s.editor _ (s.files 0) v) v

  finish-keeps :
      (a : Action) (es : List KeyEvent) (s : Session)
      → (a ≢ open_dialog) ⊎ LoadsKeep
      → InOrder s
      → RoundInOrder (finish a fresh buf es s)
  unfolding finish save_now
  finish-keeps go_on es s h v = v
  finish-keeps open_dialog es s (inl h) v = absurd (h refl)
  finish-keeps open_dialog es s (inr loads) v =
      open_with-keeps (editor_prompt_filename es path_size buf) es s loads v
  finish-keeps save_file es s h v = save_keeps s.editor (s.written 0) v
  finish-keeps ask_save es s h v = quit_with-keeps (editor_confirm_save es) es s v
  finish-keeps leave es s h v = v

  round-keeps :
      (e : KeyEvent) (es : List KeyEvent) (s : Session)
      → (e ≢ key_char 15) ⊎ LoadsKeep
      → InOrder s
      → RoundInOrder (round fresh buf e es s)
  unfolding round
  round-keeps e es s h v =
      let t = turn e s.editor in
      finish-keeps t.action es (record s { editor = t.editor }) (closed h)
        (turn-keeps P st e s.editor v)
    where
      closed : (e ≢ key_char 15) ⊎ LoadsKeep → ((turn e s.editor).action ≢ open_dialog) ⊎ LoadsKeep
      closed (inl n) = inl (turn-NoDialog e s.editor n)
      closed (inr loads) = inr loads

  first_event :
      (e : KeyEvent) (es : List KeyEvent)
      → NoOpening (e ∷ es) ⊎ LoadsKeep
      → (e ≢ key_char 15) ⊎ LoadsKeep
  first_event e es (inl (h, hs)) = inl h
  first_event e es (inr loads) = inr loads

  later_events :
      (e : KeyEvent) (es : List KeyEvent)
      → NoOpening (e ∷ es) ⊎ LoadsKeep
      → NoOpening es ⊎ LoadsKeep
  later_events e es (inl (h, hs)) = inl hs
  later_events e es (inr loads) = inr loads

  pub editor_run-keeps :
      (skip : ℕ) (es : List KeyEvent) (s : Session)
      → NoOpening es ⊎ LoadsKeep
      → InOrder s
      → InOrder (editor_run fresh buf skip es s)
  unfolding editor_run
  editor_run-keeps skip [] s h v = v
  editor_run-keeps (suc skip) (e ∷ es) s h v = editor_run-keeps skip es s (later_events e es h) v
  editor_run-keeps zero (e ∷ es) s h v =
      let r = round fresh buf e es s in
      either InOrder s.running (editor_run fresh buf r.read es r.session) s
        (editor_run-keeps r.read es r.session (later_events e es h)
          (round-keeps e es s (first_event e es h) v))
        v
