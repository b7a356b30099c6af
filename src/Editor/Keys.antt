-- ===== src/Editor/Keys.antt =====
-- kbd_read_event of arch/x86/snake/snake.c: the events that the bytes of the keyboard buffer spell.
use cobra_os.Base.{
  ℕ, leb, ◌==◌, ◌&&◌, ◌||◌, if◌then◌else◌, Bool, true, false, List, [], ◌∷◌, Option, none, some,
}
use cobra_os.Editor.Edit.{
  SpecialKey, key_up, key_down, key_left, key_right, key_home, key_end, key_pageup, key_pagedown,
  key_delete, key_backspace, key_enter, key_esc,
}

pub data KeyEvent : Type 0 where
  key_char : ℕ → KeyEvent
  key_special : SpecialKey → KeyEvent

-- an event, and the bytes that are left in the buffer
pub record Read : Type 0 where
  pub event : KeyEvent
  pub rest : List ℕ

-- a byte that is not Escape
unfoldable pub plain_event : ℕ → KeyEvent
plain_event c =
    if c == 0x08 || c == 0x7F
    then key_special key_backspace
    else if c == 0x0A || c == 0x0D
    then key_special key_enter
    else key_char c

-- the third byte of a sequence, `none` for a byte that no `if` there returns on
unfoldable pub letter_key : ℕ → Option SpecialKey
letter_key c2 =
    if c2 == 0x41
    then some key_up
    else if c2 == 0x42
    then some key_down
    else if c2 == 0x43
    then some key_right
    else if c2 == 0x44
    then some key_left
    else if c2 == 0x48
    then some key_home
    else if c2 == 0x46
    then some key_end
    else none

-- the `switch` on the third byte, `none` for `continue`
unfoldable pub tilde_key : ℕ → Option SpecialKey
tilde_key c2 =
    if c2 == 0x33
    then some key_delete
    else if c2 == 0x35
    then some key_pageup
    else if c2 == 0x36
    then some key_pagedown
    else if c2 == 0x31 || c2 == 0x37
    then some key_home
    else if c2 == 0x34 || c2 == 0x38
    then some key_end
    else none

abbrev pub digit : ℕ → Bool
digit c2 = leb 0x31 c2 && leb c2 0x39

-- a key if the sequence named one, else the event read from the bytes after it
abbrev pub key_or : Option SpecialKey → List ℕ → Option Read → Option Read
key_or (some k) rest next = some (record { event = key_special k; rest = rest })
key_or none rest next = next

-- kbd_read_event with these bytes in the buffer and none to come before they are read; `none` if it
-- comes to wait for a byte with the buffer empty
unfoldable pub kbd_read_event : List ℕ → Option Read
kbd_read_event [] = none
kbd_read_event (c ∷ []) =
    some (record { event = if c == 0x1B then key_special key_esc else plain_event c; rest = [] })
kbd_read_event (c ∷ c1 ∷ []) =
    if c == 0x1B then none else some (record { event = plain_event c; rest = c1 ∷ [] })
kbd_read_event (c ∷ c1 ∷ c2 ∷ []) =
    let after_c1 = kbd_read_event (c2 ∷ []) in
    if c == 0x1B
    then (if c1 == 0x5B then key_or (letter_key c2) [] none else after_c1)
    else some (record { event = plain_event c; rest = c1 ∷ c2 ∷ [] })
kbd_read_event (c ∷ c1 ∷ c2 ∷ c3 ∷ l) = elim (c == 0x1B) [
  | false ↦ some (record { event = plain_event c; rest = c1 ∷ c2 ∷ c3 ∷ l })
  | true ↦ elim (c1 == 0x5B) [
    | false ↦ kbd_read_event (c2 ∷ c3 ∷ l)
    | true ↦ elim (letter_key c2) [
      | some k ↦ some (record { event = key_special k; rest = c3 ∷ l })
      | none ↦ elim (digit c2) [
        | false ↦ kbd_read_event (c3 ∷ l)
        | true ↦ elim (c3 == 0x7E) [
          | false ↦ kbd_read_event l
          | true ↦ elim (tilde_key c2) [
            | some k ↦ some (record { event = key_special k; rest = l })
            | none ↦ kbd_read_event l
          ]
        ]
      ]
    ]
  ]
]
