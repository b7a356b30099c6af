-- ===== src/Keyboard/Dvorak.antt =====
-- The DVORAK tables of arch/x86/drivers/keyboard/include/key_maps.h, as bytes. The entries after the last
-- one are NULL in the source.
use cobra_os.Base.{ℕ, List, [], ◌∷◌}
use cobra_os.Base.Text.{codes}

abbrev pub dvorak_lowercase_key_map : List (List ℕ)
dvorak_lowercase_key_map =
    codes "ERROR"
    ∷ codes "ESC"
    ∷ codes "1"
    ∷ codes "2"
    ∷ codes "3"
    ∷ codes "4"
    ∷ codes "5"
    ∷ codes "6"
    ∷ codes "7"
    ∷ codes "8"
    ∷ codes "9"
    ∷ codes "0"
    ∷ codes "["
    ∷ codes "]"
    ∷ codes "Backspace"
    ∷ codes "Tab"
    ∷ codes "'"
    ∷ codes ","
    ∷ codes "."
    ∷ codes "p"
    ∷ codes "y"
    ∷ codes "f"
    ∷ codes "g"
    ∷ codes "c"
    ∷ codes "r"
    ∷ codes "l"
    ∷ codes "/"
    ∷ codes "="
    ∷ codes "ENTER"
    ∷ codes "LCtrl"
    ∷ codes "a"
    ∷ codes "o"
    ∷ codes "e"
    ∷ codes "u"
    ∷ codes "i"
    ∷ codes "d"
    ∷ codes "h"
    ∷ codes "t"
    ∷ codes "n"
    ∷ codes "s"
    ∷ codes "-"
    ∷ codes "`"
    ∷ codes "LShift"
    ∷ codes "\\"
    ∷ codes ";"
    ∷ codes "q"
    ∷ codes "j"
    ∷ codes "k"
    ∷ codes "x"
    ∷ codes "b"
    ∷ codes "m"
    ∷ codes "w"
    ∷ codes "v"
    ∷ codes "z"
    ∷ codes "RShift"
    ∷ codes "Keypad *"
    ∷ codes "LAlt"
    ∷ codes " "
    ∷ codes "CapsLock"
    ∷ codes "F1"
    ∷ codes "F2"
    ∷ codes "F3"
    ∷ codes "F4"
    ∷ codes "F5"
    ∷ codes "F6"
    ∷ codes "F7"
    ∷ codes "F8"
    ∷ codes "F9"
    ∷ codes "F10"
    ∷ codes "NumLock"
    ∷ codes "ScrollLock"
    ∷ codes "Keypad 7"
    ∷ codes "Keypad 8"
    ∷ codes "Keypad 9"
    ∷ codes "Keypad -"
    ∷ codes "Keypad 4"
    ∷ codes "Keypad 5"
    ∷ codes "Keypad 6"
    ∷ codes "Keypad +"
    ∷ codes "Keypad 1"
    ∷ codes "Keypad 2"
    ∷ codes "Keypad 3"
    ∷ codes "Keypad 0"
    ∷ codes "Keypad ."
    ∷ codes "F11"
    ∷ codes "F12"
    ∷ []

abbrev pub dvorak_uppercase_key_map : List (List ℕ)
dvorak_uppercase_key_map =
    codes "ERROR"
    ∷ codes "ESC"
    ∷ codes "!"
    ∷ codes "@"
    ∷ codes "#"
    ∷ codes "$"
    ∷ codes "%"
    ∷ codes "^"
    ∷ codes "&"
    ∷ codes "*"
    ∷ codes "("
    ∷ codes ")"
    ∷ codes "{"
    ∷ codes "}"
    ∷ codes "Backspace"
    ∷ codes "Tab"
    ∷ codes "\""
    ∷ codes "<"
    ∷ codes ">"
    ∷ codes "P"
    ∷ codes "Y"
    ∷ codes "F"
    ∷ codes "G"
    ∷ codes "C"
    ∷ codes "R"
    ∷ codes "L"
    ∷ codes "?"
    ∷ codes "+"
    ∷ codes "ENTER"
    ∷ codes "LCtrl"
    ∷ codes "A"
    ∷ codes "O"
    ∷ codes "E"
    ∷ codes "U"
    ∷ codes "I"
    ∷ codes "D"
    ∷ codes "H"
    ∷ codes "T"
    ∷ codes "N"
    ∷ codes "S"
    ∷ codes "_"
    ∷ codes "~"
    ∷ codes "LShift"
    ∷ codes "|"
    ∷ codes ":"
    ∷ codes "Q"
    ∷ codes "J"
    ∷ codes "K"
    ∷ codes "X"
    ∷ codes "B"
    ∷ codes "M"
    ∷ codes "W"
    ∷ codes "V"
    ∷ codes "Z"
    ∷ codes "RShift"
    ∷ codes "Keypad *"
    ∷ codes "LAlt"
    ∷ codes " "
    ∷ codes "CapsLock"
    ∷ codes "F1"
    ∷ codes "F2"
    ∷ codes "F3"
    ∷ codes "F4"
    ∷ codes "F5"
    ∷ codes "F6"
    ∷ codes "F7"
    ∷ codes "F8"
    ∷ codes "F9"
    ∷ codes "F10"
    ∷ codes "NumLock"
    ∷ codes "ScrollLock"
    ∷ codes "Keypad 7"
    ∷ codes "Keypad 8"
    ∷ codes "Keypad 9"
    ∷ codes "Keypad -"
    ∷ codes "Keypad 4"
    ∷ codes "Keypad 5"
    ∷ codes "Keypad 6"
    ∷ codes "Keypad +"
    ∷ codes "Keypad 1"
    ∷ codes "Keypad 2"
    ∷ codes "Keypad 3"
    ∷ codes "Keypad 0"
    ∷ codes "Keypad ."
    ∷ codes "F11"
    ∷ codes "F12"
    ∷ []
