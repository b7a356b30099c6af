-- ===== src/Keyboard/Qwerty.antt =====
-- The QWERTY tables of arch/x86/drivers/keyboard/include/key_maps.h, as bytes. The entries after the last
-- one are NULL in the source.
use cobra_os.Base.{ℕ, List, [], ◌∷◌}
use cobra_os.Base.Text.{codes}

abbrev pub qwerty_lowercase_key_map : List (List ℕ)
qwerty_lowercase_key_map =
    codes "ERROR"
    ∷ codes "ESC"
    ∷ codes "1"
    ∷ codes "2"
    ∷ codes "3"
    ∷ codes "4"
    ∷ codes "5"
    ∷ codes "6"
    ∷ codes "7"
    ∷ codes "8"
    ∷ codes "9"
    ∷ codes "0"
    ∷ codes "-"
    ∷ codes "="
    ∷ codes "Backspace"
    ∷ codes "Tab"
    ∷ codes "q"
    ∷ codes "w"
    ∷ codes "e"
    ∷ codes "r"
    ∷ codes "t"
    ∷ codes "y"
    ∷ codes "u"
    ∷ codes "i"
    ∷ codes "o"
    ∷ codes "p"
    ∷ codes "["
    ∷ codes "]"
    ∷ codes "ENTER"
    ∷ codes "LCtrl"
    ∷ codes "a"
    ∷ codes "s"
    ∷ codes "d"
    ∷ codes "f"
    ∷ codes "g"
    ∷ codes "h"
    ∷ codes "j"
    ∷ codes "k"
    ∷ codes "l"
    ∷ codes ";"
    ∷ codes "'"
    ∷ codes "`"
    ∷ codes "LShift"
    ∷ codes "\\"
    ∷ codes "z"
    ∷ codes "x"
    ∷ codes "c"
    ∷ codes "v"
    ∷ codes "b"
    ∷ codes "n"
    ∷ codes "m"
    ∷ codes ","
    ∷ codes "."
    ∷ codes "/"
    ∷ codes "RShift"
    ∷ codes "Keypad *"
    ∷ codes "LAlt"
    ∷ codes " "
    ∷ codes "CapsLock"
    ∷ codes "F1"
    ∷ codes "F2"
    ∷ codes "F3"
    ∷ codes "F4"
    ∷ codes "F5"
    ∷ codes "F6"
    ∷ codes "F7"
    ∷ codes "F8"
    ∷ codes "F9"
    ∷ codes "F10"
    ∷ codes "NumLock"
    ∷ codes "ScrollLock"
    ∷ codes "Keypad 7"
    ∷ codes "Keypad 8"
    ∷ codes "Keypad 9"
    ∷ codes "Keypad -"
    ∷ codes "Keypad 4"
    ∷ codes "Keypad 5"
    ∷ codes "Keypad 6"
    ∷ codes "Keypad +"
    ∷ codes "Keypad 1"
    ∷ codes "Keypad 2"
    ∷ codes "Keypad 3"
    ∷ codes "Keypad 0"
    ∷ codes "Keypad ."
    ∷ codes "F11"
    ∷ codes "F12"
    ∷ []

abbrev pub qwerty_uppercase_key_map : List (List ℕ)
qwerty_uppercase_key_map =
    codes "ERROR"
    ∷ codes "ESC"
    ∷ codes "!"
    ∷ codes "@"
    ∷ codes "#"
    ∷ codes "$"
    ∷ codes "%"
    ∷ codes "^"
    ∷ codes "&"
    ∷ codes "*"
    ∷ codes "("
    ∷ codes ")"
    ∷ codes "_"
    ∷ codes "+"
    ∷ codes "Backspace"
    ∷ codes "Tab"
    ∷ codes "Q"
    ∷ codes "W"
    ∷ codes "E"
    ∷ codes "R"
    ∷ codes "T"
    ∷ codes "Y"
    ∷ codes "U"
    ∷ codes "I"
    ∷ codes "O"
    ∷ codes "P"
    ∷ codes "{"
    ∷ codes "}"
    ∷ codes "ENTER"
    ∷ codes "LCtrl"
    ∷ codes "A"
    ∷ codes "S"
    ∷ codes "D"
    ∷ codes "F"
    ∷ codes "G"
    ∷ codes "H"
    ∷ codes "J"
    ∷ codes "K"
    ∷ codes "L"
    ∷ codes ":"
    ∷ codes "\""
    ∷ codes "~"
    ∷ codes "LShift"
    ∷ codes "|"
    ∷ codes "Z"
    ∷ codes "X"
    ∷ codes "C"
    ∷ codes "V"
    ∷ codes "B"
    ∷ codes "N"
    ∷ codes "M"
    ∷ codes "<"
    ∷ codes ">"
    ∷ codes "?"
    ∷ codes "RShift"
    ∷ codes "Keypad *"
    ∷ codes "LAlt"
    ∷ codes " "
    ∷ codes "CapsLock"
    ∷ codes "F1"
    ∷ codes "F2"
    ∷ codes "F3"
    ∷ codes "F4"
    ∷ codes "F5"
    ∷ codes "F6"
    ∷ codes "F7"
    ∷ codes "F8"
    ∷ codes "F9"
    ∷ codes "F10"
    ∷ codes "NumLock"
    ∷ codes "ScrollLock"
    ∷ codes "Keypad 7"
    ∷ codes "Keypad 8"
    ∷ codes "Keypad 9"
    ∷ codes "Keypad -"
    ∷ codes "Keypad 4"
    ∷ codes "Keypad 5"
    ∷ codes "Keypad 6"
    ∷ codes "Keypad +"
    ∷ codes "Keypad 1"
    ∷ codes "Keypad 2"
    ∷ codes "Keypad 3"
    ∷ codes "Keypad 0"
    ∷ codes "Keypad ."
    ∷ codes "F11"
    ∷ codes "F12"
    ∷ []
