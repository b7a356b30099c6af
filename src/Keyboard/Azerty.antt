-- ===== src/Keyboard/Azerty.antt =====
-- The AZERTY tables of arch/x86/drivers/keyboard/include/key_maps.h, as bytes. The entries after the last
-- one are NULL in the source.
use cobra_os.Base.{ℕ, List, [], ◌∷◌}
use cobra_os.Base.Text.{codes}

abbrev pub azerty_lowercase_key_map : List (List ℕ)
azerty_lowercase_key_map =
    codes "ERROR"
    ∷ codes "ESC"
    ∷ codes "&"
    ∷ (0xc3 ∷ 0xa9 ∷ [])
    ∷ codes "\""
    ∷ codes "'"
    ∷ codes "("
    ∷ codes "-"
    ∷ (0xc3 ∷ 0xa8 ∷ [])
    ∷ codes "_"
    ∷ (0xc3 ∷ 0xa7 ∷ [])
    ∷ (0xc3 ∷ 0xa0 ∷ [])
    ∷ codes ")"
    ∷ codes "="
    ∷ codes "Backspace"
    ∷ codes "Tab"
    ∷ codes "a"
    ∷ codes "z"
    ∷ codes "e"
    ∷ codes "r"
    ∷ codes "t"
    ∷ codes "y"
    ∷ codes "u"
    ∷ codes "i"
    ∷ codes "o"
    ∷ codes "p"
    ∷ codes "^"
    ∷ codes "$"
    ∷ codes "ENTER"
    ∷ codes "LCtrl"
    ∷ codes "q"
    ∷ codes "s"
    ∷ codes "d"
    ∷ codes "f"
    ∷ codes "g"
    ∷ codes "h"
    ∷ codes "j"
    ∷ codes "k"
    ∷ codes "l"
    ∷ codes "m"
    ∷ (0xc3 ∷ 0xb9 ∷ [])
    ∷ codes "`"
    ∷ codes "LShift"
    ∷ codes "*"
    ∷ codes "w"
    ∷ codes "x"
    ∷ codes "c"
    ∷ codes "v"
    ∷ codes "b"
    ∷ codes "n"
    ∷ codes ","
    ∷ codes ";"
    ∷ codes ":"
    ∷ codes "!"
    ∷ codes "RShift"
    ∷ codes "Keypad *"
    ∷ codes "LAlt"
    ∷ codes " "
    ∷ codes "CapsLock"
    ∷ codes "F1"
    ∷ codes "F2"
    ∷ codes "F3"
    ∷ codes "F4"
    ∷ codes "F5"
    ∷ codes "F6"
    ∷ codes "F7"
    ∷ codes "F8"
    ∷ codes "F9"
    ∷ codes "F10"
    ∷ codes "NumLock"
    ∷ codes "ScrollLock"
    ∷ codes "Keypad 7"
    ∷ codes "Keypad 8"
    ∷ codes "Keypad 9"
    ∷ codes "Keypad -"
    ∷ codes "Keypad 4"
    ∷ codes "Keypad 5"
    ∷ codes "Keypad 6"
    ∷ codes "Keypad +"
    ∷ codes "Keypad 1"
    ∷ codes "Keypad 2"
    ∷ codes "Keypad 3"
    ∷ codes "Keypad 0"
    ∷ codes "Keypad ."
    ∷ codes "F11"
    ∷ codes "F12"
    ∷ []

abbrev pub azerty_uppercase_key_map : List (List ℕ)
azerty_uppercase_key_map =
    codes "ERROR"
    ∷ codes "ESC"
    ∷ codes "1"
    ∷ codes "2"
    ∷ codes "3"
    ∷ codes "4"
    ∷ codes "5"
    ∷ codes "6"
    ∷ codes "7"
    ∷ codes "8"
    ∷ codes "9"
    ∷ codes "0"
    ∷ (0xc2 ∷ 0xb0 ∷ [])
    ∷ codes "+"
    ∷ codes "Backspace"
    ∷ codes "Tab"
    ∷ codes "A"
    ∷ codes "Z"
    ∷ codes "E"
    ∷ codes "R"
    ∷ codes "T"
    ∷ codes "Y"
    ∷ codes "U"
    ∷ codes "I"
    ∷ codes "O"
    ∷ codes "P"
    ∷ (0xc2 ∷ 0xa8 ∷ [])
    ∷ (0xc2 ∷ 0xa3 ∷ [])
    ∷ codes "ENTER"
    ∷ codes "LCtrl"
    ∷ codes "Q"
    ∷ codes "S"
    ∷ codes "D"
    ∷ codes "F"
    ∷ codes "G"
    ∷ codes "H"
    ∷ codes "J"
    ∷ codes "K"
    ∷ codes "L"
    ∷ codes "M"
    ∷ codes "%"
    ∷ codes "~"
    ∷ codes "LShift"
    ∷ (0xc2 ∷ 0xb5 ∷ [])
    ∷ codes "W"
    ∷ codes "X"
    ∷ codes "C"
    ∷ codes "V"
    ∷ codes "B"
    ∷ codes "N"
    ∷ codes "?"
    ∷ codes "."
    ∷ codes "/"
    ∷ (0xc2 ∷ 0xa7 ∷ [])
    ∷ codes "RShift"
    ∷ codes "Keypad *"
    ∷ codes "LAlt"
    ∷ codes " "
    ∷ codes "CapsLock"
    ∷ codes "F1"
    ∷ codes "F2"
    ∷ codes "F3"
    ∷ codes "F4"
    ∷ codes "F5"
    ∷ codes "F6"
    ∷ codes "F7"
    ∷ codes "F8"
    ∷ codes "F9"
    ∷ codes "F10"
    ∷ codes "NumLock"
    ∷ codes "ScrollLock"
    ∷ codes "Keypad 7"
    ∷ codes "Keypad 8"
    ∷ codes "Keypad 9"
    ∷ codes "Keypad -"
    ∷ codes "Keypad 4"
    ∷ codes "Keypad 5"
    ∷ codes "Keypad 6"
    ∷ codes "Keypad +"
    ∷ codes "Keypad 1"
    ∷ codes "Keypad 2"
    ∷ codes "Keypad 3"
    ∷ codes "Keypad 0"
    ∷ codes "Keypad ."
    ∷ codes "F11"
    ∷ codes "F12"
    ∷ []
