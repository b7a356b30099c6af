-- ===== src/Shell/Numbers.antt =====
-- The numbers that the commands of arch/x86/kernel/shell.c print and read: print_uint, parse_dec,
-- parse_u32 and parse_hex, and hexprint of arch/x86/drivers/screen/screen.c. A string is the list of its
-- characters; what is printed is a value, and `none` is a refusal.
use cobra_os.Base.{
  ℕ, zero, suc, ◌+◌, ◌-◌, ◌*◌, ◌/◌, ◌%◌, ◌^◌, ◌==◌, ◌&&◌, ◌||◌, leb, ltb, if◌then◌else◌, Bool, List,
  [], ◌∷◌, ◌++◌, Option, none, some, bit_or,
}

-- the loop of print_uint, with the places that are left in its buffer before the characters so far
unfoldable pub uint_digits : ℕ → ℕ → List ℕ → List ℕ
uint_digits zero n shown = shown
uint_digits (suc f) n shown =
    let rest = uint_digits f (n / 10) ((b'0' + n % 10) ∷ shown) in if n == 0 then shown else rest

unfoldable pub print_uint : ℕ → List ℕ
print_uint n = if n == 0 then b'0' ∷ [] else uint_digits 11 n []

abbrev pub is_digit : ℕ → Bool
is_digit c = leb b'0' c && leb c b'9'

-- the loop that parse_dec and parse_u32 share
unfoldable pub dec_loop : ℕ → List ℕ → Option ℕ
dec_loop val [] = some val
dec_loop val (c ∷ cs) =
    let rest = dec_loop ((val * 10 + (c - b'0')) % 2 ^ 32) cs in
    if ltb c b'0' || ltb b'9' c then none else rest

unfoldable pub parse_dec : List ℕ → Option ℕ
parse_dec [] = none
parse_dec (c ∷ cs) = dec_loop 0 (c ∷ cs)

unfoldable pub parse_u32 : List ℕ → Option ℕ
parse_u32 [] = none
parse_u32 (c ∷ cs) = dec_loop 0 (c ∷ cs)

-- the value of a hexadecimal digit
abbrev pub hex_value : ℕ → Option ℕ
hex_value c =
    if leb b'0' c && leb c b'9'
    then some (c - b'0')
    else if leb b'a' c && leb c b'f'
    then some (c - b'a' + 10)
    else if leb b'A' c && leb c b'F'
    then some (c - b'A' + 10)
    else none

unfoldable pub hex_loop : ℕ → List ℕ → Option ℕ
hex_loop val [] = some val
hex_loop val (c ∷ cs) = elim (hex_value c) [
  | none ↦ none
  | some d ↦ hex_loop (bit_or (val * 2 ^ 4 % 2 ^ 32) d) cs
]

-- a prefix 0x or 0X is passed over
unfoldable pub without_prefix : List ℕ → List ℕ
without_prefix [] = []
without_prefix (c ∷ []) = c ∷ []
without_prefix (c ∷ d ∷ cs) = if c == b'0' && (d == b'x' || d == b'X') then cs else c ∷ d ∷ cs

unfoldable pub hex_digits_of : List ℕ → Option ℕ
hex_digits_of [] = none
hex_digits_of (c ∷ cs) = hex_loop 0 (c ∷ cs)

unfoldable pub parse_hex : List ℕ → Option ℕ
parse_hex s = hex_digits_of (without_prefix s)

-- "0123456789ABCDEF"[d]
abbrev pub hex_digit : ℕ → ℕ
hex_digit d = if ltb d 10 then b'0' + d else b'A' + (d - 10)

-- the loop of hexprint over the places that are left, from the last one
unfoldable pub hex_places : ℕ → ℕ → List ℕ → List ℕ
hex_places zero value shown = shown
hex_places (suc n) value shown = hex_places n (value / 2 ^ 4) (hex_digit (value % 16) ∷ shown)

-- hexString once its digits are filled in
unfoldable pub hex_string : ℕ → List ℕ
hex_string value = b'0' ∷ b'x' ∷ hex_places 8 value []

-- the string and a line break behind it
unfoldable pub hexprint : ℕ → List ℕ
hexprint value = hex_string value ++ (0x0A ∷ [])
