-- ===== src/Shell/ReadBack.antt =====
-- The numbers that arch/x86/kernel/shell.c prints, read by its own parsers, and the parsers against
-- the value of a string of digits.
use cobra_os.Base.{
  ℕ, zero, suc, ◌+◌, ◌-◌, ◌*◌, ◌/◌, ◌%◌, ◌^◌, ◌≤◌, ◌<◌, ◌==◌, ◌≡◌, ◌≢◌, inl, inr, refl, ap, ◌∙◌,
  arith, ltb, if◌then◌else◌, Bool-cases, List, [], ◌∷◌, none, some, bit_or, true, false, ◌&&◌, ◌||◌,
  Bool, ◌++◌,
}
use cobra_os.Base.Bits.{bit_or_halves}
use native.Mathlib.Nat.{pow-suc}
use cobra_os.Shell.Numbers.{
  uint_digits, print_uint, is_digit, dec_loop, parse_dec, parse_u32, hex_value, hex_loop,
  without_prefix, hex_digits_of, parse_hex, hex_digit, hex_places, hex_string, hexprint,
}

dec_loop-uint_digits :
    (f n : ℕ) (shown : List ℕ)
    → n < 10 ^ f
    → n < 2 ^ 32
    → dec_loop 0 (uint_digits f n shown) ≡ dec_loop n shown
unfolding dec_loop uint_digits
dec_loop-uint_digits zero n shown h lt = ap (λ v. dec_loop v shown) {x = 0} {y = n} (omega arith)
dec_loop-uint_digits (suc f) n shown h lt = elim (Bool-cases (n == 0)) [
  | inl e ↦ rw e (ap (λ v. dec_loop v shown) {x = 0} {y = n} (ground arith))
  | inr e ↦ rw e (
      dec_loop-uint_digits f (n / 10) ((b'0' + n % 10) ∷ shown) (omega (arith, pow-suc 10 f))
        (omega arith)
      ∙ rw digit (ap (λ v. dec_loop v shown) (omega arith)))
]
  where
    digit : (ltb (b'0' + n % 10) b'0' || ltb b'9' (b'0' + n % 10)) ≡ false
    digit = ground arith

-- The number that a list of digits stands for, read from the left after `val`.
pub decimal : ℕ → List ℕ → ℕ
decimal val [] = val
decimal val (c ∷ cs) = decimal (val * 10 + (c - b'0')) cs

pub all_digits : List ℕ → Bool
all_digits [] = true
all_digits (c ∷ cs) = is_digit c && all_digits cs

dec_loop-decimal :
    (cs : List ℕ) (v : ℕ)
    → dec_loop (v % 2 ^ 32) cs ≡ (if all_digits cs then some (decimal v cs % 2 ^ 32) else none)
unfolding dec_loop decimal all_digits
dec_loop-decimal [] v = refl
dec_loop-decimal (c ∷ cs) v = elim (Bool-cases (is_digit c)) [
  | inl e ↦
      rw (accepted e, e)
        (ap (λ x. dec_loop x cs) {y = (v * 10 + (c - b'0')) % 2 ^ 32} (omega arith)
          ∙ dec_loop-decimal cs (v * 10 + (c - b'0')))
  | inr e ↦ rw (refused e, e) refl
]
  where
    accepted : is_digit c ≡ true → (ltb c b'0' || ltb b'9' c) ≡ false
    accepted e = ground arith

    refused : is_digit c ≡ false → (ltb c b'0' || ltb b'9' c) ≡ true
    refused e = ground arith

abbrev pub is_number : List ℕ → Bool
is_number [] = false
is_number (c ∷ cs) = all_digits (c ∷ cs)

-- A string of digits, at least one, is read as its value modulo 2^32, without a refusal when the value
-- does not fit, and every other string is refused.
pub parse_dec-decimal :
    (s : List ℕ)
    → (parse_dec s ≡ (if is_number s then some (decimal 0 s % 2 ^ 32) else none))
      × (parse_u32 s ≡ parse_dec s)
unfolding parse_dec parse_u32
parse_dec-decimal [] = (refl, refl)
parse_dec-decimal (c ∷ cs) = (dec_loop-decimal (c ∷ cs) 0, refl)

hex_value-hex_digit : (d : ℕ) → d < 16 → hex_value (hex_digit d) ≡ some d
hex_value-hex_digit d h = ground arith

bit_or_double : (a d : ℕ) → bit_or (a * 2) d ≡ bit_or a (d / 2) * 2 + d % 2
bit_or_double a d = omega (
  arith,
  bit_or_halves (a * 2) d,
  ap (λ x. bit_or x (d / 2)) {x = a * 2 / 2} {y = a} (omega arith),
)

bit_or_zero : (n v : ℕ) → v ≤ n → bit_or v 0 ≡ v
bit_or_zero zero zero h = refl
bit_or_zero zero (suc v) h = absurd (omega arith)
bit_or_zero (suc n) zero h = refl
bit_or_zero (suc n) (suc v) h =
    omega (arith, bit_or_halves (suc v) 0, bit_or_zero n (suc v / 2) (omega arith))

bit_or_low : (v d : ℕ) → d < 16 → bit_or (v * 2 ^ 4) d ≡ v * 2 ^ 4 + d
bit_or_low v d h = omega (
  arith,
  ap (λ x. bit_or x d) {x = v * 16} {y = v * 2 * 2 * 2 * 2} (omega arith),
  bit_or_double (v * 2 * 2 * 2) d,
  bit_or_double (v * 2 * 2) (d / 2),
  bit_or_double (v * 2) (d / 2 / 2),
  bit_or_double v (d / 2 / 2 / 2),
  ap (λ x. bit_or v x) {x = d / 2 / 2 / 2 / 2} {y = 0} (omega arith),
  bit_or_zero v v (omega arith),
)

hex_loop_next :
    (v c d : ℕ) (cs : List ℕ)
    → hex_value c ≡ some d
    → hex_loop v (c ∷ cs) ≡ hex_loop (bit_or (v * 2 ^ 4 % 2 ^ 32) d) cs
unfolding hex_loop
hex_loop_next v c d cs e = rw (e, hex_loop) refl

hex_loop-hex_places :
    (n v : ℕ) (shown : List ℕ)
    → v < 16 ^ n
    → v < 2 ^ 32
    → hex_loop 0 (hex_places n v shown) ≡ hex_loop v shown
unfolding hex_places
hex_loop-hex_places zero v shown h lt = ap (λ x. hex_loop x shown) {x = 0} {y = v} (omega arith)
hex_loop-hex_places (suc n) v shown h lt =
    hex_loop-hex_places n (v / 2 ^ 4) (hex_digit (v % 16) ∷ shown) (omega (arith, pow-suc 16 n))
      (omega arith)
    ∙ hex_loop_next (v / 2 ^ 4) (hex_digit (v % 16)) (v % 16) shown
        (hex_value-hex_digit (v % 16) (omega arith))
    ∙ ap (λ x. hex_loop x shown) value
  where
    value : bit_or (v / 2 ^ 4 * 2 ^ 4 % 2 ^ 32) (v % 16) ≡ v
    value =
        ap (λ x. bit_or x (v % 16)) {y = v / 2 ^ 4 * 2 ^ 4} (omega arith)
        ∙ bit_or_low (v / 2 ^ 4) (v % 16) (omega arith)
        ∙ omega arith

parse_dec-dec_loop :
    (s : List ℕ) → s ≢ [] → (parse_dec s ≡ dec_loop 0 s) × (parse_u32 s ≡ dec_loop 0 s)
unfolding parse_dec parse_u32
parse_dec-dec_loop [] h = absurd (h refl)
parse_dec-dec_loop (c ∷ cs) h = (refl, refl)

uint_digits_shown : (f n c : ℕ) (shown : List ℕ) → uint_digits f n (c ∷ shown) ≢ []
unfolding uint_digits
uint_digits_shown zero n c shown = cc
uint_digits_shown (suc f) n c shown = elim (Bool-cases (n == 0)) [
  | inl e ↦ rw e (cc)
  | inr e ↦ rw e (uint_digits_shown f (n / 10) (b'0' + n % 10) (c ∷ shown))
]

uint_digits_first : (f n : ℕ) → (n == 0) ≡ false → uint_digits (suc f) n [] ≢ []
unfolding uint_digits
uint_digits_first f n e = rw e (uint_digits_shown f (n / 10) (b'0' + n % 10) [])

print_uint_shown : (n : ℕ) → n < 2 ^ 32 → (print_uint n ≢ []) × (dec_loop 0 (print_uint n) ≡ some n)
unfolding print_uint dec_loop
print_uint_shown n lt = elim (Bool-cases (n == 0)) [
  | inl e ↦ rw e (cc, ground arith)
  | inr e ↦ rw e (shown e, dec_loop-uint_digits 11 n [] (omega arith) lt)
]
  where
    shown : (n == 0) ≡ false → uint_digits 11 n [] ≢ []
    shown e = uint_digits_first 10 n e

places :
    (n : ℕ) (shown : List ℕ)
    → hex_digits_of (hex_places 8 n shown) ≡ hex_loop 0 (hex_places 8 n shown)
unfolding hex_digits_of hex_places
places n shown = refl

hex_places-append :
    (n v : ℕ) (shown rest : List ℕ) → hex_places n v shown ++ rest ≡ hex_places n v (shown ++ rest)
unfolding hex_places
hex_places-append zero v shown rest = refl
hex_places-append (suc n) v shown rest =
    hex_places-append n (v / 2 ^ 4) (hex_digit (v % 16) ∷ shown) rest

-- What print_uint prints of a 32-bit number is read back as that number, and so is the string that
-- hexprint prints, while its whole output, with the line break, is no hexadecimal number.
pub parse_dec-print_uint :
    (n : ℕ)
    → n < 2 ^ 32
    → (parse_dec (print_uint n) ≡ some n)
      × (parse_u32 (print_uint n) ≡ some n)
      × (parse_hex (hex_string n) ≡ some n)
      × (parse_hex (hexprint n) ≡ none)
unfolding parse_hex hex_string hexprint without_prefix hex_loop
parse_dec-print_uint n lt =
    let (shown, value) = print_uint_shown n lt in
    let (dec, u32) = parse_dec-dec_loop (print_uint n) shown in
    (dec ∙ value, u32 ∙ value, hex, line)
  where
    hex : hex_digits_of (hex_places 8 n []) ≡ some n
    hex = places n [] ∙ hex_loop-hex_places 8 n [] (omega arith) lt

    line : hex_digits_of (hex_places 8 n [] ++ (0x0A ∷ [])) ≡ none
    line =
        ap hex_digits_of (hex_places-append 8 n [] (0x0A ∷ []))
        ∙ places n (0x0A ∷ [])
        ∙ hex_loop-hex_places 8 n (0x0A ∷ []) (omega arith) lt
