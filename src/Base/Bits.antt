-- ===== src/Base/Bits.antt =====
-- Single binary digits of a word, and what C's `&`, `|` and `~` do to each of them.
use Prim.Native.Nat.{
  ℕ, zero, suc, ◌+◌, ◌-◌, ◌*◌, ◌/◌, ◌%◌, ◌^◌, ◌≤◌, ◌<◌, min, max, bit_and, bit_or, digits,
  bit_and-bitwise, bit_or-bitwise,
}
use mathlib.Core.Path.{◌≡◌, refl, ap, ◌∙◌}
use native.Mathlib.Omega.{arith}
use native.Mathlib.Nat.{pow-suc}
use cobra_os.Base.Tests.{◌==◌, if◌then◌else◌}

-- digit `k` of `w`, the lowest being digit 0
pub bit : ℕ → ℕ → ℕ
bit w zero = w % 2
bit w (suc k) = bit (w / 2) k

-- `~x` in a word of `n` bits
abbrev pub complement : ℕ → ℕ → ℕ
complement n x = 2 ^ n - 1 - x

pub bit-le-one : (w k : ℕ) → bit w k ≤ 1
unfolding bit
bit-le-one w zero = omega arith
bit-le-one w (suc k) = bit-le-one (w / 2) k

-- The recursion of the native operations may be given any count of digits that is large enough.
pub digits_enough :
    (z : ℕ → ℕ) (f : ℕ → ℕ → ℕ) (n m a b : ℕ) → a ≤ n → a ≤ m → digits z f n a b ≡ digits z f m a b
digits_enough z f zero zero a b p q = refl
digits_enough z f zero (suc m) zero b p q = refl
digits_enough z f zero (suc m) (suc a) b p q = absurd (omega arith)
digits_enough z f (suc n) zero zero b p q = refl
digits_enough z f (suc n) zero (suc a) b p q = absurd (omega arith)
digits_enough z f (suc n) (suc m) zero b p q = refl
digits_enough z f (suc n) (suc m) (suc a) b p q =
    ap (λ t. t * 2 + f (suc a % 2) (b % 2))
      (digits_enough z f n m (suc a / 2) (b / 2) (omega arith) (omega arith))

pub bit_and_zero_left : (b : ℕ) → bit_and 0 b ≡ 0
bit_and_zero_left b = bit_and-bitwise 0 b

bit_or_zero_left : (b : ℕ) → bit_or 0 b ≡ b
bit_or_zero_left b = bit_or-bitwise 0 b

pub bit_and_halves : (a b : ℕ) → bit_and a b ≡ bit_and (a / 2) (b / 2) * 2 + min (a % 2) (b % 2)
bit_and_halves zero b = omega (arith, bit_and_zero_left b, bit_and_zero_left (b / 2))
bit_and_halves (suc a) b = omega (
  arith,
  bit_and-bitwise (suc a) b,
  bit_and-bitwise (suc a / 2) (b / 2),
  digits_enough (λ b. 0) min a (suc a / 2) (suc a / 2) (b / 2) (omega arith) (omega arith),
)

pub bit_or_halves : (a b : ℕ) → bit_or a b ≡ bit_or (a / 2) (b / 2) * 2 + max (a % 2) (b % 2)
bit_or_halves zero b = omega (arith, bit_or_zero_left b, bit_or_zero_left (b / 2))
bit_or_halves (suc a) b = omega (
  arith,
  bit_or-bitwise (suc a) b,
  bit_or-bitwise (suc a / 2) (b / 2),
  digits_enough (λ b. b) max a (suc a / 2) (suc a / 2) (b / 2) (omega arith) (omega arith),
)

-- Digit `k` of `a & b`.
pub bit-bit_and : (a b k : ℕ) → bit (bit_and a b) k ≡ min (bit a k) (bit b k)
unfolding bit
bit-bit_and a b zero = omega (arith, bit_and_halves a b)
bit-bit_and a b (suc k) =
    ap (λ t. bit t k) (omega (arith, bit_and_halves a b)) ∙ bit-bit_and (a / 2) (b / 2) k

-- Digit `k` of `a | b`.
pub bit-bit_or : (a b k : ℕ) → bit (bit_or a b) k ≡ max (bit a k) (bit b k)
unfolding bit
bit-bit_or a b zero = omega (arith, bit_or_halves a b)
bit-bit_or a b (suc k) =
    ap (λ t. bit t k) (omega (arith, bit_or_halves a b)) ∙ bit-bit_or (a / 2) (b / 2) k

bit-zero : (k : ℕ) → bit 0 k ≡ 0
unfolding bit
bit-zero zero = refl
bit-zero (suc k) = bit-zero k

-- `1 << j` has digit `j` alone.
pub bit-pow : (j k : ℕ) → bit (2 ^ j) k ≡ (if j == k then 1 else 0)
unfolding bit
bit-pow zero zero = refl
bit-pow zero (suc k) = bit-zero k ∙ ground arith
bit-pow (suc j) zero = ground (arith, pow-suc 2 j)
bit-pow (suc j) (suc k) =
    ap (λ t. bit t k) (omega (arith, pow-suc 2 j)) ∙ bit-pow j k ∙ ground arith

-- `~x` flips each digit of an `n`-bit word.
pub bit-complement : (n x k : ℕ) → x < 2 ^ n → k < n → bit (complement n x) k ≡ 1 - bit x k
unfolding bit
bit-complement zero x k h lt = absurd (omega arith)
bit-complement (suc n) x zero h lt = omega (arith, pow-suc 2 n)
bit-complement (suc n) x (suc k) h lt =
    ap (λ t. bit t k) (omega (arith, pow-suc 2 n))
    ∙ bit-complement n (x / 2) k (omega (arith, pow-suc 2 n)) (omega arith)

bit_and_zero_right : (n a : ℕ) → a ≤ n → bit_and a 0 ≡ 0
bit_and_zero_right zero zero h = refl
bit_and_zero_right zero (suc a) h = absurd (omega arith)
bit_and_zero_right (suc n) zero h = refl
bit_and_zero_right (suc n) (suc a) h =
    omega (arith, bit_and_halves (suc a) 0, bit_and_zero_right n (suc a / 2) (omega arith))

-- `w & (1 << k)` is digit `k` in its place, so the test `!= 0` reads that digit.
pub bit_and-pow : (w k : ℕ) → bit_and w (2 ^ k) ≡ bit w k * 2 ^ k
unfolding bit
bit_and-pow w zero =
    omega (arith, bit_and_halves w 1, bit_and_zero_right (w / 2) (w / 2) (omega arith))
bit_and-pow w (suc k) = omega (
  arith,
  bit_and_halves w (2 ^ suc k),
  pow-suc 2 k,
  half,
  bit_and-pow (w / 2) k,
  ap (λ t. bit (w / 2) k * t) (pow-suc 2 k),
)
  where
    half : bit_and (w / 2) (2 ^ suc k / 2) ≡ bit_and (w / 2) (2 ^ k)
    half = ap (λ t. bit_and (w / 2) t) (omega (arith, pow-suc 2 k))

pub pow_pos : (k : ℕ) → 0 < 2 ^ k
pow_pos zero = omega arith
pow_pos (suc k) = omega (arith, pow-suc 2 k, pow_pos k)

pub lt-pow : (j n : ℕ) → j < n → 2 ^ j < 2 ^ n
lt-pow j zero h = absurd (omega arith)
lt-pow zero (suc n) h = omega (arith, pow-suc 2 n, pow_pos n)
lt-pow (suc j) (suc n) h = omega (arith, pow-suc 2 j, pow-suc 2 n, lt-pow j n (omega arith))

-- The test `(w & (1 << k)) != 0` passes exactly where digit `k` is 1.
pub bit_and-pow_zero : (w k : ℕ) → (bit_and w (2 ^ k) == 0) ≡ (bit w k == 0)
bit_and-pow_zero w k = digit (bit w k) (bit-le-one w k) (bit_and-pow w k)
  where
    digit : (d : ℕ) → d ≤ 1 → bit_and w (2 ^ k) ≡ d * 2 ^ k → (bit_and w (2 ^ k) == 0) ≡ (d == 0)
    digit zero h e = ground arith
    digit (suc zero) h e = ground (arith, pow_pos k)
    digit (suc (suc d)) h e = absurd (omega arith)

-- `w | (1 << j)` sets digit `j` and keeps the others.
pub bit-set : (w j k : ℕ) → bit (bit_or w (2 ^ j)) k ≡ (if j == k then 1 else bit w k)
bit-set w j k = ground (arith, bit-bit_or w (2 ^ j) k, bit-pow j k, bit-le-one w k)

-- `w & ~(1 << j)` clears digit `j` and keeps the others, in an `n`-bit word.
pub bit-clear :
    (n w j k : ℕ)
    → j < n
    → k < n
    → bit (bit_and w (complement n (2 ^ j))) k ≡ (if j == k then 0 else bit w k)
bit-clear n w j k hj hk = ground (
  arith,
  bit-bit_and w (complement n (2 ^ j)) k,
  bit-complement n (2 ^ j) k (lt-pow j n hj) hk,
  bit-pow j k,
  bit-le-one w k,
)
