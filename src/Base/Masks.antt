-- ===== src/Base/Masks.antt =====
-- `x & ~(2^k - 1)`: a word rounded down to a power of two.
use Prim.Native.Nat.{ℕ, zero, suc, ◌+◌, ◌-◌, ◌*◌, ◌/◌, ◌%◌, ◌^◌, ◌≤◌, ◌<◌, min, bit_and}
use mathlib.Core.Path.{◌≡◌, refl, sym, ap, ◌∙◌}
use native.Mathlib.Omega.{arith}
use native.Mathlib.Nat.{pow-suc, mod-eq-sub-div-mul, div-mul-le_self, div-div-eq-div-mul}
use cobra_os.Base.Bits.{complement, bit_and_halves, pow_pos}

bit_and_full : (n x : ℕ) → x < 2 ^ n → bit_and x (2 ^ n - 1) ≡ x
bit_and_full zero zero h = refl
bit_and_full zero (suc x) h = absurd (omega arith)
bit_and_full (suc n) x h = omega (
  arith,
  bit_and_halves x (2 ^ suc n - 1),
  ap (λ t. bit_and (x / 2) t) {x = (2 ^ suc n - 1) / 2} {y = 2 ^ n - 1}
      (omega (arith, pow-suc 2 n, pow_pos n)),
  bit_and_full n (x / 2) (omega (arith, pow-suc 2 n)),
  pow-suc 2 n,
  pow_pos n,
)

-- The remainder, one digit at a time.
mod_digits : (k x : ℕ) → x % 2 ^ suc k ≡ x / 2 % 2 ^ k * 2 + x % 2
mod_digits k x = omega (
  arith,
  mod-eq-sub-div-mul x (2 ^ suc k),
  mod-eq-sub-div-mul (x / 2) (2 ^ k),
  div-mul-le_self (x / 2) (2 ^ k),
  ap (λ t. t * 2 ^ suc k) quotient,
  ap (λ t. x / 2 / 2 ^ k * t) (pow-suc 2 k),
)
  where
    quotient : x / 2 ^ suc k ≡ x / 2 / 2 ^ k
    quotient =
        ap (λ t. x / t) {x = 2 ^ suc k} {y = 2 * 2 ^ k} (omega (arith, pow-suc 2 k))
        ∙ sym (div-div-eq-div-mul x 2 (2 ^ k))

pow_le : (k n : ℕ) → k ≤ n → 2 ^ k ≤ 2 ^ n
pow_le zero n h = omega (arith, pow_pos n)
pow_le (suc k) zero h = absurd (omega arith)
pow_le (suc k) (suc n) h = omega (arith, pow-suc 2 k, pow-suc 2 n, pow_le k n (omega arith))

-- A mask of the digits from `k` on, in a word of `n` digits.
pub bit_and-mask :
    (n k x : ℕ) → k ≤ n → x < 2 ^ n → bit_and x (complement n (2 ^ k - 1)) ≡ x - x % 2 ^ k
bit_and-mask n zero x h lt =
    ap (λ t. bit_and x t) {x = complement n (2 ^ 0 - 1)} {y = 2 ^ n - 1} (omega arith)
    ∙ bit_and_full n x lt
    ∙ omega arith
bit_and-mask zero (suc k) x h lt = absurd (omega arith)
bit_and-mask (suc n) (suc k) x h lt = omega (
  arith,
  bit_and_halves x (complement (suc n) (2 ^ suc k - 1)),
  ap (λ t. bit_and (x / 2) t) {x = complement (suc n) (2 ^ suc k - 1) / 2}
      {y = complement n (2 ^ k - 1)}
      (omega (arith, pow-suc 2 n, pow-suc 2 k, pow_pos k, pow_le k n (omega arith))),
  even,
  bit_and-mask n k (x / 2) (omega arith) (omega (arith, pow-suc 2 n)),
  mod_digits k x,
  ap (λ t. min (x % 2) t) even,
  min_zero (x % 2),
)
  where
    even : complement (suc n) (2 ^ suc k - 1) % 2 ≡ 0
    even = omega (arith, pow-suc 2 n, pow-suc 2 k, pow_pos k, pow_le k n (omega arith))

    min_zero : (y : ℕ) → min y 0 ≡ 0
    min_zero y = omega arith
