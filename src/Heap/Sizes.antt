-- ===== src/Heap/Sizes.antt =====
-- Block sizes by their level above the smallest block, and where the buddy of a block lies.
use cobra_os.Base.{
  ℕ, zero, suc, ◌+◌, ◌-◌, ◌*◌, ◌/◌, ◌%◌, ◌^◌, ◌≤◌, ◌<◌, ◌≡◌, refl, sym, ap, ◌∙◌, arith,
}
use cobra_os.Base.Bits.{digits_enough}
use Prim.Native.Nat.{bit_xor, bit_xor-bitwise, differ}
use native.Mathlib.Nat.{pow-suc}

bit_xor_halves : (a b : ℕ) → bit_xor a b ≡ bit_xor (a / 2) (b / 2) * 2 + differ (a % 2) (b % 2)
bit_xor_halves zero b =
    omega (arith, bit_xor-bitwise 0 b, bit_xor-bitwise 0 (b / 2), differ_zero (b % 2))
  where
    differ_zero : (y : ℕ) → differ 0 y ≡ y
    differ_zero y = refl
bit_xor_halves (suc a) b = omega (
  arith,
  bit_xor-bitwise (suc a) b,
  bit_xor-bitwise (suc a / 2) (b / 2),
  digits_enough (λ b. b) differ a (suc a / 2) (suc a / 2) (b / 2) (omega arith) (omega arith),
)

differ_to_zero : (x : ℕ) → differ x 0 ≡ x
differ_to_zero zero = refl
differ_to_zero (suc x) = refl

twice : (q k : ℕ) → 2 * q * 2 ^ suc k ≡ 2 * (2 * q * 2 ^ k)
twice q k = ap (λ t. 2 * q * t) (pow-suc 2 k) ∙ omega arith

bit_xor_zero : (n a : ℕ) → a ≤ n → bit_xor a 0 ≡ a
bit_xor_zero zero zero h = refl
bit_xor_zero zero (suc a) h = absurd (omega arith)
bit_xor_zero (suc n) zero h = refl
bit_xor_zero (suc n) (suc a) h = omega (
  arith,
  bit_xor_halves (suc a) 0,
  bit_xor_zero n (suc a / 2) (omega arith),
  differ_to_zero (suc a % 2),
)

-- One digit more at the low end of both words.
bit_xor_double : (a b : ℕ) → bit_xor (2 * a) (2 * b) ≡ 2 * bit_xor a b
bit_xor_double a b = omega (
  arith,
  bit_xor_halves (2 * a) (2 * b),
  ap (λ t. bit_xor t (2 * b / 2)) {x = 2 * a / 2} {y = a} (omega arith),
  ap (λ t. bit_xor a t) {x = 2 * b / 2} {y = b} (omega arith),
  ap (λ t. differ t (2 * b % 2)) {x = 2 * a % 2} {y = 0} (omega arith),
)

-- `a ^ (1 << k)` for an even multiple `a` of `2 ^ k`, and for the odd one behind it
bit_xor_even : (k q : ℕ) → bit_xor (2 * q * 2 ^ k) (2 ^ k) ≡ 2 * q * 2 ^ k + 2 ^ k
bit_xor_even zero q = omega (
  arith,
  bit_xor_halves (2 * q * 1) 1,
  bit_xor_zero q q (omega arith),
  ap (λ t. bit_xor t 0) {x = 2 * q * 1 / 2} {y = q} (omega arith),
  ap (λ t. differ t 1) {x = 2 * q * 1 % 2} {y = 0} (omega arith),
)
bit_xor_even (suc k) q = omega (
  arith,
  bit_xor_even k q,
  bit_xor_double (2 * q * 2 ^ k) (2 ^ k),
  ap (λ t. bit_xor t (2 ^ suc k)) (twice q k),
  ap (λ t. bit_xor (2 * (2 * q * 2 ^ k)) t) {x = 2 ^ suc k} {y = 2 * 2 ^ k}
      (omega (arith, pow-suc 2 k)),
  twice q k,
  pow-suc 2 k,
)

bit_xor_odd : (k q : ℕ) → bit_xor (2 * q * 2 ^ k + 2 ^ k) (2 ^ k) ≡ 2 * q * 2 ^ k
bit_xor_odd zero q = omega (
  arith,
  bit_xor_halves (2 * q * 1 + 1) 1,
  bit_xor_zero q q (omega arith),
  ap (λ t. bit_xor t 0) {x = (2 * q * 1 + 1) / 2} {y = q} (omega arith),
  ap (λ t. differ t 1) {x = (2 * q * 1 + 1) % 2} {y = 1} (omega arith),
)
bit_xor_odd (suc k) q = omega (
  arith,
  bit_xor_odd k q,
  bit_xor_double (2 * q * 2 ^ k + 2 ^ k) (2 ^ k),
  ap (λ t. bit_xor t (2 ^ suc k)) {x = 2 * q * 2 ^ suc k + 2 ^ suc k}
      {y = 2 * (2 * q * 2 ^ k + 2 ^ k)} (omega (arith, twice q k, pow-suc 2 k)),
  ap (λ t. bit_xor (2 * (2 * q * 2 ^ k + 2 ^ k)) t) {x = 2 ^ suc k} {y = 2 * 2 ^ k}
      (omega (arith, pow-suc 2 k)),
  twice q k,
)

-- The bytes of a block, by its level above the smallest block.
unfoldable pub size : ℕ → ℕ
size n = 2 ^ (n + 5)

pub size_suc : (n : ℕ) → size (suc n) ≡ size n + size n
unfolding size
size_suc n =
    ap (λ t. 2 ^ t) {x = suc n + 5} {y = suc (n + 5)} (omega arith)
    ∙ pow-suc 2 (n + 5)
    ∙ doubled (2 ^ (n + 5))
  where
    doubled : (x : ℕ) → x * 2 ≡ x + x
    doubled x = omega arith

pub size_pred : (n : ℕ) → 0 < n → size n ≡ size (n - 1) + size (n - 1)
size_pred zero h = absurd (omega arith)
size_pred (suc n) h = size_suc n ∙ ap (λ t. size t + size t) {x = n} {y = suc n - 1} (omega arith)

size_zero : 32 ≤ size 0
unfolding size
size_zero = omega arith

pub size_min : (n : ℕ) → 32 ≤ size n
size_min zero = size_zero
size_min (suc n) = omega (arith, size_suc n, size_min n)

-- The address of a block of this level is a multiple of its size.
abbrev pub Aligned : ℕ → ℕ → Type 0
Aligned n a = (q : ℕ) × (a ≡ q * size n)

even : (n a q : ℕ) → 0 < n → a ≡ q * size n → a ≡ 2 * q * size (n - 1)
even n a q lt e = e ∙ ap (λ t. q * t) (size_pred n lt) ∙ omega arith

pub Aligned-left : (n a : ℕ) → 0 < n → Aligned n a → Aligned (n - 1) a
Aligned-left n a lt (q, e) = (2 * q, even n a q lt e)

pub Aligned-right : (n a : ℕ) → 0 < n → Aligned n a → Aligned (n - 1) (a + size (n - 1))
Aligned-right n a lt (q, e) =
    (2 * q + 1, ap (λ t. t + size (n - 1)) (even n a q lt e) ∙ omega arith)

-- The buddy of the left half of a block is the right half, and the other way round.
pub bit_xor_left : (n a : ℕ) → 0 < n → Aligned n a → bit_xor a (2 ^ (n - 1 + 5)) ≡ a + size (n - 1)
unfolding size
bit_xor_left n a lt (q, e) =
    ap (λ t. bit_xor t (2 ^ (n - 1 + 5))) (even n a q lt e)
    ∙ bit_xor_even (n - 1 + 5) q
    ∙ ap (λ t. t + 2 ^ (n - 1 + 5)) (sym (even n a q lt e))

pub bit_xor_right :
    (n a : ℕ) → 0 < n → Aligned n a → bit_xor (a + size (n - 1)) (2 ^ (n - 1 + 5)) ≡ a
unfolding size
bit_xor_right n a lt (q, e) =
    ap (λ t. bit_xor (t + 2 ^ (n - 1 + 5)) (2 ^ (n - 1 + 5))) (even n a q lt e)
    ∙ bit_xor_odd (n - 1 + 5) q
    ∙ sym (even n a q lt e)
