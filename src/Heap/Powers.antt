-- ===== src/Heap/Powers.antt =====
-- The alignment that kmalloc_aligned of arch/x86/kernel/heap.c works with is a power of two.
use cobra_os.Base.{
  ℕ, zero, suc, ◌+◌, ◌-◌, ◌*◌, ◌/◌, ◌%◌, ◌≤◌, ◌<◌, ◌^◌, ◌==◌, ltb, if◌then◌else◌, ◌≡◌, refl, sym,
  arith, Bool-cases, some, ap, ◌∙◌, inl, inr, bit_and, false, eq_of_==,
}
use cobra_os.Base.Bits.{bit_and_halves, lt-pow}
use cobra_os.Heap.Alloc.{size_max, power_from, usable_alignment}
use native.Mathlib.Nat.{pow-suc}

bit_and_self : (n x : ℕ) → x ≤ n → bit_and x x ≡ x
bit_and_self zero zero h = refl
bit_and_self zero (suc x) h = absurd (omega arith)
bit_and_self (suc n) zero h = refl
bit_and_self (suc n) (suc x) h =
    omega (arith, bit_and_halves (suc x) (suc x), bit_and_self n (suc x / 2) (omega arith))

-- `(a & (a - 1)) == 0` holds of powers of two alone.
power_of_test : (f a : ℕ) → a ≤ f → 0 < a → bit_and a (a - 1) ≡ 0 → (e : ℕ) × (a ≡ 2 ^ e)
power_of_test zero a h pos e = absurd (omega arith)
power_of_test (suc f) a h pos e = elim (Bool-cases (a % 2 == 0)) [
  | inl even ↦
      let (k, g) = power_of_test f (a / 2) (ground arith) (ground arith) (
        ground (
          arith,
          bit_and_halves a (a - 1),
          ap (λ t. bit_and (a / 2) t) {x = (a - 1) / 2} {y = a / 2 - 1} (ground arith),
        )) in
      (suc k, ground (arith, pow-suc 2 k))
  | inr odd ↦ (
    0,
    ground (
      arith,
      bit_and_halves a (a - 1),
      ap (λ t. bit_and (a / 2) t) {x = (a - 1) / 2} {y = a / 2} (ground arith),
      bit_and_self (a / 2) (a / 2) (omega arith),
    ),
  )
]

-- The doubling ends at a power of two that is large enough.
power_from-power :
    (n e alignment : ℕ)
    → alignment ≤ 2 ^ 31
    → 31 < e + n
    → e ≤ 31
    → (p : ℕ) × (power_from n (2 ^ e) alignment ≡ some (2 ^ p)) × (alignment ≤ 2 ^ p) × (p ≤ 31)
unfolding power_from
power_from-power zero e alignment le enough bound = absurd (omega arith)
power_from-power (suc n) e alignment le enough bound = elim (Bool-cases (ltb (2 ^ e) alignment)) [
  | inl lt ↦
      let (p, f, g, h) =
        power_from-power n (e + 1) alignment le (omega arith) (below e bound (ground arith)) in
      (p, rw (lt, fits e (ground arith)) (ap (λ x. power_from n x alignment) (doubled e) ∙ f), g, h)
  | inr ge ↦ (e, rw ge refl, ground arith, bound)
]
  where
    doubled : (e : ℕ) → 2 ^ e * 2 ≡ 2 ^ (e + 1)
    doubled e = sym (ap (λ x. 2 ^ x) {x = e + 1} {y = suc e} (omega arith) ∙ pow-suc 2 e)

    fits : (e : ℕ) → 2 ^ e < 2 ^ 31 → ltb (size_max / 2) (2 ^ e) ≡ false
    fits e h = ground arith

    below : (e : ℕ) → e ≤ 31 → 2 ^ e < 2 ^ 31 → e + 1 ≤ 31
    below e b h = elim (Bool-cases (e == 31)) [
      | inl q ↦ absurd (omega (arith, ap (λ x. 2 ^ x) (eq_of_== e 31 q)))
      | inr q ↦ ground arith
    ]

exponent_bound : (e : ℕ) → 2 ^ e ≤ 2 ^ 31 → e ≤ 31
exponent_bound e h = elim (Bool-cases (ltb 31 e)) [
  | inl lt ↦ absurd (omega (arith, lt-pow 31 e (ground arith)))
  | inr ge ↦ ground arith
]

rounded_up :
    (a : ℕ)
    → 4 ≤ a
    → a ≤ 2 ^ 31
    → (e : ℕ) × ((if bit_and a (a - 1) == 0 then some a else power_from 33 1 a) ≡ some (2 ^ e))
      × (a ≤ 2 ^ e)
      × (e ≤ 31)
rounded_up a lo hi = elim (Bool-cases (bit_and a (a - 1) == 0)) [
  | inl test ↦
      let (e, f) = power_of_test a a (omega arith) (omega arith) (eq_of_== _ _ test) in
      (e, rw test (ap some f), omega (arith, f), exponent_bound e (omega (arith, f)))
  | inr test ↦
      let (e, f, g, h) = power_from-power 33 0 a hi (omega arith) (omega arith) in
      (e, rw test f, g, h)
]

pub usable_alignment-power :
    (alignment : ℕ)
    → alignment ≤ 2 ^ 31
    → (e : ℕ) × (usable_alignment alignment ≡ some (2 ^ e))
      × (alignment ≤ 2 ^ e)
      × (4 ≤ 2 ^ e)
      × (e ≤ 31)
unfolding usable_alignment
usable_alignment-power alignment le = elim (Bool-cases (ltb alignment 4)) [
  | inl lt ↦
      let (e, f, g, h) = rounded_up 4 (omega arith) (omega arith) in
      (e, rw lt f, ground arith, g, h)
  | inr ge ↦
      let (e, f, g, h) = rounded_up alignment (ground arith) le in (e, rw ge f, g, ground arith, h)
]
