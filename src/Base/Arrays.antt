-- ===== src/Base/Arrays.antt =====
-- A C array as a function of the index. The bounds of an array are no part of it: each access is
-- guarded by the model or shown to be in range by an invariant.
use Prim.Native.Nat.{ℕ, zero, suc, ◌+◌, ◌≤◌, ◌<◌}
use mathlib.Core.Path.{◌≡◌, refl, ap, ap₂, ◌∙◌}
use mathlib.Core.List.{List, [], ◌∷◌, ◌++◌}
use native.Mathlib.Omega.{arith}
use cobra_os.Base.Tests.{◌==◌, if◌then◌else◌}

abbrev pub Array : Type 0
Array = ℕ → ℕ

module _ {ℓ} {A : Type ℓ} where
  -- `f[i] = v`
  abbrev pub update : (ℕ → A) → ℕ → A → ℕ → A
  update f i v j = if j == i then v else f j

  -- `f[i], f[i + 1], …`, `n` of them
  abbrev pub window : (ℕ → A) → ℕ → ℕ → List A
  window f i zero = []
  window f i (suc n) = f i ∷ window f (suc i) n

  -- the first `n` elements
  abbrev pub cells : (ℕ → A) → ℕ → List A
  cells f n = window f 0 n

  pub window_cong :
      (f g : ℕ → A) (i n : ℕ)
      → ((j : ℕ) → i ≤ j → j < i + n → f j ≡ g j)
      → window f i n ≡ window g i n
  window_cong f g i zero h = refl
  window_cong f g i (suc n) h =
      ap₂ ◌∷◌ (h i (omega arith) (omega arith))
        (window_cong f g (suc i) n (λ j p q. h j (omega arith) (omega arith)))

  -- A write outside a window leaves it alone.
  pub window-update_out :
      (f : ℕ → A) (i n k : ℕ) (v : A) → (k < i) → window (update f k v) i n ≡ window f i n
  window-update_out f i n k v h = window_cong (update f k v) f i n (λ j p q. ground arith)

  -- Two stretches that agree position by position are one list.
  pub window_agree :
      (f g : ℕ → A) (i j n : ℕ)
      → ((k : ℕ) → k < n → f (i + k) ≡ g (j + k))
      → window f i n ≡ window g j n
  window_agree f g i j zero h = refl
  window_agree f g i j (suc n) h =
      ap₂ ◌∷◌ (head (h 0 (omega arith)))
        (window_agree f g (suc i) (suc j) n (λ k lt. next k (h (suc k) (omega arith))))
    where
      head : f (i + 0) ≡ g (j + 0) → f i ≡ g j
      head e = ground arith

      next : (k : ℕ) → f (i + suc k) ≡ g (j + suc k) → f (suc i + k) ≡ g (suc j + k)
      next k e = ground arith

  pub window-snoc : (f : ℕ → A) (i n : ℕ) → window f i (suc n) ≡ window f i n ++ (f (i + n) ∷ [])
  window-snoc f i zero = ground arith
  window-snoc f i (suc n) = ground (arith, window-snoc f (suc i) n)

  -- A window in two parts.
  pub window-add : (f : ℕ → A) (i m n : ℕ) → window f i (m + n) ≡ window f i m ++ window f (i + m) n
  window-add f i zero n =
      ap (window f i) {x = 0 + n} {y = n} (omega arith)
      ∙ ap (λ k. window f k n) {x = i} {y = i + 0} (omega arith)
  window-add f i (suc m) n =
      ap (window f i) {y = suc (m + n)} (omega arith)
      ∙ ap (λ l. f i ∷ l)
          (window-add f (suc i) m n
            ∙ ap (λ k. window f (suc i) m ++ window f k n) {y = i + suc m} (omega arith))
