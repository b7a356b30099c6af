-- ===== src/Memory/Copy.antt =====
-- memcpy and memmove of lib/string.c. The pointers of memmove lie in one array, at offsets `d` and
-- `s`; memcpy copies between two. An element stands for the bytes of one element of the C array.
use cobra_os.Base.{ℕ, zero, suc, ◌+◌, update, ltb, if◌then◌else◌}

module _ {ℓ} {A : Type ℓ} where
  unfoldable pub memcpy : (ℕ → A) → ℕ → (ℕ → A) → ℕ → ℕ → ℕ → A
  memcpy d di s si zero = d
  memcpy d di s si (suc n) = memcpy (update d di (s si)) (suc di) s (suc si) n

  -- `for (i = 0; i < n; i++) d[i] = s[i]`
  unfoldable pub forward : (ℕ → A) → ℕ → ℕ → ℕ → ℕ → A
  forward f d s zero = f
  forward f d s (suc n) = forward (update f d (f s)) (suc d) (suc s) n

  -- `for (i = n; i > 0; i--) d[i - 1] = s[i - 1]`
  unfoldable pub backward : (ℕ → A) → ℕ → ℕ → ℕ → ℕ → A
  backward f d s zero = f
  backward f d s (suc n) = backward (update f (d + n) (f (s + n))) d s n

  unfoldable pub memmove : (ℕ → A) → ℕ → ℕ → ℕ → ℕ → A
  memmove f d s n = if ltb d s then forward f d s n else if ltb s d then backward f d s n else f
