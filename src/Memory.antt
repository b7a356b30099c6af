-- ===== src/Memory.antt =====
-- memcpy and memmove of lib/string.c on arrays of elements of one type, and what each position holds
-- afterwards.
pub mod Copy
pub mod Heap
pub mod Fill
use cobra_os.Base.{
  ℕ, zero, suc, ◌+◌, ◌-◌, ◌<◌, ◌≤◌, ◌≡◌, refl, update, window, ltb, leb, ◌&&◌, if◌then◌else◌, arith,
  Bool-cases, inl, inr,
}
use Copy.{memcpy, memmove, forward, backward}

module _ {A : Type 0} where
  -- a copy of the elements `si ≤ i < si + n` of `s` at `di` of `d`
  abbrev pub copied : (ℕ → A) → ℕ → (ℕ → A) → ℕ → ℕ → ℕ → A
  copied d di s si n j = if leb di j && ltb j (di + n) then s (j + si - di) else d j

  pub memcpy_at :
      (d : ℕ → A) (di : ℕ) (s : ℕ → A) (si n j : ℕ) → memcpy d di s si n j ≡ copied d di s si n j
  unfolding memcpy
  memcpy_at d di s si zero j = ground arith
  memcpy_at d di s si (suc n) j =
      ground (arith, memcpy_at (update d di (s si)) (suc di) s (suc si) n j)

  forward_at : (f : ℕ → A) (d s n j : ℕ) → d < s → forward f d s n j ≡ copied f d f s n j
  unfolding forward
  forward_at f d s zero j lt = ground arith
  forward_at f d s (suc n) j lt =
      ground (arith, forward_at (update f d (f s)) (suc d) (suc s) n j (omega arith))

  backward_at : (f : ℕ → A) (d s n j : ℕ) → s < d → backward f d s n j ≡ copied f d f s n j
  unfolding backward
  backward_at f d s zero j lt = ground arith
  backward_at f d s (suc n) j lt =
      ground (arith, backward_at (update f (d + n) (f (s + n))) d s n j lt)

  -- memmove moves overlapping elements as if it copied them from a second array: its choice of the
  -- direction makes it agree with memcpy from an untouched copy, at every position.
  pub memmove-memcpy : (f : ℕ → A) (d s n j : ℕ) → memmove f d s n j ≡ memcpy f d f s n j
  unfolding memmove
  memmove-memcpy f d s n j = elim (Bool-cases (ltb d s)) [
    | inl lt ↦ rw lt (ground (arith, forward_at f d s n j, memcpy_at f d f s n j))
    | inr ge ↦ rw ge (elim (Bool-cases (ltb s d)) [
      | inl lt ↦ rw lt (ground (arith, backward_at f d s n j, memcpy_at f d f s n j))
      | inr eq ↦ rw eq (ground (arith, memcpy_at f d f s n j))
    ])
  ]

  pub memmove_at : (f : ℕ → A) (d s n j : ℕ) → memmove f d s n j ≡ copied f d f s n j
  memmove_at f d s n j = ground (arith, memmove-memcpy f d s n j, memcpy_at f d f s n j)
