-- ===== src/Heap/Search.antt =====
-- The two searches of buddy_alloc in arch/x86/kernel/heap.c: the order that fits, and the first order
-- from there on with a free block.
use cobra_os.Base.{
  ℕ, zero, suc, ◌+◌, ◌≤◌, ◌<◌, ◌^◌, ◌≡◌, ◌⊎◌, inl, inr, arith, ltb, Bool-cases, none, some,
  Option-cases, ap, ◌∙◌,
}
use cobra_os.Heap.{HeapState, first}
use cobra_os.Heap.Alloc.{fitting_order, order_with_block}

-- The order lies between the bounds, every smaller one is too small, and it is large enough unless it
-- is the largest.
pub fitting_order-fits :
    (n o total : ℕ)
    → (o ≤ fitting_order n o total)
      × (fitting_order n o total ≤ o + n)
      × ((j : ℕ) → o ≤ j → j < fitting_order n o total → 2 ^ j < total)
      × ((fitting_order n o total ≡ o + n) ⊎ (total ≤ 2 ^ fitting_order n o total))
unfolding fitting_order
fitting_order-fits zero o total =
    (omega arith, omega arith, λ j p q. absurd (omega arith), inl (omega arith))
fitting_order-fits (suc n) o total = elim (Bool-cases (ltb (2 ^ o) total)) [
  | inl e ↦
      let (lo, hi, small, large) = fitting_order-fits n (o + 1) total in
      rw e (
        omega arith,
        omega arith,
        λ j p q. elim (Bool-cases (ltb o j)) [
          | inl f ↦ small j (ground arith) q
          | inr f ↦ let same : j ≡ o = ground arith in rw same (ground arith)
        ],
        elim large [ inl f ↦ inl (omega arith) | inr f ↦ inr f ],
      )
  | inr e ↦ rw e (omega arith, omega arith, λ j p q. absurd (omega arith), inr (ground arith))
]

-- The order lies between the bounds, the lists before it are empty, and its own is not, unless the
-- search came to its end.
pub order_with_block-first :
    (n : ℕ) (h : HeapState) (o : ℕ)
    → (o ≤ order_with_block n h o)
      × (order_with_block n h o ≤ o + n)
      × ((j : ℕ) → o ≤ j → j < order_with_block n h o → first (h.free_lists j) ≡ none)
      × ((order_with_block n h o ≡ o + n)
          ⊎ ((b : ℕ) × (first (h.free_lists (order_with_block n h o)) ≡ some b)))
unfolding order_with_block
order_with_block-first zero h o =
    (omega arith, omega arith, λ j p q. absurd (omega arith), inl (omega arith))
order_with_block-first (suc n) h o = elim (Option-cases (first (h.free_lists o))) [
  | inl e ↦
      let (lo, hi, before, found) = order_with_block-first n h (o + 1) in
      rw e (
        omega arith,
        omega arith,
        λ j p q. elim (Bool-cases (ltb o j)) [
          | inl f ↦ before j (ground arith) q
          | inr f ↦ ap (λ i. first (h.free_lists i)) {x = j} {y = o} (ground arith) ∙ e
        ],
        elim found [ inl f ↦ inl (omega arith) | inr f ↦ inr f ],
      )
  | inr (b, e) ↦ rw e (omega arith, omega arith, λ j p q. absurd (omega arith), inr (b, e))
]
