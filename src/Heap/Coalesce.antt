-- ===== src/Heap/Coalesce.antt =====
-- coalesce of arch/x86/kernel/heap.c on a heap that stands for a buddy tree.
use cobra_os.Base.{
  ℕ, zero, suc, ◌+◌, ◌-◌, ◌<◌, ◌^◌, ◌==◌, ltb, if◌then◌else◌, ◌≡◌, ◌⊎◌, inl, inr, refl, sym, arith,
  List, Option, some, ap, ◌∙◌, ◌||◌, not, Bool-cases, true, false, subst,
}
use Prim.Native.Nat.{bit_xor}
use cobra_os.Heap.{
  HeapState, order_of, free_of, set_order, set_free, set_list, remove_free_block, buddy_of,
  coalesce_loop,
}
use cobra_os.Heap.Alloc.{aligned_start}
use cobra_os.Heap.Sizes.{size, size_min, bit_xor_left, bit_xor_right}
use cobra_os.Heap.Tree.{
  Tree, vacant, halves, at, Headed, Sub, plug, Headed-Sub, Headed-vacant, Headed-halves,
  vacant_of_header, Sub-plug, Sub-Aligned,
}
use cobra_os.Heap.Places.{Parent-Sub, root, first_half, second_half}
use cobra_os.Heap.Listed.{count}
use cobra_os.Heap.Invariant.{top, Describes, held, start_Aligned}
use cobra_os.Heap.Merge.{Buddies, buddy-Removal, joined, joined-Describes, joined-held}

-- a round that goes on
coalesce_loop_next :
    (n : ℕ) (h removed : HeapState) (c o buddy d p : ℕ)
    → buddy_of h c ≡ buddy
    → ((free_of h buddy == 0) || not (order_of h buddy == o)) ≡ false
    → remove_free_block h buddy ≡ some removed
    → (if ltb buddy c then buddy else c) ≡ d
    → o + 1 ≡ p
    → coalesce_loop (suc n) h c o ≡ coalesce_loop n (set_free (set_order removed d p) d 1) d p
unfolding coalesce_loop
coalesce_loop_next n h removed c o buddy d p e f g l q = rw (e, f, g, l, q) refl

-- a round that ends the loop
coalesce_loop_last :
    (n : ℕ) (h : HeapState) (c o buddy : ℕ)
    → buddy_of h c ≡ buddy
    → ((free_of h buddy == 0) || not (order_of h buddy == o)) ≡ true
    → coalesce_loop (suc n) h c o ≡ some (h, c)
unfolding coalesce_loop
coalesce_loop_last n h c o buddy e f = rw (e, f) refl

-- What one round makes of a heap with the vacant block of level `k` at `c` in hand: the loop ends, or
-- goes on with the parent in hand.
abbrev Round : ℕ → HeapState → Tree → ℕ → ℕ → Type 0
Round n h t k c =
    (coalesce_loop (suc n) h c (k + 5) ≡ some (h, c))
    ⊎ ((h' : HeapState) × (t' : Tree) × (m : ℕ) × (d : ℕ) × (m ≡ k + 1)
        × (coalesce_loop (suc n) h c (k + 5) ≡ coalesce_loop n h' d (m + 5))
        × Describes h' t' (at m d)
        × Sub vacant m d t' top aligned_start
        × ((o x : ℕ) → held t' o x ≡ held t o x))

module _ (n : ℕ) (h : HeapState) (t : Tree) (m d c buddy : ℕ) (lt : 0 < m)
    (desc : Describes h t (at (m - 1) c)) (halved : Buddies m d c buddy)
    (beside : buddy_of h c ≡ buddy) where
  merge :
      ((free_of h buddy == 0) || not (order_of h buddy == m - 1 + 5)) ≡ false
      → Sub (halves vacant vacant) m d t top aligned_start
      → Round n h t (m - 1) c
  unfolding joined
  merge go place =
      let (kept, removed, counted) = buddy-Removal h t m d c buddy lt desc place halved in
      inr (
        joined h t m d c buddy lt desc place halved kept counted,
        plug place vacant,
        m,
        d,
        omega arith,
        coalesce_loop_next n h (set_list h (m - 1 + 5) kept) c (m - 1 + 5) buddy d (m + 5) beside go
              removed lower (omega arith)
            ∙ ap (λ g. coalesce_loop n g d (m + 5)) (unfolded place kept counted),
        joined-Describes h t m d c buddy lt desc place halved kept counted,
        Sub-plug vacant place,
        joined-held h t m d c buddy lt desc place halved kept counted,
      )
    where
      lower : (if ltb buddy c then buddy else c) ≡ d
      lower = ground (arith, size_min (m - 1))

      unfolded :
          (place : Sub (halves vacant vacant) m d t top aligned_start) (kept : List ℕ)
          (counted : (x : ℕ)
            → count x kept + (if buddy == x then 1 else 0) ≡ count x (h.free_lists (m - 1 + 5)))
          → set_free (set_order (set_list h (m - 1 + 5) kept) d (m + 5)) d 1
            ≡ joined h t m d c buddy lt desc place halved kept counted
      unfolded place kept counted = refl

  -- `l` and `r` are the halves, and `y` is the one at the buddy.
  examined :
      (y l r : Tree)
      → Sub (halves l r) m d t top aligned_start
      → Headed h.word y (m - 1) buddy
      → (y ≡ vacant → halves l r ≡ halves vacant vacant)
      → Round n h t (m - 1) c
  examined y l r place header pair =
      elim (Bool-cases ((free_of h buddy == 0) || not (order_of h buddy == m - 1 + 5))) [
        | inl e ↦ inl (coalesce_loop_last n h c (m - 1 + 5) buddy beside e)
        | inr e ↦ merge e (
            subst (λ x. Sub x m d t top aligned_start)
              (pair (vacant_of_header h.word y (m - 1) buddy header (ground arith) (ground arith)))
              place)
      ]

at_buddy :
    (h : HeapState) (c o buddy : ℕ)
    → order_of h c ≡ o
    → bit_xor c (2 ^ o) ≡ buddy
    → buddy_of h c ≡ buddy
unfolding buddy_of
at_buddy h c o buddy e f = rw (e, f) refl

coalesce-Round :
    (n : ℕ) (h : HeapState) (t : Tree) (k c : ℕ)
    → k < top
    → Describes h t (at k c)
    → Sub vacant k c t top aligned_start
    → Round n h t k c
coalesce-Round n h t k c small d place = elim (Parent-Sub place) [
  | root f g l ↦ absurd (omega arith)
  | first_half y m lt f s ↦
      let (_, l, r) = Headed-halves h.word vacant y m c (Headed-Sub h.word s d.headed) in
      let (order, _) = Headed-vacant h.word (m - 1) c l in
      subst (λ x. Round n h t x c) f
        (examined n h t m c c (c + size (m - 1)) lt (subst (λ x. Describes h t (at x c)) (sym f) d)
          (inl (refl, refl))
          (at_buddy h c (m - 1 + 5) (c + size (m - 1)) order
            (bit_xor_left m c lt (Sub-Aligned s start_Aligned)))
          y vacant y s r (λ e. ap (λ u. halves vacant u) e))
  | second_half y m p lt f g s ↦
      let (_, l, r) = Headed-halves h.word y vacant m p (Headed-Sub h.word s d.headed) in
      let (order, _) = Headed-vacant h.word (m - 1) (p + size (m - 1)) r in
      subst (λ x. Round n h t x c) f
        (examined n h t m p c p lt (subst (λ x. Describes h t (at x c)) (sym f) d)
          (inr (sym g, refl))
          (at_buddy h c (m - 1 + 5) p (ap (λ x. order_of h x) (sym g) ∙ order) (
            ap (λ x. bit_xor x (2 ^ (m - 1 + 5))) (sym g)
            ∙ bit_xor_right m p lt (Sub-Aligned s start_Aligned)))
          y y vacant s l (λ e. ap (λ u. halves u vacant) e))
]

-- The loop ends without a panic, with a vacant block in hand and the same blocks handed out.
abbrev pub Coalesced : Tree → Option (HeapState × ℕ) → Type 0
Coalesced t r =
    (h' : HeapState) × (t' : Tree) × (m : ℕ) × (b : ℕ) × (r ≡ some (h', b))
    × Describes h' t' (at m b)
    × Sub vacant m b t' top aligned_start
    × ((o x : ℕ) → held t' o x ≡ held t o x)

pub coalesce_loop-Coalesced :
    (n : ℕ) (h : HeapState) (t : Tree) (k c : ℕ)
    → k + n ≡ top
    → Describes h t (at k c)
    → Sub vacant k c t top aligned_start
    → Coalesced t (coalesce_loop n h c (k + 5))
unfolding coalesce_loop
coalesce_loop-Coalesced zero h t k c e d place = (h, t, k, c, refl, d, place, λ o x. refl)
coalesce_loop-Coalesced (suc n) h t k c e d place =
    elim (coalesce-Round n h t k c (omega arith) d place) [
      | inl f ↦ (h, t, k, c, f, d, place, λ o x. refl)
      | inr (h1, t1, m, p, l, f, d1, place1, same) ↦
          let (h2, t2, m2, b, g, d2, place2, same2) =
            coalesce_loop-Coalesced n h1 t1 m p (omega arith) d1 place1 in
          (h2, t2, m2, b, f ∙ g, d2, place2, λ o x. same2 o x ∙ same o x)
    ]
