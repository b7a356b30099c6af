-- ===== src/Heap/Granted.antt =====
-- buddy_alloc of arch/x86/kernel/heap.c on a heap that stands for a buddy tree.
use cobra_os.Base.{
  ℕ, zero, suc, ◌+◌, ◌-◌, ◌≤◌, ◌<◌, ◌^◌, ◌==◌, ltb, if◌then◌else◌, ◌≡◌, ◌⊎◌, inl, inr, refl, arith,
  Bool-cases, Option, none, some, ap, List, [], ◌∷◌, subst, false,
}
use cobra_os.Heap.{HeapState, ◌>>=◌, header_size, first}
use cobra_os.Heap.Alloc.{
  aligned_start, size_max, fitting_order, order_with_block, split_down, take_block, buddy_alloc,
}
use cobra_os.Heap.Sizes.{size, size_suc}
use cobra_os.Heap.Tree.{Tree, vacancies}
use cobra_os.Heap.Listed.{count}
use cobra_os.Heap.Invariant.{top, IsHeap}
use cobra_os.Heap.Search.{fitting_order-fits, order_with_block-first}
use cobra_os.Heap.Take.{HandsOut, take_block-HandsOut, split_down-IsHeap}

-- NULL for a request of `need` bytes: nothing changes, and no vacant block has room.
abbrev pub Refused : HeapState → Tree → ℕ → HeapState → Tree → ℕ → Type 0
Refused h t need h' t' p =
    (p ≡ 0)
    × (h' ≡ h)
    × (t' ≡ t)
    × ((m b : ℕ) → m ≤ top → need ≤ size m → vacancies t top aligned_start (m + 5) b ≡ 0)

-- A block of the smallest level with room is handed out, and the pointer is behind its header.
abbrev pub Granted : HeapState → Tree → ℕ → HeapState → Tree → ℕ → Type 0
Granted h t need h' t' p =
    (m : ℕ) × (b : ℕ) × (p ≡ b + header_size)
    × (need ≤ size m)
    × ((j : ℕ) → j < m → size j < need)
    × HandsOut h t m b h' t'

-- An answer without a panic.
abbrev pub Answers : HeapState → Tree → ℕ → Option (HeapState × ℕ) → Type 0
Answers h t need r =
    (h' : HeapState) × (t' : Tree) × (p : ℕ) × (r ≡ some (h', p))
    × (Granted h t need h' t' p ⊎ Refused h t need h' t' p)

pub size_mono : (n d : ℕ) → size n ≤ size (n + d)
size_mono n zero = omega (arith, ap size {x = n + 0} {y = n} (omega arith))
size_mono n (suc d) = omega (
  arith,
  size_mono n d,
  size_suc (n + d),
  ap size {x = n + suc d} {y = suc (n + d)} (omega arith),
)

pub size-le-size : (m n : ℕ) → m ≤ n → size m ≤ size n
size-le-size m n h =
    omega (arith, size_mono m (n - m), ap size {x = m + (n - m)} {y = n} (omega arith))

pub size-pow : (m : ℕ) → size m ≡ 2 ^ (m + 5)
unfolding size
size-pow m = refl

-- An empty list has no vacant block.
vacancies_empty :
    (h : HeapState) (t : Tree) (o b : ℕ)
    → IsHeap h t
    → first (h.free_lists o) ≡ none
    → vacancies t top aligned_start o b ≡ 0
unfolding first count
vacancies_empty h t o b d e = omega (arith, d.listed o b, none_counted (h.free_lists o) e)
  where
    none_counted : (bs : List ℕ) → first bs ≡ none → count b bs ≡ 0
    none_counted [] e = refl
    none_counted (c ∷ cs) e = absurd (cc)

-- The search that goes through: the block it finds is cut down and handed out.
found_Answers :
    (h : HeapState) (t : Tree) (m n o b need : ℕ)
    → IsHeap h t
    → o ≡ m + n + 5
    → first (h.free_lists o) ≡ some b
    → need ≤ size m
    → ((j : ℕ) → j < m → size j < need)
    → Answers h t need (split_down n h o >>= λ split. take_block split (m + 5))
found_Answers h t m n o b need d e f fits least =
    let (h1, t1, c, g, d1, same, next) = split_down-IsHeap n h t m o b d e f in
    let (h2, t2, g2, (d2, lo, al, more)) = take_block-HandsOut h1 t1 m c d1 next in
    (
      h2,
      t2,
      c + header_size,
      rw (g, g2) refl,
      inl (m, c, refl, fits, least, (d2, lo, al, λ p x. omega (arith, more p x, same p x))),
    )

-- What follows the two searches, for an order and a first order that they may give.
module _ (h : HeapState) (t : Tree) (need order o : ℕ) (d : IsHeap h t) (least : 5 ≤ order)
    (small : (j : ℕ) → 5 ≤ j → j < order → 2 ^ j < need) (large : (order ≡ 22) ⊎ (need ≤ 2 ^ order))
    (from : order ≤ o) (before : (j : ℕ) → order ≤ j → j < o → first (h.free_lists j) ≡ none)
    (found : (o ≡ 23) ⊎ ((b : ℕ) × (first (h.free_lists o) ≡ some b))) where
  smaller : (j : ℕ) → j + 5 < order → size j < need
  smaller j p = omega (arith, size-pow j, small (j + 5) (omega arith) p)

  no_room :
      2 ^ order < need
      → (m b : ℕ) → m ≤ top
      → need ≤ size m
      → vacancies t top aligned_start (m + 5) b ≡ 0
  no_room lt m b le fits = absurd (elim large [
    | inl e ↦ omega (arith, size-le-size m top le, size-pow top, ap (λ x. 2 ^ x) e)
    | inr e ↦ omega arith
  ])

  no_block :
      22 < o → (m b : ℕ) → m ≤ top → need ≤ size m → vacancies t top aligned_start (m + 5) b ≡ 0
  no_block lt m b le fits = elim (Bool-cases (ltb (m + 5) order)) [
    | inl e ↦ absurd (omega (arith, smaller m (ground arith)))
    | inr e ↦ vacancies_empty h t (m + 5) b d (before (m + 5) (ground arith) (omega arith))
  ]

  searched_Answers : Answers h t need (
      if ltb (2 ^ order) need
      then some (h, 0)
      else if ltb 22 o
      then some (h, 0)
      else (split_down (o - order) h o >>= λ split. take_block split order))
  searched_Answers = elim (Bool-cases (ltb (2 ^ order) need)) [
    | inl e ↦ (h, t, 0, rw e refl, inr (refl, refl, refl, no_room (ground arith)))
    | inr e ↦ elim (Bool-cases (ltb 22 o)) [
      | inl f ↦ (h, t, 0, rw (e, f) refl, inr (refl, refl, refl, no_block (ground arith)))
      | inr f ↦ elim found [
        | inl g ↦ absurd (ground arith)
        | inr (b, g) ↦
            let answers : Answers h t need
                (split_down (o - order) h o >>= λ split. take_block split (order - 5 + 5)) =
              found_Answers h t (order - 5) (o - order) o b need d (omega arith) g
                (ground (arith, size-pow (order - 5), same)) (λ j p. smaller j (omega arith)) in
            rw (e, f)
              (subst
                (λ x. Answers h t need (split_down (o - order) h o >>= λ split. take_block split x))
                same answers)
      ]
    ]
  ]
    where
      same : order - 5 + 5 ≡ order
      same = omega arith

-- A request beyond the largest block is refused.
pub too_large :
    (h : HeapState) (t : Tree) (need : ℕ) → size top < need → Answers h t need (some (h, 0))
too_large h t need lt = (
  h,
  t,
  0,
  refl,
  inr (refl, refl, refl, λ m b le fits. absurd (omega (arith, size-le-size m top le))),
)

pub buddy_alloc-Answers :
    (h : HeapState) (t : Tree) (n : ℕ)
    → IsHeap h t
    → 0 < n
    → Answers h t (n + header_size) (buddy_alloc h n)
unfolding buddy_alloc
buddy_alloc-Answers h t n d pos = elim (Bool-cases (ltb (size_max - header_size) n)) [
  | inl e ↦ rw (nonzero, e) (too_large h t (n + header_size) (ground (arith, size-pow top)))
  | inr e ↦
      let order = fitting_order 17 5 (n + header_size) in
      let (lo, hi, smaller, large) = fitting_order-fits 17 5 (n + header_size) in
      let (from, to, before, found) = order_with_block-first (23 - order) h order in
      rw (nonzero, e)
        (searched_Answers h t (n + header_size) order (order_with_block (23 - order) h order) d lo
          smaller large from before (elim found [ inl e ↦ inl (omega arith) | inr e ↦ inr e ]))
]
  where
    nonzero : (n == 0) ≡ false
    nonzero = ground arith
