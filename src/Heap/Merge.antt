-- ===== src/Heap/Merge.antt =====
-- One round of coalesce in arch/x86/kernel/heap.c: a vacant block and its vacant buddy become their
-- parent.
use cobra_os.Base.{ℕ, ◌+◌, ◌-◌, ◌<◌, ◌==◌, if◌then◌else◌, ◌≡◌, ◌⊎◌, inl, inr, arith, List}
use cobra_os.Heap.{HeapState, order_of, set_order, set_free, set_list}
use cobra_os.Heap.Alloc.{aligned_start}
use cobra_os.Heap.Sizes.{size, size_min}
use cobra_os.Heap.Tree.{
  Tree, vacant, taken, halves, at, vacancies, holdings, Headed, Sub, plug, Headed-Sub,
  Headed-vacant, Headed-halves, vacancies-plug, holdings-plug,
}
use cobra_os.Heap.Listed.{count, Removal, remove_free_block-some}
use cobra_os.Heap.Invariant.{top, Describes, held, Describes-plug}

-- `c` is one half of the block of level `m` at `d`, and `buddy` is the other.
abbrev pub Buddies : ℕ → ℕ → ℕ → ℕ → Type 0
Buddies m d c buddy =
    ((c ≡ d) × (buddy ≡ d + size (m - 1))) ⊎ ((c ≡ d + size (m - 1)) × (buddy ≡ d))

-- The block at `c` is in hand, and its buddy is in its list.
module _ (h : HeapState) (t : Tree) (m d c buddy : ℕ) (lt : 0 < m)
    (desc : Describes h t (at (m - 1) c))
    (place : Sub (halves vacant vacant) m d t top aligned_start)
    (halved : Buddies m d c buddy) where
  buddy_order : order_of h buddy ≡ m - 1 + 5
  buddy_order =
      let (_, l, r) =
        Headed-halves h.word vacant vacant m d (Headed-Sub h.word place desc.headed) in
      let (lo, _) = Headed-vacant h.word (m - 1) d l in
      let (hi, _) = Headed-vacant h.word (m - 1) (d + size (m - 1)) r in
      elim halved [ inl (e, f) ↦ rw f hi | inr (e, f) ↦ rw f lo ]

  buddy_count : 0 < count buddy (h.free_lists (m - 1 + 5))
  unfolding vacancies
  buddy_count = ground (
    arith,
    desc.listed (m - 1 + 5) buddy,
    vacancies-plug taken place (m - 1 + 5) buddy,
    size_min (m - 1),
  )

  pub buddy-Removal : Removal h buddy (m - 1 + 5)
  buddy-Removal = remove_free_block-some h buddy (m - 1 + 5) buddy_order buddy_count

  module _ (kept : List ℕ)
      (counted : (x : ℕ)
        → count x kept + (if buddy == x then 1 else 0) ≡ count x (h.free_lists (m - 1 + 5))) where
    -- the state with the parent in hand
    unfoldable pub joined : HeapState
    joined = set_free (set_order (set_list h (m - 1 + 5) kept) d (m + 5)) d 1

    joined-listed :
        (o x : ℕ)
        → count x (joined.free_lists o) + at m d o x + vacancies (halves vacant vacant) m d o x
          ≡ count x (h.free_lists o) + at (m - 1) c o x + vacancies vacant m d o x
    unfolding joined vacancies
    joined-listed o x = ground (arith, counted x)

    joined-Headed : Headed joined.word vacant m d
    unfolding joined Headed
    joined-Headed = ground arith

    pub joined-Describes : Describes joined (plug place vacant) (at m d)
    unfolding joined
    joined-Describes =
        Describes-plug vacant joined (at m d) desc place (λ j p. ground arith)
          (λ j p. ground (arith, size_min m)) joined-Headed joined-listed

    pub joined-held : (o x : ℕ) → held (plug place vacant) o x ≡ held t o x
    unfolding holdings
    joined-held o x = omega (arith, holdings-plug vacant place o x)
