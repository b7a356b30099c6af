-- ===== src/Heap/Take.antt =====
-- The two loops of buddy_alloc in arch/x86/kernel/heap.c that cut a block down and hand it out.
use cobra_os.Base.{
  ℕ, zero, suc, ◌+◌, ◌-◌, ◌≤◌, ◌==◌, if◌then◌else◌, ◌≡◌, refl, arith, List, Option, some, ap, ◌∙◌,
}
use cobra_os.Heap.{
  HeapState, header_size, set_free, set_self, set_list, first, remove_free_block, split_block,
}
use cobra_os.Heap.Alloc.{aligned_start, split_down, take_block}
use cobra_os.Heap.Sizes.{size, size_min, Aligned}
use cobra_os.Heap.Tree.{
  Tree, vacant, taken, at, vacancies, holdings, Headed, Sub, plug, Headed-Sub, Headed-vacant,
  holdings-plug, Sub-Aligned, Sub-inside,
}
use cobra_os.Heap.Places.{Sub-vacant}
use cobra_os.Heap.Listed.{count, count-first, remove_free_block-some}
use cobra_os.Heap.Invariant.{top, nothing, IsHeap, held, start_Aligned, Describes-plug}
use cobra_os.Heap.Split.{split_block-IsHeap}

-- A heap whose vacant block of level `m` at `b` is handed out.
module _ (h : HeapState) (t : Tree) (m b : ℕ) (kept : List ℕ) (d : IsHeap h t)
    (place : Sub vacant m b t top aligned_start)
    (counted : (c : ℕ)
      → count c kept + (if b == c then 1 else 0) ≡ count c (h.free_lists (m + 5))) where
  handed : HeapState
  handed = set_self (set_free (set_list h (m + 5) kept) b 0) b b

  handed-listed :
      (o c : ℕ)
      → count c (handed.free_lists o) + nothing o c + vacancies vacant m b o c
        ≡ count c (h.free_lists o) + nothing o c + vacancies taken m b o c
  unfolding handed vacancies
  handed-listed o c = ground (arith, counted c)

  handed-Headed : h.word (b + 4) ≡ m + 5 → Headed handed.word taken m b
  unfolding handed Headed
  handed-Headed e = ground arith

  handed-IsHeap : h.word (b + 4) ≡ m + 5 → IsHeap handed (plug place taken)
  unfolding handed
  handed-IsHeap e =
      Describes-plug taken handed nothing d place (λ j p. ground arith)
        (λ j p. ground (arith, size_min m)) (handed-Headed e) handed-listed

  handed-held : (o c : ℕ) → held (plug place taken) o c ≡ held t o c + at m b o c
  unfolding holdings
  handed-held o c = omega (arith, holdings-plug taken place o c)

  handed-take_block :
      first (h.free_lists (m + 5)) ≡ some b
      → remove_free_block h b ≡ some (set_list h (m + 5) kept)
      → take_block h (m + 5) ≡ some (handed, b + header_size)
  unfolding take_block handed
  handed-take_block e f = rw (e, f) refl

-- What the hand-out of a block of level `m` at `b` makes of a heap.
abbrev pub HandsOut : HeapState → Tree → ℕ → ℕ → HeapState → Tree → Type 0
HandsOut h t m b h' t' =
    IsHeap h' t'
    × (aligned_start ≤ b)
    × Aligned m b
    × ((o c : ℕ) → held t' o c ≡ held t o c + at m b o c)

pub take_block-HandsOut :
    (h : HeapState) (t : Tree) (m b : ℕ)
    → IsHeap h t
    → first (h.free_lists (m + 5)) ≡ some b
    → (h' : HeapState) × (t' : Tree) × (take_block h (m + 5) ≡ some (h', b + header_size))
      × HandsOut h t m b h' t'
take_block-HandsOut h t m b d e =
    let found = count-first b (h.free_lists (m + 5)) e in
    let place =
      Sub-vacant t top aligned_start m b h.word d.headed
        (omega (arith, found, d.listed (m + 5) b)) in
    let order = (Headed-vacant h.word m b (Headed-Sub h.word place d.headed)).0 in
    let (kept, removed, counted) = remove_free_block-some h b (m + 5) order found in
    (
      handed h t m b kept d place counted,
      plug place taken,
      handed-take_block h t m b kept d place counted e removed,
      (
        handed-IsHeap h t m b kept d place counted order,
        (Sub-inside place).0,
        Sub-Aligned place start_Aligned,
        handed-held h t m b kept d place counted,
      ),
    )

split_down_next :
    (n : ℕ) (h h1 : HeapState) (o : ℕ) (r : Option HeapState)
    → split_block h o ≡ some h1
    → split_down n h1 (o - 1) ≡ r
    → split_down (suc n) h o ≡ r
unfolding split_down
split_down_next n h h1 o r e f = rw (e, f) refl

-- Cutting a block down `n` times leaves a block `n` levels below, and hands nothing out.
pub split_down-IsHeap :
    (n : ℕ) (h : HeapState) (t : Tree) (m o b : ℕ)
    → IsHeap h t
    → o ≡ m + n + 5
    → first (h.free_lists o) ≡ some b
    → (h' : HeapState) × (t' : Tree) × (c : ℕ) × (split_down n h o ≡ some h')
      × IsHeap h' t'
      × ((p x : ℕ) → held t' p x ≡ held t p x)
      × (first (h'.free_lists (m + 5)) ≡ some c)
unfolding split_down
split_down-IsHeap zero h t m o b d e f = (
  h,
  t,
  b,
  refl,
  d,
  λ p x. refl,
  ap (λ j. first (h.free_lists j)) {x = m + 5} {y = o} (omega arith) ∙ f,
)
split_down-IsHeap (suc n) h t m o b d e f =
    let (h1, t1, g, d1, same, next) =
      split_block-IsHeap h t (m + suc n) b d (omega arith)
        (ap (λ j. first (h.free_lists j)) {x = m + suc n + 5} {y = o} (omega arith) ∙ f) in
    let (h2, t2, c, g2, d2, same2, last) =
      split_down-IsHeap n h1 t1 m (o - 1) (b + size (m + suc n - 1)) d1 (omega arith) (
        ap (λ j. first (h1.free_lists j)) {x = o - 1} {y = m + suc n - 1 + 5} (omega arith)
        ∙ next) in
    (
      h2,
      t2,
      c,
      split_down_next n h h1 o (some h2)
          (ap (split_block h) {x = o} {y = m + suc n + 5} (omega arith) ∙ g) g2,
      d2,
      λ p x. same2 p x ∙ same p x,
      last,
    )
