-- ===== src/Pmm/Refine.antt =====
-- arch/x86/kernel/pmm.c keeps its bitmap and its stack in step, and so behaves as the stack of
-- distinct pages of `Pmm.Spec`.
use cobra_os.Base.{
  ℕ, ◌+◌, ◌-◌, ◌≡◌, ◌≢◌, refl, false, arith, ◌==◌, ap, subst, List, [], ◌∷◌, length, Option, some,
  All, leb, Bool-cases, inl, inr,
}
use cobra_os.Pmm.{
  Pmm, max_frames, page_to_index, alloc_page, free_page, is_page_free, get_free_page_count, Op,
  alloc, free, run,
}
use cobra_os.Pmm.Spec.{has_frame, Distinct, take_page, give_page, replies}
use cobra_os.Pmm.Invariant.{
  stack_pages, pages, InBitmap, IsValid, stack_pages-pop, length-stack_pages, pushed,
  pushed-IsValid, popped, popped-IsValid, pages-pushed,
}

-- On a valid state a call returns `reply` and leaves a valid state with the pages `left`.
abbrev pub Gives {ℓ} : {A : Type ℓ} → Option (A × Pmm) → A → List ℕ → Type ℓ
Gives r reply left = (s' : Pmm) × (r ≡ some (reply, s')) × IsValid s' × (pages s' ≡ left)

-- Freeing a page whose frame lies in the bitmap never faults, and does to the stack of pages what
-- the specification says: a page that is on the stack already or finds the stack full is refused
-- and nothing changes, and any other page goes on top. The state stays valid.
pub free_page-give_page :
    {s : Pmm} (p : ℕ)
    → IsValid s
    → InBitmap p
    → Gives (free_page s p) (give_page (pages s) p).0 (give_page (pages s) p).1
unfolding free_page give_page
free_page-give_page {s} p v range = elim (Bool-cases (has_frame (page_to_index p) (pages s))) [
  | inl old ↦ (s, ground (arith, v.marked (page_to_index p) range), v, rw old)
  | inr new ↦ elim (Bool-cases (leb max_frames s.stack_top)) [
    | inl full ↦
        (s, ground (arith, v.marked (page_to_index p) range, count), v, rw (new, count, full))
    | inr room ↦ (
      pushed s p,
      ground (arith, v.marked (page_to_index p) range, count),
      pushed-IsValid p v range new (ground arith),
      rw (new, count, room) (pages-pushed s p),
    )
  ]
]
  where
    count : length (pages s) ≡ s.stack_top
    count = length-stack_pages s.free_stack s.stack_top

-- Allocating never faults on a valid state: it hands out the page on top of the stack and takes it
-- off, or returns NULL and changes nothing when no page is free. The state stays valid.
pub alloc_page-take_page :
    {s : Pmm} → IsValid s → Gives (alloc_page s) (take_page (pages s)).0 (take_page (pages s)).1
unfolding alloc_page take_page
alloc_page-take_page {s} v = elim (Bool-cases (s.stack_top == 0)) [
  | inl empty ↦ (s, ground arith, v, ground arith)
  | inr left ↦
      let ne : s.stack_top ≢ 0 = ground arith in
      (
        popped s,
        ground (arith, stack_pages-pop s.free_stack s.stack_top ne, in_top ne),
        popped-IsValid v ne,
        ground (arith, stack_pages-pop s.free_stack s.stack_top ne),
      )
]
  where
    in_top : s.stack_top ≢ 0 → InBitmap (s.free_stack (s.stack_top - 1))
    in_top ne =
        let both : All InBitmap
            (s.free_stack (s.stack_top - 1) ∷ stack_pages s.free_stack (s.stack_top - 1)) =
          rw (stack_pages-pop s.free_stack s.stack_top ne) at v.in_range in
        both.0

-- the pages that the requests free
abbrev pub FreesInBitmap : List Op → Type 0
FreesInBitmap [] = Unit
FreesInBitmap (alloc ∷ ops) = FreesInBitmap ops
FreesInBitmap (free p ∷ ops) = InBitmap p × FreesInBitmap ops

-- From a valid state, any sequence of requests whose freed pages lie in the bitmap runs without a
-- fault and is answered as the specification answers it from the same stack of pages.
pub run-replies :
    (ops : List Op) {s : Pmm}
    → IsValid s
    → FreesInBitmap ops
    → run s ops ≡ some (replies (pages s) ops)
unfolding run replies
run-replies [] v h = refl
run-replies (alloc ∷ ops) {s} v h =
    let (s', e, v', left) = alloc_page-take_page v in ground (arith, e, run-replies ops v' h, left)
run-replies (free p ∷ ops) {s} v h =
    let (s', e, v', left) = free_page-give_page p v h.0 in
    ground (arith, e, run-replies ops v' h.1, left)

-- On a valid state the query tells, for a page whose frame lies in the bitmap, whether a page of
-- that frame is on the stack.
pub is_page_free-has_frame :
    {s : Pmm} (p : ℕ)
    → IsValid s
    → InBitmap p
    → is_page_free s p ≡ some (has_frame (page_to_index p) (pages s))
unfolding is_page_free
is_page_free-has_frame p v range = ground (arith, v.marked (page_to_index p) range)

take_page_top :
    (ps : List ℕ) {p : ℕ}
    → Distinct ps
    → All InBitmap ps
    → (take_page ps).0 ≡ some p
    → (has_frame (page_to_index p) (take_page ps).1 ≡ false)
      × InBitmap p
      × (length ps ≡ length (take_page ps).1 + 1)
unfolding take_page
take_page_top [] d r e = cc
take_page_top (q ∷ ps) {p} d r e =
    let same : q ≡ p = ground arith in (rw (← same) d.0, rw (← same) r.0, omega arith)

-- A page that a valid allocator hands out is no longer free: no page left on the stack lies in its
-- frame, and the query says so.
pub alloc_page_exclusive :
    {s s' : Pmm} {p : ℕ}
    → IsValid s
    → alloc_page s ≡ some (some p, s')
    → (has_frame (page_to_index p) (pages s') ≡ false)
      × (is_page_free s' p ≡ some false)
      × (get_free_page_count s ≡ get_free_page_count s' + 1)
unfolding get_free_page_count
alloc_page_exclusive {s} {s'} {p} v e = with_state given
  where
    given : Gives (alloc_page s) (take_page (pages s)).0 (take_page (pages s)).1
    given = alloc_page-take_page v

    with_state :
        Gives (alloc_page s) (take_page (pages s)).0 (take_page (pages s)).1
        → (has_frame (page_to_index p) (pages s') ≡ false)
          × (is_page_free s' p ≡ some false)
          × (s.free_page_count ≡ s'.free_page_count + 1)
    with_state (t, returned, v', left) =
        let same : t ≡ s' = ground (arith, e, returned) in
        let taken : (take_page (pages s)).0 ≡ some p = ground (arith, e, returned) in
        let top = take_page_top (pages s) v.distinct v.in_range taken in
        let now : pages s' ≡ (take_page (pages s)).1 =
          subst (λ x. pages x ≡ (take_page (pages s)).1) same left in
        let valid : IsValid s' = subst IsValid same v' in
        let absent : has_frame (page_to_index p) (pages s') ≡ false = rw now top.0 in
        (
          absent,
          rw (is_page_free-has_frame p valid top.1) (ap some absent),
          omega (
            arith,
            v.counted,
            valid.counted,
            top.2,
            ap length now,
            length-stack_pages s.free_stack s.stack_top,
            length-stack_pages s'.free_stack s'.stack_top,
          ),
        )
