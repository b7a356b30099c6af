-- ===== src/Heap/Release.antt =====
-- buddy_free of arch/x86/kernel/heap.c on a heap that stands for a buddy tree.
use cobra_os.Base.{ℕ, ◌+◌, ◌-◌, ◌<◌, ◌==◌, ◌≡◌, refl, arith, some, ap, ◌∙◌, false}
use cobra_os.Heap.{
  HeapState, order_of, free_of, set_free, coalesce_loop, coalesce, insert_free_block,
}
use cobra_os.Heap.Alloc.{aligned_start, buddy_free, kfree}
use cobra_os.Heap.Sizes.{size_min}
use cobra_os.Heap.Tree.{
  Tree, vacant, taken, at, vacancies, holdings, Headed, Sub, plug, Headed-Sub, Headed-vacant,
  Headed-taken, holdings-plug, Sub-plug, Sub-inside, Sub-level,
}
use cobra_os.Heap.Places.{Sub-taken}
use cobra_os.Heap.Listed.{count}
use cobra_os.Heap.Invariant.{top, Describes, IsHeap, held, Describes-plug}
use cobra_os.Heap.Coalesce.{coalesce_loop-Coalesced}

-- A heap in which the block of level `k` at `b` is no longer handed out.
abbrev pub TakesBack : HeapState → Tree → ℕ → ℕ → HeapState → Tree → Type 0
TakesBack h t k b h' t' = IsHeap h' t' × ((o x : ℕ) → held t' o x + at k b o x ≡ held t o x)

-- the state when coalesce starts
freed-Describes :
    (h : HeapState) (t : Tree) (k b : ℕ)
    → IsHeap h t
    → (place : Sub taken k b t top aligned_start)
    → Describes (set_free h b 1) (plug place vacant) (at k b)
unfolding vacancies Headed
freed-Describes h t k b d place =
    let (order, free, self) = Headed-taken h.word k b (Headed-Sub h.word place d.headed) in
    Describes-plug vacant (set_free h b 1) (at k b) d place (λ j p. ground arith)
      (λ j p. ground (arith, size_min k)) (ground arith, ground arith) (λ o x. ground arith)

-- the vacant block in hand goes into its list
insert-IsHeap :
    (h : HeapState) (t : Tree) (k b : ℕ)
    → Describes h t (at k b)
    → Sub vacant k b t top aligned_start
    → IsHeap (insert_free_block h b) t
unfolding insert_free_block count
insert-IsHeap h t k b d place =
    let (order, _) = Headed-vacant h.word k b (Headed-Sub h.word place d.headed) in
    record { headed = d.headed; listed = λ o x. ground (arith, d.listed o x) }

buddy_free_steps :
    (h h' : HeapState) (ptr block b o : ℕ)
    → 0 < ptr
    → h.word (ptr - 4) ≡ block
    → 0 < block
    → free_of h block ≡ 0
    → order_of h block ≡ o
    → coalesce_loop (22 - o) (set_free h block 1) block o ≡ some (h', b)
    → buddy_free h ptr ≡ some (insert_free_block h' b)
unfolding buddy_free coalesce
buddy_free_steps h h' ptr block b o pos e pos' f g r = rw (given, e, somewhere, f, kept, r) refl
  where
    given : (ptr == 0) ≡ false
    given = ground arith

    somewhere : (block == 0) ≡ false
    somewhere = ground arith

    kept : order_of (set_free h block 1) block ≡ o
    kept = ground arith

-- On a heap that stands for a buddy tree, a block that is handed out is taken back through any pointer
-- other than NULL with the block's address in the word before it: kfree does not panic, and the heap
-- then stands for a tree in which that block is no longer handed out and every other one still is.
pub kfree-TakesBack :
    (h : HeapState) (t : Tree) (k b ptr : ℕ)
    → IsHeap h t
    → 0 < held t (k + 5) b
    → 0 < ptr
    → h.word (ptr - 4) ≡ b
    → (h' : HeapState) × (t' : Tree) × (kfree h ptr ≡ some h') × TakesBack h t k b h' t'
unfolding kfree holdings
kfree-TakesBack h t k b ptr d given pos e =
    let place = Sub-taken t top aligned_start k b h.word d.headed given in
    let (order, free, self) = Headed-taken h.word k b (Headed-Sub h.word place d.headed) in
    let (h', t', m, c, f, d', place', same) =
      coalesce_loop-Coalesced (17 - k) (set_free h b 1) (plug place vacant) k b
        (omega (arith, Sub-level place)) (freed-Describes h t k b d place)
        (Sub-plug vacant place) in
    (
      insert_free_block h' c,
      t',
      buddy_free_steps h h' ptr b c (k + 5) pos e (omega (arith, Sub-inside place)) free order (
          ap (λ n. coalesce_loop n (set_free h b 1) b (k + 5)) {x = 22 - (k + 5)} {y = 17 - k}
            (omega arith)
          ∙ f),
      (
        insert-IsHeap h' t' m c d' place',
        λ o x. omega (arith, same o x, holdings-plug vacant place o x),
      ),
    )
