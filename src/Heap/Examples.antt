-- ===== src/Heap/Examples.antt =====
-- Concrete runs of the functions of arch/x86/kernel/heap.c.
use cobra_os.Base.{
  ℕ, ◌+◌, ◌-◌, ◌≤◌, ◌<◌, ◌^◌, ◌≡◌, ◌⊎◌, refl, arith, ◌==◌, if◌then◌else◌, Array, Option, none, some,
  List, [], ◌∷◌,
}
use cobra_os.Heap.{
  HeapState, header_size, without_block, first, split_block, remove_free_block, insert_free_block,
  split_headers, buddy_of,
}
use cobra_os.Heap.Alloc.{
  aligned_start, first_block, kmalloc_init, kmalloc, kmalloc_aligned, kfree, buddy_alloc,
  fitting_order, order_with_block, split_down, take_block,
}
use cobra_os.Heap.Tree.{Tree, vacant, taken, Headed, vacancies, holdings}
use cobra_os.Heap.Listed.{count}
use cobra_os.Heap.Invariant.{IsHeap, held, first_block-IsHeap}
use cobra_os.Heap.Contract.{Fresh, Unchanged, kmalloc-Fresh}
use cobra_os.Heap.Release.{TakesBack, kfree-TakesBack}
use cobra_os.Heap.OnBoundary.{FreshAt, kmalloc_aligned-FreshAt}
use cobra_os.Heap.Clients.{Request, alloc, write, release, Client, serve_all, Disjoint, Pairwise}
use cobra_os.Heap.Sessions.{serve_all-Disjoint}

abbrev start : HeapState
start = first_block (λ a. 0)

abbrev pointer : Option (HeapState × ℕ) → ℕ
pointer none = 1
pointer (some (h, p)) = p

-- 100 bytes take the last 128 bytes of the block.
pointer_of_100 : pointer (kmalloc start 100) ≡ aligned_start + 2 ^ 22 - 2 ^ 7 + header_size
unfolding kmalloc buddy_alloc fitting_order order_with_block first split_down split_block
    remove_free_block without_block insert_free_block split_headers buddy_of take_block
pointer_of_100 = refl

kmalloc-Fresh_example :
    (h' : HeapState) × (t' : Tree) × (p : ℕ) × (kmalloc start 100 ≡ some (h', p))
    × (((k : ℕ) × (b : ℕ) × (p ≡ b + header_size) × Fresh start vacant 100 h' t' k b)
        ⊎ ((p ≡ 0) × Unchanged start vacant 100 h' t'))
kmalloc-Fresh_example = kmalloc-Fresh start vacant 100 (first_block-IsHeap (λ a. 0)) (omega arith)

kmalloc_aligned-FreshAt_example :
    (e : ℕ) × (h' : HeapState) × (t' : Tree) × (p : ℕ) × (4000 ≤ 2 ^ e)
    × (kmalloc_aligned start 100 4000 ≡ some (h', p))
    × (FreshAt start vacant 100 (2 ^ e) h' t' p ⊎ ((p ≡ 0) × (h' ≡ start)))
kmalloc_aligned-FreshAt_example =
    kmalloc_aligned-FreshAt start vacant 100 4000 (first_block-IsHeap (λ a. 0)) (omega arith)
      (omega arith)

-- the heap whose only block is handed out
abbrev full_word : Array
full_word a =
    if a == aligned_start + 4 then 22 else (if a == aligned_start + 12 then aligned_start else 0)

abbrev full : HeapState
full = record { word = full_word; free_lists = λ o. []; heap_top = aligned_start + 2 ^ 22 }

full-IsHeap : IsHeap full taken
unfolding Headed vacancies count
full-IsHeap = record { headed = (refl, refl, refl); listed = λ o b. refl }

full_held : 0 < held taken 22 aligned_start
unfolding holdings
full_held = omega arith

kfree-TakesBack_example :
    (h' : HeapState) × (t' : Tree) × (kfree full (aligned_start + 16) ≡ some h')
    × TakesBack full taken 17 aligned_start h' t'
kfree-TakesBack_example =
    kfree-TakesBack full taken 17 aligned_start (aligned_start + 16) full-IsHeap full_held
      (omega arith) refl

abbrev calls : List Request
calls = alloc 100 ∷ alloc 5000 ∷ write 1 99 7 ∷ release 1 ∷ alloc 8000000 ∷ release 0 ∷ []

serve_all-Disjoint_example :
    (h : HeapState) × (c : Client) × (kmalloc_init (λ a. 0) ≡ some h)
    × (serve_all (record { heap = h; live = [] }) calls ≡ some c)
    × Pairwise Disjoint c.live
serve_all-Disjoint_example = serve_all-Disjoint (λ a. 0) calls
