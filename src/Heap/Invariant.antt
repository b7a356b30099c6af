-- ===== src/Heap/Invariant.antt =====
-- The state of arch/x86/kernel/heap.c stands for a buddy tree: its headers and free lists are those of
-- the tree's blocks.
use cobra_os.Base.{ℕ, ◌+◌, ◌≤◌, ◌<◌, ◌≡◌, refl, arith, Array, some}
use cobra_os.Heap.{HeapState}
use cobra_os.Heap.Alloc.{aligned_start, first_block, kmalloc_init}
use cobra_os.Heap.Sizes.{size, Aligned}
use cobra_os.Heap.Tree.{
  Tree, vacant, vacancies, holdings, Headed, Sub, plug, Headed-plug, vacancies-plug,
}
use cobra_os.Heap.Listed.{count}

-- the level of the largest block
abbrev pub top : ℕ
top = 17

-- The tree describes the heap, but for the blocks that `aside` counts: they are vacant in the tree
-- and in no list.
pub record Describes (h : HeapState) (t : Tree) (aside : ℕ → ℕ → ℕ) : Type 0 where
  pub headed : Headed h.word t top aligned_start
  pub listed : (o b : ℕ) → count b (h.free_lists o) + aside o b ≡ vacancies t top aligned_start o b

abbrev pub nothing : ℕ → ℕ → ℕ
nothing o b = 0

abbrev pub IsHeap : HeapState → Tree → Type 0
IsHeap h t = Describes h t nothing

-- the blocks of order `o` that are handed out at `b`
abbrev pub held : Tree → ℕ → ℕ → ℕ
held t o b = holdings t top aligned_start o b

pub start_Aligned : Aligned top aligned_start
unfolding size
start_Aligned = (8, omega arith)

pub first_block-IsHeap : (m : Array) → IsHeap (first_block m) vacant
unfolding Headed vacancies count
first_block-IsHeap m = record { headed = ground arith; listed = λ o b. ground arith }

pub kmalloc_init-IsHeap :
    (m : Array) → (h : HeapState) × (kmalloc_init m ≡ some h) × IsHeap h vacant
unfolding kmalloc_init
kmalloc_init-IsHeap m = (first_block m, refl, first_block-IsHeap m)

-- A subtree is replaced together with its headers, and the lists follow.
pub Describes-plug :
    {h : HeapState} {t x : Tree} {aside : ℕ → ℕ → ℕ} {k c : ℕ} (y : Tree) (h' : HeapState)
    (aside' : ℕ → ℕ → ℕ)
    → Describes h t aside
    → (s : Sub x k c t top aligned_start) → ((j : ℕ) → j < c → h'.word j ≡ h.word j)
    → ((j : ℕ) → c + size k ≤ j → h'.word j ≡ h.word j)
    → Headed h'.word y k c
    → ((o b : ℕ)
        → count b (h'.free_lists o) + aside' o b + vacancies x k c o b
          ≡ count b (h.free_lists o) + aside o b + vacancies y k c o b)
    → Describes h' (plug s y) aside'
Describes-plug {h} {t} {x} {aside} {k} {c} y h' aside' d s lo hi g l = record {
  headed = Headed-plug y h.word h'.word s lo hi g d.headed;
  listed = λ o b. omega (arith, l o b, d.listed o b, vacancies-plug y s o b);
}
