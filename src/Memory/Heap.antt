-- ===== src/Memory/Heap.antt =====
-- What kmalloc of arch/x86/kernel/heap.c answers to the code that calls it: `none` for NULL, `some b` for
-- a block with the contents `b`.
use cobra_os.Base.{ℕ, suc, ◌≡◌, Array, Option, some}

-- the answers of the coming calls of kmalloc
abbrev pub Heap : Type 0
Heap = ℕ → Option Array

-- the answers that are left after one call
abbrev pub later : Heap → Heap
later h n = h (suc n)

-- no call of kmalloc fails
abbrev pub Abundant : Heap → Type 0
Abundant h = (n : ℕ) → (b : Array) × (h n ≡ some b)
