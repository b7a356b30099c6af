-- ===== src/Heap/Alloc.antt =====
-- The allocation functions of arch/x86/kernel/heap.c. A pointer is its address, and NULL is 0.
use cobra_os.Base.{
  ℕ, zero, suc, ◌+◌, ◌-◌, ◌*◌, ◌/◌, ◌%◌, ◌==◌, ◌||◌, ltb, if◌then◌else◌, not, Bool, true, false,
  Array, [], ◌∷◌, Option, none, some, update, ◌^◌, bit_and,
}
use cobra_os.Base.Bits.{complement}
use cobra_os.Heap.{
  HeapState, ◌>>=◌, min_block_shift, max_block_shift, header_size, free_of, set_order, set_free,
  set_self, first, insert_free_block, remove_free_block, split_block, coalesce,
}

-- HEAP_START
abbrev pub heap_start : ℕ
heap_start = 33554432

-- HEAP_SIZE
abbrev pub heap_size : ℕ
heap_size = 33554432

-- (size_t)-1
abbrev pub size_max : ℕ
size_max = 2 ^ 32 - 1

-- HEAP_START rounded up to the largest block
abbrev pub aligned_start : ℕ
aligned_start =
    bit_and (heap_start + 2 ^ max_block_shift - 1) (complement 32 (2 ^ max_block_shift - 1))

-- `aligned_start + MAX_BLOCK_SIZE > HEAP_START + HEAP_SIZE`; the branch for a smaller heap is not
-- compiled to anything that runs with these constants
abbrev pub heap_too_small : Bool
heap_too_small = ltb (heap_start + heap_size) (aligned_start + 2 ^ max_block_shift)

abbrev pub first_block : Array → HeapState
first_block m =
    let h : HeapState = record { word = m; free_lists = λ i. []; heap_top = heap_start } in
    let h' =
      set_self (set_free (set_order h aligned_start max_block_shift) aligned_start 1) aligned_start
        0 in
    record h' {
      free_lists = update h'.free_lists max_block_shift (aligned_start ∷ []);
      heap_top = aligned_start + 2 ^ max_block_shift;
    }

-- `none` stands for the branch of a heap smaller than the largest block
unfoldable pub kmalloc_init : Array → Option HeapState
kmalloc_init m = if heap_too_small then none else some (first_block m)

-- the smallest order from `order` on with room for `total` bytes, at most 22
unfoldable pub fitting_order : ℕ → ℕ → ℕ → ℕ
fitting_order zero order total = order
fitting_order (suc n) order total =
    let rest = fitting_order n (order + 1) total in if ltb (2 ^ order) total then rest else order

abbrev pub is_null : Option ℕ → Bool
is_null none = true
is_null (some b) = false

-- the first order from `o` on with a free block, 23 when there is none
unfoldable pub order_with_block : ℕ → HeapState → ℕ → ℕ
order_with_block zero h o = o
order_with_block (suc n) h o =
    let rest = order_with_block n h (o + 1) in if is_null (first (h.free_lists o)) then rest else o

-- `while (o > order)`, with the rounds that are left
unfoldable pub split_down : ℕ → HeapState → ℕ → Option HeapState
split_down zero h o = some h
split_down (suc n) h o = split_block h o >>= λ h'. split_down n h' (o - 1)

-- the head of the list of this order is handed out
unfoldable pub take_block : HeapState → ℕ → Option (HeapState × ℕ)
take_block h order = do
  block ← first (h.free_lists order)
  removed ← remove_free_block h block
  some (set_self (set_free removed block 0) block block, block + header_size)

unfoldable pub buddy_alloc : HeapState → ℕ → Option (HeapState × ℕ)
buddy_alloc h size =
    let order =
      fitting_order (max_block_shift - min_block_shift) min_block_shift (size + header_size) in
    let o = order_with_block (max_block_shift + 1 - order) h order in
    if (size == 0) || ltb (size_max - header_size) size
    then some (h, 0)
    else if ltb (2 ^ order) (size + header_size)
    then some (h, 0)
    else if ltb max_block_shift o
    then some (h, 0)
    else (split_down (o - order) h o >>= λ split. take_block split order)

unfoldable pub buddy_free : HeapState → ℕ → Option HeapState
buddy_free h ptr =
    let block = h.word (ptr - 4) in
    if ptr == 0
    then some h
    else if (block == 0) || not (free_of h block == 0)
    then none
    else (coalesce (set_free h block 1) block >>= λ (h', b). some (insert_free_block h' b))

unfoldable pub kmalloc : HeapState → ℕ → Option (HeapState × ℕ)
kmalloc h size =
    if (size == 0) || ltb (size_max - 7) size
    then some (h, 0)
    else buddy_alloc h (bit_and (size + 7) (complement 32 7))

unfoldable pub kfree : HeapState → ℕ → Option HeapState
kfree h ptr = buddy_free h ptr

-- the doubling of `a` up to the alignment, `none` when it would leave 32 bits
unfoldable pub power_from : ℕ → ℕ → ℕ → Option ℕ
power_from zero a alignment = none
power_from (suc n) a alignment =
    let rest = power_from n (a * 2) alignment in
    if ltb a alignment then (if ltb (size_max / 2) a then none else rest) else some a

-- the alignment that kmalloc_aligned works with
unfoldable pub usable_alignment : ℕ → Option ℕ
usable_alignment alignment =
    let a = if ltb alignment 4 then 4 else alignment in
    if bit_and a (a - 1) == 0 then some a else power_from 33 1 a

-- the pointer that is returned for the block at `raw - HEADER_SIZE`
unfoldable pub aligned_in : ℕ → ℕ → ℕ
aligned_in raw alignment =
    bit_and ((raw + 4 + alignment - 1) % 2 ^ 32) (complement 32 (alignment - 1))

unfoldable pub mark_aligned : ℕ → HeapState × ℕ → HeapState × ℕ
mark_aligned alignment (h, raw) =
    let aligned = aligned_in raw alignment in
    if raw == 0
    then (h, 0)
    else (record h { word = update h.word (aligned - 4) (raw - header_size) }, aligned)

unfoldable pub kmalloc_with : Option ℕ → HeapState → ℕ → Option (HeapState × ℕ)
kmalloc_with none h size = some (h, 0)
kmalloc_with (some alignment) h size =
    if ltb (size_max - alignment - 4) size
    then some (h, 0)
    else (kmalloc h (size + alignment + 4) >>= λ answer. some (mark_aligned alignment answer))

unfoldable pub kmalloc_aligned : HeapState → ℕ → ℕ → Option (HeapState × ℕ)
kmalloc_aligned h size alignment =
    if size == 0 then some (h, 0) else kmalloc_with (usable_alignment alignment) h size
