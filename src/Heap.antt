-- ===== src/Heap.antt =====
-- The state and the list operations of the buddy allocator of arch/x86/kernel/heap.c. A function that
-- may reach one of the loops of `cli; hlt` answers `none` there.
pub mod Alloc
pub mod Blocks
pub mod Clients
pub mod Coalesce
pub mod Contract
mod Examples
pub mod Granted
pub mod Invariant
pub mod Listed
pub mod Merge
pub mod OnBoundary
pub mod Places
pub mod Sessions
pub mod Sizes
pub mod Powers
pub mod Release
pub mod Search
pub mod Split
pub mod Take
pub mod Tree
use cobra_os.Base.{
  ℕ, zero, suc, ◌+◌, ◌-◌, ◌==◌, ◌||◌, ltb, if◌then◌else◌, not, Bool, true, false, Array, List, [],
  ◌∷◌, Option, none, some, update, ◌^◌,
}
use Prim.Native.Nat.{bit_xor}

infixl 5 ◌>>=◌
abbrev pub ◌>>=◌ {ℓ κ} : {A : Type ℓ} {B : Type κ} → Option A → (A → Option B) → Option B
none >>= f = none
some a >>= f = f a

-- MIN_BLOCK_SHIFT
abbrev pub min_block_shift : ℕ
min_block_shift = 5

-- MAX_BLOCK_SHIFT
abbrev pub max_block_shift : ℕ
max_block_shift = 22

-- HEADER_SIZE
abbrev pub header_size : ℕ
header_size = 16

-- `word a` is the 32-bit word at the address `a`. The chain of `next` pointers that starts at
-- free_lists[i] is kept as the list of its blocks.
pub record HeapState : Type 0 where
  pub word : Array
  pub free_lists : ℕ → List ℕ
  pub heap_top : ℕ

-- the fields of the block_t at an address
abbrev pub order_of : HeapState → ℕ → ℕ
order_of h block = h.word (block + 4)

abbrev pub free_of : HeapState → ℕ → ℕ
free_of h block = h.word (block + 8)

abbrev pub self_of : HeapState → ℕ → ℕ
self_of h block = h.word (block + 12)

abbrev pub set_order : HeapState → ℕ → ℕ → HeapState
set_order h block v = record h { word = update h.word (block + 4) v }

abbrev pub set_free : HeapState → ℕ → ℕ → HeapState
set_free h block v = record h { word = update h.word (block + 8) v }

abbrev pub set_self : HeapState → ℕ → ℕ → HeapState
set_self h block v = record h { word = update h.word (block + 12) v }

abbrev pub set_list : HeapState → ℕ → List ℕ → HeapState
set_list h order blocks = record h { free_lists = update h.free_lists order blocks }

unfoldable pub buddy_of : HeapState → ℕ → ℕ
buddy_of h block = bit_xor block (2 ^ order_of h block)

unfoldable pub insert_free_block : HeapState → ℕ → HeapState
insert_free_block h block =
    let order = order_of h block in set_list h order (block ∷ h.free_lists order)

-- the walk along one list: the list without the block, `none` when the block is not in it
unfoldable pub without_block : ℕ → List ℕ → Option (List ℕ)
without_block block [] = none
without_block block (b ∷ bs) =
    let rest = without_block block bs in
    if b == block then some bs else (rest >>= λ kept. some (b ∷ kept))

unfoldable pub remove_free_block : HeapState → ℕ → Option HeapState
remove_free_block h block =
    let order = order_of h block in
    without_block block (h.free_lists order) >>= λ kept. some (set_list h order kept)

-- `*list`; the code reads through NULL when the list is empty
unfoldable pub first : List ℕ → Option ℕ
first [] = none
first (b ∷ bs) = some b

-- the header writes of split_block once the block has left its list
unfoldable pub split_headers : HeapState → ℕ → ℕ → HeapState
split_headers h block order =
    let h1 = set_free (set_order h block order) block 1 in
    let buddy = buddy_of h1 block in set_self (set_free (set_order h1 buddy order) buddy 1) buddy 0

unfoldable pub split_block : HeapState → ℕ → Option HeapState
split_block h order = do
  block ← first (h.free_lists order)
  removed ← remove_free_block h block
  let halves = split_headers removed block (order - 1)
  some (insert_free_block (insert_free_block halves block) (buddy_of halves block))

-- the loop of coalesce with the rounds that are left until order 22
unfoldable pub coalesce_loop : ℕ → HeapState → ℕ → ℕ → Option (HeapState × ℕ)
coalesce_loop zero h block order = some (h, block)
coalesce_loop (suc n) h block order =
    let buddy = buddy_of h block in
    let rest = (do
      removed ← remove_free_block h buddy
      let lower = if ltb buddy block then buddy else block
      coalesce_loop n (set_free (set_order removed lower (order + 1)) lower 1) lower (order + 1)) in
    if (free_of h buddy == 0) || not (order_of h buddy == order) then some (h, block) else rest

unfoldable pub coalesce : HeapState → ℕ → Option (HeapState × ℕ)
coalesce h block = coalesce_loop (max_block_shift - order_of h block) h block (order_of h block)
