-- ===== src/Pmm.antt =====
-- The physical page allocator, arch/x86/kernel/pmm.c: a stack of free page addresses and a bitmap
-- with one bit for each page frame, set while the frame is on the stack.
pub mod Bitmap
pub mod Spec
pub mod Invariant
pub mod Refine
pub mod Capacity
mod Examples
use cobra_os.Base.{
  ℕ, suc, ◌+◌, ◌-◌, ◌/◌, ◌%◌, ◌^◌, bit_and, bit_or, Bool, true, false, not, Option, none, some,
  Array, update, ltb, leb, ◌==◌, if◌then◌else◌, List, [], ◌∷◌,
}
use cobra_os.Base.Bits.{complement}

-- PAGE_SIZE, MAX_FRAMES and the number of words of `pmm_bitmap`
abbrev pub page_size : ℕ
page_size = 4096

abbrev pub max_frames : ℕ
max_frames = 32768

abbrev pub bitmap_words : ℕ
bitmap_words = 1025

-- the file's static variables
pub record Pmm : Type 0 where
  pub bitmap : Array
  pub free_stack : Array
  pub stack_top : ℕ
  pub total_frames : ℕ
  pub free_page_count : ℕ

-- how `pmm_free_page` ended; the source prints a message in the last two cases
pub data Freed : Type 0 where
  freed double_free stack_overflow : Freed

unfoldable pub page_to_index : ℕ → ℕ
page_to_index page = page / page_size

unfoldable pub bitmap_set : Array → ℕ → Array
bitmap_set m index = update m (index / 32) (bit_or (m (index / 32)) (2 ^ (index % 32)))

unfoldable pub bitmap_clear : Array → ℕ → Array
bitmap_clear m index =
    update m (index / 32) (bit_and (m (index / 32)) (complement 32 (2 ^ (index % 32))))

unfoldable pub bitmap_test : Array → ℕ → Bool
bitmap_test m index = not (bit_and (m (index / 32)) (2 ^ (index % 32)) == 0)

-- the source indexes `pmm_bitmap` with no test of its own; outside the array a call has no result
abbrev pub in_bitmap : ℕ → Bool
in_bitmap index = ltb (index / 32) bitmap_words

unfoldable pub init : Pmm → ℕ → Pmm
init s total_memory = record s {
  bitmap = λ i. if ltb i bitmap_words then 0 else s.bitmap i;
  stack_top = 0;
  total_frames = total_memory / page_size;
  free_page_count = 0;
}

-- `none`: an access outside `pmm_bitmap`; `some (none, s)`: NULL
unfoldable pub alloc_page : Pmm → Option (Option ℕ × Pmm)
unfolding page_to_index bitmap_clear
alloc_page s =
    if s.stack_top == 0
    then some (none, s)
    else let top = s.stack_top - 1 in
      let page = s.free_stack top in
      let index = page_to_index page in
      if in_bitmap index
      then some (
        some page,
        record s {
          bitmap = bitmap_clear s.bitmap index;
          stack_top = top;
          free_page_count =
              if ltb 0 s.free_page_count then s.free_page_count - 1 else s.free_page_count;
        },
      )
      else none

-- `none`: an access outside `pmm_bitmap`
unfoldable pub free_page : Pmm → ℕ → Option (Freed × Pmm)
unfolding page_to_index bitmap_set bitmap_test
free_page s page =
    let index = page_to_index page in
    if in_bitmap index
    then if bitmap_test s.bitmap index
      then some (double_free, s)
      else if leb max_frames s.stack_top
      then some (stack_overflow, s)
      else some (
        freed,
        record s {
          free_stack = update s.free_stack s.stack_top page;
          stack_top = s.stack_top + 1;
          bitmap = bitmap_set s.bitmap index;
          free_page_count = (s.free_page_count + 1) % 2 ^ 32;
        },
      )
    else none

unfoldable pub get_free_page_count : Pmm → ℕ
get_free_page_count s = s.free_page_count

-- `none`: an access outside `pmm_bitmap`
unfoldable pub is_page_free : Pmm → ℕ → Option Bool
unfolding page_to_index bitmap_test
is_page_free s page =
    let index = page_to_index page in
    if in_bitmap index then some (bitmap_test s.bitmap index) else none

-- a caller's requests in order, with what each returns
pub data Op : Type 0 where
  alloc : Op
  free : ℕ → Op

pub data Reply : Type 0 where
  page : Option ℕ → Reply
  status : Freed → Reply

unfoldable pub run : Pmm → List Op → Option (List Reply)
run s [] = some []
run s (alloc ∷ ops) = elim (alloc_page s) [
  | none ↦ none
  | some (p, s') ↦ elim (run s' ops) [ none ↦ none | some rs ↦ some (page p ∷ rs) ]
]
run s (free p ∷ ops) = elim (free_page s p) [
  | none ↦ none
  | some (r, s') ↦ elim (run s' ops) [ none ↦ none | some rs ↦ some (status r ∷ rs) ]
]
