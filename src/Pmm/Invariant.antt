-- ===== src/Pmm/Invariant.antt =====
-- The invariant that ties the bitmap of arch/x86/kernel/pmm.c to its stack, and that taking a page off
-- the stack or putting one on keeps it.
use cobra_os.Base.{
  ℕ, zero, suc, ◌+◌, ◌-◌, ◌%◌, ◌^◌, ◌<◌, ◌≤◌, ◌≡◌, ◌≢◌, refl, true, false, Array, arith, ap,
  if◌then◌else◌, List, [], ◌∷◌, length, update, All, ltb,
}
use native.Mathlib.Numerals.{add-one}
use cobra_os.Base.Bits.{bit_and_zero_left}
use cobra_os.Pmm.{
  Pmm, max_frames, in_bitmap, page_to_index, bitmap_set, bitmap_clear, bitmap_test, init,
}
use cobra_os.Pmm.Bitmap.{bitmap_test-bitmap_set, bitmap_test-bitmap_clear}
use cobra_os.Pmm.Spec.{has_frame, Distinct}

-- the live part of `free_stack`, top first
abbrev pub stack_pages : Array → ℕ → List ℕ
stack_pages f zero = []
stack_pages f (suc n) = f n ∷ stack_pages f n

abbrev pub pages : Pmm → List ℕ
pages s = stack_pages s.free_stack s.stack_top

-- the bit of the page's frame lies inside `pmm_bitmap`
abbrev pub InBitmap : ℕ → Type 0
InBitmap p = in_bitmap (page_to_index p) ≡ true

pub record IsValid (s : Pmm) : Type 0 where
  pub fits : s.stack_top ≤ max_frames
  pub counted : s.free_page_count ≡ s.stack_top
  pub in_range : All InBitmap (pages s)
  pub distinct : Distinct (pages s)
  pub marked : (i : ℕ) → in_bitmap i ≡ true → bitmap_test s.bitmap i ≡ has_frame i (pages s)

pub length-stack_pages : (f : Array) (n : ℕ) → length (stack_pages f n) ≡ n
length-stack_pages f zero = refl
length-stack_pages f (suc n) = ap suc (length-stack_pages f n)

stack_pages-update :
    (f : Array) (k v n : ℕ) → n ≤ k → stack_pages (update f k v) n ≡ stack_pages f n
stack_pages-update f k v zero h = refl
stack_pages-update f k v (suc n) h = ground (arith, stack_pages-update f k v n)

-- with the new element written at `n`
stack_pages-push : (f : Array) (n v : ℕ) → stack_pages (update f n v) (n + 1) ≡ v ∷ stack_pages f n
stack_pages-push f n v = rw add-one (ground (arith, stack_pages-update f n v n (omega arith)))

pub stack_pages-pop :
    (f : Array) (n : ℕ) → n ≢ 0 → stack_pages f n ≡ f (n - 1) ∷ stack_pages f (n - 1)
stack_pages-pop f zero h = absurd (h refl)
stack_pages-pop f (suc n) h = ap (λ k. f k ∷ stack_pages f k) (omega arith)

-- After `pmm_init` no page is free.
pub init-IsValid : (s : Pmm) (total_memory : ℕ) → IsValid (init s total_memory)
unfolding init bitmap_test
init-IsValid s m = record {
  fits = omega arith;
  counted = refl;
  in_range = tt;
  distinct = tt;
  marked = λ i h. rw h (rw (bit_and_zero_left (2 ^ (i % 32))));
}

-- what `free_page` leaves when it takes the page
abbrev pub pushed : Pmm → ℕ → Pmm
pushed s p = record s {
  free_stack = update s.free_stack s.stack_top p;
  stack_top = s.stack_top + 1;
  bitmap = bitmap_set s.bitmap (page_to_index p);
  free_page_count = (s.free_page_count + 1) % 2 ^ 32;
}

pub pages-pushed : (s : Pmm) (p : ℕ) → pages (pushed s p) ≡ p ∷ pages s
pages-pushed s p = stack_pages-push s.free_stack s.stack_top p

pub pushed-IsValid :
    {s : Pmm} (p : ℕ)
    → IsValid s
    → InBitmap p
    → has_frame (page_to_index p) (pages s) ≡ false
    → s.stack_top < max_frames
    → IsValid (pushed s p)
pushed-IsValid {s} p v range new room = record {
  fits = omega arith;
  counted = omega (arith, v.counted, v.fits);
  in_range = rw (pages-pushed s p) (range, v.in_range);
  distinct = rw (pages-pushed s p) (new, v.distinct);
  marked = λ i h.
      rw (pages-pushed s p)
        (ground (arith, bitmap_test-bitmap_set s.bitmap i (page_to_index p), v.marked i h));
}

-- what `alloc_page` leaves when it hands a page out
abbrev pub popped : Pmm → Pmm
popped s = record s {
  bitmap = bitmap_clear s.bitmap (page_to_index (s.free_stack (s.stack_top - 1)));
  stack_top = s.stack_top - 1;
  free_page_count = if ltb 0 s.free_page_count then s.free_page_count - 1 else s.free_page_count;
}

pub popped-IsValid : {s : Pmm} → IsValid s → s.stack_top ≢ 0 → IsValid (popped s)
popped-IsValid {s} v some_left = record {
  fits = omega (arith, v.fits);
  counted = ground (arith, v.counted);
  in_range = in_range.1;
  distinct = distinct.1;
  marked = λ i h. ground (
    arith,
    distinct.0,
    bitmap_test-bitmap_clear s.bitmap i (page_to_index top),
    v.marked i h,
    split,
    same_frame i,
  );
}
  where
    top : ℕ
    top = s.free_stack (s.stack_top - 1)

    rest : List ℕ
    rest = stack_pages s.free_stack (s.stack_top - 1)

    split : pages s ≡ top ∷ rest
    split = stack_pages-pop s.free_stack s.stack_top some_left

    in_range : All InBitmap (top ∷ rest)
    in_range = rw split at v.in_range

    distinct : Distinct (top ∷ rest)
    distinct = rw split at v.distinct

    same_frame : (i : ℕ) → page_to_index top ≡ i → has_frame i rest ≡ false
    same_frame i e = rw (← e) distinct.0
