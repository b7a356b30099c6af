-- ===== src/Pmm/Examples.antt =====
-- The page allocator of arch/x86/kernel/pmm.c on concrete states.
use cobra_os.Base.{◌+◌, ◌≡◌, ◌≤◌, ◌↔◌, refl, false, arith, List, [], ◌∷◌, none, some}
use cobra_os.Pmm.{
  Pmm, page_to_index, init, alloc_page, free_page, is_page_free, get_free_page_count, freed,
  double_free, Op, alloc, free, page, status, run,
}
use cobra_os.Pmm.Spec.{has_frame, give_page, replies}
use cobra_os.Pmm.Invariant.{pages, IsValid, pushed, popped, init-IsValid, pushed-IsValid}
use cobra_os.Pmm.Refine.{Gives, free_page-give_page, run-replies, alloc_page_exclusive}
use cobra_os.Pmm.Capacity.{free_page_out_of_bitmap}

abbrev blank : Pmm
blank = record {
  bitmap = λ i. 7;
  free_stack = λ i. 9;
  stack_top = 4;
  total_frames = 0;
  free_page_count = 2;
}

-- two free pages, 0x5000 on top of 0x3000
abbrev two : Pmm
two = pushed (pushed (init blank 0x8000) 0x3000) 0x5000

two-IsValid : IsValid two
unfolding page_to_index init
two-IsValid =
    pushed-IsValid 0x5000
      (pushed-IsValid 0x3000 (init-IsValid blank 0x8000) refl refl (omega arith)) refl refl
      (omega arith)

abbrev requests : List Op
requests = free 0x3000 ∷ free 0x3008 ∷ free 0x5000 ∷ alloc ∷ alloc ∷ alloc ∷ []

run-requests :
    run (init blank 0x8000) requests
    ≡ some (
        status freed
        ∷ status double_free
        ∷ status freed
        ∷ page (some 0x5000)
        ∷ page (some 0x3000)
        ∷ page none
        ∷ [])
unfolding run alloc_page free_page init
run-requests = refl

run-replies_example : run two requests ≡ some (replies (pages two) requests)
unfolding page_to_index
run-replies_example = run-replies requests two-IsValid (refl, (refl, (refl, tt)))

free_page-give_page_example :
    Gives (free_page two 0x5008) (give_page (pages two) 0x5008).0 (give_page (pages two) 0x5008).1
unfolding page_to_index
free_page-give_page_example = free_page-give_page 0x5008 two-IsValid refl

alloc_page_exclusive_example :
    (has_frame (page_to_index 0x5000) (pages (popped two)) ≡ false)
    × (is_page_free (popped two) 0x5000 ≡ some false)
    × (get_free_page_count two ≡ get_free_page_count (popped two) + 1)
unfolding alloc_page init
alloc_page_exclusive_example = alloc_page_exclusive two-IsValid refl

free_page_out_of_bitmap_example : (free_page two 0x802_0000 ≡ none) ↔ (0x802_0000 ≤ 0x802_0000)
free_page_out_of_bitmap_example = free_page_out_of_bitmap two 0x802_0000
