-- ===== src/Pmm/Spec.antt =====
-- What the page allocator promises: a stack of distinct page frames, the last one freed on top.
use cobra_os.Base.{
  ℕ, ◌≡◌, Bool, false, ◌||◌, List, [], ◌∷◌, Option, none, some, leb, ◌==◌, if◌then◌else◌, length,
}
use cobra_os.Pmm.{
  max_frames, page_to_index, Freed, freed, double_free, stack_overflow, Op, alloc, free, Reply,
  page, status,
}

-- some page of the list lies in frame `i`
abbrev pub has_frame : ℕ → List ℕ → Bool
has_frame i [] = false
has_frame i (p ∷ ps) = (page_to_index p == i) || has_frame i ps

-- no two pages of the list lie in one frame
abbrev pub Distinct : List ℕ → Type 0
Distinct [] = Unit
Distinct (p ∷ ps) = (has_frame (page_to_index p) ps ≡ false) × Distinct ps

unfoldable pub take_page : List ℕ → Option ℕ × List ℕ
take_page [] = (none, [])
take_page (p ∷ ps) = (some p, ps)

unfoldable pub give_page : List ℕ → ℕ → Freed × List ℕ
give_page ps p =
    if has_frame (page_to_index p) ps
    then (double_free, ps)
    else if leb max_frames (length ps)
    then (stack_overflow, ps)
    else (freed, p ∷ ps)

unfoldable pub replies : List ℕ → List Op → List Reply
replies ps [] = []
replies ps (alloc ∷ ops) = let (p, ps') = take_page ps in page p ∷ replies ps' ops
replies ps (free p ∷ ops) = let (r, ps') = give_page ps p in status r ∷ replies ps' ops
