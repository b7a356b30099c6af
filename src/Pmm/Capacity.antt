-- ===== src/Pmm/Capacity.antt =====
-- How many frames the stack of arch/x86/kernel/pmm.c can be asked to hold.
use cobra_os.Base.{
  ℕ, zero, suc, ◌+◌, ◌*◌, ◌<◌, ◌≤◌, ◌≡◌, ◌≢◌, ◌↔◌, refl, false, arith, ◌==◌, if◌then◌else◌, List,
  [], ◌∷◌, length, none, some, All, Bool-cases, inl, inr,
}
use cobra_os.Pmm.{Pmm, page_size, max_frames, page_to_index, free_page, Freed, stack_overflow}
use cobra_os.Pmm.Spec.{has_frame, Distinct, give_page}
use cobra_os.Pmm.Invariant.{pages, IsValid}
use cobra_os.Pmm.Refine.{free_page-give_page}

-- the pages that lie in no frame `k`
without : ℕ → List ℕ → List ℕ
without k [] = []
without k (p ∷ ps) = if page_to_index p == k then without k ps else p ∷ without k ps

without_id : (k : ℕ) (ps : List ℕ) → has_frame k ps ≡ false → without k ps ≡ ps
unfolding without
without_id k [] h = refl
without_id k (p ∷ ps) h = ground (arith, without_id k ps)

has_frame-without :
    (i k : ℕ) (ps : List ℕ) → has_frame i ps ≡ false → has_frame i (without k ps) ≡ false
unfolding without
has_frame-without i k [] h = refl
has_frame-without i k (p ∷ ps) h = ground (arith, has_frame-without i k ps)

Distinct-without : (k : ℕ) (ps : List ℕ) → Distinct ps → Distinct (without k ps)
unfolding without
Distinct-without k [] d = tt
Distinct-without k (p ∷ ps) d = elim (Bool-cases (page_to_index p == k)) [
  | inl e ↦ rw e (Distinct-without k ps d.1)
  | inr e ↦ rw e (has_frame-without (page_to_index p) k ps d.0, Distinct-without k ps d.1)
]

length-without : (k : ℕ) (ps : List ℕ) → Distinct ps → length ps ≤ length (without k ps) + 1
unfolding without
length-without k [] d = omega arith
length-without k (p ∷ ps) d = elim (Bool-cases (page_to_index p == k)) [
  | inl e ↦ ground (arith, d.0, without_id k ps)
  | inr e ↦ rw e (omega (arith, length-without k ps d.1))
]

abbrev pub Below : ℕ → ℕ → Type 0
Below n p = page_to_index p < n

Below-without : (n : ℕ) (ps : List ℕ) → All (Below (suc n)) ps → All (Below n) (without n ps)
unfolding without
Below-without n [] h = tt
Below-without n (p ∷ ps) h = elim (Bool-cases (page_to_index p == n)) [
  | inl e ↦ rw e (Below-without n ps h.1)
  | inr e ↦ rw e (ground arith, Below-without n ps h.1)
]

-- At most `n` distinct pages lie in the frames below `n`.
length-le_of_Below : (n : ℕ) (ps : List ℕ) → Distinct ps → All (Below n) ps → length ps ≤ n
length-le_of_Below zero [] d h = omega arith
length-le_of_Below zero (p ∷ ps) d h = absurd (omega arith)
length-le_of_Below (suc n) ps d h = omega (
  arith,
  length-without n ps d,
  length-le_of_Below n (without n ps) (Distinct-without n ps d) (Below-without n ps h),
)

give_page_overflow :
    (ps : List ℕ) (p : ℕ)
    → (give_page ps p).0 ≡ stack_overflow
    → (has_frame (page_to_index p) ps ≡ false) × (max_frames ≤ length ps)
unfolding give_page
give_page_overflow ps p e = ground arith

give_page_has_room :
    (ps : List ℕ) (p : ℕ)
    → Distinct ps
    → All (Below max_frames) ps
    → Below max_frames p
    → (give_page ps p).0 ≢ stack_overflow
give_page_has_room ps p d below h over =
    let full = give_page_overflow ps p over in
    let crowd : suc (length ps) ≤ max_frames =
      length-le_of_Below max_frames (p ∷ ps) (full.0, d) (h, below) in
    omega (arith, full.1)

-- While every free page lies below 128 MiB, freeing another page below 128 MiB is refused only as a
-- double free: the stack never reports an overflow.
pub free_page_never_overflows :
    {s s' : Pmm} (p : ℕ) {r : Freed}
    → IsValid s
    → All (Below max_frames) (pages s)
    → p < page_size * max_frames
    → free_page s p ≡ some (r, s')
    → r ≢ stack_overflow
unfolding page_to_index
free_page_never_overflows {s} {s'} p {r} v below h e over =
    let (t, returned, _, _) = free_page-give_page p v (ground arith) in
    let same : r ≡ (give_page (pages s) p).0 = ground (arith, e, returned) in
    give_page_has_room (pages s) p v.distinct below (omega arith) (ground (arith, same, over))

-- The bitmap reaches to 0x8020000 (128 MiB and 32 pages): freeing a page at or above that address is
-- an access outside the bitmap, and freeing one below it never is.
pub free_page_out_of_bitmap : (s : Pmm) (p : ℕ) → (free_page s p ≡ none) ↔ (0x802_0000 ≤ p)
unfolding free_page
free_page_out_of_bitmap s p = (λ e. ground arith, λ h. ground arith)
