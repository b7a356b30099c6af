-- ===== src/Heap/Split.antt =====
-- split_block of arch/x86/kernel/heap.c on a heap that stands for a buddy tree.
use cobra_os.Base.{
  ℕ, ◌+◌, ◌-◌, ◌≤◌, ◌<◌, ◌==◌, if◌then◌else◌, ◌≡◌, refl, arith, ◌^◌, Array, List, ◌∷◌, some, update,
  ap, ◌∙◌,
}
use Prim.Native.Nat.{bit_xor}
use cobra_os.Heap.{
  HeapState, set_list, buddy_of, insert_free_block, first, split_headers, split_block,
  remove_free_block,
}
use cobra_os.Heap.Alloc.{aligned_start}
use cobra_os.Heap.Sizes.{size, size_pred, size_min, bit_xor_left}
use cobra_os.Heap.Tree.{
  Tree, vacant, halves, vacancies, holdings, Headed, Sub, plug, Headed-Sub, Headed-vacant,
  holdings-plug, Sub-Aligned,
}
use cobra_os.Heap.Places.{Sub-vacant}
use cobra_os.Heap.Listed.{count, count-first, remove_free_block-some}
use cobra_os.Heap.Invariant.{top, nothing, IsHeap, held, start_Aligned, Describes-plug}

-- The memory after the header writes: two headers of order `o`.
abbrev halved : Array → ℕ → ℕ → ℕ → Array
halved w b o buddy =
    let v = update (update w (b + 4) o) (b + 8) 1 in
    update (update (update v (buddy + 4) o) (buddy + 8) 1) (buddy + 12) 0

-- What split_block leaves behind, `h` being the state without the block.
divided : ℕ → ℕ → ℕ → HeapState → HeapState
divided b o buddy h =
    let h1 : HeapState = record h { word = halved h.word b o buddy } in
    let h2 = set_list h1 o (b ∷ h1.free_lists o) in set_list h2 o (buddy ∷ h2.free_lists o)

-- `buddy` is the block behind the one at `b`.
module _ (b o buddy : ℕ) (behind : b + 32 ≤ buddy) where
  split_headers-word :
      (h : HeapState)
      → bit_xor b (2 ^ o) ≡ buddy
      → (split_headers h b o ≡ record h { word = halved h.word b o buddy })
        × (buddy_of (split_headers h b o) b ≡ buddy)
  unfolding split_headers buddy_of
  split_headers-word h e = (same, ap (λ g. buddy_of g b) same ∙ ap (λ x. bit_xor b (2 ^ x)) low ∙ e)
    where
      written : update (update h.word (b + 4) o) (b + 8) 1 (b + 4) ≡ o
      written = ground arith

      low : halved h.word b o buddy (b + 4) ≡ o
      low = ground arith

      same : split_headers h b o ≡ record h { word = halved h.word b o buddy }
      same =
          ap (λ x. record h { word = halved h.word b o (bit_xor b (2 ^ x)) }) written
          ∙ ap (λ x. record h { word = halved h.word b o x }) e

  inserted :
      (h : HeapState)
      → insert_free_block (insert_free_block (record h { word = halved h.word b o buddy }) b) buddy
        ≡ divided b o buddy h
  unfolding insert_free_block divided
  inserted h = rw (low, high) refl
    where
      low : halved h.word b o buddy (b + 4) ≡ o
      low = ground arith

      high : halved h.word b o buddy (buddy + 4) ≡ o
      high = ground arith

  split_block-divided :
      (h : HeapState) (p : ℕ) (kept : List ℕ)
      → p - 1 ≡ o
      → first (h.free_lists p) ≡ some b
      → remove_free_block h b ≡ some (set_list h p kept)
      → bit_xor b (2 ^ o) ≡ buddy
      → split_block h p ≡ some (divided b o buddy (set_list h p kept))
  unfolding split_block
  split_block-divided h p kept e f g x =
      let (same, beside) = split_headers-word (set_list h p kept) x in
      rw (f, g, e, beside, same, inserted (set_list h p kept)) refl

-- A tree whose vacant block of level `m` at `b` is cut into halves.
module _ (h : HeapState) (t : Tree) (m b : ℕ) (kept : List ℕ) (d : IsHeap h t) (lt : 0 < m)
    (place : Sub vacant m b t top aligned_start)
    (counted : (c : ℕ)
      → count c kept + (if b == c then 1 else 0) ≡ count c (h.free_lists (m + 5))) where
  cut : HeapState
  cut = divided b (m - 1 + 5) (b + size (m - 1)) (set_list h (m + 5) kept)

  cut-listed :
      (o c : ℕ)
      → count c (cut.free_lists o) + nothing o c + vacancies vacant m b o c
        ≡ count c (h.free_lists o) + nothing o c + vacancies (halves vacant vacant) m b o c
  unfolding cut divided vacancies count
  cut-listed o c = ground (arith, counted c)

  cut-Headed : Headed cut.word (halves vacant vacant) m b
  unfolding cut divided Headed
  cut-Headed = (
    lt,
    (ground (arith, size_min (m - 1)), ground (arith, size_min (m - 1))),
    (ground (arith, size_min (m - 1)), ground (arith, size_min (m - 1))),
  )

  cut-Describes : IsHeap cut (plug place (halves vacant vacant))
  unfolding cut divided
  cut-Describes =
      Describes-plug (halves vacant vacant) cut nothing d place (λ j p. ground arith)
        (λ j p. ground (arith, size_pred m lt, size_min (m - 1))) cut-Headed cut-listed

  cut-held : (o c : ℕ) → held (plug place (halves vacant vacant)) o c ≡ held t o c
  unfolding holdings
  cut-held o c = omega (arith, holdings-plug (halves vacant vacant) place o c)

  cut-first : first (cut.free_lists (m - 1 + 5)) ≡ some (b + size (m - 1))
  unfolding cut divided first
  cut-first = ground arith

  behind : b + 32 ≤ b + size (m - 1)
  behind = omega (arith, size_min (m - 1))

  cut-split_block :
      first (h.free_lists (m + 5)) ≡ some b
      → remove_free_block h b ≡ some (set_list h (m + 5) kept)
      → split_block h (m + 5) ≡ some cut
  unfolding cut
  cut-split_block e f =
      split_block-divided b (m - 1 + 5) (b + size (m - 1)) behind h (m + 5) kept (omega arith) e f
        (bit_xor_left m b lt (Sub-Aligned place start_Aligned))

-- A free block of level `m` is replaced by its two halves.
pub split_block-IsHeap :
    (h : HeapState) (t : Tree) (m b : ℕ)
    → IsHeap h t
    → 0 < m
    → first (h.free_lists (m + 5)) ≡ some b
    → (h' : HeapState) × (t' : Tree) × (split_block h (m + 5) ≡ some h')
      × IsHeap h' t'
      × ((o c : ℕ) → held t' o c ≡ held t o c)
      × (first (h'.free_lists (m - 1 + 5)) ≡ some (b + size (m - 1)))
split_block-IsHeap h t m b d lt e =
    let found = count-first b (h.free_lists (m + 5)) e in
    let place =
      Sub-vacant t top aligned_start m b h.word d.headed
        (omega (arith, found, d.listed (m + 5) b)) in
    let (kept, removed, counted) =
      remove_free_block-some h b (m + 5)
        (Headed-vacant h.word m b (Headed-Sub h.word place d.headed)).0 found in
    (
      cut h t m b kept d lt place counted,
      plug place (halves vacant vacant),
      cut-split_block h t m b kept d lt place counted e removed,
      cut-Describes h t m b kept d lt place counted,
      cut-held h t m b kept d lt place counted,
      cut-first h t m b kept d lt place counted,
    )
