-- ===== src/Heap/Listed.antt =====
-- The free lists of arch/x86/kernel/heap.c by how often a block occurs in them.
use cobra_os.Base.{
  ℕ, ◌+◌, ◌<◌, ◌==◌, if◌then◌else◌, ◌≡◌, refl, arith, List, [], ◌∷◌, some, Bool-cases, inl, inr,
}
use cobra_os.Heap.{HeapState, order_of, set_list, first, without_block, remove_free_block}

unfoldable pub count : ℕ → List ℕ → ℕ
count b [] = 0
count b (c ∷ cs) = (if c == b then 1 else 0) + count b cs

-- A block that occurs is found, and leaves the list once.
pub without_block-count :
    (b : ℕ) (bs : List ℕ)
    → 0 < count b bs
    → (kept : List ℕ) × (without_block b bs ≡ some kept)
      × ((c : ℕ) → count c kept + (if b == c then 1 else 0) ≡ count c bs)
unfolding count without_block
without_block-count b [] h = absurd (omega arith)
without_block-count b (c ∷ cs) h = elim (Bool-cases (c == b)) [
  | inl e ↦ (cs, ground arith, λ x. ground arith)
  | inr e ↦
      let (kept, f, g) = without_block-count b cs (ground arith) in
      (c ∷ kept, rw (e, f) refl, λ x. ground (arith, g x))
]

pub count-first : (b : ℕ) (bs : List ℕ) → first bs ≡ some b → 0 < count b bs
unfolding first count
count-first b [] h = absurd (cc)
count-first b (c ∷ cs) h = ground arith

-- what the removal of a block from its list gives
abbrev pub Removal : HeapState → ℕ → ℕ → Type 0
Removal h b o =
    (kept : List ℕ) × (remove_free_block h b ≡ some (set_list h o kept))
    × ((c : ℕ) → count c kept + (if b == c then 1 else 0) ≡ count c (h.free_lists o))

-- A block that its list contains is removed from it without a panic.
pub remove_free_block-some :
    (h : HeapState) (b o : ℕ) → order_of h b ≡ o → 0 < count b (h.free_lists o) → Removal h b o
unfolding remove_free_block
remove_free_block-some h b o e p =
    let (kept, f, g) = without_block-count b (h.free_lists o) p in (kept, rw (e, f) refl, g)
