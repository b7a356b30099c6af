-- ===== src/Heap/OnBoundary.antt =====
-- kmalloc_aligned of arch/x86/kernel/heap.c on a heap that stands for a buddy tree.
use cobra_os.Base.{
  ℕ, ◌+◌, ◌-◌, ◌*◌, ◌/◌, ◌%◌, ◌≤◌, ◌<◌, ◌^◌, ◌==◌, ltb, ◌≡◌, ◌⊎◌, inl, inr, refl, arith, Bool-cases,
  some, ap, ◌∙◌, false, update, bit_and,
}
use cobra_os.Base.Bits.{complement, pow_pos}
use cobra_os.Base.Masks.{bit_and-mask}
use cobra_os.Heap.{HeapState, header_size}
use cobra_os.Heap.Alloc.{
  aligned_start, size_max, aligned_in, mark_aligned, kmalloc_with, kmalloc_aligned,
}
use cobra_os.Heap.Sizes.{size}
use cobra_os.Heap.Tree.{Tree, at}
use cobra_os.Heap.Places.{Apart, holdings_inside}
use cobra_os.Heap.Invariant.{top, IsHeap, held}
use cobra_os.Heap.Granted.{size-pow}
use cobra_os.Heap.Contract.{Fresh, kmalloc-Fresh, payload_write-IsHeap}
use cobra_os.Heap.Powers.{usable_alignment-power}
use native.Mathlib.Nat.{mod-eq-sub-div-mul, div-mul-le_self, mul-mod_left, mod-lt}

-- A multiple of the alignment between `raw + 4` and `raw + 3 + alignment`.
aligned_in-multiple :
    (raw e : ℕ)
    → e ≤ 31
    → raw + 4 + 2 ^ e < 2 ^ 32
    → (aligned_in raw (2 ^ e) % 2 ^ e ≡ 0)
      × (raw + 4 ≤ aligned_in raw (2 ^ e))
      × (aligned_in raw (2 ^ e) < raw + 4 + 2 ^ e)
unfolding aligned_in
aligned_in-multiple raw e le small =
    rw (ap (λ x. bit_and x (complement 32 (2 ^ e - 1))) wide, masked)
      (
        ap (λ x. x % 2 ^ e) multiple ∙ mul-mod_left (y / 2 ^ e) (2 ^ e),
        omega (arith, mod-lt y (pow_pos e)),
        omega (arith, pow_pos e),
      )
  where
    y : ℕ
    y = raw + 4 + 2 ^ e - 1

    wide : y % 2 ^ 32 ≡ y
    wide = omega (arith, pow_pos e)

    masked : bit_and y (complement 32 (2 ^ e - 1)) ≡ y - y % 2 ^ e
    masked = bit_and-mask 32 e y (omega arith) (omega (arith, pow_pos e))

    multiple : y - y % 2 ^ e ≡ y / 2 ^ e * 2 ^ e
    multiple = omega (arith, mod-eq-sub-div-mul y (2 ^ e), div-mul-le_self y (2 ^ e))

-- What kmalloc_aligned gives beyond a new block: the pointer is aligned, the bytes behind it lie in
-- the block, and the word before it leads kfree to the block.
abbrev pub FreshAt : HeapState → Tree → ℕ → ℕ → HeapState → Tree → ℕ → Type 0
FreshAt h t n alignment h' t' p =
    (k : ℕ) × (b : ℕ) × IsHeap h' t'
    × (p % alignment ≡ 0)
    × (b + header_size + 4 ≤ p)
    × (p + n ≤ b + size k)
    × (h'.word (p - 4) ≡ b)
    × ((o x : ℕ) → held t' o x ≡ held t o x + at k b o x)
    × ((j x : ℕ) → 0 < held t (j + 5) x → Apart k b j x)

-- The pointer is moved up inside a block that kmalloc gave, and the word before it is written.
mark_aligned-FreshAt :
    (h h1 : HeapState) (t t1 : Tree) (n e k b : ℕ)
    → e ≤ 31
    → 4 ≤ 2 ^ e
    → Fresh h t (n + 2 ^ e + 4) h1 t1 k b
    → (h' : HeapState) × (t' : Tree) × (p : ℕ) × (mark_aligned (2 ^ e) (h1, b + header_size)
        ≡ (h', p))
      × FreshAt h t n (2 ^ e) h' t' p
unfolding mark_aligned
mark_aligned-FreshAt h h1 t t1 n e k b le four (d, lo, multiple, fits, least, more, apart) =
    let inside = holdings_inside t1 top aligned_start k b h1.word d.headed given in
    let (zero_rest, above, below) =
      aligned_in-multiple (b + header_size) e le (omega (arith, inside, size-pow top)) in
    let (t', d', same) =
      payload_write-IsHeap h1 t1 k b (aligned - 4) b d given (omega (arith, above))
        (omega (arith, below)) in
    (
      written,
      t',
      aligned,
      rw (somewhere, back) refl,
      (
        k,
        b,
        d',
        zero_rest,
        omega (arith, above),
        omega (arith, below),
        ground arith,
        λ o x. same o x ∙ more o x,
        apart,
      ),
    )
  where
    aligned : ℕ
    aligned = aligned_in (b + header_size) (2 ^ e)

    written : HeapState
    written = record h1 { word = update h1.word (aligned - 4) b }

    given : 0 < held t1 (k + 5) b
    given = ground (arith, more (k + 5) b)

    somewhere : (b + header_size == 0) ≡ false
    somewhere = ground arith

    back : b + header_size - header_size ≡ b
    back = omega arith

-- On a heap that stands for a buddy tree, a request for at least one byte at an alignment of at most 2^31
-- is answered without a panic: either with a multiple of a power of two no smaller than the alignment,
-- such that the bytes asked for lie inside a new block, apart from the earlier ones, whose address
-- is in the word before the pointer; or with NULL, when the heap is unchanged.
pub kmalloc_aligned-FreshAt :
    (h : HeapState) (t : Tree) (n alignment : ℕ)
    → IsHeap h t
    → 0 < n
    → alignment ≤ 2 ^ 31
    → (e : ℕ) × (h' : HeapState) × (t' : Tree) × (p : ℕ) × (alignment ≤ 2 ^ e)
      × (kmalloc_aligned h n alignment ≡ some (h', p))
      × (FreshAt h t n (2 ^ e) h' t' p ⊎ ((p ≡ 0) × (h' ≡ h)))
unfolding kmalloc_aligned kmalloc_with mark_aligned
kmalloc_aligned-FreshAt h t n alignment d pos le =
    let (e, f, large, four, small) = usable_alignment-power alignment le in
    elim (Bool-cases (ltb (size_max - 2 ^ e - 4) n)) [
      | inl wide ↦ (e, h, t, 0, large, rw (nonzero, f, wide) refl, inr (refl, refl))
      | inr room ↦
          let (h1, t1, raw, g, answer) = kmalloc-Fresh h t (n + 2 ^ e + 4) d (omega arith) in
          elim answer [
            | inl (k, b, at_block, fresh) ↦
                let (h', t', p, marked, result) =
                  mark_aligned-FreshAt h h1 t t1 n e k b small four fresh in
                (
                  e,
                  h',
                  t',
                  p,
                  large,
                  rw (nonzero, f, room, g, at_block) (ap some marked),
                  inl result,
                )
            | inr (null, unchanged) ↦
                (e, h1, t1, 0, large, rw (nonzero, f, room, g, null) refl, inr (refl, unchanged.0))
          ]
    ]
  where
    nonzero : (n == 0) ≡ false
    nonzero = ground arith
