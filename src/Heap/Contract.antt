-- ===== src/Heap/Contract.antt =====
-- What kmalloc of arch/x86/kernel/heap.c promises its callers, on a heap that stands for a buddy tree.
use cobra_os.Base.{
  ℕ, zero, suc, ◌+◌, ◌-◌, ◌*◌, ◌/◌, ◌%◌, ◌≤◌, ◌<◌, ◌==◌, ltb, ◌≡◌, ◌⊎◌, inl, inr, arith, Bool-cases,
  some, ap, ◌∙◌, false, update, bit_and,
}
use cobra_os.Base.Bits.{complement}
use cobra_os.Base.Masks.{bit_and-mask}
use cobra_os.Heap.{HeapState, header_size}
use cobra_os.Heap.Alloc.{aligned_start, size_max, kmalloc, kfree}
use cobra_os.Heap.Sizes.{size, size_suc, Aligned}
use cobra_os.Heap.Tree.{
  Tree, taken, at, vacancies, holdings, Headed, plug, Headed-Sub, Headed-taken, holdings-plug,
}
use cobra_os.Heap.Places.{Apart, holdings-Apart, holdings-le-one, Sub-taken}
use cobra_os.Heap.Invariant.{top, nothing, IsHeap, held, Describes-plug}
use cobra_os.Heap.Granted.{Answers, buddy_alloc-Answers, too_large, size-pow}
use cobra_os.Heap.Release.{TakesBack, kfree-TakesBack}

-- the bytes that a request takes: rounded up to a multiple of 8, with the header
abbrev pub need : ℕ → ℕ
need n = (n + 7) / 8 * 8 + header_size

pub kmalloc-Answers :
    (h : HeapState) (t : Tree) (n : ℕ) → IsHeap h t → 0 < n → Answers h t (need n) (kmalloc h n)
unfolding kmalloc
kmalloc-Answers h t n d pos = elim (Bool-cases (ltb (size_max - 7) n)) [
  | inl e ↦ rw (nonzero, e) (too_large h t (need n) (ground (arith, size-pow top)))
  | inr e ↦ rw (nonzero, e, rounded e) (buddy_alloc-Answers h t ((n + 7) / 8 * 8) d (omega arith))
]
  where
    nonzero : (n == 0) ≡ false
    nonzero = ground arith

    rounded : ltb (size_max - 7) n ≡ false → bit_and (n + 7) (complement 32 7) ≡ (n + 7) / 8 * 8
    rounded e = bit_and-mask 32 3 (n + 7) (omega arith) (ground arith) ∙ omega arith

-- What a client may rely on for the block of level `k` at `b`: it is new, apart from every block that
-- was handed out before, and the smallest kind with room for `n` bytes behind its header.
abbrev pub Fresh : HeapState → Tree → ℕ → HeapState → Tree → ℕ → ℕ → Type 0
Fresh h t n h' t' k b =
    IsHeap h' t'
    × (aligned_start ≤ b)
    × (b % 32 ≡ 0)
    × (need n ≤ size k)
    × ((j : ℕ) → j < k → size j < need n)
    × ((o x : ℕ) → held t' o x ≡ held t o x + at k b o x)
    × ((j x : ℕ) → 0 < held t (j + 5) x → Apart k b j x)

-- the answer to a request that finds no room
abbrev pub Unchanged : HeapState → Tree → ℕ → HeapState → Tree → Type 0
Unchanged h t n h' t' =
    (h' ≡ h)
    × (t' ≡ t)
    × ((m b : ℕ) → m ≤ top → need n ≤ size m → vacancies t top aligned_start (m + 5) b ≡ 0)

size_multiple : (k : ℕ) → (r : ℕ) × (size k ≡ 32 * r)
size_multiple zero = (1, size-pow 0)
size_multiple (suc k) = let (r, e) = size_multiple k in (r + r, omega (arith, e, size_suc k))

Aligned-mod : (k b : ℕ) → Aligned k b → b % 32 ≡ 0
Aligned-mod k b (q, e) =
    let (r, f) = size_multiple k in ap (λ x. x % 32) (e ∙ ap (λ x. q * x) f) ∙ omega arith

-- The block just counted is apart from the earlier ones.
new_Apart :
    (h' : HeapState) (t t' : Tree) (k b j x : ℕ)
    → IsHeap h' t'
    → ((o c : ℕ) → held t' o c ≡ held t o c + at k b o c)
    → 0 < held t (j + 5) x
    → Apart k b j x
new_Apart h' t t' k b j x d more old =
    elim (holdings-Apart t' top aligned_start k b j x h'.word d.headed
      (ground (arith, more (k + 5) b)) (omega (arith, more (j + 5) x))) [
        | inl (e, f) ↦ absurd (
            ground
              (arith, more (j + 5) x, holdings-le-one t' top aligned_start j x h'.word d.headed))
        | inr e ↦ e
      ]

-- On a heap that stands for a buddy tree, a request for at least one byte is answered without a panic:
-- either with the pointer behind the header of a block of the smallest level with room, aligned to
-- 32 bytes and apart from every block handed out before, after which the heap stands for a tree with
-- just that block handed out in addition; or with NULL, when nothing changes and no vacant block has
-- room.
pub kmalloc-Fresh :
    (h : HeapState) (t : Tree) (n : ℕ)
    → IsHeap h t
    → 0 < n
    → (h' : HeapState) × (t' : Tree) × (p : ℕ) × (kmalloc h n ≡ some (h', p))
      × (((k : ℕ) × (b : ℕ) × (p ≡ b + header_size) × Fresh h t n h' t' k b)
          ⊎ ((p ≡ 0) × Unchanged h t n h' t'))
kmalloc-Fresh h t n d pos =
    let (h', t', p, e, answer) = kmalloc-Answers h t n d pos in
    (
      h',
      t',
      p,
      e,
      elim answer [
        | inl (k, b, f, fits, least, (d', lo, al, more)) ↦ inl (
          k,
          b,
          f,
          (
            d',
            lo,
            Aligned-mod k b al,
            fits,
            least,
            more,
            λ j x old. new_Apart h' t t' k b j x d' more old,
          ),
        )
        | inr (f, same, same_tree, full) ↦ inr (f, (same, same_tree, full))
      ],
    )

-- A client writes a word of a block that it holds, behind the header.
pub payload_write-IsHeap :
    (h : HeapState) (t : Tree) (k b a v : ℕ)
    → IsHeap h t
    → 0 < held t (k + 5) b
    → b + header_size ≤ a
    → a < b + size k
    → (t' : Tree) × IsHeap (record h { word = update h.word a v }) t'
      × ((o x : ℕ) → held t' o x ≡ held t o x)
unfolding Headed holdings
payload_write-IsHeap h t k b a v d given lo hi =
    let place = Sub-taken t top aligned_start k b h.word d.headed given in
    let (order, free, self) = Headed-taken h.word k b (Headed-Sub h.word place d.headed) in
    (
      plug place taken,
      Describes-plug taken (record h { word = update h.word a v }) nothing d place
          (λ j p. ground arith) (λ j p. ground arith) (ground arith, ground arith, ground arith)
          (λ o x. omega arith),
      λ o x. omega (arith, holdings-plug taken place o x),
    )

-- kfree of a pointer that kmalloc gave, while its block is handed out.
pub kfree-held :
    (h : HeapState) (t : Tree) (k b : ℕ)
    → IsHeap h t
    → 0 < held t (k + 5) b
    → (h' : HeapState) × (t' : Tree) × (kfree h (b + header_size) ≡ some h')
      × TakesBack h t k b h' t'
kfree-held h t k b d given =
    let place = Sub-taken t top aligned_start k b h.word d.headed given in
    let (order, free, self) = Headed-taken h.word k b (Headed-Sub h.word place d.headed) in
    kfree-TakesBack h t k b (b + header_size) d given (omega arith)
      (ap h.word {x = b + header_size - 4} {y = b + 12} (omega arith) ∙ self)
