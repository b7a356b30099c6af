-- ===== src/Heap/Sessions.antt =====
-- The sessions of Clients keep the heap of arch/x86/kernel/heap.c in order.
use cobra_os.Base.{
  ℕ, zero, suc, ◌+◌, ◌≤◌, ◌<◌, ◌==◌, ltb, ◌≡◌, inl, inr, refl, sym, arith, Array, Bool-cases, none,
  some, ap, ◌∙◌, List, [], ◌∷◌, map, All, get_elem?, update, false, Option-cases, subst,
}
use cobra_os.Heap.{HeapState, header_size}
use cobra_os.Heap.Alloc.{kmalloc_init, kmalloc}
use cobra_os.Heap.Sizes.{size}
use cobra_os.Heap.Tree.{Tree, vacant, holdings}
use cobra_os.Heap.Invariant.{IsHeap, held, kmalloc_init-IsHeap}
use cobra_os.Heap.Contract.{need, kmalloc-Fresh, kfree-held, payload_write-IsHeap}
use cobra_os.Heap.Clients.{
  Request, alloc, write, release, Client, remove_at, keep_block, write_in, give_back, serve,
  serve_all, Disjoint, Pairwise,
}
use cobra_os.Heap.Blocks.{
  All-remove_at, Pairwise-remove_at, All-get_elem?, Block, view, Fits, Separate, tally,
  map-remove_at, map-get_elem?, map-get_elem?-none, tally-remove_at, All-Separate,
}

-- The heap stands for a tree, and the clients hold just the blocks that are handed out in it.
Sound : Client → Type 0
Sound c =
    (t : Tree) × (blocks : List Block) × IsHeap c.heap t
    × (c.live ≡ map view blocks)
    × All Fits blocks
    × ((o x : ℕ) → tally blocks o x ≡ held t o x)
    × Pairwise Separate blocks

Served : Client → Request → Type 0
Served c r = (c' : Client) × (serve c r ≡ some c') × Sound c'

alloc-Served : (c : Client) (n : ℕ) → Sound c → Served c (alloc (suc n))
unfolding Served Sound serve keep_block tally
alloc-Served c n (t, blocks, d, live, fits, counted, apart) =
    let (h', t', p, e, answer) = kmalloc-Fresh c.heap t (suc n) d (omega arith) in
    elim answer [
      | inl (k, b, f, (d', lo, multiple, room, least, more, new)) ↦ (
        record { heap = h'; live = (b + header_size, suc n) ∷ c.live },
        rw (e, f, somewhere b) refl,
        (
          t',
          (k, b, suc n) ∷ blocks,
          d',
          ap (λ l. (b + header_size, suc n) ∷ l) live,
          (room, fits),
          λ o x. omega (arith, counted o x, more o x),
          (
            All-Separate blocks k b (suc n) (λ j x p. new j x (omega (arith, counted (j + 5) x))),
            apart,
          ),
        ),
      )
      | inr (null, (same, _, _)) ↦ (
        record { heap = h'; live = c.live },
        rw (e, null) refl,
        (t, blocks, subst (λ g. IsHeap g t) (sym same) d, live, fits, counted, apart),
      )
    ]
  where
    somewhere : (b : ℕ) → (b + header_size == 0) ≡ false
    somewhere b = ground arith

-- What a position holds, seen from the clients' list and from the blocks.
looked_up :
    (c : Client) (blocks : List Block) (i : ℕ) (x : Block)
    → c.live ≡ map view blocks
    → get_elem? blocks i ≡ some x
    → get_elem? c.live i ≡ some (view x)
looked_up c blocks i x live e = ap (λ l. get_elem? l i) live ∙ map-get_elem? blocks i x e

not_looked_up :
    (c : Client) (blocks : List Block) (i : ℕ)
    → c.live ≡ map view blocks
    → get_elem? blocks i ≡ none
    → get_elem? c.live i ≡ none
not_looked_up c blocks i live e = ap (λ l. get_elem? l i) live ∙ map-get_elem?-none blocks i e

tally-held :
    (blocks : List Block) (i k b n : ℕ)
    → get_elem? blocks i ≡ some (k, b, n)
    → 0 < tally blocks (k + 5) b
tally-held blocks i k b n e = ground (arith, tally-remove_at blocks i k b n (k + 5) b e)

write-Served : (c : Client) (i offset v : ℕ) → Sound c → Served c (write i offset v)
unfolding Served Sound serve write_in
write-Served c i offset v s =
    let (t, blocks, d, live, fits, counted, apart) = s in
    elim (Option-cases (get_elem? blocks i)) [
      | inl e ↦ (c, rw (not_looked_up c blocks i live e) refl, s)
      | inr ((k, b, n), e) ↦ elim (Bool-cases (ltb offset n)) [
        | inl lt ↦
            let room = All-get_elem? Fits blocks i (k, b, n) fits e in
            let (t', d', same) =
              payload_write-IsHeap c.heap t k b (b + header_size + offset) v d
                (omega (arith, counted (k + 5) b, tally-held blocks i k b n e)) (omega arith)
                (ground arith) in
            (
              record c {
                heap = record c.heap { word = update c.heap.word (b + header_size + offset) v };
              },
              rw (looked_up c blocks i (k, b, n) live e, lt) refl,
              (t', blocks, d', live, fits, λ o x. counted o x ∙ sym (same o x), apart),
            )
        | inr ge ↦ (c, rw (looked_up c blocks i (k, b, n) live e, ge) refl, s)
      ]
    ]

release-Served : (c : Client) (i : ℕ) → Sound c → Served c (release i)
unfolding Served Sound serve give_back
release-Served c i s =
    let (t, blocks, d, live, fits, counted, apart) = s in
    elim (Option-cases (get_elem? blocks i)) [
      | inl e ↦ (c, rw (not_looked_up c blocks i live e) refl, s)
      | inr ((k, b, n), e) ↦
          let (h', t', f, (d', less)) =
            kfree-held c.heap t k b d
              (omega (arith, counted (k + 5) b, tally-held blocks i k b n e)) in
          (
            record { heap = h'; live = remove_at i c.live },
            rw (looked_up c blocks i (k, b, n) live e, f) refl,
            (
              t',
              remove_at i blocks,
              d',
              ap (remove_at i) live ∙ map-remove_at blocks i,
              All-remove_at Fits blocks i fits,
              λ o x. omega (arith, tally-remove_at blocks i k b n o x e, counted o x, less o x),
              Pairwise-remove_at Separate blocks i apart,
            ),
          )
    ]

serve-Sound : (c : Client) (r : Request) → Sound c → Served c r
unfolding Served serve keep_block kmalloc
serve-Sound c (alloc zero) s = (c, refl, s)
serve-Sound c (alloc (suc n)) s = alloc-Served c n s
serve-Sound c (write i offset v) s = write-Served c i offset v s
serve-Sound c (release i) s = release-Served c i s

serve_all-Sound :
    (c : Client) (rs : List Request)
    → Sound c
    → (c' : Client) × (serve_all c rs ≡ some c') × Sound c'
unfolding Served serve_all
serve_all-Sound c [] s = (c, refl, s)
serve_all-Sound c (r ∷ rs) s =
    let (c1, e, s1) = serve-Sound c r s in
    let (c2, f, s2) = serve_all-Sound c1 rs s1 in (c2, rw (e, f) refl, s2)

Disjoint-All :
    (k b n : ℕ) (blocks : List Block)
    → need n ≤ size k
    → All Fits blocks
    → All (Separate (k, b, n)) blocks
    → All (Disjoint (b + header_size, n)) (map view blocks)
Disjoint-All k b n [] f fs h = tt
Disjoint-All k b n ((j, x, m) ∷ ys) f fs h = (
  elim h.0 [ inl e ↦ inl (omega (arith, fs.0)) | inr e ↦ inr (omega (arith, fs.0)) ],
  Disjoint-All k b n ys f fs.1 h.1,
)

Disjoint-Pairwise :
    (blocks : List Block)
    → All Fits blocks
    → Pairwise Separate blocks
    → Pairwise Disjoint (map view blocks)
Disjoint-Pairwise [] f h = tt
Disjoint-Pairwise ((k, b, n) ∷ ys) f h =
    (Disjoint-All k b n ys f.0 f.1 h.0, Disjoint-Pairwise ys f.1 h.1)

-- From a fresh heap, any sequence of requests for blocks, of writes within the bytes that were asked
-- for, and of returns of blocks that are held is served without a panic, and at its end the bytes of
-- any two blocks that are held are disjoint.
pub serve_all-Disjoint :
    (m : Array) (rs : List Request)
    → (h : HeapState) × (c : Client) × (kmalloc_init m ≡ some h)
      × (serve_all (record { heap = h; live = [] }) rs ≡ some c)
      × Pairwise Disjoint c.live
unfolding Sound tally holdings
serve_all-Disjoint m rs =
    let (h, e, d) = kmalloc_init-IsHeap m in
    let (c, f, (t, blocks, d', live, fits, counted, apart)) =
      serve_all-Sound (record { heap = h; live = [] }) rs
        (vacant, [], d, refl, tt, λ o x. refl, tt) in
    (h, c, e, f, subst (Pairwise Disjoint) (sym live) (Disjoint-Pairwise blocks fits apart))
