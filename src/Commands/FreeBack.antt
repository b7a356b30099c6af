-- ===== src/Commands/FreeBack.antt =====
-- kalloc followed by kfree of the address that it printed, in arch/x86/kernel/shell.c.
use cobra_os.Base.{ℕ, ◌+◌, ◌<◌, ◌^◌, ◌==◌, ◌≡◌, ◌⊎◌, inl, inr, refl, arith, some, false}
use cobra_os.Heap.{HeapState, header_size}
use cobra_os.Heap.Alloc.{aligned_start}
use cobra_os.Heap.Sizes.{size_min}
use cobra_os.Heap.Tree.{Tree}
use cobra_os.Heap.Places.{holdings_inside}
use cobra_os.Heap.Invariant.{top, IsHeap, held}
use cobra_os.Heap.Granted.{size-pow}
use cobra_os.Heap.Contract.{kmalloc-Fresh, kfree-held}
use cobra_os.Shell.Numbers.{print_uint, hex_string}
use cobra_os.Shell.ReadBack.{parse_dec-print_uint}
use cobra_os.Commands.Pages.{
  Report, failed, allocated, freed, kalloc_size, cmd_kalloc, kfree_at, cmd_kfree,
}

-- the report of kalloc, and what kfree makes of the heap with the address as it was printed
abbrev pub GivenBack : Tree → HeapState → HeapState → ℕ → Report → Type 0
GivenBack t h h' n r =
    ((r ≡ failed) × (h' ≡ h))
    ⊎ ((p : ℕ) × (h'' : HeapState) × (t'' : Tree) × (r ≡ allocated n p)
        × (cmd_kfree h' (hex_string p) ≡ some (h'', freed p))
        × IsHeap h'' t''
        × ((o x : ℕ) → held t'' o x ≡ held t o x))

-- On a heap that stands for a buddy tree, kalloc with a printed 32-bit number of bytes, at least one,
-- reports a failure and changes nothing, or it reports an address; kfree of the string that hexprint
-- prints for that address, without the line break behind it, then succeeds, and after it the same blocks
-- are handed out as at first.
pub cmd_kfree-cmd_kalloc :
    (h : HeapState) (t : Tree) (n : ℕ)
    → IsHeap h t
    → 0 < n
    → n < 2 ^ 32
    → (h' : HeapState) × (r : Report) × (cmd_kalloc h (print_uint n) ≡ some (h', r))
      × GivenBack t h h' n r
unfolding cmd_kalloc kalloc_size cmd_kfree kfree_at
cmd_kfree-cmd_kalloc h t n d pos lt =
    let (h', t', p, e, answer) = kmalloc-Fresh h t n d pos in
    let (parsed, _, _, _) = parse_dec-print_uint n lt in
    elim answer [
      | inl (k, b, f, (d', lo, multiple, fits, least, more, apart)) ↦
          let given : 0 < held t' (k + 5) b = ground (arith, more (k + 5) b) in
          let inside = holdings_inside t' top aligned_start k b h'.word d'.headed given in
          let (h'', t'', g, (d'', less)) = kfree-held h' t' k b d' given in
          let (_, _, hex, _) =
            parse_dec-print_uint (b + header_size)
              (omega (arith, inside, size-pow top, size_min k)) in
          (
            h',
            allocated n (b + header_size),
            rw (parsed, e, f, somewhere b) refl,
            inr (
              b + header_size,
              h'',
              t'',
              refl,
              rw (hex, g) refl,
              d'',
              λ o x. omega (arith, less o x, more o x),
            ),
          )
      | inr (null, (same, _, _)) ↦ (h', failed, rw (parsed, e, null) refl, inl (refl, same))
    ]
  where
    somewhere : (b : ℕ) → (b + header_size == 0) ≡ false
    somewhere b = ground arith
