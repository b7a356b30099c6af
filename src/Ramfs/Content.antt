-- ===== src/Ramfs/Content.antt =====
-- What reading and writing of arch/x86/fs/ramfs.c do to the bytes of a file.
use cobra_os.Base.{
  ℕ, ◌+◌, ◌-◌, ◌%◌, ◌^◌, ◌<◌, ◌≤◌, ◌≡◌, refl, ap, ◌∙◌, max, Array, ltb, leb, ◌==◌, ◌&&◌, not,
  if◌then◌else◌, true, false, some, arith, window, window_agree, Bool-cases, inl, inr,
}
use cobra_os.Memory.Copy.{memcpy}
use cobra_os.Memory.{memcpy_at}
use cobra_os.Memory.Fill.{memset, memset_at}
use cobra_os.Memory.Heap.{Heap, later, Abundant}
use cobra_os.Ramfs.Node.{
  done, Node, is_file, to_int, read_size, default_read, write_grown, default_write, File, reads,
  writes, ramfs_read, ramfs_write,
}

-- the file `m` after `size` bytes of `buffer` were written at `offset` of the file `n`
pub record Holds (m n : Node) (offset size : ℕ) (buffer : Array) : Type 0 where
  pub kept_kind : m.kind ≡ n.kind
  pub new_size : m.size ≡ max n.size (offset + size)
  pub new_bytes :
      (j : ℕ)
      → j < m.size
      → m.bytes j ≡ (
          if leb offset j && ltb j (offset + size)
          then buffer (j - offset)
          else if ltb j n.size
          then n.bytes j
          else 0)

write_grown-Holds :
    (n : Node) (offset size : ℕ) (buffer b : Array) (h : Heap)
    → n.size < offset + size
    → offset + size < 2 ^ 32
    → size < 2 ^ 31
    → let w = write_grown n offset size buffer (some b) h in
      (w.result ≡ done size) × Holds w.node n offset size buffer
unfolding write_grown
write_grown-Holds n offset size buffer b h longer small int = (
  ground arith,
  record {
    kept_kind = refl;
    new_size = omega arith;
    new_bytes = λ j lt. ground (
      arith,
      memcpy_at (memset (memcpy b 0 n.bytes 0 n.size) n.size 0 ((offset + size) % 2 ^ 32 - n.size))
          offset buffer 0 size j,
      memset_at (memcpy b 0 n.bytes 0 n.size) n.size 0 ((offset + size) % 2 ^ 32 - n.size) j,
      memcpy_at b 0 n.bytes 0 n.size j,
    );
  },
)

-- While kmalloc succeeds, a write to a file within 32-bit sizes returns the number of bytes, puts them
-- at the offset, keeps the file's other bytes and fills a gap behind the old end with zeros; the file
-- grows to the end of what was written, if that lies behind its end.
pub default_write-Holds :
    (n : Node) (offset size : ℕ) (buffer : Array) (h : Heap)
    → is_file n ≡ true
    → Abundant h
    → offset + size < 2 ^ 32
    → size < 2 ^ 31
    → let w = default_write n offset size buffer h in
      (w.result ≡ done size) × Holds w.node n offset size buffer
unfolding default_write
default_write-Holds n offset size buffer h file a small int =
    let (b, e) = a 0 in
    elim (Bool-cases (ltb n.size ((offset + size) % 2 ^ 32))) [
      | inl longer ↦
          rw (file, longer, e)
            (write_grown-Holds n offset size buffer b (later h) (ground arith) small int)
      | inr inside ↦
          rw (file, inside)
            (
              ground arith,
              record {
                kept_kind = refl;
                new_size = ground arith;
                new_bytes = λ j lt. ground (arith, memcpy_at n.bytes offset buffer 0 size j);
              },
            )
    ]

read_size-inside :
    (n : Node) (offset size : ℕ)
    → offset + size ≤ n.size
    → n.size < 2 ^ 32
    → read_size n offset size ≡ size
unfolding read_size
read_size-inside n offset size inside small = ground arith

-- A read within a file returns the number of bytes and copies them.
pub default_read-inside :
    (n : Node) (offset size : ℕ) (out : Array)
    → is_file n ≡ true
    → 0 < size
    → offset + size ≤ n.size
    → n.size < 2 ^ 32
    → size < 2 ^ 31
    → let r = default_read n offset size out in
      (r.result ≡ done size) × (window r.buffer 0 size ≡ window n.bytes offset size)
unfolding default_read
default_read-inside n offset size out file pos inside small int =
    let before_end : leb n.size offset ≡ false = ground arith in
    let some_bytes : (size == 0) ≡ false = ground arith in
    rw (file, before_end, read_size-inside n offset size inside small, some_bytes)
      (
        ground arith,
        window_agree (memcpy out 0 n.bytes offset size) n.bytes 0 offset size
            (λ k lt. ground (arith, memcpy_at out 0 n.bytes offset size (0 + k))),
      )

-- A file that is open for reading and writing, while kmalloc succeeds: what is written at a position is
-- read back from there, in full, and each of the two moves its position behind the bytes.
pub ramfs_read-ramfs_write :
    (f g : File) (n : Node) (size : ℕ) (buffer out : Array) (h : Heap)
    → is_file n ≡ true
    → writes f.flags ≡ true
    → reads g.flags ≡ true
    → g.position ≡ f.position
    → Abundant h
    → 0 < size
    → n.size < 2 ^ 32
    → f.position + size < 2 ^ 32
    → size < 2 ^ 31
    → let w = ramfs_write f n size buffer h in
      let r = ramfs_read g w.0.node size out in
      (w.0.result ≡ done size)
      × (w.1.position ≡ f.position + size)
      × (r.0.result ≡ done size)
      × (r.1.position ≡ f.position + size)
      × (window r.0.buffer 0 size ≡ window buffer 0 size)
unfolding ramfs_read ramfs_write
ramfs_read-ramfs_write f g n size buffer out h file wr rd same a pos fits small int =
    let w = default_write n f.position size buffer h in
    let (wrote, holds) = default_write-Holds n f.position size buffer h file a small int in
    let file' : is_file w.node ≡ true = ap (λ k. not (k % 2 == 0)) holds.kept_kind ∙ file in
    let r = default_read w.node g.position size out in
    let (got, bytes) =
      default_read-inside w.node g.position size out file' pos (omega (arith, holds.new_size))
        (omega (arith, holds.new_size)) int in
    rw (wr, rd, wrote, got)
      (
        refl,
        omega arith,
        refl,
        omega arith,
        bytes
            ∙ window_agree w.node.bytes buffer g.position 0 size
                (λ k lt. ground (arith, holds.new_bytes (g.position + k), holds.new_size)),
      )

-- A read that starts within a file, and whose offset and size wrap around 2^32, is not cut off at the
-- end of the file: default_read copies `size` bytes from the offset on, more than the file has there.
pub default_read_wraps :
    (n : Node) (offset size : ℕ) (out : Array)
    → is_file n ≡ true
    → offset < n.size
    → n.size < 2 ^ 32
    → size < 2 ^ 32
    → 2 ^ 32 ≤ offset + size
    → (n.size < offset + size)
      × ((default_read n offset size out).result ≡ to_int size)
      × (window (default_read n offset size out).buffer 0 size ≡ window n.bytes offset size)
unfolding default_read read_size
default_read_wraps n offset size out file inside small word wraps =
    let before_end : leb n.size offset ≡ false = ground arith in
    let some_bytes : (size == 0) ≡ false = ground arith in
    let uncut : ltb n.size ((offset + size) % 2 ^ 32) ≡ false = ground arith in
    rw (file, before_end, uncut, some_bytes)
      (
        omega arith,
        refl,
        window_agree (memcpy out 0 n.bytes offset size) n.bytes 0 offset size
            (λ k lt. ground (arith, memcpy_at out 0 n.bytes offset size (0 + k))),
      )
