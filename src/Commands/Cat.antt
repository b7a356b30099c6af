-- ===== src/Commands/Cat.antt =====
-- What cat of arch/x86/kernel/shell.c prints.
use cobra_os.Base.{
  ℕ, zero, suc, ◌+◌, ◌-◌, ◌*◌, ◌%◌, ◌^◌, ◌<◌, ◌≤◌, ◌==◌, ltb, leb, if◌then◌else◌, ◌≡◌, refl, sym,
  ap, ◌∙◌, arith, Array, List, [], ◌++◌, window, window-add, window_agree, cells, Bool-cases, inl,
  inr, true, false, some,
}
use cobra_os.Memory.Copy.{memcpy}
use cobra_os.Memory.{memcpy_at}
use cobra_os.Ramfs.Node.{
  Node, File, done, fail, is_file, reads, read_size, default_read, ramfs_read, advance, ramfs_open,
}
use cobra_os.Ramfs.Tree.{ramfs_resolve, is_empty}
use cobra_os.Commands.Files.{ShellFs, cat_loop, cat_file, cat_node, cmd_cat, silent}

-- A read of 256 bytes inside a file gives what is left of it, up to that many.
module _ (f : File) (n : Node) (buffer : Array) (k : ℕ) (file : is_file n ≡ true)
    (flag : reads f.flags ≡ true) (small : n.size < 2 ^ 31) (inside : f.position < n.size)
    (chunk : k ≡ (if ltb n.size (f.position + 256) then n.size - f.position else 256)) where
  chunk_size : read_size n f.position 256 ≡ k
  unfolding read_size
  chunk_size = ground arith

  chunk_read :
      default_read n f.position 256 buffer
      ≡ record { result = done k; buffer = memcpy buffer 0 n.bytes f.position k }
  unfolding default_read
  chunk_read = rw (file, before_end, chunk_size, some_bytes, in_int) refl
    where
      before_end : leb n.size f.position ≡ false
      before_end = ground arith

      some_bytes : (k == 0) ≡ false
      some_bytes = ground arith

      in_int : ltb k (2 ^ 31) ≡ true
      in_int = ground arith

  chunk_ramfs_read : ramfs_read f n 256 buffer ≡ (
    record { result = done k; buffer = memcpy buffer 0 n.bytes f.position k },
    record f { position = f.position + k },
  )
  unfolding ramfs_read
  chunk_ramfs_read =
      rw (flag, chunk_read)
        (ap
          (λ p. (
            record { result = done k; buffer = memcpy buffer 0 n.bytes f.position k },
            record f { position = p },
          ))
          {x = (f.position + k) % 2 ^ 32} {y = f.position + k} (ground arith))

  chunk_round :
      (rounds : ℕ)
      → cat_loop (suc rounds) f n buffer
        ≡ window n.bytes f.position k
          ++ cat_loop rounds
              (record f { position = f.position + k })
              n
              (memcpy buffer 0 n.bytes f.position k)
  unfolding cat_loop
  chunk_round rounds =
      ap
        (λ r. elim r.0.result [
          | fail j ↦ []
          | done j ↦ if j == 0 then [] else cells r.0.buffer j ++ cat_loop rounds r.1 n r.0.buffer
        ])
        chunk_ramfs_read
      ∙ rw some_bytes (
          ap
            (λ l.
              l
              ++ cat_loop rounds (record f { position = f.position + k }) n
                  (memcpy buffer 0 n.bytes f.position k))
            copied)
    where
      some_bytes : (k == 0) ≡ false
      some_bytes = ground arith

      copied : cells (memcpy buffer 0 n.bytes f.position k) k ≡ window n.bytes f.position k
      copied =
          window_agree (memcpy buffer 0 n.bytes f.position k) n.bytes 0 f.position k
            (λ j lt. ground (arith, memcpy_at buffer 0 n.bytes f.position k (0 + j)))

end_read :
    (f : File) (n : Node) (buffer : Array)
    → is_file n ≡ true
    → reads f.flags ≡ true
    → leb n.size f.position ≡ true
    → ramfs_read f n 256 buffer ≡ (record { result = done 0; buffer = buffer }, advance f (done 0))
unfolding ramfs_read default_read
end_read f n buffer file flag over = rw (flag, file, over) refl

-- At its end a file gives nothing more.
cat_loop_end :
    (rounds : ℕ) (f : File) (n : Node) (buffer : Array)
    → is_file n ≡ true
    → reads f.flags ≡ true
    → leb n.size f.position ≡ true
    → cat_loop (suc rounds) f n buffer ≡ []
unfolding cat_loop
cat_loop_end rounds f n buffer file flag over =
    rw (end_read f n buffer file flag over, cat_loop) refl

abbrev chunk_of : Node → ℕ → ℕ
chunk_of n position = if ltb n.size (position + 256) then n.size - position else 256

rejoined :
    (n : Node) (p k : ℕ)
    → p + k ≤ n.size
    → window n.bytes p k ++ window n.bytes (p + k) (n.size - (p + k))
      ≡ window n.bytes p (n.size - p)
rejoined n p k h =
    sym (window-add n.bytes p k (n.size - (p + k)))
    ∙ ap (window n.bytes p) {x = k + (n.size - (p + k))} {y = n.size - p} (omega arith)

cat_loop-window :
    (rounds : ℕ) (f : File) (n : Node) (buffer : Array)
    → is_file n ≡ true
    → reads f.flags ≡ true
    → n.size < 2 ^ 31
    → f.position ≤ n.size
    → n.size ≤ f.position + rounds * 256
    → cat_loop rounds f n buffer ≡ window n.bytes f.position (n.size - f.position)
unfolding cat_loop
cat_loop-window zero f n buffer file flag small le enough =
    ap (window n.bytes f.position) {x = 0} {y = n.size - f.position} (omega arith)
cat_loop-window (suc rounds) f n buffer file flag small le enough =
    elim (Bool-cases (ltb f.position n.size)) [
      | inl lt ↦
          let k = chunk_of n f.position in
          chunk_round f n buffer k file flag small (ground arith) refl rounds
          ∙ ap (λ l. window n.bytes f.position k ++ l)
              (cat_loop-window rounds (record f { position = f.position + k }) n
                (memcpy buffer 0 n.bytes f.position k) file flag small (ground arith)
                (ground arith))
          ∙ rejoined n f.position k (ground arith)
      | inr ge ↦
          cat_loop_end rounds f n buffer file flag (ground arith)
          ∙ ap (window n.bytes f.position) {x = 0} {y = n.size - f.position} (ground arith)
    ]

-- Where the path leads to a file of less than 2^31 bytes, while kmalloc succeeds, and with rounds for
-- more bytes than the file has, cat prints the bytes of the file, all of them and in order, whatever its
-- buffer held before.
pub cmd_cat-window :
    (s : ShellFs) (rounds i : ℕ) (buffer b : Array) (args : List ℕ)
    → is_empty args ≡ false
    → ramfs_resolve s.fs args ≡ some i
    → is_file (s.fs.nodes i) ≡ true
    → s.fs.heap 0 ≡ some b
    → (s.fs.nodes i).size < 2 ^ 31
    → (s.fs.nodes i).size < rounds * 256
    → (cmd_cat s rounds buffer args).message ≡ silent
      × ((cmd_cat s rounds buffer args).text ≡ window (s.fs.nodes i).bytes 0 (s.fs.nodes i).size)
unfolding cmd_cat cat_node cat_file ramfs_open
cmd_cat-window s rounds i buffer b args given leads file granted small enough =
    rw (given, leads, file, granted, file)
      (
        refl,
        cat_loop-window rounds (record { node = i; flags = 1; position = 0 }) (s.fs.nodes i) buffer
              file (refl) small (omega arith) (omega arith)
            ∙ ap (window (s.fs.nodes i).bytes 0) {y = (s.fs.nodes i).size} (omega arith),
      )
