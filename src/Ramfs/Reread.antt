-- ===== src/Ramfs/Reread.antt =====
-- A file that the editor (arch/x86/snake/snake.c) wrote to the file system of arch/x86/fs/ramfs.c is read
-- back as it was written.
use cobra_os.Base.{
  ℕ, zero, suc, ◌+◌, ◌%◌, ◌≡◌, refl, ap, sym, ◌∙◌, Array, update, window, window_agree, ltb, ◌==◌,
  not, if◌then◌else◌, true, List, [], ◌∷◌, length, Option, none, some, arith, Bool-cases, inl, inr,
}
use mathlib.Core.Path.{fun_ext}
use cobra_os.Memory.Copy.{memcpy}
use cobra_os.Memory.{memcpy_at}
use cobra_os.Memory.Heap.{Heap, later, Abundant}
use cobra_os.Ramfs.Node.{Node, is_file}
use cobra_os.Ramfs.Tree.{
  Fs, set_node, find_child, default_finddir, skip_slashes, token, after_token, step, walk,
  vfs_resolve_path, ramfs_resolve,
}
use cobra_os.Ramfs.Files.{
  Outcome, read_into, read_node, fs_read_file, fill, emptied, write_node, find_or_make,
  fs_write_file,
}

-- two file systems with the same names and the same tree
pub record SameTree (fs gs : Fs) : Type 0 where
  pub same_names : (i : ℕ) → (fs.nodes i).name ≡ (gs.nodes i).name
  pub same_kinds : (i : ℕ) → (fs.nodes i).kind ≡ (gs.nodes i).kind
  pub same_parents : (i : ℕ) → (fs.nodes i).parent ≡ (gs.nodes i).parent
  pub same_children : (i : ℕ) → (fs.nodes i).children ≡ (gs.nodes i).children
  pub same_root : fs.ramfs_root ≡ gs.ramfs_root
  pub same_cwd : fs.ramfs_cwd ≡ gs.ramfs_cwd

module _ {fs gs : Fs} (t : SameTree fs gs) where
  find_child-same : (l name : List ℕ) → find_child fs.nodes l name ≡ find_child gs.nodes l name
  unfolding find_child
  find_child-same [] name = refl
  find_child-same (c ∷ cs) name = rw (t.same_names c, find_child-same cs name) refl

  finddir-same : (i : ℕ) (name : List ℕ) → default_finddir fs i name ≡ default_finddir gs i name
  unfolding default_finddir
  finddir-same i name =
      rw (t.same_kinds i, t.same_children i, find_child-same (gs.nodes i).children name) refl

  step-same : (i : ℕ) (name : List ℕ) → step fs i name ≡ step gs i name
  unfolding step
  step-same i name = rw (t.same_parents i, finddir-same i name) refl

  walk-same : (n i : ℕ) (p : List ℕ) → walk n fs i p ≡ walk n gs i p
  unfolding walk
  walk-same zero i p = refl
  walk-same (suc n) i [] = refl
  walk-same (suc n) i (c ∷ cs) =
      let rest = skip_slashes (after_token (c ∷ cs)) in
      let later : (λ j. walk n fs j rest) ≡ (λ j. walk n gs j rest) =
        fun_ext (λ j. walk-same n j rest) in
      rw (step-same i (token (c ∷ cs)), later) refl

  resolve-same :
      (root : Option ℕ) (p : List ℕ) (cwd : Option ℕ)
      → vfs_resolve_path fs root p cwd ≡ vfs_resolve_path gs root p cwd
  unfolding vfs_resolve_path
  resolve-same none p cwd = refl
  resolve-same (some r) [] cwd = refl
  resolve-same (some r) (c ∷ cs) cwd =
      walk-same (length (skip_slashes (c ∷ cs))) _ (skip_slashes (c ∷ cs))

  pub ramfs_resolve-same : (p : List ℕ) → ramfs_resolve fs p ≡ ramfs_resolve gs p
  unfolding ramfs_resolve
  ramfs_resolve-same p =
      resolve-same fs.ramfs_root p fs.ramfs_cwd
      ∙ (λ i. vfs_resolve_path gs (t.same_root i) p (t.same_cwd i))

-- the file system after the file `i` was given other contents
abbrev refilled : Fs → ℕ → Array → ℕ → Heap → Fs
refilled fs i bytes size h =
    record (set_node fs i (record (fs.nodes i) { bytes = bytes; size = size })) { heap = h }

refilled-SameTree :
    (fs : Fs) (i : ℕ) (bytes : Array) (size : ℕ) (h : Heap)
    → SameTree (refilled fs i bytes size h) fs
refilled-SameTree fs i bytes size h = record {
  same_names = λ j. ground arith;
  same_kinds = λ j. ground arith;
  same_parents = λ j. ground arith;
  same_children = λ j. ground arith;
  same_root = refl;
  same_cwd = refl;
}

-- Reading the refilled file gives its new contents.
read_node-refilled :
    (fs : Fs) (i : ℕ) (bytes : Array) (size : ℕ) (h : Heap)
    → is_file (fs.nodes i) ≡ true
    → Abundant h
    → (c : Array) × (read_node (refilled fs i bytes size h) (some i) ≡ some (c, size))
      × (window c 0 size ≡ window bytes 0 size)
unfolding read_node read_into
read_node-refilled fs i bytes size h file a =
    let (b, e) = a 0 in
    let n : Node = record (fs.nodes i) { bytes = bytes; size = size } in
    let here : (refilled fs i bytes size h).nodes i ≡ n = ground arith in
    rw (here, file, e)
      (
        update (if ltb 0 size then memcpy b 0 bytes 0 size else b) size 0,
        refl,
        window_agree (update (if ltb 0 size then memcpy b 0 bytes 0 size else b) size 0) bytes 0 0
            size (λ k lt. ground (arith, memcpy_at b 0 bytes 0 size (0 + k))),
      )

-- what the theorem below says of the node that the path leads to
Reread : Fs → List ℕ → Array → ℕ → Outcome → Type 0
Reread fs path buf len w =
    (w.ok ≡ true)
    × ((c : Array) × (fs_read_file w.fs path ≡ some (c, len)) × (window c 0 len ≡ window buf 0 len))

write_node-Reread :
    (fs : Fs) (path : List ℕ) (i : ℕ) (buf : Array) (len : ℕ)
    → ramfs_resolve fs path ≡ some i
    → is_file (fs.nodes i) ≡ true
    → Abundant fs.heap
    → Reread fs path buf len (write_node fs (some i) buf len)
unfolding write_node fill Reread fs_read_file
write_node-Reread fs path i buf len found file a =
    let (b, e) = a 0 in
    let es = refilled-SameTree fs i (fs.nodes i).bytes 0 fs.heap in
    let empty = emptied fs i in
    let file' : is_file (empty.nodes i) ≡ true =
      ap (λ k. not (k % 2 == 0)) (es.same_kinds i) ∙ file in
    let bytes = memcpy b 0 buf 0 len in
    let full = refilled empty i bytes len (later fs.heap) in
    elim (Bool-cases (ltb 0 len)) [
      | inl some_bytes ↦
          let (c, r, w) =
            read_node-refilled empty i bytes len (later fs.heap) file' (λ k. a (suc k)) in
          rw (file, some_bytes, e)
            (
              refl,
              (
                c,
                ap (read_node full) (
                      ramfs_resolve-same (refilled-SameTree empty i bytes len (later fs.heap)) path
                      ∙ ramfs_resolve-same es path
                      ∙ found)
                    ∙ r,
                w
                    ∙ window_agree bytes buf 0 0 len
                        (λ k lt. ground (arith, memcpy_at b 0 buf 0 len (0 + k))),
              ),
            )
      | inr nothing ↦
          let none_left : len ≡ 0 = ground arith in
          let (c, r, w) = read_node-refilled fs i (fs.nodes i).bytes 0 fs.heap file a in
          rw (file, nothing)
            (
              refl,
              (
                c,
                ap (read_node empty) (ramfs_resolve-same es path ∙ found)
                    ∙ r
                    ∙ ap (λ n. some (c, n)) (sym none_left),
                ap (window c 0) none_left ∙ sym (ap (window buf 0) none_left),
              ),
            )
    ]

-- Where the path leads to a file, and while kmalloc succeeds, fs_write_file returns 0, and fs_read_file
-- then gives the bytes that were written, and their number.
pub fs_read_file-fs_write_file :
    (fs : Fs) (path : List ℕ) (i : ℕ) (buf : Array) (len : ℕ)
    → ramfs_resolve fs path ≡ some i
    → is_file (fs.nodes i) ≡ true
    → Abundant fs.heap
    → let w = fs_write_file fs path buf len in
      (w.ok ≡ true)
      × ((c : Array) × (fs_read_file w.fs path ≡ some (c, len))
          × (window c 0 len ≡ window buf 0 len))
unfolding fs_write_file find_or_make Reread
fs_read_file-fs_write_file fs path i buf len found file a =
    rw found (write_node-Reread fs path i buf len found file a)
