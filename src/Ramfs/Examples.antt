-- ===== src/Ramfs/Examples.antt =====
-- The file system's theorems at concrete nodes and paths (arch/x86/fs/ramfs.c).
use cobra_os.Base.{
  ℕ, zero, suc, ◌+◌, ◌-◌, ◌^◌, ◌<◌, ◌≡◌, refl, Array, window, true, none, some, [], ◌∷◌, arith,
}
use cobra_os.Base.Text.{codes}
use cobra_os.Memory.Heap.{Heap, Abundant}
use cobra_os.Ramfs.Node.{
  done, Node, to_int, default_read, default_write, File, ramfs_read, ramfs_write,
}
use cobra_os.Ramfs.Content.{Holds, default_write-Holds, ramfs_read-ramfs_write, default_read_wraps}
use cobra_os.Ramfs.Tree.{
  Fs, same_name, find_child, default_finddir, vfs_resolve_path, ramfs_resolve, walk, skip_slashes,
  token, after_token, step,
}
use cobra_os.Ramfs.Files.{fs_read_file, fs_write_file}
use cobra_os.Ramfs.Reread.{fs_read_file-fs_write_file}
use cobra_os.Ramfs.Lookup.{IsComponent}

abbrev plenty : Heap
plenty n = some (λ k. 7)

plenty-Abundant : Abundant plenty
plenty-Abundant n = (λ k. 7, refl)

-- a file of three bytes
abbrev three : Node
three = record {
  name = codes "a";
  kind = 1;
  size = 3;
  bytes = λ i. i;
  parent = some 0;
  children = [];
}

abbrev open_file : File
open_file = record { node = 1; flags = 3; position = 5 }

default_write-Holds_example :
    let w = default_write three 5 2 (λ i. 9) plenty in
    (w.result ≡ done 2) × Holds w.node three 5 2 (λ i. 9)
default_write-Holds_example =
    default_write-Holds three 5 2 (λ i. 9) plenty refl plenty-Abundant (omega arith) (omega arith)

ramfs_read-ramfs_write_example :
    let w = ramfs_write open_file three 2 (λ i. 9) plenty in
    let r = ramfs_read open_file w.0.node 2 (λ i. 0) in
    (w.0.result ≡ done 2)
    × (w.1.position ≡ 5 + 2)
    × (r.0.result ≡ done 2)
    × (r.1.position ≡ 5 + 2)
    × (window r.0.buffer 0 2 ≡ window (λ i. 9) 0 2)
ramfs_read-ramfs_write_example =
    ramfs_read-ramfs_write open_file open_file three 2 (λ i. 9) (λ i. 0) plenty refl refl refl refl
      plenty-Abundant (omega arith) (omega arith) (omega arith) (omega arith)

default_read_wraps_example :
    (three.size < 2 + (2 ^ 32 - 1))
    × ((default_read three 2 (2 ^ 32 - 1) (λ i. 0)).result ≡ to_int (2 ^ 32 - 1))
    × (window (default_read three 2 (2 ^ 32 - 1) (λ i. 0)).buffer 0 (2 ^ 32 - 1)
        ≡ window three.bytes 2 (2 ^ 32 - 1))
default_read_wraps_example =
    default_read_wraps three 2 (2 ^ 32 - 1) (λ i. 0) refl (omega arith) (omega arith) (omega arith)
      (omega arith)

abbrev root_node : Node
root_node = record {
  name = codes "/";
  kind = 2;
  size = 0;
  bytes = λ i. 0;
  parent = none;
  children = 1 ∷ [];
}

-- a root directory with the file "a"
abbrev small_nodes : ℕ → Node
small_nodes zero = root_node
small_nodes (suc n) = three

abbrev small : Fs
small = record {
  nodes = small_nodes;
  count = 2;
  ramfs_root = some 0;
  ramfs_cwd = none;
  heap = plenty;
}

a-IsComponent : IsComponent (codes "a")
a-IsComponent = record { no_slash = omega arith; not_empty = omega arith; not_long = omega arith }

fs_read_file-fs_write_file_example :
    let w = fs_write_file small (codes "/a") (λ k. 5) 4 in
    (w.ok ≡ true)
    × ((c : Array) × (fs_read_file w.fs (codes "/a") ≡ some (c, 4))
        × (window c 0 4 ≡ window (λ k. 5) 0 4))
unfolding ramfs_resolve vfs_resolve_path walk skip_slashes token after_token step default_finddir
    find_child same_name
fs_read_file-fs_write_file_example =
    fs_read_file-fs_write_file small (codes "/a") 1 (λ k. 5) 4 refl refl plenty-Abundant
