-- ===== src/Ramfs/Files.antt =====
-- fs_read_file and fs_write_file of arch/x86/snake/snake.c, through which the editor uses the file system
-- of arch/x86/fs/ramfs.c.
use cobra_os.Base.{
  ℕ, suc, Array, update, ltb, leb, ◌==◌, not, if◌then◌else◌, Bool, true, false, List, [], ◌∷◌,
  length, take, drop, Option, none, some,
}
use cobra_os.Base.Text.{codes}
use cobra_os.Memory.Copy.{memcpy}
use cobra_os.Memory.Heap.{later}
use cobra_os.Ramfs.Node.{Result, done, fail, Node, is_file, is_directory}
use cobra_os.Ramfs.Tree.{vfs_name_max, Fs, set_node, ramfs_find, ramfs_create, ramfs_resolve}

-- MAX_PATH_LEN
abbrev pub max_path_len : ℕ
max_path_len = 256

-- a function's int and the file system it leaves
pub record Outcome : Type 0 where
  pub ok : Bool
  pub fs : Fs

-- the buffer and the length that fs_read_file gives, `none` for its error
abbrev pub Contents : Type 0
Contents = Option (Array × ℕ)

-- a file's bytes in a block of `size + 1` bytes
unfoldable pub read_into : Node → Option Array → Contents
read_into n none = none
read_into n (some b) =
    some (update (if ltb 0 n.size then memcpy b 0 n.bytes 0 n.size else b) n.size 0, n.size)

unfoldable pub read_node : Fs → Option ℕ → Contents
read_node fs none = none
read_node fs (some i) = if is_file (fs.nodes i) then read_into (fs.nodes i) (fs.heap 0) else none

unfoldable pub fs_read_file : Fs → List ℕ → Contents
fs_read_file fs path = read_node fs (ramfs_resolve fs path)

-- strrchr(path, '/') as an offset
unfoldable pub last_slash : List ℕ → Option ℕ
last_slash [] = none
last_slash (c ∷ cs) = elim (last_slash cs) [
  | some i ↦ some (suc i)
  | none ↦ if c == b'/' then some 0 else none
]

-- the directory's path and the file's name, `none` for a path too long
pub record Place : Type 0 where
  pub dir_path : List ℕ
  pub name : List ℕ

unfoldable pub place : List ℕ → Option ℕ → Option Place
place path none = some (record { dir_path = codes "/"; name = take vfs_name_max path })
place path (some i) =
    let name = take vfs_name_max (drop (suc i) path) in
    if i == 0
    then some (record { dir_path = codes "/"; name = name })
    else if leb max_path_len (length path)
    then none
    else some (record { dir_path = take i path; name = name })

abbrev pub is_done : Result → Bool
is_done (done k) = k == 0
is_done (fail k) = false

-- a new file, and its node
pub record Made : Type 0 where
  pub node : Option ℕ
  pub fs : Fs

unfoldable pub make_in : Fs → Option ℕ → List ℕ → Made
make_in fs none name = record { node = none; fs = fs }
make_in fs (some parent) name =
    let r = ramfs_create fs (some parent) name 1 in
    if not (is_directory (fs.nodes parent))
    then record { node = none; fs = fs }
    else if is_done r.0
    then record { node = ramfs_find r.1 (some parent) name; fs = r.1 }
    else record { node = none; fs = r.1 }

unfoldable pub make_file : Fs → Option Place → Made
make_file fs none = record { node = none; fs = fs }
make_file fs (some p) = make_in fs (ramfs_resolve fs p.dir_path) p.name

-- the file emptied, and then filled from the answer of kmalloc on
unfoldable pub fill : Fs → ℕ → Array → ℕ → Option Array → Outcome
fill fs i buf len none = record { ok = false; fs = record fs { heap = later fs.heap } }
fill fs i buf len (some b) = record {
  ok = true;
  fs = record (set_node fs i (record (fs.nodes i) { bytes = memcpy b 0 buf 0 len; size = len })) {
    heap = later fs.heap;
  };
}

abbrev pub emptied : Fs → ℕ → Fs
emptied fs i = set_node fs i (record (fs.nodes i) { size = 0 })

unfoldable pub write_node : Fs → Option ℕ → Array → ℕ → Outcome
write_node fs none buf len = record { ok = false; fs = fs }
write_node fs (some i) buf len =
    if not (is_file (fs.nodes i))
    then record { ok = false; fs = fs }
    else if ltb 0 len
    then fill (emptied fs i) i buf len (fs.heap 0)
    else record { ok = true; fs = emptied fs i }

-- the node at the path, made if it is not there
unfoldable pub find_or_make : Fs → List ℕ → Option ℕ → Made
find_or_make fs path (some i) = record { node = some i; fs = fs }
find_or_make fs path none = make_file fs (place path (last_slash path))

unfoldable pub fs_write_file : Fs → List ℕ → Array → ℕ → Outcome
fs_write_file fs path buf len =
    let m = find_or_make fs path (ramfs_resolve fs path) in write_node m.fs m.node buf len
