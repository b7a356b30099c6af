-- ===== src/Ramfs/Tree.antt =====
-- The directories of arch/x86/fs/ramfs.c: creation, deletion, and the lookup of names and paths. C
-- strings are the lists of their characters.
use cobra_os.Base.{
  ℕ, zero, suc, ◌+◌, ltb, ◌==◌, ◌&&◌, ◌||◌, not, if◌then◌else◌, Bool, true, false, Array, List, [],
  ◌∷◌, length, take, update, Option, none, some,
}
use cobra_os.Base.Text.{codes}
use cobra_os.Memory.Heap.{Heap, later}
use cobra_os.Ramfs.Node.{Result, done, fail, Node, is_directory}

-- VFS_NAME_MAX
abbrev pub vfs_name_max : ℕ
vfs_name_max = 255

-- the nodes by their number, `count` being the next number; the file's static variables; and the answers
-- of kmalloc to come. A node that was freed keeps its number.
pub record Fs : Type 0 where
  pub nodes : ℕ → Node
  pub count : ℕ
  pub ramfs_root : Option ℕ
  pub ramfs_cwd : Option ℕ
  pub heap : Heap

abbrev pub set_node : Fs → ℕ → Node → Fs
set_node fs i n = record fs { nodes = update fs.nodes i n }

-- the node that create_vfs_node fills in
abbrev pub new_node : List ℕ → ℕ → Node
new_node name kind = record {
  name = take vfs_name_max name;
  kind = kind;
  size = 0;
  bytes = λ i. 0;
  parent = none;
  children = [];
}

abbrev pub with_new_node : Fs → List ℕ → ℕ → Fs
with_new_node fs name kind = record fs {
  nodes = update fs.nodes fs.count (new_node name kind);
  count = fs.count + 1;
}

-- strcmp(a, b) == 0
unfoldable pub same_name : List ℕ → List ℕ → Bool
same_name [] [] = true
same_name [] (d ∷ ds) = false
same_name (c ∷ cs) [] = false
same_name (c ∷ cs) (d ∷ ds) = let rest = same_name cs ds in if c == d then rest else false

unfoldable pub find_child : (ℕ → Node) → List ℕ → List ℕ → Option ℕ
find_child nodes [] name = none
find_child nodes (c ∷ cs) name =
    let rest = find_child nodes cs name in if same_name (nodes c).name name then some c else rest

unfoldable pub default_finddir : Fs → ℕ → List ℕ → Option ℕ
default_finddir fs i name =
    if is_directory (fs.nodes i) then find_child fs.nodes (fs.nodes i).children name else none

unfoldable pub ramfs_find : Fs → Option ℕ → List ℕ → Option ℕ
ramfs_find fs none name = none
ramfs_find fs (some i) name = default_finddir fs i name

unfoldable pub add_child : Fs → ℕ → ℕ → Fs
add_child fs parent child =
    let fs' = set_node fs child (record (fs.nodes child) { parent = some parent }) in
    set_node fs' parent
      (record (fs'.nodes parent) { children = child ∷ (fs'.nodes parent).children })

-- the chain without its first link to `child`, and whether there is one
unfoldable pub unlink : List ℕ → ℕ → List ℕ
unlink [] child = []
unlink (c ∷ cs) child = let rest = unlink cs child in if c == child then cs else c ∷ rest

unfoldable pub linked : List ℕ → ℕ → Bool
linked [] child = false
linked (c ∷ cs) child = c == child || linked cs child

unfoldable pub remove_from : Fs → ℕ → ℕ → Fs
remove_from fs parent child =
    let p = fs.nodes parent in
    if linked p.children child
    then (let fs' = set_node fs parent (record p { children = unlink p.children child }) in
        set_node fs' child (record (fs'.nodes child) { parent = none }))
    else fs

unfoldable pub remove_child : Fs → ℕ → Fs
remove_child fs child = elim (fs.nodes child).parent [
  | none ↦ fs
  | some parent ↦ remove_from fs parent child
]

unfoldable pub ramfs_init : Fs → Fs
ramfs_init fs = elim fs.ramfs_root [
  | some i ↦ fs
  | none ↦ elim (fs.heap 0) [
    | none ↦ record fs { heap = later fs.heap }
    | some b ↦ record (with_new_node fs (codes "/") 2) {
      ramfs_root = some fs.count;
      heap = later fs.heap;
    }
  ]
]

-- ramfs_create from the answer of kmalloc on
unfoldable pub create_with : Fs → ℕ → List ℕ → ℕ → Bool → Result × Fs
create_with fs parent name kind false = (fail 3, record fs { heap = later fs.heap })
create_with fs parent name kind true = (
  done 0,
  add_child (record (with_new_node fs name kind) { heap = later fs.heap }) parent fs.count,
)

abbrev pub granted : Option Array → Bool
granted none = false
granted (some b) = true

abbrev pub is_found : Option ℕ → Bool
is_found none = false
is_found (some i) = true

unfoldable pub ramfs_create : Fs → Option ℕ → List ℕ → ℕ → Result × Fs
ramfs_create fs none name kind = (fail 1, fs)
ramfs_create fs (some parent) name kind =
    if not (is_directory (fs.nodes parent))
    then (fail 1, fs)
    else if is_found (default_finddir fs parent name)
    then (fail 2, fs)
    else create_with fs parent name kind (granted (fs.heap 0))

abbrev pub is_empty : List ℕ → Bool
is_empty [] = true
is_empty (c ∷ cs) = false

abbrev pub is_root : Fs → ℕ → Bool
is_root fs i = elim fs.ramfs_root [ none ↦ false | some r ↦ r == i ]

-- The node's block and its data are freed.
unfoldable pub ramfs_delete : Fs → Option ℕ → Result × Fs
ramfs_delete fs none = (fail 1, fs)
ramfs_delete fs (some i) =
    if is_root fs i
    then (fail 1, fs)
    else if is_directory (fs.nodes i) && not (is_empty (fs.nodes i).children)
    then (fail 2, fs)
    else (done 0, remove_child fs i)

unfoldable pub ramfs_set_cwd : Fs → Option ℕ → Fs
ramfs_set_cwd fs dir = record fs { ramfs_cwd = dir }

-- `while (*p == '/') p++`
unfoldable pub skip_slashes : List ℕ → List ℕ
skip_slashes [] = []
skip_slashes (c ∷ cs) = let rest = skip_slashes cs in if c == b'/' then rest else c ∷ cs

-- the characters before the next '/', and the rest from there on
unfoldable pub token : List ℕ → List ℕ
token [] = []
token (c ∷ cs) = let rest = token cs in if c == b'/' then [] else c ∷ rest

unfoldable pub after_token : List ℕ → List ℕ
after_token [] = []
after_token (c ∷ cs) = let rest = after_token cs in if c == b'/' then c ∷ cs else rest

-- where one component leads
unfoldable pub step : Fs → ℕ → List ℕ → Option ℕ
step fs current name =
    if same_name name (codes ".")
    then some current
    else if same_name name (codes "..")
    then elim (fs.nodes current).parent [ none ↦ some current | some p ↦ some p ]
    else default_finddir fs current name

-- `if (!child) return NULL`, and on from the node otherwise
abbrev pub onward : Option ℕ → (ℕ → Option ℕ) → Option ℕ
onward none next = none
onward (some i) next = next i

-- the loop of vfs_resolve_path at a path without slashes before it; each round takes a component
unfoldable pub walk : ℕ → Fs → ℕ → List ℕ → Option ℕ
walk zero fs current p = some current
walk (suc n) fs current [] = some current
walk (suc n) fs current (c ∷ cs) =
    if ltb vfs_name_max (length (token (c ∷ cs)))
    then none
    else onward (step fs current (token (c ∷ cs)))
        (λ next. walk n fs next (skip_slashes (after_token (c ∷ cs))))

unfoldable pub vfs_resolve_path : Fs → Option ℕ → List ℕ → Option ℕ → Option ℕ
vfs_resolve_path fs none path cwd = none
vfs_resolve_path fs (some root) [] cwd = none
vfs_resolve_path fs (some root) (c ∷ cs) cwd =
    let start = if c == b'/' then root else elim cwd [ none ↦ root | some d ↦ d ] in
    walk (length (skip_slashes (c ∷ cs))) fs start (skip_slashes (c ∷ cs))

unfoldable pub ramfs_resolve : Fs → List ℕ → Option ℕ
ramfs_resolve fs path = vfs_resolve_path fs fs.ramfs_root path fs.ramfs_cwd
