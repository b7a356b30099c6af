-- ===== src/Ramfs/Lookup.antt =====
-- Names and paths of arch/x86/fs/ramfs.c: a created node is found, and a path is the walk along its
-- components.
use cobra_os.Base.{
  ℕ, zero, suc, ◌/◌, ◌%◌, ◌<◌, ◌≤◌, ◌≡◌, ◌≢◌, refl, ap, ◌∙◌, ltb, ◌==◌, not, if◌then◌else◌, true,
  false, List, [], ◌∷◌, ◌++◌, length, length-append, take, Option, none, some, All, Array, arith,
  Bool-cases, inl, inr, ==_ne,
}
use mathlib.Core.Path.{fun_ext}
use cobra_os.Ramfs.Node.{done, Node, is_directory}
use cobra_os.Ramfs.Tree.{
  vfs_name_max, Fs, same_name, find_child, default_finddir, add_child, create_with, ramfs_create,
  skip_slashes, token, after_token, step, onward, walk, vfs_resolve_path,
}

pub same_name_refl : (n : List ℕ) → same_name n n ≡ true
unfolding same_name
same_name_refl [] = refl
same_name_refl (c ∷ cs) = ground (arith, same_name_refl cs)

pub eq_of_same_name : (m n : List ℕ) → same_name m n ≡ true → m ≡ n
unfolding same_name
eq_of_same_name [] [] e = refl
eq_of_same_name [] (d ∷ ds) e = cc
eq_of_same_name (c ∷ cs) [] e = cc
eq_of_same_name (c ∷ cs) (d ∷ ds) e = elim (Bool-cases (c == d)) [
  | inl same ↦ ground (arith, eq_of_same_name cs ds (rw same at e))
  | inr other ↦ absurd (ground arith)
]

take_all : (n : ℕ) (l : List ℕ) → length l ≤ n → take n l ≡ l
take_all zero [] h = refl
take_all zero (x ∷ l) h = absurd (omega arith)
take_all (suc n) [] h = refl
take_all (suc n) (x ∷ l) h = ap (λ t. x ∷ t) (take_all n l (omega arith))

-- every node that the chain names is there
abbrev pub AllBelow : ℕ → List ℕ → Type 0
AllBelow count l = All (λ i. i < count) l

-- A node with a new number changes no lookup among the older ones.
find_child-new :
    (nodes nodes' : ℕ → Node) (count : ℕ) (l : List ℕ) (name : List ℕ)
    → AllBelow count l
    → ((i : ℕ) → i < count → (nodes' i).name ≡ (nodes i).name)
    → find_child nodes' l name ≡ find_child nodes l name
unfolding find_child
find_child-new nodes nodes' count [] name v h = refl
find_child-new nodes nodes' count (c ∷ cs) name (lt, v) h =
    rw (h c lt, find_child-new nodes nodes' count cs name v h) refl

module _ (fs : Fs) (parent : ℕ) (name : List ℕ) (kind : ℕ) where
  -- the file system after a node was created
  abbrev created : Fs
  created = (create_with fs parent name kind true).1

  created_parent :
      parent < fs.count → (created.nodes parent).children ≡ fs.count ∷ (fs.nodes parent).children
  unfolding create_with add_child
  created_parent lt = ground arith

  created_kind : parent < fs.count → (created.nodes parent).kind ≡ (fs.nodes parent).kind
  unfolding create_with add_child
  created_kind lt = ground arith

  created_name : parent < fs.count → (created.nodes fs.count).name ≡ take vfs_name_max name
  unfolding create_with add_child
  created_name lt = ground arith

  created_old : (i : ℕ) → i < fs.count → (created.nodes i).name ≡ (fs.nodes i).name
  unfolding create_with add_child
  created_old i lt = ground arith

  finddir-created :
      (q : List ℕ)
      → parent < fs.count
      → AllBelow fs.count (fs.nodes parent).children
      → length name ≤ vfs_name_max
      → is_directory (fs.nodes parent) ≡ true
      → default_finddir created parent q
        ≡ (if same_name name q then some fs.count else default_finddir fs parent q)
  unfolding default_finddir find_child
  finddir-created q lt v short dir =
      let dir' : is_directory (created.nodes parent) ≡ true =
        ap (λ k. not (k / 2 % 2 == 0)) (created_kind lt) ∙ dir in
      let old =
        find_child-new fs.nodes created.nodes fs.count (fs.nodes parent).children q v created_old in
      let named : (created.nodes fs.count).name ≡ name =
        created_name lt ∙ take_all vfs_name_max name short in
      rw (dir', dir, created_parent lt, named, old) refl

-- In a directory that has no entry of this name, and while kmalloc succeeds, ramfs_create with a name of
-- at most 255 characters returns 0, and then the name leads to the new node and every other name to
-- where it led before.
pub default_finddir-ramfs_create :
    (fs : Fs) (parent : ℕ) (name q : List ℕ) (kind : ℕ) (b : Array)
    → parent < fs.count
    → AllBelow fs.count (fs.nodes parent).children
    → is_directory (fs.nodes parent) ≡ true
    → length name ≤ vfs_name_max
    → default_finddir fs parent name ≡ none
    → fs.heap 0 ≡ some b
    → let r = ramfs_create fs (some parent) name kind in
      (r.0 ≡ done 0)
      × (default_finddir r.1 parent q
          ≡ (if same_name name q then some fs.count else default_finddir fs parent q))
unfolding ramfs_create create_with
default_finddir-ramfs_create fs parent name q kind b lt v dir short missing e =
    rw (dir, missing, e) (refl, finddir-created fs parent name kind q lt v short dir)

-- the components of a path: no slash in them, not empty, at most 255 characters
pub record IsComponent (t : List ℕ) : Type 0 where
  pub no_slash : All (λ c. c ≢ b'/') t
  pub not_empty : 0 < length t
  pub not_long : length t ≤ vfs_name_max

-- a path from its components, with a slash before each
abbrev pub path_of : List (List ℕ) → List ℕ
path_of [] = []
path_of (t ∷ ts) = b'/' ∷ (t ++ path_of ts)

-- the walk from a node along components
unfoldable pub descend : Fs → ℕ → List (List ℕ) → Option ℕ
descend fs i [] = some i
descend fs i (t ∷ ts) = onward (step fs i t) (λ j. descend fs j ts)

-- the rest of a path starts with a slash or is empty
token-append :
    (t : List ℕ) (ts : List (List ℕ))
    → All (λ c. c ≢ b'/') t
    → (token (t ++ path_of ts) ≡ t) × (after_token (t ++ path_of ts) ≡ path_of ts)
unfolding token after_token
token-append [] [] v = (refl, refl)
token-append [] (u ∷ ts) v = (refl, refl)
token-append (c ∷ cs) ts (ne, v) =
    let (a, b) = token-append cs ts v in rw (==_ne c b'/' ne, a, b) (refl, refl)

-- a path without the slash before its first component
abbrev rest_of : List (List ℕ) → List ℕ
rest_of [] = []
rest_of (t ∷ ts) = t ++ path_of ts

abbrev pub Components : List (List ℕ) → Type 0
Components ts = All IsComponent ts

skip_slashes-rest_of : (ts : List (List ℕ)) → Components ts → skip_slashes (rest_of ts) ≡ rest_of ts
unfolding skip_slashes
skip_slashes-rest_of [] v = refl
skip_slashes-rest_of ([] ∷ ts) (v, vs) = absurd (omega (arith, v.not_empty))
skip_slashes-rest_of ((c ∷ cs) ∷ ts) (v, vs) = rw (==_ne c b'/' v.no_slash.0) refl

skip_slashes-path_of : (ts : List (List ℕ)) → Components ts → skip_slashes (path_of ts) ≡ rest_of ts
unfolding skip_slashes
skip_slashes-path_of [] v = refl
skip_slashes-path_of (t ∷ ts) v = skip_slashes-rest_of (t ∷ ts) v

walk-cons :
    (n : ℕ) (fs : Fs) (i : ℕ) (t : List ℕ) (ts : List (List ℕ))
    → Components (t ∷ ts)
    → walk (suc n) fs i (t ++ path_of ts) ≡ onward (step fs i t) (λ j. walk n fs j (rest_of ts))
unfolding walk
walk-cons n fs i [] ts (v, vs) = absurd (omega (arith, v.not_empty))
walk-cons n fs i (c ∷ cs) ts (v, vs) =
    let (a, b) = token-append (c ∷ cs) ts v.no_slash in
    let short : ltb vfs_name_max (length (c ∷ cs)) ≡ false = ground (arith, v.not_long) in
    rw (a, b, short, skip_slashes-path_of ts vs) refl

walk_end : (n : ℕ) (fs : Fs) (i : ℕ) → walk n fs i [] ≡ some i
unfolding walk
walk_end zero fs i = refl
walk_end (suc n) fs i = refl

walk-descend :
    (ts : List (List ℕ)) (n : ℕ) (fs : Fs) (i : ℕ)
    → Components ts
    → length ts ≤ n
    → walk n fs i (rest_of ts) ≡ descend fs i ts
unfolding descend
walk-descend [] n fs i v le = walk_end n fs i
walk-descend (t ∷ ts) zero fs i v le = absurd (omega arith)
walk-descend (t ∷ ts) (suc n) fs i (v, vs) le =
    walk-cons n fs i t ts (v, vs)
    ∙ ap (onward (step fs i t)) (fun_ext (λ j. walk-descend ts n fs j vs (omega arith)))

length-rest_of : (ts : List (List ℕ)) → Components ts → length ts ≤ length (rest_of ts)
length-rest_of [] v = omega arith
length-rest_of (t ∷ []) (v, vs) = omega (arith, length-append t [], v.not_empty)
length-rest_of (t ∷ u ∷ ts) (v, vs) =
    omega (arith, length-append t (path_of (u ∷ ts)), length-rest_of (u ∷ ts) vs, v.not_empty)

-- A path of components, each after a slash, is resolved from the root by walking along them: every
-- component leads to the entry of its name, "." to the same node, ".." to the parent if there is one,
-- and a component that leads nowhere ends the walk with NULL. The rounds taken are enough for any path.
pub vfs_resolve_path-descend :
    (fs : Fs) (root : ℕ) (cwd : Option ℕ) (t : List ℕ) (ts : List (List ℕ))
    → Components (t ∷ ts)
    → vfs_resolve_path fs (some root) (path_of (t ∷ ts)) cwd ≡ descend fs root (t ∷ ts)
unfolding vfs_resolve_path
vfs_resolve_path-descend fs root cwd t ts v =
    ap (λ p. walk (length p) fs root p) (skip_slashes-path_of (t ∷ ts) v)
    ∙ walk-descend (t ∷ ts) (length (rest_of (t ∷ ts))) fs root v (length-rest_of (t ∷ ts) v)

-- A path of components without a slash at its start is resolved from the working directory.
pub vfs_resolve_path-relative :
    (fs : Fs) (root d : ℕ) (t : List ℕ) (ts : List (List ℕ))
    → Components (t ∷ ts)
    → vfs_resolve_path fs (some root) (t ++ path_of ts) (some d) ≡ descend fs d (t ∷ ts)
unfolding vfs_resolve_path
vfs_resolve_path-relative fs root d [] ts (v, vs) = absurd (omega (arith, v.not_empty))
vfs_resolve_path-relative fs root d (c ∷ cs) ts (v, vs) =
    ap
      (λ i.
        walk (length (skip_slashes ((c ∷ cs) ++ path_of ts))) fs i
          (skip_slashes ((c ∷ cs) ++ path_of ts)))
      {x = if c == b'/' then root else d} {y = d} (rw (==_ne c b'/' v.no_slash.0) refl)
    ∙ ap (λ p. walk (length p) fs d p) (skip_slashes-rest_of ((c ∷ cs) ∷ ts) (v, vs))
    ∙ walk-descend ((c ∷ cs) ∷ ts) (length (rest_of ((c ∷ cs) ∷ ts))) fs d (v, vs)
        (length-rest_of ((c ∷ cs) ∷ ts) (v, vs))
