-- ===== src/Commands/WayBack.antt =====
-- The path that pwd of arch/x86/kernel/shell.c prints, and the lookup of paths.
use cobra_os.Base.{ℕ, ◌≡◌, ◌≢◌, List, [], ◌∷◌, ◌++◌, none, some, All, false}
use cobra_os.Base.Text.{codes}
use cobra_os.Ramfs.Tree.{Fs, same_name, default_finddir}
use cobra_os.Ramfs.Lookup.{IsComponent, path_of}

-- `i` is reached from the root by these names, the last one first: each is the name of a node that its
-- parent finds, and no name is "." or "..", or has a '%' in it.
unfoldable pub Located : Fs → ℕ → ℕ → List (List ℕ) → Type 0
Located fs root i [] = (i ≡ root) × ((fs.nodes i).parent ≡ none)
Located fs root i (t ∷ ts) =
    (p : ℕ) × ((fs.nodes i).parent ≡ some p)
    × ((fs.nodes i).name ≡ t)
    × (default_finddir fs p t ≡ some i)
    × IsComponent t
    × All (λ c. c ≢ b'%') t
    × (same_name t (codes ".") ≡ false)
    × (same_name t (codes "..") ≡ false)
    × Located fs root p ts

-- the names from the root on
abbrev pub from_root : List (List ℕ) → List (List ℕ)
from_root [] = []
from_root (t ∷ ts) = from_root ts ++ (t ∷ [])

-- what pwd prints for these names
abbrev shown : List (List ℕ) → List ℕ
shown [] = codes "/"
shown (t ∷ ts) = path_of (from_root (t ∷ ts))
