-- ===== src/Commands/MakeEnter.antt =====
-- mkdir followed by cd in arch/x86/kernel/shell.c.
use cobra_os.Base.{
  ℕ, ◌<◌, ◌||◌, ◌≡◌, ◌≢◌, refl, sym, ap, subst, ◌∙◌, arith, List, [], ◌∷◌, Option, none, some, All,
  append-nil, false, true, Array, ==_ne,
}
use cobra_os.Base.Text.{codes}
use cobra_os.Ramfs.Node.{is_directory, done}
use cobra_os.Ramfs.Tree.{
  Fs, same_name, default_finddir, is_empty, step, onward, create_with, ramfs_create, add_child,
  vfs_resolve_path, ramfs_resolve, ramfs_set_cwd,
}
use cobra_os.Ramfs.Files.{last_slash}
use cobra_os.Ramfs.Lookup.{
  IsComponent, AllBelow, descend, default_finddir-ramfs_create, same_name_refl,
  vfs_resolve_path-relative,
}
use cobra_os.Commands.Files.{
  ShellFs, succeeded, cd_target, cd_to, cmd_cd, target_at, create_in, create_target, cmd_mkdir,
}

-- A name without a slash has no last slash.
last_slash-none : (t : List ℕ) → All (λ c. c ≢ b'/') t → last_slash t ≡ none
unfolding last_slash
last_slash-none [] v = refl
last_slash-none (c ∷ cs) (ne, v) = rw (last_slash-none cs v, ==_ne c b'/' ne) refl

not_root_path : (t : List ℕ) → IsComponent t → (is_empty t || same_name t (codes "/")) ≡ false
unfolding same_name
not_root_path [] v = absurd (omega (arith, v.not_empty))
not_root_path (c ∷ cs) v = rw (==_ne c b'/' v.no_slash.0) refl

not_empty : (t : List ℕ) → IsComponent t → is_empty t ≡ false
not_empty [] v = absurd (omega (arith, v.not_empty))
not_empty (c ∷ cs) v = refl

-- the path of one name, looked up from a directory
resolve_name :
    (fs : Fs) (root d : ℕ) (t : List ℕ)
    → IsComponent t
    → vfs_resolve_path fs (some root) t (some d) ≡ step fs d t
unfolding descend
resolve_name fs root d t v =
    ap (λ p. vfs_resolve_path fs (some root) p (some d)) (sym (append-nil t))
    ∙ vfs_resolve_path-relative fs root d t [] (v, tt)
    ∙ onward-some (step fs d t)
  where
    onward-some : (o : Option ℕ) → onward o (λ j. some j) ≡ o
    onward-some none = refl
    onward-some (some j) = refl

-- The directory is there, and it is where relative paths start.
pub record InDirectory (s : ShellFs) (root d : ℕ) : Type 0 where
  pub has_root : s.fs.ramfs_root ≡ some root
  pub shell : s.shell_cwd ≡ some d
  pub ramfs : s.fs.ramfs_cwd ≡ some d
  pub directory : is_directory (s.fs.nodes d) ≡ true

module _ (s : ShellFs) (root d : ℕ) (t : List ℕ) (b : Array) (here : InDirectory s root d)
    (v : IsComponent t) (low : d < s.fs.count) (below : AllBelow s.fs.count (s.fs.nodes d).children)
    (missing : default_finddir s.fs d t ≡ none) (granted : s.fs.heap 0 ≡ some b) where
  -- the file system with the new directory
  made : Fs
  made = (ramfs_create s.fs (some d) t 2).1

  made_done : (ramfs_create s.fs (some d) t 2).0 ≡ done 0
  made_done =
      (default_finddir-ramfs_create s.fs d t t 2 b low below here.directory v.not_long missing
        granted).0

  made_found : default_finddir made d t ≡ some s.fs.count
  unfolding made
  made_found =
      (default_finddir-ramfs_create s.fs d t t 2 b low below here.directory v.not_long missing
        granted).1
      ∙ rw (same_name_refl t) refl

  IsMade : Fs → Type 0
  IsMade fs =
      (is_directory (fs.nodes s.fs.count) ≡ true)
      × ((fs.nodes s.fs.count).parent ≡ some d)
      × (fs.ramfs_root ≡ s.fs.ramfs_root)
      × (fs.ramfs_cwd ≡ s.fs.ramfs_cwd)

  created_IsMade : IsMade (create_with s.fs d t 2 true).1
  unfolding IsMade create_with add_child
  created_IsMade = (ground arith, ground arith, refl, refl)

  passed : ramfs_create s.fs (some d) t 2 ≡ create_with s.fs d t 2 true
  unfolding ramfs_create
  passed = rw (here.directory, missing, granted) refl

  made_created : made ≡ (create_with s.fs d t 2 true).1
  unfolding made
  made_created = ap (λ r. r.1) passed

  made_node : IsMade made
  made_node = subst IsMade (sym made_created) created_IsMade

  mkdir_made : cmd_mkdir s t ≡ (succeeded, record s { fs = made })
  unfolding cmd_mkdir create_target target_at create_in made
  mkdir_made =
      rw (shown, last_slash-none t v.no_slash, here.shell, here.directory, shown, made_done) refl
    where
      shown : is_empty t ≡ false
      shown = not_empty t v

  found :
      same_name t (codes ".") ≡ false
      → same_name t (codes "..") ≡ false
      → ramfs_resolve made t ≡ some s.fs.count
  unfolding ramfs_resolve step IsMade
  found dot dots =
      let (_, _, r, c) = made_node in
      ap (λ o. vfs_resolve_path made o t made.ramfs_cwd) (r ∙ here.has_root)
      ∙ ap (λ o. vfs_resolve_path made (some root) t o) (c ∙ here.ramfs)
      ∙ resolve_name made root d t v
      ∙ rw (dot, dots) made_found

  cd_made :
      same_name t (codes ".") ≡ false
      → same_name t (codes "..") ≡ false
      → cmd_cd (record s { fs = made }) t ≡ (
        succeeded,
        record { fs = ramfs_set_cwd made (some s.fs.count); shell_cwd = some s.fs.count },
      )
  unfolding cmd_cd cd_target cd_to IsMade
  cd_made dot dots = let (k, _, _, _) = made_node in rw (not_root_path t v, found dot dots, k) refl

-- In a directory without an entry of this name, while kmalloc succeeds, mkdir creates the directory, and
-- cd with the same name then enters it: it is a directory, its parent is the old one, and both
-- records of the working directory name it. The name is a component other than "." and "..".
pub cmd_cd-cmd_mkdir :
    (s : ShellFs) (root d : ℕ) (t : List ℕ) (b : Array)
    → InDirectory s root d
    → IsComponent t
    → same_name t (codes ".") ≡ false
    → same_name t (codes "..") ≡ false
    → d < s.fs.count
    → AllBelow s.fs.count (s.fs.nodes d).children
    → default_finddir s.fs d t ≡ none
    → s.fs.heap 0 ≡ some b
    → let made = cmd_mkdir s t in
      let entered = cmd_cd made.1 t in
      (made.0 ≡ succeeded)
      × (entered.0 ≡ succeeded)
      × InDirectory entered.1 root s.fs.count
      × ((entered.1.fs.nodes s.fs.count).parent ≡ some d)
unfolding ramfs_set_cwd IsMade
cmd_cd-cmd_mkdir s root d t b here v dot dots low below missing granted =
    let (k, p, r, c) = made_node s root d t b here v low below missing granted in
    subst
      (λ made.
        (made.0 ≡ succeeded)
        × ((cmd_cd made.1 t).0 ≡ succeeded)
        × InDirectory (cmd_cd made.1 t).1 root s.fs.count
        × (((cmd_cd made.1 t).1.fs.nodes s.fs.count).parent ≡ some d))
      (sym (mkdir_made s root d t b here v low below missing granted))
      (let (x, y, z) =
          subst
            (λ entered.
              (entered.0 ≡ succeeded)
              × InDirectory entered.1 root s.fs.count
              × ((entered.1.fs.nodes s.fs.count).parent ≡ some d))
            (sym (cd_made s root d t b here v low below missing granted dot dots))
            (
              refl,
              record { has_root = r ∙ here.has_root; shell = refl; ramfs = refl; directory = k },
              p,
            ) in
        (refl, x, y, z))
