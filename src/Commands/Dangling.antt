-- ===== src/Commands/Dangling.antt =====
-- rm of the working directory in arch/x86/kernel/shell.c.
use cobra_os.Base.{
  ℕ, ◌≡◌, ◌≢◌, ◌==◌, refl, sym, ap, ◌∙◌, List, [], ◌∷◌, ◌++◌, none, some, Option-cases, inl, inr,
  true, false, Bool-cases, arith, ==_refl,
}
use cobra_os.Ramfs.Node.{is_directory}
use cobra_os.Ramfs.Tree.{
  Fs, is_empty, is_root, linked, unlink, remove_from, remove_child, ramfs_delete, ramfs_resolve,
}
use cobra_os.Commands.Files.{ShellFs, succeeded, rm_node, cmd_rm}

unlink-append :
    (xs ys : List ℕ) (i : ℕ)
    → linked xs i ≡ false
    → (linked (xs ++ (i ∷ ys)) i ≡ true) × (unlink (xs ++ (i ∷ ys)) i ≡ xs ++ ys)
unfolding linked unlink
unlink-append [] ys i h = (ground arith, ground arith)
unlink-append (x ∷ xs) ys i h = elim (Bool-cases (x == i)) [
  | inl e ↦ cc
  | inr e ↦
      let (there, left) = unlink-append xs ys i (rw e at h) in rw e (there, ap (λ l. x ∷ l) left)
]

-- The node loses its parent, and its parent's chain loses it and nothing else.
remove_child-unlinks :
    (fs : Fs) (p i : ℕ) (xs ys : List ℕ)
    → (fs.nodes i).parent ≡ some p
    → (fs.nodes p).children ≡ xs ++ (i ∷ ys)
    → linked xs i ≡ false
    → p ≢ i
    → (((remove_child fs i).nodes i).parent ≡ none)
      × (((remove_child fs i).nodes p).children ≡ xs ++ ys)
unfolding remove_child remove_from
remove_child-unlinks fs p i xs ys e f h apart =
    let (there, left) = unlink-append xs ys i h in
    let other : (p == i) ≡ false = ground arith in
    rw (e, remove_child, f, there, remove_from, left)
      (rw (==_refl i) refl, rw (other, ==_refl p) refl)

remove_child-ramfs_cwd : (fs : Fs) (i : ℕ) → (remove_child fs i).ramfs_cwd ≡ fs.ramfs_cwd
unfolding remove_child remove_from
remove_child-ramfs_cwd fs i = elim (Option-cases (fs.nodes i).parent) [
  | inl e ↦ rw (e, remove_child) refl
  | inr (p, e) ↦ elim (Bool-cases (linked (fs.nodes p).children i)) [
    | inl f ↦ rw (e, remove_child, f, remove_from) refl
    | inr f ↦ rw (e, remove_child, f, remove_from) refl
  ]
]

parent_apart :
    (fs : Fs) (p i : ℕ) (xs ys : List ℕ)
    → (fs.nodes p).children ≡ xs ++ (i ∷ ys)
    → is_empty (fs.nodes i).children ≡ true
    → p ≢ i
parent_apart fs p i xs ys f none_left e =
    listed xs (ap is_empty (sym f ∙ ap (λ j. (fs.nodes j).children) e) ∙ none_left)
  where
    listed : (us : List ℕ) → is_empty (us ++ (i ∷ ys)) ≢ true
    listed [] = cc
    listed (u ∷ us) = cc

-- rm of the empty working directory, which is not the root and stands in its parent's chain, takes it
-- out of the chain, keeps the others there, and leaves it without a parent, while both records of the
-- working directory still point to it.
pub cmd_rm-shell_cwd :
    (s : ShellFs) (i p : ℕ) (args xs ys : List ℕ)
    → is_empty args ≡ false
    → ramfs_resolve s.fs args ≡ some i
    → s.shell_cwd ≡ some i
    → s.fs.ramfs_cwd ≡ some i
    → is_root s.fs i ≡ false
    → is_empty (s.fs.nodes i).children ≡ true
    → (s.fs.nodes i).parent ≡ some p
    → (s.fs.nodes p).children ≡ xs ++ (i ∷ ys)
    → linked xs i ≡ false
    → ((cmd_rm s args).0 ≡ succeeded)
      × (((cmd_rm s args).1.fs.nodes i).parent ≡ none)
      × (((cmd_rm s args).1.fs.nodes p).children ≡ xs ++ ys)
      × ((cmd_rm s args).1.shell_cwd ≡ some i)
      × ((cmd_rm s args).1.fs.ramfs_cwd ≡ some i)
unfolding cmd_rm rm_node ramfs_delete
cmd_rm-shell_cwd s i p args xs ys given leads cwd fs_cwd root none_left e f h =
    let apart = parent_apart s.fs p i xs ys f none_left in
    let (alone, others) = remove_child-unlinks s.fs p i xs ys e f h apart in
    let kept = remove_child-ramfs_cwd s.fs i ∙ fs_cwd in
    elim (Bool-cases (is_directory (s.fs.nodes i))) [
      | inl d ↦ rw (given, leads, root, none_left, d) (refl, alone, others, cwd, kept)
      | inr d ↦ rw (given, leads, root, d) (refl, alone, others, cwd, kept)
    ]
