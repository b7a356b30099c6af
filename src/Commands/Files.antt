-- ===== src/Commands/Files.antt =====
-- The commands of arch/x86/kernel/shell.c on the file system: cd, ls, cat, mkdir, rm, touch and pwd.
-- What a command prints is a value.
use cobra_os.Base.{
  ℕ, zero, suc, ◌==◌, ◌||◌, leb, not, if◌then◌else◌, Array, List, [], ◌∷◌, ◌++◌, take, drop, Option,
  none, some, cells,
}
use cobra_os.Base.Text.{codes}
use cobra_os.Memory.Heap.{later}
use cobra_os.Ramfs.Node.{
  Result, done, fail, Node, is_file, is_directory, File, ramfs_open, ramfs_read,
}
use cobra_os.Ramfs.Tree.{
  Fs, same_name, is_empty, ramfs_create, ramfs_delete, ramfs_set_cwd, ramfs_resolve,
}
use cobra_os.Ramfs.Files.{last_slash}
use cobra_os.Screen.Format.{viprint}

-- the file system and the static shell_cwd
pub record ShellFs : Type 0 where
  pub fs : Fs
  pub shell_cwd : Option ℕ

-- the messages of the commands
pub data Message : Type 0 where
  usage silent too_long not_found no_parent not_directory not_file no_name exists : Message
  succeeded not_empty failed : Message

-- the node that `cd` is asked for
unfoldable pub cd_target : Fs → List ℕ → Option ℕ
cd_target fs args =
    if is_empty args || same_name args (codes "/") then fs.ramfs_root else ramfs_resolve fs args

unfoldable pub cd_to : ShellFs → Option ℕ → Message × ShellFs
cd_to s none = (not_found, s)
cd_to s (some i) =
    if not (is_directory (s.fs.nodes i))
    then (not_directory, s)
    else (succeeded, record { fs = ramfs_set_cwd s.fs (some i); shell_cwd = some i })

unfoldable pub cmd_cd : ShellFs → List ℕ → Message × ShellFs
cmd_cd s args = cd_to s (cd_target s.fs args)

-- the parent and the name that mkdir and touch make of their argument, `none` for a path too long
pub record Target : Type 0 where
  pub parent : Option ℕ
  pub name : List ℕ

unfoldable pub target_at : ShellFs → List ℕ → Option ℕ → Option Target
target_at s args none = some (record { parent = s.shell_cwd; name = args })
target_at s args (some i) =
    if i == 0
    then some (record { parent = s.fs.ramfs_root; name = drop 1 args })
    else if leb 256 i
    then none
    else some (record { parent = ramfs_resolve s.fs (take i args); name = drop (suc i) args })

abbrev pub created_message : Result → Message
created_message (done zero) = succeeded
created_message (done (suc n)) = failed
created_message (fail zero) = succeeded
created_message (fail (suc zero)) = failed
created_message (fail (suc (suc zero))) = exists
created_message (fail (suc (suc (suc n)))) = failed

unfoldable pub create_in : ShellFs → Option ℕ → List ℕ → ℕ → Message × ShellFs
create_in s none name kind = (no_parent, s)
create_in s (some parent) name kind =
    let answer = ramfs_create s.fs (some parent) name kind in
    if not (is_directory (s.fs.nodes parent))
    then (not_directory, s)
    else if is_empty name
    then (no_name, s)
    else (created_message answer.0, record s { fs = answer.1 })

unfoldable pub create_target : ShellFs → Option Target → ℕ → Message × ShellFs
create_target s none kind = (too_long, s)
create_target s (some t) kind = create_in s t.parent t.name kind

-- mkdir, with FS_DIRECTORY
unfoldable pub cmd_mkdir : ShellFs → List ℕ → Message × ShellFs
cmd_mkdir s args =
    if is_empty args then (usage, s) else create_target s (target_at s args (last_slash args)) 2

-- touch, with FS_FILE; it says nothing about a file that exists
abbrev pub touch_message : Message → Message
touch_message succeeded = silent
touch_message exists = silent
touch_message m = m

unfoldable pub cmd_touch : ShellFs → List ℕ → Message × ShellFs
cmd_touch s args =
    let made = create_target s (target_at s args (last_slash args)) 1 in
    if is_empty args then (usage, s) else (touch_message made.0, made.1)

abbrev pub removed_message : Result → Message
removed_message (done zero) = succeeded
removed_message (done (suc n)) = failed
removed_message (fail zero) = succeeded
removed_message (fail (suc zero)) = failed
removed_message (fail (suc (suc zero))) = not_empty
removed_message (fail (suc (suc (suc n)))) = failed

unfoldable pub rm_node : ShellFs → Option ℕ → Message × ShellFs
rm_node s none = (not_found, s)
rm_node s (some i) =
    let answer = ramfs_delete s.fs (some i) in
    (removed_message answer.0, record s { fs = answer.1 })

unfoldable pub cmd_rm : ShellFs → List ℕ → Message × ShellFs
cmd_rm s args = if is_empty args then (usage, s) else rm_node s (ramfs_resolve s.fs args)

-- For each node, what viprint prints for the arguments that its name asks for as a format: the calls pass
-- none, so it is whatever stands on the stack.
abbrev pub Missing : Type 0
Missing = ℕ → ℕ → ℕ → List ℕ

-- the lines that ls prints, each a name, printed as a format, with a slash behind a directory's
unfoldable pub ls_lines : Missing → (ℕ → Node) → List ℕ → List (List ℕ)
ls_lines missing nodes [] = []
ls_lines missing nodes (c ∷ cs) =
    let name = viprint (missing c) 0 (nodes c).name in
    (if is_directory (nodes c) then name ++ (b'/' ∷ []) else name) ∷ ls_lines missing nodes cs

unfoldable pub ls_node : Missing → Fs → Option ℕ → Message × List (List ℕ)
ls_node missing fs none = (not_found, [])
ls_node missing fs (some i) =
    if not (is_directory (fs.nodes i))
    then (not_directory, [])
    else if is_empty (fs.nodes i).children
    then (silent, codes "(empty)" ∷ [])
    else (silent, ls_lines missing fs.nodes (fs.nodes i).children)

unfoldable pub cmd_ls : Missing → ShellFs → List ℕ → Message × List (List ℕ)
cmd_ls missing s args =
    ls_node missing s.fs (if is_empty args then s.shell_cwd else ramfs_resolve s.fs args)

-- the rounds of cat: each reads up to 256 bytes and prints as many as were read
unfoldable pub cat_loop : ℕ → File → Node → Array → List ℕ
cat_loop zero f n buffer = []
cat_loop (suc rounds) f n buffer =
    let r = ramfs_read f n 256 buffer in
    elim r.0.result [
      | fail k ↦ []
      | done k ↦ if k == 0 then [] else cells r.0.buffer k ++ cat_loop rounds r.1 n r.0.buffer
    ]

-- what a command prints beside its message, and the state it leaves
pub record Shown : Type 0 where
  pub message : Message
  pub text : List ℕ
  pub state : ShellFs

-- the state after one call of kmalloc
abbrev pub after_open : ShellFs → ShellFs
after_open s = record s { fs = record s.fs { heap = later s.fs.heap } }

unfoldable pub cat_file : ShellFs → ℕ → ℕ → Array → Option File → Shown
cat_file s i rounds buffer none = record { message = failed; text = []; state = after_open s }
cat_file s i rounds buffer (some f) = record {
  message = silent;
  text = cat_loop rounds f (s.fs.nodes i) buffer;
  state = after_open s;
}

unfoldable pub cat_node : ShellFs → ℕ → Array → Option ℕ → Shown
cat_node s rounds buffer none = record { message = not_found; text = []; state = s }
cat_node s rounds buffer (some i) =
    if not (is_file (s.fs.nodes i))
    then record { message = not_file; text = []; state = s }
    else cat_file s i rounds buffer (ramfs_open i (s.fs.nodes i) 1 (s.fs.heap 0))

-- `buffer` is what the array on the stack holds, and `rounds` bounds the loop
unfoldable pub cmd_cat : ShellFs → ℕ → Array → List ℕ → Shown
cmd_cat s rounds buffer args =
    if is_empty args
    then record { message = usage; text = []; state = s }
    else cat_node s rounds buffer (ramfs_resolve s.fs args)

-- print_path, with the parents that are left to follow; a name is printed as a format
unfoldable pub print_path : Missing → ℕ → (ℕ → Node) → ℕ → List ℕ
print_path missing zero nodes i = []
print_path missing (suc depth) nodes i =
    let name = viprint (missing i) 0 (nodes i).name in
    elim (nodes i).parent [
      | none ↦ codes "/"
      | some p ↦
          print_path missing depth nodes p
          ++ (elim (nodes p).parent [ none ↦ name | some q ↦ b'/' ∷ name ])
    ]

unfoldable pub cmd_pwd : Missing → ShellFs → List ℕ
cmd_pwd missing s = elim s.shell_cwd [
  | none ↦ codes "/"
  | some i ↦ print_path missing s.fs.count s.fs.nodes i
]
