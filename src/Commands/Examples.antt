-- ===== src/Commands/Examples.antt =====
-- The commands of arch/x86/kernel/shell.c on concrete input.
use cobra_os.Base.{
  ℕ, ◌^◌, ◌%◌, ◌==◌, if◌then◌else◌, ◌≡◌, refl, arith, [], ◌∷◌, ◌++◌, none, some, window, false,
}
use cobra_os.Base.Text.{codes}
use cobra_os.Heap.{HeapState}
use cobra_os.Heap.Alloc.{first_block}
use cobra_os.Heap.Tree.{vacant}
use cobra_os.Heap.Invariant.{first_block-IsHeap}
use cobra_os.Ramfs.Node.{Node}
use cobra_os.Ramfs.Tree.{
  Fs, linked, same_name, find_child, default_finddir, step, vfs_resolve_path, ramfs_resolve, walk,
  skip_slashes, token, after_token,
}
use cobra_os.Ramfs.Lookup.{IsComponent}
use cobra_os.Screen.Format.{viprint, directive, takes_argument}
use cobra_os.Shell.Numbers.{
  uint_digits, print_uint, hex_string, hexprint, hex_places, parse_dec, parse_u32, parse_hex,
  dec_loop,
}
use cobra_os.Shell.ReadBack.{parse_dec-print_uint, parse_dec-decimal, decimal, is_number}
use cobra_os.Commands.{command_of, arguments_of}
use cobra_os.Commands.Parts.{spaces, command_of-append}
use cobra_os.Commands.Files.{
  ShellFs, Missing, succeeded, silent, cmd_cd, cmd_mkdir, cmd_rm, cmd_cat, cmd_pwd, print_path,
}
use cobra_os.Commands.MakeEnter.{InDirectory, cmd_cd-cmd_mkdir}
use cobra_os.Commands.Cat.{cmd_cat-window}
use cobra_os.Commands.Dangling.{cmd_rm-shell_cwd}
use cobra_os.Commands.Pages.{Report, cmd_kalloc}
use cobra_os.Commands.FreeBack.{GivenBack, cmd_kfree-cmd_kalloc}

shown_numbers : (print_uint 4096 ≡ codes "4096") × (hexprint 48879 ≡ codes "0x0000BEEF\n")
unfolding print_uint uint_digits hexprint hex_string hex_places
shown_numbers = (refl, refl)

-- a number beyond 32 bits is read as another one
wrapped : parse_dec (codes "4294967297") ≡ some 1
unfolding parse_dec dec_loop
wrapped = refl

parse_dec-print_uint_example :
    (parse_dec (print_uint 4096) ≡ some 4096)
    × (parse_u32 (print_uint 4096) ≡ some 4096)
    × (parse_hex (hex_string 4096) ≡ some 4096)
    × (parse_hex (hexprint 4096) ≡ none)
parse_dec-print_uint_example = parse_dec-print_uint 4096 (omega arith)

parse_dec-decimal_example :
    (parse_dec (codes "4294967297") ≡ (
      if is_number (codes "4294967297")
      then some (decimal 0 (codes "4294967297") % 2 ^ 32)
      else none))
    × (parse_u32 (codes "4294967297") ≡ parse_dec (codes "4294967297"))
parse_dec-decimal_example = parse_dec-decimal (codes "4294967297")

command_of-append_example :
    (command_of (codes "cat" ++ spaces 1 (codes "/a b")) ≡ codes "cat")
    × (arguments_of (codes "cat" ++ spaces 1 (codes "/a b")) ≡ codes "/a b")
command_of-append_example =
    command_of-append (codes "cat") (codes "/a b") 0 (omega arith) (cc, (cc, (cc, tt))) (cc)

abbrev nodes : ℕ → Node
nodes i =
    if i == 0
    then record {
      name = codes "/";
      kind = 2;
      size = 0;
      bytes = λ j. 0;
      parent = none;
      children = 1 ∷ [];
    }
    else if i == 1
    then record {
      name = codes "a";
      kind = 2;
      size = 0;
      bytes = λ j. 0;
      parent = some 0;
      children = 2 ∷ [];
    }
    else if i == 2
    then record {
      name = codes "b";
      kind = 2;
      size = 0;
      bytes = λ j. 0;
      parent = some 1;
      children = [];
    }
    else record {
      name = codes "c";
      kind = 1;
      size = 300;
      bytes = λ j. j;
      parent = some 0;
      children = [];
    }

-- the directories /, /a and /a/b
abbrev tree : Fs
tree = record {
  nodes = nodes;
  count = 3;
  ramfs_root = some 0;
  ramfs_cwd = some 2;
  heap = λ n. some (λ j. 7);
}

-- a shell in /a/b
abbrev deep : ShellFs
deep = record { fs = tree; shell_cwd = some 2 }

-- what stands on the stack
abbrev nothing : Missing
nothing i k d = codes "?"

where_am_i : cmd_pwd nothing deep ≡ codes "/a/b"
unfolding cmd_pwd print_path viprint
where_am_i = refl

-- a name is printed as a format
name_as_format : viprint (nothing 0) 0 (codes "%s%%%q%") ≡ codes "?%%q"
unfolding viprint directive takes_argument
name_as_format = refl

a-IsComponent : IsComponent (codes "a")
a-IsComponent = record { no_slash = (cc, tt); not_empty = omega arith; not_long = omega arith }

deep-InDirectory : InDirectory deep 0 2
deep-InDirectory = record { has_root = refl; shell = refl; ramfs = refl; directory = refl }

nothing_there : default_finddir tree 2 (codes "a") ≡ none
unfolding default_finddir find_child
nothing_there = refl

not_dots :
    (same_name (codes "a") (codes ".") ≡ false) × (same_name (codes "a") (codes "..") ≡ false)
unfolding same_name
not_dots = (refl, refl)

cmd_cd-cmd_mkdir_example :
    let made = cmd_mkdir deep (codes "a") in
    let entered = cmd_cd made.1 (codes "a") in
    (made.0 ≡ succeeded)
    × (entered.0 ≡ succeeded)
    × InDirectory entered.1 0 3
    × ((entered.1.fs.nodes 3).parent ≡ some 2)
cmd_cd-cmd_mkdir_example =
    cmd_cd-cmd_mkdir deep 0 2 (codes "a") (λ j. 7) deep-InDirectory a-IsComponent not_dots.0
      not_dots.1 (omega arith) tt nothing_there refl

-- the file system with a file of 300 bytes in the root directory
abbrev with_file : ShellFs
with_file = record {
  fs = record tree {
    nodes = λ i. if i == 0 then record (nodes 0) { children = 3 ∷ 1 ∷ [] } else nodes i;
    count = 4;
  };
  shell_cwd = some 0;
}

leads_to_c : ramfs_resolve with_file.fs (codes "/c") ≡ some 3
unfolding ramfs_resolve vfs_resolve_path walk skip_slashes token after_token step default_finddir
    find_child same_name
leads_to_c = refl

cmd_cat-window_example :
    ((cmd_cat with_file 2 (λ j. 9) (codes "/c")).message ≡ silent)
    × ((cmd_cat with_file 2 (λ j. 9) (codes "/c")).text ≡ window (λ j. j) 0 300)
cmd_cat-window_example =
    cmd_cat-window with_file 2 3 (λ j. 9) (λ j. 7) (codes "/c") refl leads_to_c refl refl
      (omega arith) (omega arith)

leads_to_b : ramfs_resolve tree (codes "/a/b") ≡ some 2
unfolding ramfs_resolve vfs_resolve_path walk skip_slashes token after_token step default_finddir
    find_child same_name
leads_to_b = refl

nothing_before : linked [] 2 ≡ false
unfolding linked
nothing_before = refl

cmd_rm-shell_cwd_example :
    ((cmd_rm deep (codes "/a/b")).0 ≡ succeeded)
    × (((cmd_rm deep (codes "/a/b")).1.fs.nodes 2).parent ≡ none)
    × (((cmd_rm deep (codes "/a/b")).1.fs.nodes 1).children ≡ [])
    × ((cmd_rm deep (codes "/a/b")).1.shell_cwd ≡ some 2)
    × ((cmd_rm deep (codes "/a/b")).1.fs.ramfs_cwd ≡ some 2)
cmd_rm-shell_cwd_example =
    cmd_rm-shell_cwd deep 2 1 (codes "/a/b") [] [] refl leads_to_b refl refl refl refl refl refl
      nothing_before

abbrev start : HeapState
start = first_block (λ a. 0)

cmd_kfree-cmd_kalloc_example :
    (h' : HeapState) × (r : Report) × (cmd_kalloc start (print_uint 100) ≡ some (h', r))
    × GivenBack vacant start h' 100 r
cmd_kfree-cmd_kalloc_example =
    cmd_kfree-cmd_kalloc start vacant 100 (first_block-IsHeap (λ a. 0)) (omega arith) (omega arith)
