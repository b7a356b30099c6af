-- ===== src/Commands.antt =====
-- The commands of arch/x86/kernel/shell.c: how shell_process_line takes a line apart. A line is the list
-- of its characters.
pub mod Cat
pub mod Dangling
mod Examples
pub mod Files
pub mod FreeBack
pub mod MakeEnter
pub mod Pages
pub mod Parts
pub mod WayBack
use cobra_os.Base.{ℕ, zero, suc, ◌==◌, if◌then◌else◌, List, [], ◌∷◌}

-- `cmd`: the characters before the first space, at most as many as there is room for
unfoldable pub command_word : ℕ → List ℕ → List ℕ
command_word zero line = []
command_word (suc room) [] = []
command_word (suc room) (c ∷ cs) =
    let rest = command_word room cs in if c == b' ' then [] else c ∷ rest

-- `args` after the loop that fills `cmd`
unfoldable pub after_word : ℕ → List ℕ → List ℕ
after_word zero line = line
after_word (suc room) [] = []
after_word (suc room) (c ∷ cs) = let rest = after_word room cs in if c == b' ' then c ∷ cs else rest

-- `while (*args == ' ') args++`
unfoldable pub skip_spaces : List ℕ → List ℕ
skip_spaces [] = []
skip_spaces (c ∷ cs) = let rest = skip_spaces cs in if c == b' ' then rest else c ∷ cs

-- the command and its arguments, with 31 characters of room in `cmd`
abbrev pub command_of : List ℕ → List ℕ
command_of line = command_word 31 line

abbrev pub arguments_of : List ℕ → List ℕ
arguments_of line = skip_spaces (after_word 31 line)
