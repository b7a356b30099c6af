-- ===== src/Commands/Parts.antt =====
-- A line of arch/x86/kernel/shell.c that is put together from a command and its arguments.
use cobra_os.Base.{
  ℕ, zero, suc, ◌≤◌, ◌≡◌, ◌≢◌, refl, ◌∙◌, arith, List, [], ◌∷◌, ◌++◌, length, All, ==_ne,
}
use cobra_os.Commands.{command_word, after_word, skip_spaces, command_of, arguments_of}

-- `count` spaces before the rest of a line
abbrev pub spaces : ℕ → List ℕ → List ℕ
spaces zero rest = rest
spaces (suc count) rest = b' ' ∷ spaces count rest

-- a text that does not begin with a space
abbrev pub Unspaced : List ℕ → Type 0
Unspaced [] = Unit
Unspaced (c ∷ cs) = c ≢ b' '

command_word-append :
    (room : ℕ) (name rest : List ℕ)
    → length name ≤ room
    → All (λ c. c ≢ b' ') name
    → (command_word room (name ++ (b' ' ∷ rest)) ≡ name)
      × (skip_spaces (after_word room (name ++ (b' ' ∷ rest))) ≡ skip_spaces rest)
unfolding command_word after_word skip_spaces
command_word-append zero [] rest h v = (refl, refl)
command_word-append zero (c ∷ cs) rest h v = absurd (omega arith)
command_word-append (suc room) [] rest h v = (refl, refl)
command_word-append (suc room) (c ∷ cs) rest h (ne, v) =
    let (a, b) = command_word-append room cs rest (omega arith) v in
    rw (==_ne c b' ' ne, a, b) (refl, refl)

skip_spaces-spaces :
    (count : ℕ) (args : List ℕ) → Unspaced args → skip_spaces (spaces count args) ≡ args
unfolding skip_spaces
skip_spaces-spaces zero [] v = refl
skip_spaces-spaces zero (c ∷ cs) v = rw (==_ne c b' ' v) refl
skip_spaces-spaces (suc count) args v = skip_spaces-spaces count args v

-- A command of at most 31 characters without spaces, one or more spaces, and arguments that do not begin
-- with a space: shell_process_line takes the line apart into that command and those arguments.
pub command_of-append :
    (name args : List ℕ) (count : ℕ)
    → length name ≤ 31
    → All (λ c. c ≢ b' ') name
    → Unspaced args
    → (command_of (name ++ spaces (suc count) args) ≡ name)
      × (arguments_of (name ++ spaces (suc count) args) ≡ args)
command_of-append name args count short v u =
    let (a, b) = command_word-append 31 name (spaces count args) short v in
    (a, b ∙ skip_spaces-spaces count args u)
