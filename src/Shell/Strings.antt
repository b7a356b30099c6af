-- ===== src/Shell/Strings.antt =====
-- strlen and strcpy of lib/string.c on the 256-byte buffers of arch/x86/kernel/shell.c: a copied line
-- ends within its buffer.
use cobra_os.Base.{
  ℕ, zero, suc, ◌+◌, ◌<◌, ◌≤◌, ◌≡◌, Array, update, ◌==◌, arith, Bool-cases, inl, inr,
}
use cobra_os.Shell.Line.{max_cmd_len}
use cobra_os.Shell.Feed.{strlen_from, strlen, strcpy_from, strcpy}

-- a NUL stands within the 256 bytes of a buffer
abbrev pub Terminated : Array → Type 0
Terminated f = (n : ℕ) × (n < max_cmd_len) × (f n ≡ 0)

strlen_from-le : (k : ℕ) (f : Array) (i z : ℕ) → i ≤ z → z < i + k → f z ≡ 0 → strlen_from k f i ≤ z
unfolding strlen_from
strlen_from-le zero f i z lo hi e = absurd (omega arith)
strlen_from-le (suc k) f i z lo hi e = elim (Bool-cases (i == z)) [
  | inl h ↦ ground arith
  | inr h ↦ ground (arith, strlen_from-le k f (suc i) z (ground arith) (omega arith) e)
]

pub strlen-lt : (f : Array) → Terminated f → strlen f < max_cmd_len
unfolding strlen
strlen-lt f (z, lt, e) =
    omega (arith, strlen_from-le max_cmd_len f 0 z (omega arith) (omega arith) e)

strcpy_from-Terminated :
    (k : ℕ) (d f : Array) (i z : ℕ)
    → i ≤ z
    → z < i + k
    → z < max_cmd_len
    → f z ≡ 0
    → Terminated (strcpy_from k d f i)
unfolding strcpy_from
strcpy_from-Terminated zero d f i z lo hi lt e = absurd (omega arith)
strcpy_from-Terminated (suc k) d f i z lo hi lt e = elim (Bool-cases (f i == 0)) [
  | inl h ↦ rw h (i, omega arith, ground arith)
  | inr h ↦
      rw h
        (strcpy_from-Terminated k (update d i (f i)) f (suc i) z (ground arith) (omega arith) lt e)
]

pub strcpy-Terminated : (d f : Array) → Terminated f → Terminated (strcpy d f)
unfolding strcpy
strcpy-Terminated d f (z, lt, e) =
    strcpy_from-Terminated max_cmd_len d f 0 z (omega arith) (omega arith) lt e
