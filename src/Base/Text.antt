-- ===== src/Base/Text.antt =====
-- Text literals as the bytes of a C string, without the closing NUL.
use Prim.Native.Nat.{ℕ}
use Prim.Native.Char.{code}
use Prim.Native.String.{String}
use mathlib.Core.List.{List, [], ◌∷◌}

-- the code points of a text: its bytes, if it is ASCII
abbrev pub codes : String → List ℕ
codes String.[] = []
codes (String.◌∷◌ c s) = code c ∷ codes s
