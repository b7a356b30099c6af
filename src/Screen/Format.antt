-- ===== src/Screen/Format.antt =====
-- The formats of viprint in arch/x86/drivers/screen/screen.c. A format is the list of its characters, and
-- so is what is printed.
use cobra_os.Base.{
  ℕ, suc, ◌==◌, ◌||◌, ◌≡◌, ◌≢◌, refl, ap, arith, if◌then◌else◌, Bool, false, All, List, [], ◌∷◌,
  ◌++◌,
}

-- the characters behind a '%' for which an argument is printed: c, s, d, i, u, x, X, o and p
unfoldable pub takes_argument : ℕ → Bool
takes_argument d =
    ((d == b'c' || d == b's') || (d == b'd' || d == b'i'))
    || ((d == b'u' || d == b'x') || (d == b'X' || d == b'o'))
    || d == b'p'

-- what '%' and `d` print, `shown` being the next argument's text
unfoldable pub directive : ℕ → List ℕ → List ℕ
directive d shown =
    if d == b'%' then b'%' ∷ [] else if takes_argument d then shown else b'%' ∷ d ∷ []

-- viprint after `k` arguments were taken; `argument k d` is the text that its conversion makes of the next
-- one for '%' and `d`
unfoldable pub viprint : (ℕ → ℕ → List ℕ) → ℕ → List ℕ → List ℕ
viprint argument k [] = []
viprint argument k (c ∷ []) = if c == b'%' then [] else c ∷ []
viprint argument k (c ∷ d ∷ cs) =
    let behind = viprint argument (if takes_argument d then suc k else k) cs in
    let rest = viprint argument k (d ∷ cs) in
    if c == b'%' then directive d (argument k d) ++ behind else c ∷ rest

-- A format without a '%' is printed as it stands.
pub viprint-plain :
    (argument : ℕ → ℕ → List ℕ) (k : ℕ) (s : List ℕ)
    → All (λ c. c ≢ b'%') s
    → viprint argument k s ≡ s
unfolding viprint
viprint-plain argument k [] h = refl
viprint-plain argument k (c ∷ []) (h, _) =
    let other : (c == b'%') ≡ false = ground arith in rw other refl
viprint-plain argument k (c ∷ d ∷ cs) (h, hs) =
    let other : (c == b'%') ≡ false = ground arith in
    rw other (ap (λ l. c ∷ l) (viprint-plain argument k (d ∷ cs) hs))
