-- ===== src/Heap/Blocks.antt =====
-- The blocks that the clients of arch/x86/kernel/heap.c hold, as a list.
use cobra_os.Base.{
  ℕ, zero, suc, ◌+◌, ◌≤◌, ◌<◌, ◌≡◌, refl, arith, none, some, ap, List, [], ◌∷◌, map, All, get_elem?,
  subst,
}
use cobra_os.Heap.{header_size}
use cobra_os.Heap.Sizes.{size}
use cobra_os.Heap.Tree.{at}
use cobra_os.Heap.Places.{Apart}
use cobra_os.Heap.Contract.{need}
use cobra_os.Heap.Clients.{remove_at, Pairwise}

module _ {ℓ} {A : Type ℓ} where
  pub All-remove_at : (P : A → Type 0) (xs : List A) (i : ℕ) → All P xs → All P (remove_at i xs)
  All-remove_at P [] i h = h
  All-remove_at P (x ∷ xs) zero h = h.1
  All-remove_at P (x ∷ xs) (suc i) h = (h.0, All-remove_at P xs i h.1)

  pub Pairwise-remove_at :
      (R : A → A → Type 0) (xs : List A) (i : ℕ) → Pairwise R xs → Pairwise R (remove_at i xs)
  Pairwise-remove_at R [] i h = h
  Pairwise-remove_at R (x ∷ xs) zero h = h.1
  Pairwise-remove_at R (x ∷ xs) (suc i) h =
      (All-remove_at (R x) xs i h.0, Pairwise-remove_at R xs i h.1)

  pub All-get_elem? :
      (P : A → Type 0) (xs : List A) (i : ℕ) (x : A) → All P xs → get_elem? xs i ≡ some x → P x
  All-get_elem? P [] i x h e = absurd (cc)
  All-get_elem? P (y ∷ ys) zero x h e = subst P (cc) h.0
  All-get_elem? P (y ∷ ys) (suc i) x h e = All-get_elem? P ys i x h.1 e

-- the level and address of a block with the size asked for
abbrev pub Block : Type 0
Block = ℕ × ℕ × ℕ

abbrev pub view : Block → ℕ × ℕ
view (k, b, n) = (b + header_size, n)

abbrev pub Fits : Block → Type 0
Fits (k, b, n) = need n ≤ size k

abbrev pub Separate : Block → Block → Type 0
Separate (k, b, n) (j, x, m) = Apart k b j x

-- how often the blocks have this order and address
unfoldable pub tally : List Block → ℕ → ℕ → ℕ
tally [] o x = 0
tally ((k, b, n) ∷ blocks) o x = at k b o x + tally blocks o x

pub map-remove_at :
    (blocks : List Block) (i : ℕ) → remove_at i (map view blocks) ≡ map view (remove_at i blocks)
map-remove_at [] i = refl
map-remove_at (x ∷ xs) zero = refl
map-remove_at (x ∷ xs) (suc i) = ap (λ l. view x ∷ l) (map-remove_at xs i)

pub map-get_elem? :
    (blocks : List Block) (i : ℕ) (x : Block)
    → get_elem? blocks i ≡ some x
    → get_elem? (map view blocks) i ≡ some (view x)
map-get_elem? [] i x e = absurd (cc)
map-get_elem? (y ∷ ys) zero x e = ap (λ z. some (view z)) {x = y} {y = x} (cc)
map-get_elem? (y ∷ ys) (suc i) x e = map-get_elem? ys i x e

pub map-get_elem?-none :
    (blocks : List Block) (i : ℕ) → get_elem? blocks i ≡ none → get_elem? (map view blocks) i ≡ none
map-get_elem?-none [] i e = refl
map-get_elem?-none (y ∷ ys) zero e = absurd (cc)
map-get_elem?-none (y ∷ ys) (suc i) e = map-get_elem?-none ys i e

pub tally-remove_at :
    (blocks : List Block) (i k b n o x : ℕ)
    → get_elem? blocks i ≡ some (k, b, n)
    → tally (remove_at i blocks) o x + at k b o x ≡ tally blocks o x
unfolding tally
tally-remove_at [] i k b n o x e = absurd (cc)
tally-remove_at ((j, c, m) ∷ ys) zero k b n o x e = ground arith
tally-remove_at ((j, c, m) ∷ ys) (suc i) k b n o x e =
    omega (arith, tally-remove_at ys i k b n o x e)

pub All-Separate :
    (blocks : List Block) (k b n : ℕ)
    → ((j x : ℕ) → 0 < tally blocks (j + 5) x → Apart k b j x)
    → All (Separate (k, b, n)) blocks
unfolding tally
All-Separate [] k b n h = tt
All-Separate ((j, x, m) ∷ ys) k b n h =
    (h j x (ground arith), All-Separate ys k b n (λ i y p. h i y (omega arith)))
