-- ===== src/Heap/Tree.antt =====
-- Buddy trees: how a block of arch/x86/kernel/heap.c is cut into halves, and what the headers and the
-- free lists are for a given tree. A level counts from the smallest block, of order 5.
use cobra_os.Base.{ℕ, ◌+◌, ◌-◌, ◌≤◌, ◌<◌, ◌==◌, if◌then◌else◌, ◌≡◌, ◌≢◌, refl, arith, Array}
use cobra_os.Heap.Sizes.{size, size_pred, size_min, Aligned, Aligned-left, Aligned-right}

pub data Tree : Type 0 where
  vacant : Tree
  taken : Tree
  halves : Tree → Tree → Tree

-- 1 at this order and address, else 0
abbrev pub at : ℕ → ℕ → ℕ → ℕ → ℕ
at n a o b = if n + 5 == o then (if a == b then 1 else 0) else 0

-- how many vacant blocks of order `o` start at `b`, in a tree of level `n` at the address `a`
unfoldable pub vacancies : Tree → ℕ → ℕ → ℕ → ℕ → ℕ
vacancies vacant n a o b = at n a o b
vacancies taken n a o b = 0
vacancies (halves l r) n a o b =
    vacancies l (n - 1) a o b + vacancies r (n - 1) (a + size (n - 1)) o b

-- how many blocks of order `o` at `b` are handed out
unfoldable pub holdings : Tree → ℕ → ℕ → ℕ → ℕ → ℕ
holdings vacant n a o b = 0
holdings taken n a o b = at n a o b
holdings (halves l r) n a o b = holdings l (n - 1) a o b + holdings r (n - 1) (a + size (n - 1)) o b

-- Each block of the tree has the header that says so.
unfoldable pub Headed : Array → Tree → ℕ → ℕ → Type 0
Headed w vacant n a = (w (a + 4) ≡ n + 5) × (w (a + 8) ≡ 1)
Headed w taken n a = (w (a + 4) ≡ n + 5) × (w (a + 8) ≡ 0) × (w (a + 12) ≡ a)
Headed w (halves l r) n a = (0 < n) × Headed w l (n - 1) a × Headed w r (n - 1) (a + size (n - 1))

pub Headed-vacant :
    (w : Array) (n a : ℕ) → Headed w vacant n a → (w (a + 4) ≡ n + 5) × (w (a + 8) ≡ 1)
unfolding Headed
Headed-vacant w n a h = h

-- No order is larger than that of the whole tree.
order-le : (w : Array) (t : Tree) (n a : ℕ) → Headed w t n a → w (a + 4) ≤ n + 5
unfolding Headed
order-le w vacant n a h = omega arith
order-le w taken n a h = omega arith
order-le w (halves l r) n a h = omega (arith, order-le w l (n - 1) a h.1)

-- A free header of the full order stands before a vacant block only.
pub vacant_of_header :
    (w : Array) (t : Tree) (n a : ℕ)
    → Headed w t n a
    → w (a + 4) ≡ n + 5
    → w (a + 8) ≢ 0
    → t ≡ vacant
unfolding Headed
vacant_of_header w vacant n a h e f = refl
vacant_of_header w taken n a h e f = absurd (f h.1)
vacant_of_header w (halves l r) n a h e f = absurd (omega (arith, order-le w l (n - 1) a h.1))

pub Headed-halves :
    (w : Array) (l r : Tree) (n a : ℕ)
    → Headed w (halves l r) n a
    → (0 < n) × Headed w l (n - 1) a × Headed w r (n - 1) (a + size (n - 1))
unfolding Headed
Headed-halves w l r n a h = h

pub Headed-taken :
    (w : Array) (n a : ℕ)
    → Headed w taken n a
    → (w (a + 4) ≡ n + 5) × (w (a + 8) ≡ 0) × (w (a + 12) ≡ a)
unfolding Headed
Headed-taken w n a h = h

-- the tree `x` of level `k` at the address `c`, somewhere in a tree
pub data Sub (x : Tree) (k c : ℕ) : Tree → ℕ → ℕ → Type 0 where
  here : {t : Tree} {n a : ℕ} → t ≡ x → n ≡ k → a ≡ c → Sub x k c t n a
  left : {l r : Tree} {n a : ℕ} → 0 < n → Sub x k c l (n - 1) a → Sub x k c (halves l r) n a
  right :
      {l r : Tree} {n a : ℕ}
      → 0 < n
      → Sub x k c r (n - 1) (a + size (n - 1))
      → Sub x k c (halves l r) n a

-- Headers outside a tree do not matter to it.
pub Headed-frame :
    (t : Tree) (n a : ℕ) (w v : Array)
    → ((j : ℕ) → a ≤ j → j < a + size n → v j ≡ w j)
    → Headed w t n a
    → Headed v t n a
unfolding Headed
Headed-frame vacant n a w v h (e, f) = ground (arith, size_min n, h (a + 4), h (a + 8))
Headed-frame taken n a w v h (e, f, g) =
    ground (arith, size_min n, h (a + 4), h (a + 8), h (a + 12))
Headed-frame (halves l r) n a w v h (lt, e, f) = (
  lt,
  Headed-frame l (n - 1) a w v (λ j p q. h j p (omega (arith, size_pred n lt))) e,
  Headed-frame r (n - 1) (a + size (n - 1)) w v
      (λ j p q. h j (omega arith) (omega (arith, size_pred n lt))) f,
)

module _ {x : Tree} {k c : ℕ} where
  -- the tree with `y` in the place of `x`
  unfoldable pub plug : {t : Tree} {n a : ℕ} → Sub x k c t n a → Tree → Tree
  plug (here e f g) y = y
  plug (left {r} lt s) y = halves (plug s y) r
  plug (right {l} lt s) y = halves l (plug s y)

  pub Sub-plug : {t : Tree} {n a : ℕ} (y : Tree) (s : Sub x k c t n a) → Sub y k c (plug s y) n a
  unfolding plug
  Sub-plug y (here e f g) = here refl f g
  Sub-plug y (left lt s) = left lt (Sub-plug y s)
  Sub-plug y (right lt s) = right lt (Sub-plug y s)

  pub Sub-inside : {t : Tree} {n a : ℕ} → Sub x k c t n a → (a ≤ c) × (c + size k ≤ a + size n)
  Sub-inside (here e f g) = (omega arith, rw (f, g) (omega arith))
  Sub-inside (left {n} lt s) = omega (arith, size_pred n lt, Sub-inside s)
  Sub-inside (right {n} lt s) = omega (arith, size_pred n lt, Sub-inside s)

  pub Sub-level : {t : Tree} {n a : ℕ} → Sub x k c t n a → k ≤ n
  Sub-level (here e f g) = omega arith
  Sub-level (left {n} lt s) = omega (arith, Sub-level s)
  Sub-level (right {n} lt s) = omega (arith, Sub-level s)

  pub Headed-Sub :
      {t : Tree} {n a : ℕ} (w : Array) (s : Sub x k c t n a) → Headed w t n a → Headed w x k c
  unfolding Headed
  Headed-Sub w (here e f g) h = rw (← e, ← f, ← g) h
  Headed-Sub w (left lt s) h = Headed-Sub w s h.1
  Headed-Sub w (right lt s) h = Headed-Sub w s h.2

  -- Another subtree whose headers are right, with the memory around it as it was.
  pub Headed-plug :
      {t : Tree} {n a : ℕ} (y : Tree) (w v : Array) (s : Sub x k c t n a)
      → ((j : ℕ) → j < c → v j ≡ w j)
      → ((j : ℕ) → c + size k ≤ j → v j ≡ w j)
      → Headed v y k c
      → Headed w t n a
      → Headed v (plug s y) n a
  unfolding Headed plug
  Headed-plug y w v (here e f g) lo hi g' h = rw (f, g) g'
  Headed-plug y w v (left {r} {n} {a} lt s) lo hi g h = (
    lt,
    Headed-plug y w v s lo hi g h.1,
    Headed-frame r (n - 1) (a + size (n - 1)) w v (λ j p q. hi j (omega (arith, Sub-inside s))) h.2,
  )
  Headed-plug y w v (right {l} {n} {a} lt s) lo hi g h = (
    lt,
    Headed-frame l (n - 1) a w v (λ j p q. lo j (omega (arith, Sub-inside s))) h.1,
    Headed-plug y w v s lo hi g h.2,
  )

  pub vacancies-plug :
      {t : Tree} {n a : ℕ} (y : Tree) (s : Sub x k c t n a) (o b : ℕ)
      → vacancies (plug s y) n a o b + vacancies x k c o b
        ≡ vacancies t n a o b + vacancies y k c o b
  unfolding vacancies plug
  vacancies-plug y (here {t} {n} {a} e f g) o b = rw (e, f, g) (omega arith)
  vacancies-plug y (left lt s) o b = omega (arith, vacancies-plug y s o b)
  vacancies-plug y (right lt s) o b = omega (arith, vacancies-plug y s o b)

  pub holdings-plug :
      {t : Tree} {n a : ℕ} (y : Tree) (s : Sub x k c t n a) (o b : ℕ)
      → holdings (plug s y) n a o b + holdings x k c o b ≡ holdings t n a o b + holdings y k c o b
  unfolding holdings plug
  holdings-plug y (here {t} {n} {a} e f g) o b = rw (e, f, g) (omega arith)
  holdings-plug y (left lt s) o b = omega (arith, holdings-plug y s o b)
  holdings-plug y (right lt s) o b = omega (arith, holdings-plug y s o b)

  pub Sub-Aligned : {t : Tree} {n a : ℕ} → Sub x k c t n a → Aligned n a → Aligned k c
  Sub-Aligned (here e f g) al = rw (← f, ← g) al
  Sub-Aligned (left {n} {a} lt s) al = Sub-Aligned s (Aligned-left n a lt al)
  Sub-Aligned (right {n} {a} lt s) al = Sub-Aligned s (Aligned-right n a lt al)
