-- ===== src/Heap/Places.antt =====
-- Where a block lies in a buddy tree: its place found from the counts, its parent, and the places of
-- two blocks beside each other.
use cobra_os.Base.{
  ℕ, ◌+◌, ◌-◌, ◌≤◌, ◌<◌, ◌≡◌, refl, ◌⊎◌, inl, inr, arith, Array, Bool-cases, ltb, ap,
}
use cobra_os.Heap.Sizes.{size, size_min}
use cobra_os.Heap.Tree.{
  Tree, vacant, taken, halves, vacancies, holdings, Headed, Sub, here, left, right, Sub-inside,
}

-- A block that is counted has a place.
pub Sub-vacant :
    (t : Tree) (n a k b : ℕ) (w : Array)
    → Headed w t n a
    → 0 < vacancies t n a (k + 5) b
    → Sub vacant k b t n a
unfolding Headed vacancies
Sub-vacant vacant n a k b w h c = here refl (ground arith) (ground arith)
Sub-vacant taken n a k b w h c = absurd (omega arith)
Sub-vacant (halves l r) n a k b w (lt, hl, hr) c =
    elim (Bool-cases (ltb 0 (vacancies l (n - 1) a (k + 5) b))) [
      | inl e ↦ left lt (Sub-vacant l (n - 1) a k b w hl (ground arith))
      | inr e ↦ right lt (Sub-vacant r (n - 1) (a + size (n - 1)) k b w hr (ground arith))
    ]

pub Sub-taken :
    (t : Tree) (n a k b : ℕ) (w : Array)
    → Headed w t n a
    → 0 < holdings t n a (k + 5) b
    → Sub taken k b t n a
unfolding Headed holdings
Sub-taken vacant n a k b w h c = absurd (omega arith)
Sub-taken taken n a k b w h c = here refl (ground arith) (ground arith)
Sub-taken (halves l r) n a k b w (lt, hl, hr) c =
    elim (Bool-cases (ltb 0 (holdings l (n - 1) a (k + 5) b))) [
      | inl e ↦ left lt (Sub-taken l (n - 1) a k b w hl (ground arith))
      | inr e ↦ right lt (Sub-taken r (n - 1) (a + size (n - 1)) k b w hr (ground arith))
    ]

-- No block of the tree is smaller than the smallest block.
pub vacancies_none : (t : Tree) (n a o b : ℕ) → o < 5 → vacancies t n a o b ≡ 0
unfolding vacancies
vacancies_none vacant n a o b h = ground arith
vacancies_none taken n a o b h = refl
vacancies_none (halves l r) n a o b h =
    omega
      (arith, vacancies_none l (n - 1) a o b h, vacancies_none r (n - 1) (a + size (n - 1)) o b h)

-- A subtree is the whole tree, or the first or the second half of another subtree.
pub data Parent (x : Tree) (k c : ℕ) (t : Tree) (n a : ℕ) : Type 0 where
  root : t ≡ x → n ≡ k → a ≡ c → Parent x k c t n a
  first_half :
      (y : Tree) (m : ℕ) → 0 < m → m - 1 ≡ k → Sub (halves x y) m c t n a → Parent x k c t n a
  second_half :
      (y : Tree) (m d : ℕ)
      → 0 < m
      → m - 1 ≡ k
      → d + size (m - 1) ≡ c
      → Sub (halves y x) m d t n a
      → Parent x k c t n a

module _ {x : Tree} {k c : ℕ} where
  pub Parent-Sub : {t : Tree} {n a : ℕ} → Sub x k c t n a → Parent x k c t n a
  Parent-Sub (here e f g) = root e f g
  Parent-Sub (left {r} {n} lt s) = elim (Parent-Sub s) [
    | root e f g ↦ first_half r n lt f (here (ap (λ u. halves u r) e) refl g)
    | first_half y m gt f s' ↦ first_half y m gt f (left lt s')
    | second_half y m d gt f g s' ↦ second_half y m d gt f g (left lt s')
  ]
  Parent-Sub (right {l} {n} {a} lt s) = elim (Parent-Sub s) [
    | root e f g ↦ second_half l n a lt f g (here (ap (λ u. halves l u) e) refl refl)
    | first_half y m gt f s' ↦ first_half y m gt f (right lt s')
    | second_half y m d gt f g s' ↦ second_half y m d gt f g (right lt s')
  ]

-- A block that is handed out lies inside the tree.
pub holdings_inside :
    (t : Tree) (n a k b : ℕ) (w : Array)
    → Headed w t n a
    → 0 < holdings t n a (k + 5) b
    → (a ≤ b) × (b + size k ≤ a + size n)
holdings_inside t n a k b w h c = Sub-inside (Sub-taken t n a k b w h c)

pub holdings-le-one :
    (t : Tree) (n a k b : ℕ) (w : Array) → Headed w t n a → holdings t n a (k + 5) b ≤ 1
unfolding holdings Headed
holdings-le-one vacant n a k b w h = omega arith
holdings-le-one taken n a k b w h = ground arith
holdings-le-one (halves l r) n a k b w (lt, hl, hr) = ground (
  arith,
  holdings-le-one l (n - 1) a k b w hl,
  holdings-le-one r (n - 1) (a + size (n - 1)) k b w hr,
  holdings_inside l (n - 1) a k b w hl,
  holdings_inside r (n - 1) (a + size (n - 1)) k b w hr,
  size_min k,
)

abbrev pub Apart : ℕ → ℕ → ℕ → ℕ → Type 0
Apart k b m d = (b + size k ≤ d) ⊎ (d + size m ≤ b)

-- Two blocks that are handed out do not overlap, unless they are one.
pub holdings-Apart :
    (t : Tree) (n a k b m d : ℕ) (w : Array)
    → Headed w t n a
    → 0 < holdings t n a (k + 5) b
    → 0 < holdings t n a (m + 5) d
    → ((k ≡ m) × (b ≡ d)) ⊎ Apart k b m d
unfolding holdings Headed
holdings-Apart vacant n a k b m d w h p q = absurd (omega arith)
holdings-Apart taken n a k b m d w h p q = inl (ground arith, ground arith)
holdings-Apart (halves l r) n a k b m d w (lt, hl, hr) p q =
    elim (Bool-cases (ltb 0 (holdings l (n - 1) a (k + 5) b))) [
      | inl e ↦ elim (Bool-cases (ltb 0 (holdings l (n - 1) a (m + 5) d))) [
        | inl f ↦ holdings-Apart l (n - 1) a k b m d w hl (ground arith) (ground arith)
        | inr f ↦ inr (
            inl (
              omega (
                arith,
                holdings_inside l (n - 1) a k b w hl (ground arith),
                holdings_inside r (n - 1) (a + size (n - 1)) m d w hr (ground arith),
              )))
      ]
      | inr e ↦ elim (Bool-cases (ltb 0 (holdings l (n - 1) a (m + 5) d))) [
        | inl f ↦ inr (
            inr (
              omega (
                arith,
                holdings_inside l (n - 1) a m d w hl (ground arith),
                holdings_inside r (n - 1) (a + size (n - 1)) k b w hr (ground arith),
              )))
        | inr f ↦
            holdings-Apart r (n - 1) (a + size (n - 1)) k b m d w hr (ground arith) (ground arith)
      ]
    ]
