-- ===== src/Heap/Clients.antt =====
-- Whole sessions of clients of arch/x86/kernel/heap.c: requests for blocks, writes into blocks that are
-- held, and their return, in any order.
use cobra_os.Base.{
  ℕ, zero, suc, ◌+◌, ◌≤◌, ◌==◌, ltb, if◌then◌else◌, ◌⊎◌, Option, none, some, List, [], ◌∷◌, All,
  get_elem?, update,
}
use cobra_os.Heap.{HeapState, ◌>>=◌}
use cobra_os.Heap.Alloc.{kmalloc, kfree}

pub data Request : Type 0 where
  alloc : ℕ → Request
  write : ℕ → ℕ → ℕ → Request
  release : ℕ → Request

-- the heap, and the pointers that are held with the sizes asked for
pub record Client : Type 0 where
  pub heap : HeapState
  pub live : List (ℕ × ℕ)

abbrev pub remove_at {ℓ} : {A : Type ℓ} → ℕ → List A → List A
remove_at i [] = []
remove_at zero (x ∷ xs) = xs
remove_at (suc i) (x ∷ xs) = x ∷ remove_at i xs

unfoldable pub keep_block : List (ℕ × ℕ) → ℕ → HeapState × ℕ → Client
keep_block live n (h, p) =
    if p == 0 then record { heap = h; live = live } else record { heap = h; live = (p, n) ∷ live }

-- a client writes inside the bytes it asked for
unfoldable pub write_in : Client → Option (ℕ × ℕ) → ℕ → ℕ → Client
write_in c none offset v = c
write_in c (some (p, n)) offset v =
    if ltb offset n
    then record c { heap = record c.heap { word = update c.heap.word (p + offset) v } }
    else c

unfoldable pub give_back : Client → Option (ℕ × ℕ) → ℕ → Option Client
give_back c none i = some c
give_back c (some (p, n)) i =
    kfree c.heap p >>= λ h. some (record { heap = h; live = remove_at i c.live })

unfoldable pub serve : Client → Request → Option Client
serve c (alloc n) = kmalloc c.heap n >>= λ answer. some (keep_block c.live n answer)
serve c (write i offset v) = some (write_in c (get_elem? c.live i) offset v)
serve c (release i) = give_back c (get_elem? c.live i) i

unfoldable pub serve_all : Client → List Request → Option Client
serve_all c [] = some c
serve_all c (r ∷ rs) = serve c r >>= λ c'. serve_all c' rs

-- The bytes of two blocks that clients hold do not meet.
abbrev pub Disjoint : ℕ × ℕ → ℕ × ℕ → Type 0
Disjoint (p, n) (q, m) = (p + n ≤ q) ⊎ (q + m ≤ p)

abbrev pub Pairwise {ℓ} : {A : Type ℓ} → (A → A → Type 0) → List A → Type 0
Pairwise R [] = Unit
Pairwise R (x ∷ xs) = All (R x) xs × Pairwise R xs
