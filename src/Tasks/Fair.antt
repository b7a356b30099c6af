-- ===== src/Tasks/Fair.antt =====
-- schedule of arch/x86/kernel/task.c takes turns: it chooses the first ready task behind the current one.
use cobra_os.Base.{
  ℕ, zero, suc, ◌<◌, ◌≡◌, ◌≢◌, refl, ap, sym, ◌∙◌, subst, ==_refl, ==_ne, if◌then◌else◌, List, [],
  ◌∷◌, ◌++◌, append_assoc, length, All, some, arith, Bool-cases, inl, inr,
}
use cobra_os.Tasks.Schedule.{Task, is_ready, after, first_or, advance, search}

-- no two tasks have the same pid
abbrev pub Distinct : List Task → Type 0
Distinct [] = Unit
Distinct (t ∷ ts) = All (λ (u : Task). t.pid ≢ u.pid) ts × Distinct ts

-- the first ready task, or else the current one
unfoldable pub first_ready : List Task → Task → Task
first_ready [] c = c
first_ready (t ∷ ts) c = let rest = first_ready ts c in if is_ready t.state then t else rest

-- the tasks that the loop of schedule meets, from the one behind `pid` on and up to `c`
pub Walk : List Task → ℕ → List Task → Task → Type 0
Walk q pid [] c = advance q pid ≡ some c
Walk q pid (t ∷ ts) c = (advance q pid ≡ some t) × Walk q t.pid ts c

pub search-Walk :
    (l : List Task) (n : ℕ) (q : List Task) (pid : ℕ) (c : Task)
    → Walk q pid l c
    → All (λ (t : Task). t.pid ≢ c.pid) l
    → length l < n
    → search n q c.pid (advance q pid) ≡ some (first_ready l c)
unfolding search first_ready Walk
search-Walk l zero q pid c w v lt = absurd (omega arith)
search-Walk [] (suc n) q pid c w v lt = rw (w, ==_refl c.pid) refl
search-Walk (t ∷ ts) (suc n) q pid c (w, ws) (ne, v) lt =
    let ih = search-Walk ts n q t.pid c ws v (omega arith) in
    elim (Bool-cases (is_ready t.state)) [
      | inl ready ↦ rw (w, ==_ne t.pid c.pid ne, ready) refl
      | inr waits ↦ rw (w, ==_ne t.pid c.pid ne, waits) ih
    ]

after-append :
    (xs : List Task) (a : Task) (ys : List Task)
    → All (λ (t : Task). t.pid ≢ a.pid) xs
    → after (xs ++ (a ∷ ys)) a.pid ≡ ys
unfolding after
after-append [] a ys v = rw (==_refl a.pid) refl
after-append (x ∷ xs) a ys (ne, v) = rw (==_ne x.pid a.pid ne) (after-append xs a ys v)

All-last :
    (xs : List Task) (a : Task) (ys : List Task) (P : Task → Type 0) → All P (xs ++ (a ∷ ys)) → P a
All-last [] a ys P (p, v) = p
All-last (x ∷ xs) a ys P (p, v) = All-last xs a ys P v

pub Distinct-before :
    (xs : List Task) (a : Task) (ys : List Task)
    → Distinct (xs ++ (a ∷ ys))
    → All (λ (t : Task). t.pid ≢ a.pid) xs
Distinct-before [] a ys d = tt
Distinct-before (x ∷ xs) a ys (v, d) =
    (All-last xs a ys (λ (u : Task). x.pid ≢ u.pid) v, Distinct-before xs a ys d)

start_walk :
    (pre q : List Task) (c : Task) (post : List Task) (pid : ℕ)
    → q ≡ pre ++ (c ∷ post)
    → after q pid ≡ []
    → ((b : Task) (ps : List Task) → q ≡ b ∷ (ps ++ (c ∷ post)) → Walk q b.pid ps c)
    → Walk q pid pre c
unfolding Walk advance
start_walk [] q c post pid e g k = ap (λ l. first_or l q) g ∙ ap (first_or []) e
start_walk (b ∷ ps) q c post pid e g k = (ap (λ l. first_or l q) g ∙ ap (first_or []) e, k b ps e)

module _ (q : List Task) (d : Distinct q) (pre : List Task) (c : Task) (post : List Task)
    (e : q ≡ pre ++ (c ∷ post)) where
  after_at : (xs : List Task) (a : Task) (ys : List Task) → q ≡ xs ++ (a ∷ ys) → after q a.pid ≡ ys
  after_at xs a ys f =
      ap (λ q. after q a.pid) f
      ∙ after-append xs a ys (Distinct-before xs a ys (subst Distinct f d))

  next_at :
      (xs : List Task) (a b : Task) (ys : List Task)
      → q ≡ xs ++ (a ∷ b ∷ ys)
      → advance q a.pid ≡ some b
  unfolding advance
  next_at xs a b ys f = ap (λ l. first_or l q) (after_at xs a (b ∷ ys) f)

  shift :
      (xs : List Task) (a b : Task) (ys : List Task)
      → q ≡ xs ++ (a ∷ b ∷ ys)
      → q ≡ (xs ++ (a ∷ [])) ++ (b ∷ ys)
  shift xs a b ys f = f ∙ sym (append_assoc xs (a ∷ []) (b ∷ ys))

  -- on from a task before the current one
  front : (ps xs : List Task) (p : Task) → q ≡ xs ++ (p ∷ (ps ++ (c ∷ post))) → Walk q p.pid ps c
  unfolding Walk
  front [] xs p f = next_at xs p c post f
  front (b ∷ ps) xs p f = (
    next_at xs p b (ps ++ (c ∷ post)) f,
    front ps (xs ++ (p ∷ [])) b (shift xs p b (ps ++ (c ∷ post)) f),
  )

  -- round the end of the queue
  wrap : (zs : List Task) (z : Task) → q ≡ zs ++ (z ∷ []) → Walk q z.pid pre c
  wrap zs z f = start_walk pre q c post z.pid e (after_at zs z [] f) (λ b ps g. front ps [] b g)

  -- on from the current task, or one behind it
  pub back : (ys xs : List Task) (a : Task) → q ≡ xs ++ (a ∷ ys) → Walk q a.pid (ys ++ pre) c
  unfolding Walk
  back [] xs a f = wrap xs a f
  back (b ∷ ys) xs a f = (next_at xs a b ys f, back ys (xs ++ (a ∷ [])) b (shift xs a b ys f))
