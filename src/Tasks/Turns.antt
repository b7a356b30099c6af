-- ===== src/Tasks/Turns.antt =====
-- schedule of arch/x86/kernel/task.c as round robin.
use cobra_os.Base.{
  ℕ, ◌≡◌, ◌≢◌, refl, ap, sym, ◌∙◌, ◌==◌, true, false, List, [], ◌∷◌, ◌++◌, length, length-append,
  All, some, ◌⊎◌, arith, Bool-cases, inl, inr,
}
use cobra_os.Tasks.Schedule.{
  Task, Tasks, is_ready, task_reap_terminated, choose, switch_to, schedule,
}
use cobra_os.Tasks.Fair.{Distinct, first_ready, search-Walk, Distinct-before, back}

All-append : (xs ys : List Task) (P : Task → Type 0) → All P xs → All P ys → All P (xs ++ ys)
All-append [] ys P v w = w
All-append (x ∷ xs) ys P (p, v) w = (p, All-append xs ys P v w)

others_behind :
    (ys : List Task) (pid : ℕ)
    → All (λ (u : Task). pid ≢ u.pid) ys
    → All (λ (t : Task). t.pid ≢ pid) ys
others_behind [] pid v = tt
others_behind (y ∷ ys) pid (ne, v) = (λ e. ne (sym e), others_behind ys pid v)

Distinct-at :
    (xs : List Task) (a : Task) (ys : List Task)
    → Distinct (xs ++ (a ∷ ys))
    → All (λ (u : Task). a.pid ≢ u.pid) ys
Distinct-at [] a ys (v, d) = v
Distinct-at (x ∷ xs) a ys (v, d) = Distinct-at xs a ys d

-- The loop of schedule ends, within one round of the queue, at the first ready task behind the current one
-- or else at the current one.
pub choose-first_ready :
    (pre : List Task) (c : Task) (post : List Task)
    → Distinct (pre ++ (c ∷ post))
    → choose (pre ++ (c ∷ post)) c.pid ≡ some (first_ready (post ++ pre) c)
unfolding choose
choose-first_ready pre c post d =
    let q = pre ++ (c ∷ post) in
    search-Walk (post ++ pre) (length q) q c.pid c (back q d pre c post refl post pre c refl)
      (All-append post pre (λ (t : Task). t.pid ≢ c.pid)
        (others_behind post c.pid (Distinct-at pre c post d)) (Distinct-before pre c post d))
      (omega (arith, length-append pre (c ∷ post), length-append post pre))

first_ready-cases :
    (l : List Task) (c : Task) → (is_ready (first_ready l c).state ≡ true) ⊎ (first_ready l c ≡ c)
unfolding first_ready
first_ready-cases [] c = inr refl
first_ready-cases (t ∷ ts) c = elim (Bool-cases (is_ready t.state)) [
  | inl ready ↦ rw ready (inl ready)
  | inr waits ↦ rw waits (first_ready-cases ts c)
]

switch_to-current :
    (s : Tasks) (c t : Task)
    → s.current_task ≡ some c.pid
    → (is_ready t.state ≡ true) ⊎ (t ≡ c)
    → (switch_to s c.pid (some t)).current_task ≡ some t.pid
unfolding switch_to
switch_to-current s c t e o = elim (Bool-cases (t.pid == c.pid)) [
  | inl same ↦ rw same (e ∙ ap some (ground arith))
  | inr other ↦ elim o [
    | inl ready ↦ rw (other, ready) refl
    | inr eq ↦ absurd (differ t c eq other)
  ]
]
  where
    differ : (t c : Task) → t ≡ c → (t.pid == c.pid) ≡ false → ⊥
    differ t c eq other = ground (arith, ap (λ (t : Task). t.pid) eq)

-- With distinct pids, once the terminated tasks are gone, schedule makes the first ready task behind the
-- current one, going round the queue, the current task; with no other task ready the current one stays.
pub schedule-first_ready :
    (s : Tasks) (pre : List Task) (c : Task) (post : List Task)
    → s.current_task ≡ some c.pid
    → task_reap_terminated s.task_queue c.pid ≡ pre ++ (c ∷ post)
    → Distinct (pre ++ (c ∷ post))
    → (schedule s).current_task ≡ some (first_ready (post ++ pre) c).pid
unfolding schedule
schedule-first_ready s pre c post e f d =
    rw (e, f, choose-first_ready pre c post d)
      (switch_to-current (record s { task_queue = pre ++ (c ∷ post); current_task = some c.pid }) c
        (first_ready (post ++ pre) c) refl (first_ready-cases (post ++ pre) c))
