-- ===== src/Timers/Ticks.antt =====
-- The loop of timer_tick in arch/x86/cpu/timer.c.
use cobra_os.Base.{
  ℕ, zero, suc, ◌+◌, ◌-◌, ◌%◌, ◌^◌, ◌≤◌, ◌<◌, ◌==◌, leb, if◌then◌else◌, true, false, List, [], ◌∷◌,
  ◌≡◌, refl, arith, All, length, Bool-cases, inl, inr,
}
use cobra_os.Timers.{Timer, queue_insert, is_due, requeue, timer_tick}

-- how many timers of a queue are due
unfoldable pub due_count : ℕ → List Timer → ℕ
due_count now [] = 0
due_count now (t ∷ ts) = (if is_due now t then 1 else 0) + due_count now ts

abbrev pub HasPeriod : Timer → Type 0
HasPeriod t = t.period < 2 ^ 31

due_count-due :
    (now : ℕ) (t : Timer) (us : List Timer)
    → is_due now t ≡ true
    → due_count now (t ∷ us) ≡ suc (due_count now us)
unfolding due_count
due_count-due now t us e = rw e (omega arith)

due_count-queue_insert :
    (now : ℕ) (t : Timer) (ts : List Timer)
    → due_count now (queue_insert t ts) ≡ (if is_due now t then 1 else 0) + due_count now ts
unfolding due_count queue_insert
due_count-queue_insert now t [] = refl
due_count-queue_insert now t (u ∷ us) = elim (Bool-cases (leb u.expires t.expires)) [
  | inl e ↦ rw e (omega (arith, due_count-queue_insert now t us))
  | inr e ↦ rw e (refl)
]

All-queue_insert :
    (t : Timer) (ts : List Timer)
    → HasPeriod t
    → All HasPeriod ts
    → All HasPeriod (queue_insert t ts)
unfolding queue_insert
All-queue_insert t [] h hs = (h, tt)
All-queue_insert t (u ∷ us) h hs = elim (Bool-cases (leb u.expires t.expires)) [
  | inl e ↦ rw e (hs.0, All-queue_insert t us h hs.1)
  | inr e ↦ rw e (h, hs)
]

-- A timer that goes back into the queue is no longer due.
not_due_again :
    (now p : ℕ)
    → now < 2 ^ 32
    → 0 < p
    → p < 2 ^ 31
    → (((now + p) % 2 ^ 32 + 2 ^ 32 - now) % 2 ^ 32) ≡ p
not_due_again now p lt pos small = omega arith

due_count-requeue :
    (now : ℕ) (t : Timer) (us : List Timer)
    → now < 2 ^ 32
    → HasPeriod t
    → due_count now (requeue now t us) ≡ due_count now us
unfolding requeue
due_count-requeue now t us lt h = elim (Bool-cases (t.period == 0)) [
  | inl e ↦ rw e refl
  | inr e ↦ rw e (
      ground (
        arith,
        due_count-queue_insert now (record t { expires = (now + t.period) % 2 ^ 32 }) us,
        not_due_again now t.period lt (ground arith) h,
      ))
]

All-requeue :
    (now : ℕ) (t : Timer) (us : List Timer)
    → HasPeriod t
    → All HasPeriod us
    → All HasPeriod (requeue now t us)
unfolding requeue
All-requeue now t us h hs = elim (Bool-cases (t.period == 0)) [
  | inl e ↦ rw e hs
  | inr e ↦ rw e (All-queue_insert (record t { expires = (now + t.period) % 2 ^ 32 }) us h hs)
]

-- the loop ended by itself: the queue is empty, or its head is not due
abbrev pub AtRest : ℕ → List Timer → Type 0
AtRest now [] = Unit
AtRest now (t ∷ ts) = is_due now t ≡ false

-- While every period is below 2^31 ticks, timer_tick ends by itself after at most as many rounds as there
-- are due timers: no timer that is due is left at the head of the queue, and no more callbacks are
-- called than timers were due.
pub timer_tick-AtRest :
    (rounds now : ℕ) (queue : List Timer)
    → now < 2 ^ 32
    → All HasPeriod queue
    → due_count now queue ≤ rounds
    → AtRest now (timer_tick rounds now queue).queue
      × (length (timer_tick rounds now queue).fired ≤ due_count now queue)
unfolding timer_tick
timer_tick-AtRest zero now [] lt v h = (tt, omega arith)
timer_tick-AtRest zero now (t ∷ us) lt v h = elim (Bool-cases (is_due now t)) [
  | inl e ↦ absurd (omega (arith, due_count-due now t us e))
  | inr e ↦ (e, omega arith)
]
timer_tick-AtRest (suc rounds) now [] lt v h = (tt, omega arith)
timer_tick-AtRest (suc rounds) now (t ∷ us) lt v h = elim (Bool-cases (is_due now t)) [
  | inl e ↦
      let same = due_count-requeue now t us lt v.0 in
      let one = due_count-due now t us e in
      let (rest, few) =
        timer_tick-AtRest rounds now (requeue now t us) lt (All-requeue now t us v.0 v.1)
          (omega (arith, same, one)) in
      rw e (rest, omega (arith, few, same, one))
  | inr e ↦ rw e (e, omega arith)
]
