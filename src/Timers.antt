-- ===== src/Timers.antt =====
-- The timer queue of arch/x86/cpu/timer.c. A timer is known by its number, the count of ticks is a 32-bit
-- word, and the lock, which only the code here takes, is left out. The callbacks are recorded in the
-- order in which they are called, and do not touch the queue.
pub mod Ticks
mod Examples
use cobra_os.Base.{
  ℕ, zero, suc, ◌+◌, ◌-◌, ◌%◌, ◌^◌, ◌==◌, ◌||◌, leb, if◌then◌else◌, Bool, true, false, List, [],
  ◌∷◌,
}

-- the fields of struct timer that the queue reads
pub record Timer : Type 0 where
  pub number : ℕ
  pub expires : ℕ
  pub period : ℕ

unfoldable pub queue_insert : Timer → List Timer → List Timer
queue_insert t [] = t ∷ []
queue_insert t (u ∷ us) =
    let rest = queue_insert t us in if leb u.expires t.expires then u ∷ rest else t ∷ u ∷ us

unfoldable pub queue_remove : ℕ → List Timer → List Timer
queue_remove number [] = []
queue_remove number (u ∷ us) =
    let rest = queue_remove number us in if u.number == number then us else u ∷ rest

-- `(int32_t)(expires - now) <= 0`
abbrev pub is_due : ℕ → Timer → Bool
is_due now t = let left = (t.expires + 2 ^ 32 - now) % 2 ^ 32 in (left == 0) || leb (2 ^ 31) left

-- the numbers of the timers whose callbacks were called, and the queue that is left
pub record Ticked : Type 0 where
  pub fired : List ℕ
  pub queue : List Timer

abbrev pub fire : ℕ → Ticked → Ticked
fire number r = record r { fired = number ∷ r.fired }

-- the queue once its head was taken off: a periodic timer goes back into it
unfoldable pub requeue : ℕ → Timer → List Timer → List Timer
requeue now t us =
    if t.period == 0 then us else queue_insert (record t { expires = (now + t.period) % 2 ^ 32 }) us

-- the loop of timer_tick with a bound on its rounds
unfoldable pub timer_tick : ℕ → ℕ → List Timer → Ticked
timer_tick zero now queue = record { fired = []; queue = queue }
timer_tick (suc rounds) now [] = record { fired = []; queue = [] }
timer_tick (suc rounds) now (t ∷ us) =
    let rest = fire t.number (timer_tick rounds now (requeue now t us)) in
    if is_due now t then rest else record { fired = []; queue = t ∷ us }

-- timer_add of a timer, which is taken out of the queue first if it is active
unfoldable pub timer_add : ℕ → ℕ → Bool → Timer → List Timer → List Timer
timer_add now delay_ticks active t queue =
    let out = if active then queue_remove t.number queue else queue in
    let delay = if delay_ticks == 0 then 1 else delay_ticks in
    queue_insert (record t { expires = (now + delay) % 2 ^ 32 }) out
