-- ===== src/Timers/Examples.antt =====
-- The timer queue of arch/x86/cpu/timer.c on concrete timers.
use cobra_os.Base.{◌≤◌, ◌≡◌, refl, arith, false, List, [], ◌∷◌, length}
use cobra_os.Timers.{Timer, queue_insert, requeue, timer_tick, timer_add}
use cobra_os.Timers.Ticks.{due_count, AtRest, timer_tick-AtRest}

-- a timer that fires once, and one that fires every 50 ticks
abbrev once : Timer
once = record { number = 1; expires = 90; period = 0 }

abbrev often : Timer
often = record { number = 2; expires = 95; period = 50 }

abbrev waiting : List Timer
waiting = once ∷ often ∷ []

ticked_at_100 : (timer_tick 2 100 waiting).fired ≡ 1 ∷ 2 ∷ []
unfolding timer_tick requeue queue_insert
ticked_at_100 = refl

-- due ten ticks ago
abbrev late : Timer
late = record { number = 3; expires = 4294967280; period = 0 }

-- Behind a head whose expiry has wrapped round a due timer does not fire.
wrapped_head : (timer_tick 2 4294967290 (timer_add 4294967290 10 false once (late ∷ []))).fired ≡ []
unfolding timer_tick timer_add queue_insert requeue
wrapped_head = refl

late_fires : (timer_tick 2 4294967290 (late ∷ [])).fired ≡ 3 ∷ []
unfolding timer_tick requeue
late_fires = refl

enough : due_count 100 waiting ≤ 2
unfolding due_count
enough = omega arith

timer_tick-AtRest_example :
    AtRest 100 (timer_tick 2 100 waiting).queue
    × (length (timer_tick 2 100 waiting).fired ≤ due_count 100 waiting)
timer_tick-AtRest_example =
    timer_tick-AtRest 2 100 waiting (omega arith) (omega arith, (omega arith, tt)) enough
