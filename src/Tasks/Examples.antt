-- ===== src/Tasks/Examples.antt =====
-- The scheduler's theorem at a concrete queue (arch/x86/kernel/task.c).
use cobra_os.Base.{◌≡◌, refl, [], ◌∷◌, none, some, arith}
use cobra_os.Tasks.Schedule.{
  Task, task_running, task_ready, task_blocked, task_terminated, Tasks, task_reap_terminated,
  schedule,
}
use cobra_os.Tasks.Fair.{first_ready}
use cobra_os.Tasks.Turns.{schedule-first_ready}

abbrev waiting : Task
waiting = record { pid = 1; state = task_ready }

abbrev running : Task
running = record { pid = 2; state = task_running }

abbrev blocked : Task
blocked = record { pid = 3; state = task_blocked }

abbrev ended : Task
ended = record { pid = 4; state = task_terminated }

abbrev four : Tasks
four = record {
  task_queue = waiting ∷ running ∷ blocked ∷ ended ∷ [];
  current_task = some 2;
  next_pid = 5;
  heap = λ n. none;
}

schedule-first_ready_example :
    (schedule four).current_task ≡ some (first_ready (blocked ∷ waiting ∷ []) running).pid
unfolding task_reap_terminated
schedule-first_ready_example =
    schedule-first_ready four (waiting ∷ []) running (blocked ∷ []) refl refl (omega arith)
