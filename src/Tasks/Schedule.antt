-- ===== src/Tasks/Schedule.antt =====
-- The queue of tasks and schedule of arch/x86/kernel/task.c. The queue is the list of the tasks that starts
-- at task_queue and runs through `next`; a pointer to a task is its pid, which is the task's own. The
-- switch of the registers by task_switch is left out: it makes `next` the current task.
use cobra_os.Base.{
  ℕ, zero, suc, ◌+◌, ◌%◌, ◌^◌, Array, ◌==◌, ◌||◌, ◌&&◌, not, if◌then◌else◌, Bool, true, false, List,
  [], ◌∷◌, ◌++◌, length, map, Option, none, some,
}
use cobra_os.Memory.Heap.{Heap, later}

pub data TaskState : Type 0 where
  task_running task_ready task_blocked task_sleeping task_terminated : TaskState

pub record Task : Type 0 where
  pub pid : ℕ
  pub state : TaskState

pub record Tasks : Type 0 where
  pub task_queue : List Task
  pub current_task : Option ℕ
  pub next_pid : ℕ
  pub heap : Heap

abbrev pub is_ready : TaskState → Bool
is_ready task_ready = true
is_ready task_running = false
is_ready task_blocked = false
is_ready task_sleeping = false
is_ready task_terminated = false

abbrev pub is_terminated : TaskState → Bool
is_terminated task_terminated = true
is_terminated task_ready = false
is_terminated task_running = false
is_terminated task_blocked = false
is_terminated task_sleeping = false

-- `if (old->state == TASK_RUNNING) old->state = TASK_READY`
abbrev pub paused : TaskState → TaskState
paused task_running = task_ready
paused task_ready = task_ready
paused task_blocked = task_blocked
paused task_sleeping = task_sleeping
paused task_terminated = task_terminated

-- the queue without the terminated tasks, the current one excepted
unfoldable pub task_reap_terminated : List Task → ℕ → List Task
task_reap_terminated [] current = []
task_reap_terminated (t ∷ ts) current =
    let rest = task_reap_terminated ts current in
    if is_terminated t.state && not (t.pid == current) then rest else t ∷ rest

-- the tasks behind the one with this pid
unfoldable pub after : List Task → ℕ → List Task
after [] pid = []
after (t ∷ ts) pid = let rest = after ts pid in if t.pid == pid then ts else rest

-- `next ? next : task_queue`
abbrev pub first_or : List Task → List Task → Option Task
first_or (t ∷ ts) queue = some t
first_or [] [] = none
first_or [] (t ∷ ts) = some t

unfoldable pub advance : List Task → ℕ → Option Task
advance queue pid = first_or (after queue pid) queue

-- `while (next && next != current_task && next->state != TASK_READY)`, at most `n` tasks
unfoldable pub search : ℕ → List Task → ℕ → Option Task → Option Task
search zero queue current next = next
search (suc n) queue current none = none
search (suc n) queue current (some t) =
    let rest = search n queue current (advance queue t.pid) in
    if t.pid == current || is_ready t.state then some t else rest

-- the task that the loop of schedule ends at
unfoldable pub choose : List Task → ℕ → Option Task
choose queue current = search (length queue) queue current (advance queue current)

-- the states after a switch from one task to another
abbrev pub switched : ℕ → ℕ → Task → Task
switched old next t =
    if t.pid == next
    then record t { state = task_running }
    else if t.pid == old
    then record t { state = paused t.state }
    else t

-- the rest of schedule from the chosen task on, with the terminated tasks gone
unfoldable pub switch_to : Tasks → ℕ → Option Task → Tasks
switch_to s current none = s
switch_to s current (some t) = if t.pid == current || not (is_ready t.state) then s else record s {
  task_queue = map (switched current t.pid) s.task_queue;
  current_task = some t.pid;
}

unfoldable pub schedule : Tasks → Tasks
schedule s = elim s.current_task [
  | none ↦ s
  | some current ↦
      let queue = task_reap_terminated s.task_queue current in
      switch_to (record s { task_queue = queue }) current (choose queue current)
]

-- task_create from the two answers of kmalloc on; what is returned is the pid, or `none` for NULL. The
-- frame that the new stack starts with is left out.
unfoldable pub create_with : Tasks → Option Array → Option Array → Tasks × Option ℕ
create_with s none stack = (record s { heap = later s.heap }, none)
create_with s (some b) none = (record s { heap = later (later s.heap) }, none)
create_with s (some b) (some d) = (
  record s {
    task_queue = s.task_queue ++ (record { pid = s.next_pid; state = task_ready } ∷ []);
    next_pid = (s.next_pid + 1) % 2 ^ 32;
    heap = later (later s.heap);
  },
  some s.next_pid,
)

unfoldable pub task_create : Tasks → Tasks × Option ℕ
task_create s = create_with s (s.heap 0) (s.heap 1)

-- tasking_init; `none` where the source halts for want of memory
unfoldable pub tasking_init : Tasks → Option Tasks
tasking_init s = elim (s.heap 0) [
  | none ↦ none
  | some b ↦ some (record {
    task_queue = record { pid = s.next_pid; state = task_running } ∷ [];
    current_task = some s.next_pid;
    next_pid = (s.next_pid + 1) % 2 ^ 32;
    heap = later s.heap;
  })
]

abbrev pub ended : ℕ → Task → Task
ended current t = if t.pid == current then record t { state = task_terminated } else t

-- task_exit up to the loop that halts the processor
unfoldable pub task_exit : Tasks → Tasks
task_exit s = elim s.current_task [
  | none ↦ s
  | some current ↦ schedule (record s { task_queue = map (ended current) s.task_queue })
]
