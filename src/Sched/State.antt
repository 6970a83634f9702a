-- ===== src/Sched/State.antt =====
-- sched.c: the calls that change the state of a task, and those of `current_pid`.
use taavi_os.Common.{ℕ, true, Option, none, some, leb, if◌then◌else◌}
use taavi_os.Config.{status_ok, status_error, max_tasks}
use taavi_os.Task.{
  Task, TaskTable, TaskState, ready, running, blocked, sleeping, dead, is_dead, is_user,
  update_task, set_state,
}
use taavi_os.Sched.Pick.{Sched}

-- `scheduler_set_current_task`
unfoldable pub scheduler_set_current_task : ℕ → Sched → ℕ × Sched
scheduler_set_current_task pid s =
    if leb max_tasks pid
    then (status_error, s)
    else (status_ok, record s { current_pid = some pid })

-- `scheduler_get_current_task`
unfoldable pub scheduler_get_current_task : Sched → TaskTable → Option Task
scheduler_get_current_task s tasks = elim s.current_pid [ none ↦ none | some pid ↦ tasks pid ]

-- The `switch` of `scheduler_set_task_state`. A state that is set already is set again here, which is
-- the early return of the source.
abbrev pub next_state : TaskState → TaskState → TaskState
next_state ready old = if is_dead old then old else ready
next_state blocked old = if is_dead old then old else blocked
next_state sleeping old = sleeping
next_state dead old = dead
next_state running old = old

-- `scheduler_set_task_state` on the task that runs.
unfoldable pub scheduler_set_task_state : TaskState → Sched → TaskTable → TaskTable
scheduler_set_task_state state s tasks = elim s.current_pid [
  | none ↦ tasks
  | some pid ↦ update_task pid (λ t. set_state (next_state state t.state) t) tasks
]

-- `scheduler_add`; the task is the one in slot `pid` of the table.
unfoldable pub scheduler_add : Option ℕ → Sched → TaskTable → ℕ × Sched × TaskTable
scheduler_add none s tasks = (status_error, s, tasks)
scheduler_add (some pid) s tasks = (
  status_ok,
  elim s.current_pid [ none ↦ record s { current_pid = some 0 } | some current ↦ s ],
  update_task pid (λ t. if is_user t.task_mode then set_state ready t else t) tasks,
)

unfoldable pub set_scheduler_on : Sched → Sched
set_scheduler_on s = record s { scheduler_on = true }
