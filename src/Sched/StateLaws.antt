-- ===== src/Sched/StateLaws.antt =====
-- What `scheduler_set_task_state` does to a task that is dead.
use taavi_os.Common.{ℕ, ◌≡◌, ◌≢◌, refl, some, ap, ◌∙◌}
use taavi_os.Task.{Task, TaskTable, TaskState, set_state}
use taavi_os.Task.Update.{update-at}
use taavi_os.Sched.Pick.{Sched}
use taavi_os.Sched.State.{next_state, scheduler_set_task_state}

next_dead :
    (state : TaskState)
    → state ≢ TaskState.sleeping
    → next_state state TaskState.dead ≡ TaskState.dead
next_dead TaskState.sleeping h = absurd (h refl)
next_dead TaskState.ready h = refl
next_dead TaskState.running h = refl
next_dead TaskState.blocked h = refl
next_dead TaskState.dead h = refl

-- Where the task that runs is DEAD, `scheduler_set_task_state` leaves it DEAD whatever state is asked
-- for, except TASK_SLEEPING.
pub set_task_state_dead :
    (state : TaskState) (s : Sched) (tasks : TaskTable) (pid : ℕ) (t : Task)
    → s.current_pid ≡ some pid
    → tasks pid ≡ some t
    → t.state ≡ TaskState.dead
    → state ≢ TaskState.sleeping
    → scheduler_set_task_state state s tasks pid ≡ some (set_state TaskState.dead t)
unfolding scheduler_set_task_state
set_task_state_dead state s tasks pid t c e d ne = rw c (
    update-at pid (λ u. set_state (next_state state u.state) u) t tasks e
    ∙ ap (λ x. some (set_state x t)) (ap (next_state state) d ∙ next_dead state ne))
