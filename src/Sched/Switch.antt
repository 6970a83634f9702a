-- ===== src/Sched/Switch.antt =====
-- sched.c: `scheduler_check_clerks`, `scheduler_switch` and `scheduler_tick`. What they do to the
-- hardware is kept as the page directory in use and the kernel stack in the TSS; the bytes of an
-- interrupt frame are not kept, only its address.
use taavi_os.Common.{
  ℕ, ◌+◌, ◌-◌, ◌*◌, ◌^◌, Bool, false, not, ◌&&◌, ◌||◌, Option, none, some, ltb, ◌==◌, if◌then◌else◌,
}
use taavi_os.Config.{
  max_tasks, idle_task_pid, fs_task_pid, reaper_task_pid, gui_task_pid, doc_clerk_pid, u32,
}
use taavi_os.Task.{
  Task, TaskTable, Priority, high, normal, low, Blueprint, ready, running, is_ready, is_running,
  is_sleeping, is_dead, is_user, any_below, task_has_dirty_buffer, update_task, put_task,
}
use taavi_os.Ledger.Types.{World}
use taavi_os.Ledger.Serve.{ledger_count_clerk_reqs, ledger_has_killable_reqs}
use taavi_os.Sched.Pick.{Sched, find_next_task}

abbrev pub doc_analytics_run_interval : ℕ
doc_analytics_run_interval = 7000

-- The test of `scheduler_has_runnable_task`.
abbrev pub ready_slot : Option Task → Bool
ready_slot none = false
ready_slot (some t) = is_ready t.state

unfoldable pub has_runnable_task : TaskTable → Bool
has_runnable_task tasks = any_below max_tasks (λ i. ready_slot (tasks i))

-- A clerk that is to run: READY, at this priority.
abbrev pub activate : Priority → Task → Task
activate p t = record t { state = ready; priority = p }

-- `if (clerk != NULL && clerk->task_mode != USER_TASK && clerk->state == TASK_SLEEPING) …`
unfoldable pub wake_sleeping : ℕ → Priority → TaskTable → TaskTable
wake_sleeping pid p =
    update_task pid
      (λ t. if not (is_user t.task_mode) && is_sleeping t.state then activate p t else t)

-- The same for the idle clerk, whose state is not asked.
unfoldable pub wake_idle : TaskTable → TaskTable
wake_idle = update_task idle_task_pid (λ t. if not (is_user t.task_mode) then activate low t else t)

-- One block of `scheduler_check_clerks`: the clerk is woken if the test says that it has work.
unfoldable pub wake_if : Bool → ℕ → Priority → TaskTable → TaskTable
unfolding wake_sleeping
wake_if work pid p tasks = if work then wake_sleeping pid p tasks else tasks

abbrev pub gui_has_work : {H : Type 0} → (ℕ → Option Blueprint) → World H → Bool
gui_has_work windows w =
    ltb 0 (ledger_count_clerk_reqs gui_task_pid w) || task_has_dirty_buffer windows

abbrev pub fs_has_work : {H : Type 0} → World H → Bool
fs_has_work w = ltb 0 (ledger_count_clerk_reqs fs_task_pid w)

abbrev pub reaper_has_work : {H : Type 0} → World H → Bool
reaper_has_work w = ltb 0 (ledger_count_clerk_reqs reaper_task_pid w) || ledger_has_killable_reqs w

-- The clerks with work: GUI, file system and reaper, in that order.
unfoldable pub wake_busy_clerks :
    {H : Type 0} → (ℕ → Option Blueprint) → World H → TaskTable → TaskTable
unfolding wake_if
wake_busy_clerks windows w tasks = wake_if (reaper_has_work w) reaper_task_pid normal (
    wake_if (fs_has_work w) fs_task_pid normal
      (wake_if (gui_has_work windows w) gui_task_pid high tasks))

-- `scheduler_check_clerks`: the task table after it, and `doc_maintenaince_counter`.
unfoldable pub check_clerks : {H : Type 0} → (ℕ → Option Blueprint) → World H → ℕ → TaskTable × ℕ
unfolding wake_busy_clerks has_runnable_task wake_idle wake_sleeping
check_clerks windows w counter =
    let t1 = wake_busy_clerks windows w w.tasks in
    let t2 = if has_runnable_task t1 then t1 else wake_idle t1 in
    if ltb doc_analytics_run_interval (counter + 1)
    then (wake_sleeping doc_clerk_pid low t2, 0)
    else (t2, counter + 1)

-- The scheduler with all that it reads and writes.
pub record Machine (H : Type 0) : Type 0 where
  pub sched : Sched
  pub world : World H
  pub windows : ℕ → Option Blueprint
  pub page_dir : ℕ
  pub kernel_stack : ℕ

-- The first part of `scheduler_switch`, on the task that was interrupted at frame `r`.
abbrev pub interrupted : ℕ → Task → Task
interrupted r t =
    if not (t.started == 0) && not (is_dead t.state) && not (is_sleeping t.state)
    then record t { interrupt_frame = r; state = if is_running t.state then ready else t.state }
    else t

-- `scheduler_init_frame`: 15 or 13 registers below the top of the kernel stack.
abbrev pub init_frame : Task → ℕ
init_frame t = u32 (t.kernel_stack + 2 ^ 32 - 4 * (if is_user t.task_mode then 15 else 13))

-- The next task as the switch leaves it.
abbrev pub dispatched : Task → Task
dispatched t = record t {
  state = if is_ready t.state then running else t.state;
  interrupt_frame = if t.started == 0 then init_frame t else t.interrupt_frame;
  started = 1;
}

-- The end of `scheduler_switch`, with the task table before it and the next task `t`.
unfoldable pub dispatch : {H : Type 0} → ℕ → ℕ → Task → TaskTable → Machine H → ℕ × Machine H
dispatch current pid t tasks m = (
  (dispatched t).interrupt_frame,
  record m {
    sched = record m.sched { current_pid = some pid };
    world = record m.world { tasks = put_task pid (some (dispatched t)) tasks };
    page_dir = if not (pid == current) && is_user t.task_mode then t.page_dir else m.page_dir;
    kernel_stack = if not (pid == current) then t.kernel_stack else m.kernel_stack;
  },
)

unfoldable pub dispatch_slot :
    {H : Type 0} → ℕ → ℕ → Option Task → TaskTable → Machine H → Option (ℕ × Machine H)
unfolding dispatch
dispatch_slot current pid none tasks m = none
dispatch_slot current pid (some t) tasks m = some (dispatch current pid t tasks m)

-- The task that `scheduler_find_next_task` names; `none` is the panic without a task.
unfoldable pub dispatch_found :
    {H : Type 0} → ℕ → Option ℕ → TaskTable → Machine H → Option (ℕ × Machine H)
unfolding dispatch_slot
dispatch_found current none tasks m = none
dispatch_found current (some pid) tasks m = dispatch_slot current pid (tasks pid) tasks m

-- `scheduler_switch` with the interrupt frame `r`: the frame to return to.
unfoldable pub scheduler_switch : {H : Type 0} → ℕ → ℕ → Machine H → Option (ℕ × Machine H)
unfolding check_clerks find_next_task dispatch_found
scheduler_switch current r m =
    let w = record m.world { tasks = update_task current (interrupted r) m.world.tasks } in
    let (tasks, counter) = check_clerks m.windows w m.sched.doc_maintenaince_counter in
    let (next, count) = find_next_task current m.sched.high_prio_pick_count tasks in
    dispatch_found current next tasks (record m {
      sched = record m.sched { high_prio_pick_count = count; doc_maintenaince_counter = counter };
    })

unfoldable pub scheduler_tick : {H : Type 0} → ℕ → Machine H → Option (ℕ × Machine H)
unfolding scheduler_switch
scheduler_tick r m = elim m.sched.current_pid [
  | none ↦ some (r, m)
  | some current ↦ if m.sched.scheduler_on then scheduler_switch current r m else some (r, m)
]
