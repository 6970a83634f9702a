-- ===== src/Sched/Progress.antt =====
-- Why a switch never ends in the panic without a task: the idle clerk is there to be woken.
use taavi_os.Common.{
  ℕ, zero, suc, ◌+◌, ◌<◌, ◌≡◌, ◌⊎◌, inl, inr, refl, Bool, true, false, Option, none, some, ltb,
  if◌then◌else◌, if_either, Bool-cases, Option-cases, arith,
}
use taavi_os.Config.{
  max_tasks, idle_task_pid, fs_task_pid, reaper_task_pid, gui_task_pid, doc_clerk_pid,
}
use taavi_os.Task.{
  Task, TaskTable, Priority, high, normal, low, TaskState, ready, running, Blueprint, is_user,
  any_below, update_task,
}
use taavi_os.Task.Update.{update-slot, update-at}
use taavi_os.Ledger.Types.{World}
use taavi_os.Sched.Pick.{fits, find_next_task}
use taavi_os.Sched.Fairness.{CanRun, find_next_task-CanRun, find_next_task-ne-none}
use taavi_os.Sched.Switch.{
  doc_analytics_run_interval, ready_slot, has_runnable_task, wake_sleeping, wake_idle, wake_if,
  gui_has_work, fs_has_work, reaper_has_work, wake_busy_clerks, check_clerks, Machine, interrupted,
  dispatch, dispatch_slot, dispatch_found, scheduler_switch,
}
use taavi_os.Sched.SwitchLaws.{OnlyRuns, Switched, switch-Switched}

-- The idle clerk is in its slot.
abbrev pub HasIdle : TaskTable → Type 0
HasIdle tasks = (t : Task) × (tasks idle_task_pid ≡ some t) × (is_user t.task_mode ≡ false)

-- Some slot of the table holds a task that can run.
abbrev pub Runnable : TaskTable → Type 0
Runnable tasks = (pid : ℕ) × (pid < max_tasks) × CanRun (tasks pid)

update-HasIdle :
    (c : ℕ) (f : Task → Task) (tasks : TaskTable)
    → ((t : Task) → (f t).task_mode ≡ t.task_mode)
    → HasIdle tasks
    → HasIdle (update_task c f tasks)
update-HasIdle c f tasks h =
    update-slot (λ t. is_user t.task_mode ≡ false) c f idle_task_pid tasks (λ t e. rw (h t) e)

wake_if-HasIdle :
    (work : Bool) (c : ℕ) (p : Priority) (tasks : TaskTable)
    → HasIdle tasks
    → HasIdle (wake_if work c p tasks)
unfolding wake_if wake_sleeping
wake_if-HasIdle work c p tasks h =
    if_either HasIdle work _ tasks (update-HasIdle c _ tasks (λ t. ground arith) h) h

wake_busy-HasIdle :
    {H : Type 0} (windows : ℕ → Option Blueprint) (w : World H) (tasks : TaskTable)
    → HasIdle tasks
    → HasIdle (wake_busy_clerks windows w tasks)
unfolding wake_busy_clerks
wake_busy-HasIdle windows w tasks h =
    wake_if-HasIdle (reaper_has_work w) reaper_task_pid normal
      (wake_if (fs_has_work w) fs_task_pid normal
        (wake_if (gui_has_work windows w) gui_task_pid high tasks))
      (wake_if-HasIdle (fs_has_work w) fs_task_pid normal
        (wake_if (gui_has_work windows w) gui_task_pid high tasks)
        (wake_if-HasIdle (gui_has_work windows w) gui_task_pid high tasks h))

any_below-at : (n : ℕ) (p : ℕ → Bool) → any_below n p ≡ true → (i : ℕ) × (i < n) × (p i ≡ true)
any_below-at zero p e = cc
any_below-at (suc n) p e = elim (Bool-cases (p n)) [
  | inl y ↦ (n, omega arith, y)
  | inr n' ↦ let (i, lt, y) = any_below-at n p (ground arith) in (i, omega arith, y)
]

ready_slot-CanRun : (o : Option Task) → ready_slot o ≡ true → CanRun o
ready_slot-CanRun none e = cc
ready_slot-CanRun (some t) e = (t, refl, go t.state refl)
  where
    go : (s : TaskState) → t.state ≡ s → (t.state ≡ ready) ⊎ (t.state ≡ running)
    go ready h = inl h
    go _ h = ground arith

ready_one : (tasks : TaskTable) → has_runnable_task tasks ≡ true → Runnable tasks
unfolding has_runnable_task
ready_one tasks e =
    let (i, lt, y) = any_below-at max_tasks (λ j. ready_slot (tasks j)) e in
    (i, lt, ready_slot-CanRun (tasks i) y)

-- The idle clerk can run once it is woken.
wake_idle-Runnable : (tasks : TaskTable) → HasIdle tasks → Runnable (wake_idle tasks)
unfolding wake_idle
wake_idle-Runnable tasks (t, e, k) =
    (idle_task_pid, omega arith, (_, update-at idle_task_pid _ t tasks e, rw k (inl refl)))

wake_sleeping-Runnable :
    (c : ℕ) (p : Priority) (tasks : TaskTable) → Runnable tasks → Runnable (wake_sleeping c p tasks)
unfolding wake_sleeping
wake_sleeping-Runnable c p tasks (pid, lt, run) = (
  pid,
  lt,
  update-slot (λ t. (t.state ≡ ready) ⊎ (t.state ≡ running)) c _ pid tasks (λ t h. ground arith)
      run,
)

check_clerks-Runnable :
    {H : Type 0} (windows : ℕ → Option Blueprint) (w : World H) (counter : ℕ)
    → HasIdle w.tasks
    → Runnable (check_clerks windows w counter).0
unfolding check_clerks
check_clerks-Runnable windows w counter h =
    let t1 : TaskTable = wake_busy_clerks windows w w.tasks in
    let t2 : TaskTable = if has_runnable_task t1 then t1 else wake_idle t1 in
    let idle : HasIdle t1 = wake_busy-HasIdle windows w w.tasks h in
    let runs : Runnable t2 = elim (Bool-cases (has_runnable_task t1)) [
      | inl y ↦ rw y (ready_one t1 y)
      | inr n ↦ rw n (wake_idle-Runnable t1 idle)
    ] in
    elim (Bool-cases (ltb doc_analytics_run_interval (counter + 1))) [
      | inl y ↦ rw y (wake_sleeping-Runnable doc_clerk_pid low t2 runs)
      | inr n ↦ rw n runs
    ]

CanRun-fits : (o : Option Task) → CanRun o → (p : Priority) × (fits p o ≡ true)
CanRun-fits none (t, e, h) = cc
CanRun-fits (some u) (t, e, h) = (u.priority, go u.priority refl)
  where
    go : (p : Priority) → u.priority ≡ p → fits u.priority (some u) ≡ true
    go _ k = ground arith

find_next_task-some :
    (current count : ℕ) (tasks : TaskTable)
    → current < max_tasks
    → Runnable tasks
    → (pid : ℕ) × ((find_next_task current count tasks).0 ≡ some pid) × CanRun (tasks pid)
find_next_task-some current count tasks hc (pid, lt, run) =
    let (p, f) = CanRun-fits (tasks pid) run in
    elim (Option-cases (find_next_task current count tasks).0) [
      | inl e ↦ absurd (find_next_task-ne-none p current count pid tasks hc lt f e)
      | inr (x, e) ↦ (x, e, find_next_task-CanRun current count tasks x e)
    ]

dispatch_found-some :
    {H : Type 0} (current pid : ℕ) (o : Option ℕ) (tasks : TaskTable) (m : Machine H)
    → o ≡ some pid
    → CanRun (tasks pid)
    → (frame : ℕ) × (m' : Machine H) × (dispatch_found current o tasks m ≡ some (frame, m'))
unfolding dispatch_found dispatch_slot
dispatch_found-some current pid o tasks m e (t, at, run) =
    let out = dispatch current pid t tasks m in (out.0, out.1, rw (e, at) refl)

-- A switch always finds a task where the idle clerk is in its slot, whatever the states of the tasks
-- and of the ledger. After it that task is RUNNING, it has been started, `current_pid` names it, and no
-- other task is RUNNING; for a state in which at most the current task was.
pub switch_runs :
    {H : Type 0} (current r : ℕ) (m : Machine H)
    → current < max_tasks
    → HasIdle m.world.tasks
    → OnlyRuns current m.world.tasks
    → (frame : ℕ) × (m' : Machine H) × (scheduler_switch current r m ≡ some (frame, m'))
      × Switched m'
unfolding scheduler_switch
switch_runs current r m hc idle only =
    let w = record m.world { tasks = update_task current (interrupted r) m.world.tasks } in
    let kept : HasIdle w.tasks =
      update-HasIdle current (interrupted r) m.world.tasks (λ t. ground arith) idle in
    let (pid, e, run) =
      find_next_task-some current m.sched.high_prio_pick_count _ hc
        (check_clerks-Runnable m.windows w m.sched.doc_maintenaince_counter kept) in
    let (frame, m', out) = dispatch_found-some current pid _ _ _ e run in
    (frame, m', out, switch-Switched current r m only out)
