-- ===== src/Sched/SwitchLaws.antt =====
-- What a switch promises: one task runs, and it is the one that `current_pid` names.
use taavi_os.Common.{
  ℕ, ◌+◌, ◌≡◌, ◌≢◌, ◌⊎◌, inl, inr, refl, Bool, Option, none, some, ltb, ◌==◌, if◌then◌else◌,
  if_either, Bool-cases, some_inj, subst, sym, ap, arith,
}
use taavi_os.Config.{idle_task_pid, fs_task_pid, reaper_task_pid, gui_task_pid, doc_clerk_pid}
use taavi_os.Task.{
  Task, TaskTable, Priority, high, normal, low, ready, running, Blueprint, update_task, put_task,
}
use taavi_os.Ledger.Types.{World}
use taavi_os.Sched.Fairness.{CanRun, find_next_task-CanRun}
use taavi_os.Sched.Switch.{
  doc_analytics_run_interval, has_runnable_task, wake_sleeping, wake_idle, wake_if, gui_has_work,
  fs_has_work, reaper_has_work, dispatch_slot, wake_busy_clerks, check_clerks, Machine, interrupted,
  dispatched, dispatch, dispatch_found, scheduler_switch,
}

-- No task is RUNNING.
abbrev NoneRuns : TaskTable → Type 0
NoneRuns tasks = (pid : ℕ) (t : Task) → tasks pid ≡ some t → t.state ≢ running

-- Only the task in slot `current` may be RUNNING, and it has been started.
abbrev pub OnlyRuns : ℕ → TaskTable → Type 0
OnlyRuns current tasks =
    (pid : ℕ) (t : Task)
    → tasks pid ≡ some t
    → t.state ≡ running
    → (pid ≡ current) × (t.started ≢ 0)

-- A write to one slot by a function that starts no task.
update-NoneRuns :
    (c : ℕ) (f : Task → Task) (tasks : TaskTable)
    → ((t : Task) → t.state ≢ running → (f t).state ≢ running)
    → NoneRuns tasks
    → NoneRuns (update_task c f tasks)
update-NoneRuns c f tasks h n pid t e = go (tasks c) refl e
  where
    go :
        (o : Option Task)
        → tasks c ≡ o
        → elim o as (λ x. TaskTable) [ none ↦ tasks | some u ↦ put_task c (some (f u)) tasks ] pid
          ≡ some t
        → t.state ≢ running
    go none eq e' = n pid t e'
    go (some u) eq e' = ground (arith, h u (n c u eq), n pid t)

wake_sleeping-NoneRuns :
    (c : ℕ) (p : Priority) (tasks : TaskTable) → NoneRuns tasks → NoneRuns (wake_sleeping c p tasks)
unfolding wake_sleeping
wake_sleeping-NoneRuns c p tasks = update-NoneRuns c _ tasks (λ t h. ground arith)

wake_idle-NoneRuns : (tasks : TaskTable) → NoneRuns tasks → NoneRuns (wake_idle tasks)
unfolding wake_idle
wake_idle-NoneRuns tasks = update-NoneRuns idle_task_pid _ tasks (λ t h. ground arith)

wake_if-NoneRuns :
    (work : Bool) (c : ℕ) (p : Priority) (tasks : TaskTable)
    → NoneRuns tasks
    → NoneRuns (wake_if work c p tasks)
unfolding wake_if
wake_if-NoneRuns work c p tasks n =
    if_either NoneRuns work _ tasks (wake_sleeping-NoneRuns c p tasks n) n

wake_busy-NoneRuns :
    {H : Type 0} (windows : ℕ → Option Blueprint) (w : World H) (tasks : TaskTable)
    → NoneRuns tasks
    → NoneRuns (wake_busy_clerks windows w tasks)
unfolding wake_busy_clerks
wake_busy-NoneRuns windows w tasks n =
    wake_if-NoneRuns (reaper_has_work w) reaper_task_pid normal _ (
      wake_if-NoneRuns (fs_has_work w) fs_task_pid normal _
        (wake_if-NoneRuns (gui_has_work windows w) gui_task_pid high tasks n))

check_clerks-NoneRuns :
    {H : Type 0} (windows : ℕ → Option Blueprint) (w : World H) (counter : ℕ)
    → NoneRuns w.tasks
    → NoneRuns (check_clerks windows w counter).0
unfolding check_clerks
check_clerks-NoneRuns {H} windows w counter n =
    if_either (λ (x : TaskTable × ℕ). NoneRuns x.0) (ltb doc_analytics_run_interval (counter + 1)) _
      _ (wake_sleeping-NoneRuns doc_clerk_pid low _ n2) n2
  where
    t1 : TaskTable
    t1 = wake_busy_clerks windows w w.tasks

    n1 : NoneRuns t1
    n1 = wake_busy-NoneRuns windows w w.tasks n

    n2 : NoneRuns (if has_runnable_task t1 then t1 else wake_idle t1)
    n2 = if_either NoneRuns (has_runnable_task t1) t1 (wake_idle t1) n1 (wake_idle-NoneRuns t1 n1)

stopped :
    (r : ℕ) (u : Task) → (u.state ≡ running → u.started ≢ 0) → (interrupted r u).state ≢ running
stopped r u h = ground arith

-- The interrupted task, if it was the only one, leaves none running.
interrupted-NoneRuns :
    (current r : ℕ) (tasks : TaskTable)
    → OnlyRuns current tasks
    → NoneRuns (update_task current (interrupted r) tasks)
interrupted-NoneRuns current r tasks only pid t e = go (tasks current) refl e
  where
    go :
        (o : Option Task)
        → tasks current ≡ o
        → elim o as (λ x. TaskTable) [
          | none ↦ tasks
          | some u ↦ put_task current (some (interrupted r u)) tasks
        ]
            pid
          ≡ some t
        → t.state ≢ running
    go none eq e' h = let same = (only pid t e' h).0 in ground (arith, ap tasks same)
    go (some u) eq e' h = elim (Bool-cases (current == pid)) [
      | inl y ↦
          let e'' : some (interrupted r u) ≡ some t = rw y at e' in
          stopped r u (λ k. (only current u eq k).1)
            (subst (λ x. x.state ≡ running) (sym (some_inj e'')) h)
      | inr ne ↦ let e'' : tasks pid ≡ some t = rw ne at e' in ground (arith, only pid t e'' h)
    ]

-- The state after a switch.
pub record Switched {H : Type 0} (m' : Machine H) : Type 0 where
  pub current : ℕ
  pub task : Task
  pub current_eq : m'.sched.current_pid ≡ some current
  pub task_eq : m'.world.tasks current ≡ some task
  pub runs : task.state ≡ running
  pub stack_frame : task.started ≡ 1
  pub only : OnlyRuns current m'.world.tasks

dispatched_runs :
    (t : Task) → (t.state ≡ ready) ⊎ (t.state ≡ running) → (dispatched t).state ≡ running
dispatched_runs t h = ground arith

dispatch-Switched :
    {H : Type 0} (current pid : ℕ) (t : Task) (tasks : TaskTable) (m : Machine H)
    → NoneRuns tasks
    → (t.state ≡ ready) ⊎ (t.state ≡ running)
    → Switched (dispatch current pid t tasks m).1
unfolding dispatch
dispatch-Switched current pid t tasks m n h = record {
  current = pid;
  task = dispatched t;
  current_eq = refl;
  task_eq = ground arith;
  runs = dispatched_runs t h;
  stack_frame = refl;
  only = only;
}
  where
    only : OnlyRuns pid (put_task pid (some (dispatched t)) tasks)
    only j u e k = elim (Bool-cases (pid == j)) [
      | inl y ↦
          let e' : some (dispatched t) ≡ some u = rw y at e in
          (ground arith, subst (λ x. x.started ≢ 0) (some_inj e') (λ z. omega arith))
      | inr ne ↦ let e' : tasks j ≡ some u = rw ne at e in absurd (n j u e' k)
    ]

dispatch_slot-Switched :
    {H : Type 0} (current pid : ℕ) (o : Option Task) (tasks : TaskTable) (m : Machine H) {frame : ℕ}
    {m' : Machine H}
    → NoneRuns tasks
    → CanRun o
    → dispatch_slot current pid o tasks m ≡ some (frame, m')
    → Switched m'
unfolding dispatch_slot
dispatch_slot-Switched current pid none tasks m n h e = cc
dispatch_slot-Switched current pid (some t) tasks m n (u, at, run) e =
    subst Switched (ap (λ x. x.1) (some_inj e)) (
      dispatch-Switched current pid t tasks m n
        (subst (λ x. (x.state ≡ ready) ⊎ (x.state ≡ running)) (sym (some_inj at)) run))

dispatch_found-Switched :
    {H : Type 0} (current : ℕ) (next : Option ℕ) (tasks : TaskTable) (m : Machine H) {frame : ℕ}
    {m' : Machine H}
    → NoneRuns tasks
    → ((pid : ℕ) → next ≡ some pid → CanRun (tasks pid))
    → dispatch_found current next tasks m ≡ some (frame, m')
    → Switched m'
unfolding dispatch_found
dispatch_found-Switched current none tasks m n h e = cc
dispatch_found-Switched current (some pid) tasks m n h e =
    dispatch_slot-Switched current pid (tasks pid) tasks m n (h pid refl) e

-- After a switch that picks a task, that task is RUNNING, it has been started, `current_pid` names it,
-- and no other task is RUNNING; for a state in which at most the current task was.
pub switch-Switched :
    {H : Type 0} (current r : ℕ) (m : Machine H) {frame : ℕ} {m' : Machine H}
    → OnlyRuns current m.world.tasks
    → scheduler_switch current r m ≡ some (frame, m')
    → Switched m'
unfolding scheduler_switch
switch-Switched current r m only e =
    dispatch_found-Switched current _ _ _
      (check_clerks-NoneRuns m.windows _ m.sched.doc_maintenaince_counter
        (interrupted-NoneRuns current r m.world.tasks only))
      (find_next_task-CanRun current m.sched.high_prio_pick_count _) e
