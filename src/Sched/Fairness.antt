-- ===== src/Sched/Fairness.antt =====
-- `scheduler_find_next_task` as a whole: what it picks can run, it picks something where anything can
-- run, and a normal task waits for at most three picks of high ones.
use taavi_os.Common.{
  ℕ, ◌+◌, ◌-◌, ◌<◌, ◌≤◌, ◌≡◌, ◌≢◌, ◌⊎◌, inl, inr, refl, true, Option, none, some, ltb,
  if◌then◌else◌, Bool-cases, Option-cases, lt→ltb, arith,
}
use taavi_os.Config.{max_tasks}
use taavi_os.Task.{Task, TaskTable, Priority, high, normal, low, TaskState, ready, running}
use taavi_os.Sched.Pick.{
  high_priority_pick_limit, fits, search_by_priority, or_else, find_next_task,
}
use taavi_os.Sched.PickLaws.{Sought, search_by_priority-Sought, search-ne-none}

-- The slot holds a task that is READY or RUNNING.
abbrev pub CanRun : Option Task → Type 0
CanRun o = (t : Task) × (o ≡ some t) × ((t.state ≡ ready) ⊎ (t.state ≡ running))

-- What holds of a pid that is found.
abbrev Finds : (ℕ → Type 0) → Option ℕ → Type 0
Finds P o = (pid : ℕ) → o ≡ some pid → P pid

or_else-Finds :
    (P : ℕ → Type 0) (o : Option ℕ) (count : ℕ) (next : Option ℕ × ℕ)
    → Finds P o
    → Finds P next.0
    → Finds P (or_else o count next).0
or_else-Finds P none count next h k = k
or_else-Finds P (some pid) count next h k = h

fits-CanRun : (p : Priority) (o : Option Task) → fits p o ≡ true → CanRun o
fits-CanRun p none h = cc
fits-CanRun p (some t) h = (t, refl, run t.state refl)
  where
    run : (s : TaskState) → t.state ≡ s → (t.state ≡ ready) ⊎ (t.state ≡ running)
    run ready e = inl e
    run running e = inr e
    run _ e = ground arith

search-fits :
    (p : Priority) (start current : ℕ) (tasks : TaskTable)
    → Finds (λ pid. fits p (tasks pid) ≡ true) (search_by_priority p start current tasks)
search-fits p start current tasks pid e =
    found (search_by_priority p start current tasks)
      (search_by_priority-Sought p start current tasks) e
  where
    found :
        (o : Option ℕ)
        → Sought p current tasks (max_tasks + 1 - start) start o
        → o ≡ some pid
        → fits p (tasks pid) ≡ true
    found none h e' = cc
    found (some x) h e' = ground (arith, h.4)

search-CanRun :
    (p : Priority) (start current : ℕ) (tasks : TaskTable)
    → Finds (λ pid. CanRun (tasks pid)) (search_by_priority p start current tasks)
search-CanRun p start current tasks pid e =
    fits-CanRun p (tasks pid) (search-fits p start current tasks pid e)

first_search :
    (count current : ℕ) (tasks : TaskTable)
    → Finds
        (λ pid. CanRun (tasks pid))
        (if ltb count high_priority_pick_limit
          then search_by_priority high 1 current tasks
          else none)
first_search count current tasks pid e = elim (Bool-cases (ltb count high_priority_pick_limit)) [
  | inl y ↦ search-CanRun high 1 current tasks pid (rw y at e)
  | inr n ↦ let e' : none ≡ some pid = rw n at e in cc
]

-- The task that `scheduler_find_next_task` picks is READY or RUNNING.
pub find_next_task-CanRun :
    (current count : ℕ) (tasks : TaskTable) (pid : ℕ)
    → (find_next_task current count tasks).0 ≡ some pid
    → CanRun (tasks pid)
unfolding find_next_task
find_next_task-CanRun current count tasks =
    let P : ℕ → Type 0 = λ pid. CanRun (tasks pid) in
    or_else-Finds P _ _ _ (first_search count current tasks) (
      or_else-Finds P _ _ _ (search-CanRun normal 1 current tasks) (
        or_else-Finds P _ _ _ (search-CanRun high 0 current tasks) (
          or_else-Finds P _ _ _ (search-CanRun normal 0 current tasks)
            (or_else-Finds P _ _ _ (search-CanRun low 1 current tasks) (λ pid e. cc)))))

hit : (o : Option ℕ) (count : ℕ) (next : Option ℕ × ℕ) → o ≢ none → (or_else o count next).0 ≢ none
hit none count next h = absurd (h refl)
hit (some pid) count next h = h

skip :
    (o : Option ℕ) (count : ℕ) (next : Option ℕ × ℕ)
    → next.0 ≢ none
    → (or_else o count next).0 ≢ none
skip none count next h = h
skip (some pid) count next h = λ e. cc

-- Where some task of the table, of any priority, is READY or RUNNING, `scheduler_find_next_task` picks
-- a task.
pub find_next_task-ne-none :
    (p : Priority) (current count pid : ℕ) (tasks : TaskTable)
    → current < max_tasks
    → pid < max_tasks
    → fits p (tasks pid) ≡ true
    → (find_next_task current count tasks).0 ≢ none
unfolding find_next_task
find_next_task-ne-none high current count pid tasks hc hp f =
    skip _ (count + 1) _
      (skip _ 0 _ (hit _ 1 _ (search-ne-none high 0 current pid tasks (omega arith) hc hp f)))
find_next_task-ne-none normal current count pid tasks hc hp f =
    skip _ (count + 1) _
      (hit _ 0 _ (search-ne-none normal 1 current pid tasks (omega arith) hc hp f))
find_next_task-ne-none low current count pid tasks hc hp f = skip _ (count + 1) _ (
    skip _ 0 _ (
      skip _ 1 _
        (skip _ 0 _ (hit _ 0 _ (search-ne-none low 1 current pid tasks (omega arith) hc hp f)))))

-- After three picks of high tasks in a row a normal task that can run is picked next, and the count
-- starts again.
pub find_next_task_normal :
    (current count pid : ℕ) (tasks : TaskTable)
    → current < max_tasks
    → pid < max_tasks
    → fits normal (tasks pid) ≡ true
    → high_priority_pick_limit ≤ count
    → (picked : ℕ) × ((find_next_task current count tasks).0 ≡ some picked)
      × (fits normal (tasks picked) ≡ true)
      × ((find_next_task current count tasks).1 ≡ 0)
unfolding find_next_task
find_next_task_normal current count pid tasks hc hp f h =
    elim (Option-cases (search_by_priority normal 1 current tasks)) [
      | inl e ↦ absurd (search-ne-none normal 1 current pid tasks (omega arith) hc hp f e)
      | inr (x, e) ↦ (x, ground arith, search-fits normal 1 current tasks x e, ground arith)
    ]

-- A high task that can run is picked while fewer than three have been in a row, and is counted.
pub find_next_task_high :
    (current count pid : ℕ) (tasks : TaskTable)
    → current < max_tasks
    → pid < max_tasks
    → fits high (tasks pid) ≡ true
    → count < high_priority_pick_limit
    → (picked : ℕ) × ((find_next_task current count tasks).0 ≡ some picked)
      × (fits high (tasks picked) ≡ true)
      × ((find_next_task current count tasks).1 ≡ count + 1)
unfolding find_next_task
find_next_task_high current count pid tasks hc hp f h =
    elim (Option-cases (search_by_priority high 1 current tasks)) [
      | inl e ↦ absurd (search-ne-none high 1 current pid tasks (omega arith) hc hp f e)
      | inr (x, e) ↦
          rw (lt→ltb count high_priority_pick_limit h, e)
            (x, refl, search-fits high 1 current tasks x e, refl)
    ]
