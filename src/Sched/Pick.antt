-- ===== src/Sched/Pick.antt =====
-- sched.c: `__scheduler_search_by_priority` and `scheduler_find_next_task`.
use taavi_os.Common.{
  ℕ, zero, suc, ◌+◌, ◌-◌, ◌%◌, Bool, false, ◌&&◌, ◌||◌, Option, none, some, ltb, if◌then◌else◌,
}
use taavi_os.Config.{max_tasks}
use taavi_os.Task.{
  Task, TaskTable, Priority, high, normal, low, is_ready, is_running, same_priority,
}

-- `current_pid`, `high_prio_pick_count` and `doc_maintenaince_counter`; a `current_pid` of -1 is `none`.
pub record Sched : Type 0 where
  pub current_pid : Option ℕ
  pub scheduler_on : Bool
  pub high_prio_pick_count : ℕ
  pub doc_maintenaince_counter : ℕ

abbrev pub high_priority_pick_limit : ℕ
high_priority_pick_limit = 3

-- The test of the search: a task of this priority that is READY or RUNNING.
abbrev pub task_fits : Priority → Task → Bool
task_fits p t = same_priority t.priority p && (is_ready t.state || is_running t.state)

abbrev pub fits : Priority → Option Task → Bool
fits p none = false
fits p (some t) = task_fits p t

-- The loop from offset `i` on, `n` rounds left; `next_idx = (current_pid + i) % MAX_TASKS`.
unfoldable pub search_from : Priority → ℕ → TaskTable → ℕ → ℕ → Option ℕ
search_from p current tasks zero i = none
search_from p current tasks (suc n) i =
    let rest = search_from p current tasks n (i + 1) in
    if fits p (tasks ((current + i) % max_tasks)) then some ((current + i) % max_tasks) else rest

-- `__scheduler_search_by_priority(priority, &out, starting_pos)`: `i` runs from `starting_pos` up to
-- and including MAX_TASKS.
unfoldable pub search_by_priority : Priority → ℕ → ℕ → TaskTable → Option ℕ
unfolding search_from
search_by_priority p start current tasks = search_from p current tasks (max_tasks + 1 - start) start

-- A search that succeeds sets `high_prio_pick_count` and ends the function; else the next one runs.
abbrev pub or_else : Option ℕ → ℕ → Option ℕ × ℕ → Option ℕ × ℕ
or_else none count next = next
or_else (some pid) count next = (some pid, count)

-- `scheduler_find_next_task`: the pid, `none` for STATUS_ERROR, and `high_prio_pick_count` after it.
unfoldable pub find_next_task : ℕ → ℕ → TaskTable → Option ℕ × ℕ
unfolding search_by_priority
find_next_task current count tasks =
    or_else
      (if ltb count high_priority_pick_limit then search_by_priority high 1 current tasks else none)
      (count + 1)
      (or_else (search_by_priority normal 1 current tasks) 0 (
        or_else (search_by_priority high 0 current tasks) 1 (
          or_else (search_by_priority normal 0 current tasks) 0
            (or_else (search_by_priority low 1 current tasks) 0 (none, count)))))
