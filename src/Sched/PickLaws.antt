-- ===== src/Sched/PickLaws.antt =====
-- What the scheduler's choice promises: a task that can run, the next one in the round, no starvation
-- of normal tasks by high ones, and a choice whenever there is one.
use taavi_os.Common.{
  ℕ, zero, suc, ◌+◌, ◌-◌, ◌%◌, ◌<◌, ◌≤◌, ◌≡◌, ◌≢◌, inl, inr, refl, ap, true, false, Option, none,
  some, ◌==◌, Bool-cases, ==_iff, subst, arith,
}
use taavi_os.Config.{max_tasks}
use taavi_os.Task.{TaskTable, Priority}
use taavi_os.Sched.Pick.{fits, search_from, search_by_priority}

-- The slot at offset `i` from the current task.
abbrev pub slot_at : ℕ → ℕ → ℕ
slot_at current i = (current + i) % max_tasks

-- What a search of `n` offsets from `i` on says of the table.
abbrev pub Sought : Priority → ℕ → TaskTable → ℕ → ℕ → Option ℕ → Type 0
Sought p current tasks n i none =
    (j : ℕ) → i ≤ j → j < i + n → fits p (tasks (slot_at current j)) ≡ false
Sought p current tasks n i (some pid) =
    (k : ℕ) × (i ≤ k)
    × (k < i + n)
    × (pid ≡ slot_at current k)
    × (fits p (tasks pid) ≡ true)
    × ((j : ℕ) → i ≤ j → j < k → fits p (tasks (slot_at current j)) ≡ false)

sought_first :
    (p : Priority) (current : ℕ) (tasks : TaskTable) (i k : ℕ)
    → fits p (tasks (slot_at current i)) ≡ false
    → ((j : ℕ) → i + 1 ≤ j → j < k → fits p (tasks (slot_at current j)) ≡ false)
    → (j : ℕ) → i ≤ j
    → j < k
    → fits p (tasks (slot_at current j)) ≡ false
sought_first p current tasks i k miss h j lo hi = elim (Bool-cases (i == j)) [
  | inl same ↦ subst (λ x. fits p (tasks (slot_at current x)) ≡ false) ((==_iff i j).0 same) miss
  | inr other ↦ h j (ground arith) hi
]

step_search :
    (p : Priority) (current : ℕ) (tasks : TaskTable) (n i : ℕ) (o : Option ℕ)
    → fits p (tasks (slot_at current i)) ≡ false
    → Sought p current tasks n (i + 1) o
    → Sought p current tasks (suc n) i o
step_search p current tasks n i none miss h =
    sought_first p current tasks i (i + suc n) miss (λ j lo hi. h j lo (omega arith))
step_search p current tasks n i (some pid) miss (k, lo, hi, e, f, first) =
    (k, omega arith, omega arith, e, f, sought_first p current tasks i k miss first)

search_from-Sought :
    (p : Priority) (current : ℕ) (tasks : TaskTable) (n i : ℕ)
    → Sought p current tasks n i (search_from p current tasks n i)
unfolding search_from
search_from-Sought p current tasks zero i = λ j lo hi. absurd (omega arith)
search_from-Sought p current tasks (suc n) i =
    elim (Bool-cases (fits p (tasks (slot_at current i)))) [
      | inl hit ↦ rw hit (i, omega arith, omega arith, refl, hit, λ j lo hi. absurd (omega arith))
      | inr miss ↦ rw miss (
          step_search p current tasks n i (search_from p current tasks n (i + 1)) miss
            (search_from-Sought p current tasks n (i + 1)))
    ]

-- The search gives the first slot in the round from `start` that holds a task of this priority which
-- is READY or RUNNING, or there is none up to and including the whole round.
pub search_by_priority-Sought :
    (p : Priority) (start current : ℕ) (tasks : TaskTable)
    → Sought p current tasks
        (max_tasks + 1 - start)
        start
        (search_by_priority p start current tasks)
unfolding search_by_priority
search_by_priority-Sought p start current tasks =
    search_from-Sought p current tasks (max_tasks + 1 - start) start

-- The offset of a slot from the current task, at least 1.
offset :
    (current pid : ℕ)
    → current < max_tasks
    → pid < max_tasks
    → (j : ℕ) × (1 ≤ j) × (j ≤ max_tasks) × (slot_at current j ≡ pid)
offset current pid hc hp =
    ((pid + max_tasks - current - 1) % max_tasks + 1, omega arith, omega arith, omega arith)

-- A search that starts at 0 or 1 misses no task.
pub search-ne-none :
    (p : Priority) (start current pid : ℕ) (tasks : TaskTable)
    → start ≤ 1
    → current < max_tasks
    → pid < max_tasks
    → fits p (tasks pid) ≡ true
    → search_by_priority p start current tasks ≢ none
search-ne-none p start current pid tasks hs hc hp f =
    missed (search_by_priority p start current tasks)
      (search_by_priority-Sought p start current tasks)
  where
    missed : (o : Option ℕ) → Sought p current tasks (max_tasks + 1 - start) start o → o ≢ none
    missed (some x) h e = cc
    missed none h e =
        let (j, lo, hi, at) = offset current pid hc hp in
        let miss = h j (omega arith) (omega arith) in
        ground (arith, ap (λ x. fits p (tasks x)) at, miss)
