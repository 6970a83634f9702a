-- ===== src/Ledger/Queue.antt =====
-- ledger_core.c: `ledger_get_queue`, `wake_clerk`, `queue_req` and `ledger_init`, with
-- `scheduler_wake_task` of kernel/arch/x86/tcb/sched.c.
use taavi_os.Common.{
  ℕ, Bool, not, ◌&&◌, Option, none, some, [], ◌∷◌, replicate, ltb, ◌==◌, if◌then◌else◌,
}
use taavi_os.Config.{
  status_ok, status_error, max_tasks, clerk_count, fs_task_pid, reaper_task_pid, gui_task_pid,
  doc_clerk_pid, max_fs_req_entries, max_gui_req_entries, max_reaper_req_entries,
  max_doc_req_entries,
}
use taavi_os.Task.{Task, TaskState, Priority, task_get, update_task, set_state}
use taavi_os.Ledger.Types.{Request, Table, ClerkQueue, World, Allocator, put_queue}

-- A pid out of range changes nothing; any state becomes TASK_READY.
unfoldable pub scheduler_wake_task : {H : Type 0} → ℕ → World H → World H
scheduler_wake_task pid w =
    if ltb pid max_tasks
    then record w { tasks = update_task pid (set_state TaskState.ready) w.tasks }
    else w

unfoldable pub ledger_get_queue : {H : Type 0} → ℕ → World H → Option ClerkQueue
ledger_get_queue clerk_pid w = if ltb clerk_pid clerk_count then w.queues clerk_pid else none

-- the clerks whose priority a wake-up raises
abbrev pub is_raised : ℕ → Bool
is_raised clerk_pid = not (clerk_pid == reaper_task_pid) && not (clerk_pid == doc_clerk_pid)

abbrev pub raise : Task → Task
raise t = record t { priority = Priority.high }

unfoldable pub wake_clerk : {H : Type 0} → ℕ → World H → World H
unfolding task_get scheduler_wake_task
wake_clerk clerk_pid w = elim (task_get clerk_pid w.tasks) [
  | none ↦ scheduler_wake_task clerk_pid w
  | some t ↦
      scheduler_wake_task clerk_pid (
        if is_raised clerk_pid then record w { tasks = update_task clerk_pid raise w.tasks } else w)
]

-- The loop of `queue_req`: the first entry that is NULL takes the request.
unfoldable pub place : Request → Table → Option Table
place r [] = none
place r (none ∷ t) = some (some r ∷ t)
place r (some q ∷ t) = elim (place r t) [ none ↦ none | some t' ↦ some (some q ∷ t') ]

module _ (al : Allocator) where
  open al use {Heap, kfree}

  -- `kfree(new_request); scheduler_wake_task(new_request->caller_pid); return STATUS_ERROR;`
  unfoldable pub refuse_req : Request → World Heap → ℕ × World Heap
  unfolding scheduler_wake_task
  refuse_req r w =
      (status_error, scheduler_wake_task r.caller_pid (record w { heap = kfree r.addr w.heap }))

  -- What the loop of `queue_req` found: the table with the request in it, or no free entry.
  unfoldable pub enqueue : Request → ClerkQueue → Option Table → World Heap → ℕ × World Heap
  unfolding wake_clerk refuse_req
  enqueue r q none w = refuse_req r w
  enqueue r q (some t) w =
      (status_ok, wake_clerk r.clerk_pid (put_queue r.clerk_pid (record q { table = t }) w))

  unfoldable pub queue_in : Request → Option ClerkQueue → World Heap → ℕ × World Heap
  unfolding place enqueue
  queue_in r none w = refuse_req r w
  queue_in r (some q) w = enqueue r q (place r q.table) w

  unfoldable pub queue_req : Request → World Heap → ℕ × World Heap
  unfolding ledger_get_queue queue_in
  queue_req r w = queue_in r (ledger_get_queue r.clerk_pid w) w

abbrev pub empty_queue : ℕ → Option ClerkQueue
empty_queue n = some (record { table = replicate n none; last_idx = none })

-- `ledger_init` on the queues that `clerk_queues` declares.
unfoldable pub ledger_init : ℕ → Option ClerkQueue
ledger_init c =
    if c == fs_task_pid
    then empty_queue max_fs_req_entries
    else (if c == gui_task_pid
        then empty_queue max_gui_req_entries
        else (if c == reaper_task_pid
            then empty_queue max_reaper_req_entries
            else (if c == doc_clerk_pid then empty_queue max_doc_req_entries else none)))
