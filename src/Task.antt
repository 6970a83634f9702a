-- ===== src/Task.antt =====
-- The task table of the 32-bit kernel: kernel/arch/x86/include/i386/task.h, and the lookups of
-- kernel/arch/x86/tcb/task.c. A slot of `task_table` is `none` where the source has NULL.
pub mod Update
use taavi_os.Common.{
  ℕ, zero, suc, ◌||◌, Bool, true, false, Option, none, some, List, ltb, ◌==◌, if◌then◌else◌,
}
use taavi_os.Config.{max_tasks}

-- `task_state_t`
pub data TaskState : Type 0 where
  ready running blocked sleeping dead : TaskState

-- `task_priority_t`
pub data Priority : Type 0 where
  high normal low : Priority

-- `task_mode`: USER_TASK or KERNEL_TASK
pub data TaskMode : Type 0 where
  user kernel : TaskMode

-- The part of `struct registers` that the kernel itself writes.
pub record Registers : Type 0 where
  pub eip : ℕ
  pub cs : ℕ
  pub eflags : ℕ
  pub esp : ℕ
  pub ebp : ℕ
  pub useresp : ℕ
  pub ss : ℕ

-- `task_t`; `page_dir` is the address of the directory.
pub record Task : Type 0 where
  pub context : Registers
  pub page_dir : ℕ
  pub state : TaskState
  pub name : List ℕ
  pub pid : ℕ
  pub kernel_stack : ℕ
  pub heap_start : ℕ
  pub heap_end : ℕ
  pub interrupt_frame : ℕ
  pub started : ℕ
  pub priority : Priority
  pub task_mode : TaskMode

-- `task_table`, an array of MAX_TASKS pointers; the code reads it at a pid below MAX_TASKS.
abbrev pub TaskTable : Type 0
TaskTable = ℕ → Option Task

abbrev pub is_ready : TaskState → Bool
is_ready ready = true
is_ready _ = false

abbrev pub is_running : TaskState → Bool
is_running running = true
is_running _ = false

abbrev pub is_sleeping : TaskState → Bool
is_sleeping sleeping = true
is_sleeping _ = false

abbrev pub is_dead : TaskState → Bool
is_dead dead = true
is_dead _ = false

abbrev pub is_user : TaskMode → Bool
is_user user = true
is_user kernel = false

abbrev pub same_priority : Priority → Priority → Bool
same_priority high high = true
same_priority normal normal = true
same_priority low low = true
same_priority _ _ = false

-- `blueprint_t`, the window of a program; `none` in `program_windows` is NULL.
pub record Blueprint : Type 0 where
  pub owner_pid : ℕ
  pub width : ℕ
  pub height : ℕ
  pub screen_x : ℕ
  pub screen_y : ℕ
  pub dirty_flag : ℕ

abbrev pub is_dirty : Option Blueprint → Bool
is_dirty none = false
is_dirty (some b) = b.dirty_flag == 1

-- Whether a test holds at some index below `n`: the loop of a search that returns 1 at the first.
abbrev pub any_below : ℕ → (ℕ → Bool) → Bool
any_below zero p = false
any_below (suc n) p = any_below n p || p n

unfoldable pub task_has_dirty_buffer : (ℕ → Option Blueprint) → Bool
task_has_dirty_buffer windows = any_below max_tasks (λ i. is_dirty (windows i))

unfoldable pub task_get : ℕ → TaskTable → Option Task
task_get index tasks = if ltb index max_tasks then tasks index else none

-- `task_table[pid] = t`
abbrev pub put_task : ℕ → Option Task → TaskTable → TaskTable
put_task pid t tasks i = if pid == i then t else tasks i

-- a write to fields of `*task_table[pid]`, where that is not NULL
abbrev pub update_task : ℕ → (Task → Task) → TaskTable → TaskTable
update_task pid f tasks = elim (tasks pid) [
  | none ↦ tasks
  | some t ↦ put_task pid (some (f t)) tasks
]

abbrev pub set_state : TaskState → Task → Task
set_state s t = record t { state = s }
