-- ===== src/Sched/Tests.antt =====
-- Runs of the scheduler on a small task table, and its theorems at it.
use taavi_os.Common.{ℕ, ◌≡◌, refl, true, none, some, [], ◌==◌, if◌then◌else◌, arith}
use taavi_os.Task.{Task, TaskTable, TaskState, Priority, TaskMode, Registers}
use taavi_os.Ledger.Queue.{ledger_init}
use taavi_os.Sched.Pick.{find_next_task}
use taavi_os.Sched.Switch.{Machine, scheduler_switch}
use taavi_os.Sched.SwitchLaws.{OnlyRuns, Switched}
use taavi_os.Sched.Progress.{switch_runs}

abbrev registers : Registers
registers = record { eip = 0; cs = 0; eflags = 0; esp = 0; ebp = 0; useresp = 0; ss = 0 }

-- The idle clerk, before its first run.
abbrev idle : Task
idle = record {
  context = registers;
  page_dir = 4096;
  state = TaskState.sleeping;
  name = [];
  pid = 0;
  kernel_stack = 65536;
  heap_start = 0;
  heap_end = 0;
  interrupt_frame = 0;
  started = 0;
  priority = Priority.low;
  task_mode = TaskMode.kernel;
}

abbrev worker : Task
worker = record idle {
  state = TaskState.running;
  pid = 7;
  started = 1;
  priority = Priority.normal;
  task_mode = TaskMode.user;
}

abbrev drawer : Task
drawer = record idle { state = TaskState.ready; pid = 9; started = 1; priority = Priority.high }

-- The idle clerk sleeps, task 7 runs, and task 9, of high priority, is ready.
abbrev tasks : TaskTable
tasks pid =
    if pid == 0
    then some idle
    else (if pid == 7 then some worker else (if pid == 9 then some drawer else none))

abbrev machine : Machine ℕ
machine = record {
  sched = record {
    current_pid = some 7;
    scheduler_on = true;
    high_prio_pick_count = 0;
    doc_maintenaince_counter = 0;
  };
  world = record { queues = ledger_init; tasks = tasks; heap = 4096 };
  windows = λ i. none;
  page_dir = 4096;
  kernel_stack = 65536;
}

picks_drawer : (find_next_task 7 0 tasks).0 ≡ some 9
unfolding find_next_task
picks_drawer = refl

worker_only : OnlyRuns 7 tasks
worker_only pid t e k = ground arith

switch_runs_example :
    (frame : ℕ) × (m' : Machine ℕ) × (scheduler_switch 7 60000 machine ≡ some (frame, m'))
    × Switched m'
switch_runs_example = switch_runs 7 60000 machine (omega arith) (idle, refl, refl) worker_only
