-- ===== src/Recovery/Tests.antt =====
-- The recovery of the file system clerk, in the middle of a request of task 7.
use taavi_os.Common.{ℕ, ◌+◌, ◌≡◌, refl, none, some, [], ◌∷◌, ◌==◌, if◌then◌else◌, arith}
use taavi_os.Config.{fs_task_pid}
use taavi_os.Task.{Task, TaskState, Priority, TaskMode}
use taavi_os.Ledger.Operation
use taavi_os.Ledger.Types.{Status, Request, ClerkQueue, World, Allocator, blank_request, put_queue}
use taavi_os.Ledger.Queue.{ledger_get_queue, ledger_init}
use taavi_os.Recovery.Blankie.{Blankie, Registry, find_blankie}
use taavi_os.Recovery.HailMary.{clerk_recovery}
use taavi_os.Recovery.Laws.{Recovered, recovery-Recovered}

abbrev bump : Allocator
bump = record { Heap = ℕ; kmalloc = λ n h. (some h, h + n); kfree = λ a h. h }

abbrev clerk : Task
clerk = record {
  context = record {
    eip = 1234;
    cs = 8;
    eflags = 512;
    esp = 60000;
    ebp = 60008;
    useresp = 0;
    ss = 0;
  };
  page_dir = 4096;
  state = TaskState.running;
  name = [];
  pid = fs_task_pid;
  kernel_stack = 65536;
  heap_start = 0;
  heap_end = 0;
  interrupt_frame = 0;
  started = 1;
  priority = Priority.high;
  task_mode = TaskMode.kernel;
}

abbrev caller : Task
caller = record clerk { state = TaskState.blocked; pid = 7; task_mode = TaskMode.user }

abbrev home : Blankie
home = record { pid = fs_task_pid; entry_point = 1000; stack_top = 65536 }

abbrev empty : Registry
empty = none ∷ none ∷ none ∷ none ∷ none ∷ []

abbrev registry : Registry
registry = some home ∷ none ∷ none ∷ none ∷ none ∷ []

abbrev request : Request
request = record (blank_request 4096) {
  caller_pid = 7;
  clerk_pid = fs_task_pid;
  request_type = Operation.read;
  status = Status.in_progress;
}

abbrev serving : ClerkQueue
serving = record { table = some request ∷ none ∷ []; last_idx = some 0 }

abbrev faulted : World ℕ
faulted = put_queue fs_task_pid serving (record {
  queues = ledger_init;
  tasks =
      λ pid. if pid == fs_task_pid then some clerk else (if pid == 7 then some caller else none);
  heap = 4096;
})

faulted_queue : ledger_get_queue fs_task_pid faulted ≡ some serving
unfolding ledger_get_queue
faulted_queue = refl

empty_find : find_blankie fs_task_pid empty ≡ none
unfolding find_blankie
empty_find = refl

registry_find : find_blankie fs_task_pid registry ≡ some home
unfolding find_blankie
registry_find = refl

recovery-Recovered_example :
    Recovered home fs_task_pid serving 0 request faulted
      (clerk_recovery registry fs_task_pid faulted)
recovery-Recovered_example =
    recovery-Recovered registry fs_task_pid faulted (omega arith) refl registry_find faulted_queue
      refl refl
