-- ===== src/Ledger/Tests.antt =====
-- Runs of the ledger on small inputs, and its theorems at concrete ones.
use taavi_os.Common.{
  ℕ, zero, suc, ◌+◌, ◌≡◌, refl, Bool, true, none, some, [], ◌∷◌, ◌==◌, if◌then◌else◌, arith,
}
use taavi_os.Config.{status_ok, status_error, fs_task_pid}
use taavi_os.Task.{Task, Registers, TaskState, Priority, TaskMode}
use taavi_os.Ledger.Operation
use taavi_os.Ledger.Types.{
  in_progress, complete, terminated, Block, Request, ClerkQueue, World, Allocator, blank_request,
  put_queue,
}
use taavi_os.Ledger.Queue.{ledger_get_queue, ledger_init, queue_req}
use taavi_os.Ledger.Serve.{
  queue_count, open_test, ledger_fetch_next_req, set_request, ledger_count_all_clerk_reqs,
}
use taavi_os.Ledger.Collect.{collectable, ledger_collect}
use taavi_os.Ledger.Submit.{GuiParamsPack, ledger_add_fs_req}
use taavi_os.Ledger.Reap.{ledger_remove_request}
use taavi_os.Ledger.Entries.{NoneHolds}
use taavi_os.Ledger.Fetch.{Fetched, fetch_next_req-Fetched}
use taavi_os.Ledger.Answer.{IsReadAnswer, store-collect}
use taavi_os.Ledger.Valid.{IsValid, Step, Reach, Reach-IsValid, init-IsValid}
use taavi_os.Ledger.Reaping.{Reaped, remove_request-Reaped}

-- An allocator that never frees: the heap is the next address.
abbrev bump : Allocator
bump = record { Heap = ℕ; kmalloc = λ n h. (some h, h + n); kfree = λ a h. h }

abbrev registers : Registers
registers = record { eip = 0; cs = 0; eflags = 0; esp = 0; ebp = 0; useresp = 0; ss = 0 }

abbrev blocked_task : Task
blocked_task = record {
  context = registers;
  page_dir = 4096;
  state = TaskState.blocked;
  name = [];
  pid = 7;
  kernel_stack = 65536;
  heap_start = 0;
  heap_end = 0;
  interrupt_frame = 0;
  started = 1;
  priority = Priority.normal;
  task_mode = TaskMode.user;
}

-- Task 7 waits, the ledger is empty.
abbrev start : World ℕ
start = record {
  queues = ledger_init;
  tasks = λ pid. if pid == 7 then some blocked_task else none;
  heap = 4096;
}

abbrev params : GuiParamsPack
params = record {
  buf = some (72 ∷ 105 ∷ []);
  pixels = some (0 ∷ 1 ∷ 2 ∷ 3 ∷ []);
  buffer_size = 2;
  width = 2;
  height = 2;
  x = 0;
  y = 0;
  fg_color = 0;
  bg_color = 0;
  scale = 1;
  struct_key = 0;
  opcode = 13;
}

-- The read request of task 7 is queued, and the clerk starts it.
abbrev asked : World ℕ
asked = (ledger_add_fs_req bump 7 Operation.read 3 none 16 0 start).1

asked_status : (ledger_add_fs_req bump 7 Operation.read 3 none 16 0 start).0 ≡ status_ok
unfolding ledger_add_fs_req ledger_init ledger_count_all_clerk_reqs queue_req
asked_status = refl

asked_count : queue_count open_test fs_task_pid asked ≡ 1
unfolding ledger_add_fs_req ledger_init ledger_count_all_clerk_reqs queue_req queue_count
asked_count = refl

bad_descriptor : (ledger_add_fs_req bump 7 Operation.read 1 none 16 0 start).0 ≡ status_error
unfolding ledger_add_fs_req ledger_init ledger_count_all_clerk_reqs queue_req
bad_descriptor = refl

asks : Step bump start asked
asks = Step.add_fs 7 Operation.read 3 none 16 0 refl

start-IsValid : IsValid start
start-IsValid = init-IsValid bump start (λ c. refl)

Reach-IsValid_example : IsValid asked
Reach-IsValid_example = Reach-IsValid bump (Reach.next Reach.here asks) start-IsValid

fetch_next_req-Fetched_example : Fetched fs_task_pid asked (ledger_fetch_next_req fs_task_pid asked)
fetch_next_req-Fetched_example = fetch_next_req-Fetched fs_task_pid asked

-- A read of task 7 in progress at entry 0 of a short table of the file system clerk.
abbrev reading : Request
reading = record (blank_request 4096) {
  caller_pid = 7;
  clerk_pid = fs_task_pid;
  request_type = Operation.read;
  status = in_progress;
}

abbrev serving : ClerkQueue
serving = record { table = some reading ∷ none ∷ []; last_idx = some 0 }

abbrev busy : World ℕ
busy = put_queue fs_task_pid serving start

busy_queue : ledger_get_queue fs_task_pid busy ≡ some serving
unfolding ledger_get_queue
busy_queue = refl

abbrev answer_block : Block
answer_block = record { addr = 5000; content = 72 ∷ 105 ∷ [] }

abbrev read_done : Request
read_done = record reading { status = complete; buf = some answer_block; buffer_size = 2 }

read_done-IsReadAnswer : IsReadAnswer 7 read_done answer_block
read_done-IsReadAnswer = record {
  owner = refl;
  status_eq = refl;
  type_eq = refl;
  buf_eq = refl;
  within = omega arith;
}

nothing_waits : NoneHolds (collectable 7) serving.table
nothing_waits zero = refl
nothing_waits (suc zero) = refl
nothing_waits (suc (suc j)) = refl

store-collect_example :
    (w' : World ℕ) × (ledger_collect 7 fs_task_pid true (set_request fs_task_pid 0 read_done busy)
      ≡ some (2, some (72 ∷ 105 ∷ 0 ∷ []), w'))
    × ((out : Bool) → ledger_collect 7 fs_task_pid out w' ≡ some (status_error, none, w'))
store-collect_example =
    store-collect 7 fs_task_pid 0 busy busy_queue (omega arith) nothing_waits read_done-IsReadAnswer

-- The same queue once the caller has its answer.
abbrev over : World ℕ
over =
    put_queue fs_task_pid
      (record serving { table = some (record read_done { status = terminated }) ∷ none ∷ [] }) start

remove_request-Reaped_example : Reaped bump over (ledger_remove_request bump over)
remove_request-Reaped_example = remove_request-Reaped bump over

over_reaped : (ledger_remove_request bump over).0 ≡ 1
unfolding ledger_remove_request ledger_init
over_reaped = refl
