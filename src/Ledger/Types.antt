-- ===== src/Ledger/Types.antt =====
-- The state of the ledger: kernel/arch/x86/include/protocols/ledger.h, the tables at the top of
-- kernel/arch/x86/protocols/ledger_core.c, and what its functions reach beyond them.
use taavi_os.Common.{ℕ, Bool, true, false, Option, none, some, List, ◌==◌, if◌then◌else◌}
use taavi_os.Task.{TaskTable}

-- `reqistry_status`
pub data Status : Type 0 where
  pending in_progress complete terminated failed : Status

abbrev pub is_pending : Status → Bool
is_pending pending = true
is_pending _ = false

abbrev pub is_in_progress : Status → Bool
is_in_progress in_progress = true
is_in_progress _ = false

abbrev pub is_terminated : Status → Bool
is_terminated terminated = true
is_terminated _ = false

-- The status is PENDING or IN_PROGRESS.
abbrev pub is_open : Status → Bool
is_open pending = true
is_open in_progress = true
is_open _ = false

-- The status is COMPLETE or FAILED: the clerk has answered.
abbrev pub is_answered : Status → Bool
is_answered complete = true
is_answered failed = true
is_answered _ = false

-- What a pointer from `kmalloc` points to: its address, and the bytes (or pixels) stored there.
pub record Block : Type 0 where
  pub addr : ℕ
  pub content : List ℕ

-- `request_table`. A table entry owns its request, so an entry stands for the pointer and what it
-- points to; `addr` is the pointer's value.
pub record Request : Type 0 where
  pub addr : ℕ
  pub buf : Option Block
  pub pixels : Option Block
  pub struct_key : ℕ
  pub fg_color : ℕ
  pub bg_color : ℕ
  pub buffer_size : ℕ
  pub flags : ℕ
  pub caller_pid : ℕ
  pub target_pid : ℕ
  pub width : ℕ
  pub height : ℕ
  pub x : ℕ
  pub y : ℕ
  pub status : Status
  pub request_type : ℕ
  pub clerk_pid : ℕ
  pub scale : ℕ

-- `fs_table` and the like; `none` is NULL.
abbrev pub Table : Type 0
Table = List (Option Request)

-- `clerk_queue`: `max_entries` is the length of the table, and -1 in `*last_idx` is `none`.
pub record ClerkQueue : Type 0 where
  pub table : Table
  pub last_idx : Option ℕ

-- The ledger's queues, the task table that it wakes tasks in, and the kernel heap. `queues c` is
-- `clerk_queues[c]`, `none` where its table is NULL.
pub record World (H : Type 0) : Type 0 where
  pub queues : ℕ → Option ClerkQueue
  pub tasks : TaskTable
  pub heap : H

-- The kernel heap as the ledger uses it: `kmalloc` may return NULL.
pub record Allocator : Type 1 where
  pub Heap : Type 0
  pub kmalloc : ℕ → Heap → Option ℕ × Heap
  pub kfree : ℕ → Heap → Heap

-- sizeof(request_table) on i386: two pointers, five uint32_t, six uint16_t and four uint8_t.
abbrev pub request_table_size : ℕ
request_table_size = 44

-- `memset(new_request, 0, sizeof(request_table))`: PENDING and WRITE are 0.
abbrev pub blank_request : ℕ → Request
blank_request a = record {
  addr = a;
  buf = none;
  pixels = none;
  struct_key = 0;
  fg_color = 0;
  bg_color = 0;
  buffer_size = 0;
  flags = 0;
  caller_pid = 0;
  target_pid = 0;
  width = 0;
  height = 0;
  x = 0;
  y = 0;
  status = pending;
  request_type = 0;
  clerk_pid = 0;
  scale = 0;
}

abbrev pub put_queue : {H : Type 0} → ℕ → ClerkQueue → World H → World H
put_queue c q w = record w { queues = λ d. if c == d then some q else w.queues d }
