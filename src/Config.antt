-- ===== src/Config.antt =====
-- The constants of kernel/include/config.h that the models use.
use taavi_os.Common.{ℕ, ◌%◌, ◌^◌, ◌≡◌, arith}

-- A function that returns `int` returns its 32-bit pattern: STATUS_ERROR is -1.
abbrev pub status_ok : ℕ
status_ok = 0

abbrev pub status_error : ℕ
status_error = 0xFFFF_FFFF

pub ok_ne_error : ¬ (status_ok ≡ status_error)
ok_ne_error e = omega (arith, e)

abbrev pub max_tasks : ℕ
max_tasks = 256

abbrev pub max_fd_entries : ℕ
max_fd_entries = 256

abbrev pub max_fs_req_entries : ℕ
max_fs_req_entries = 50

abbrev pub max_gui_req_entries : ℕ
max_gui_req_entries = 500

abbrev pub max_reaper_req_entries : ℕ
max_reaper_req_entries = 20

abbrev pub max_doc_req_entries : ℕ
max_doc_req_entries = 5

abbrev pub clerk_count : ℕ
clerk_count = 5

abbrev pub idle_task_pid : ℕ
idle_task_pid = 0

abbrev pub fs_task_pid : ℕ
fs_task_pid = 1

abbrev pub reaper_task_pid : ℕ
reaper_task_pid = 2

abbrev pub gui_task_pid : ℕ
gui_task_pid = 3

abbrev pub doc_clerk_pid : ℕ
doc_clerk_pid = 4

-- Casts to uint8_t, uint16_t and uint32_t.
abbrev pub u8 : ℕ → ℕ
u8 n = n % 256

abbrev pub u16 : ℕ → ℕ
u16 n = n % 65536

abbrev pub u32 : ℕ → ℕ
u32 n = n % 2 ^ 32
