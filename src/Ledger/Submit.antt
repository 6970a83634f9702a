-- ===== src/Ledger/Submit.antt =====
-- ledger_core.c, what a task calls to make a request: `ledger_add_fs_req`, `ledger_add_gui_req`,
-- `ledger_add_doc_req` and `ledger_queue_free_req`. Each returns its status and the new state.
use taavi_os.Common.{
  ℕ, ◌+◌, ◌*◌, ◌/◌, Bool, ◌&&◌, ◌||◌, Option, none, some, List, [], ◌∷◌, ◌++◌, take, ltb, leb, ◌==◌,
  if◌then◌else◌,
}
use taavi_os.Config.{
  status_error, max_tasks, max_fd_entries, max_fs_req_entries, max_gui_req_entries, fs_task_pid,
  gui_task_pid, doc_clerk_pid, u8, u16, u32,
}
use taavi_os.Ledger.Operation
use taavi_os.Ledger.Types.{Request, World, Allocator, request_table_size, blank_request}
use taavi_os.Ledger.Queue.{scheduler_wake_task, queue_req}
use taavi_os.Ledger.Serve.{ledger_count_all_clerk_reqs}

-- `gui_params_pack`; `none` is a NULL pointer, and a list is what a pointer of the caller points to.
pub record GuiParamsPack : Type 0 where
  pub buf : Option (List ℕ)
  pub pixels : Option (List ℕ)
  pub buffer_size : ℕ
  pub width : ℕ
  pub height : ℕ
  pub x : ℕ
  pub y : ℕ
  pub fg_color : ℕ
  pub bg_color : ℕ
  pub scale : ℕ
  pub struct_key : ℕ
  pub opcode : ℕ

-- `case_error:`
abbrev pub case_error : {H : Type 0} → ℕ → World H → ℕ × World H
case_error caller_pid w = (status_error, scheduler_wake_task caller_pid w)

-- The `fd` test of `ledger_add_fs_req`.
abbrev pub is_bad_fd : ℕ → ℕ → Bool
is_bad_fd fd type =
    (ltb fd 2 || ltb max_fd_entries fd) && (type == Operation.read || type == Operation.write)

-- the fields that `ledger_add_fs_req` sets before it copies the buffer
abbrev pub fs_request : ℕ → ℕ → ℕ → ℕ → ℕ → ℕ → Request
fs_request a caller_pid type fd buffer_size flags = record (blank_request a) {
  caller_pid = u16 caller_pid;
  clerk_pid = fs_task_pid;
  request_type = u8 type;
  flags = flags;
  struct_key = fd;
  buffer_size = buffer_size;
}

abbrev pub gui_request : ℕ → ℕ → GuiParamsPack → Request
gui_request a caller_pid params = record (blank_request a) {
  caller_pid = u16 caller_pid;
  struct_key = params.struct_key;
  clerk_pid = gui_task_pid;
  target_pid = u16 caller_pid;
  request_type = u8 params.opcode;
  width = u16 params.width;
  height = u16 params.height;
  x = u16 params.x;
  y = u16 params.y;
  scale = u8 params.scale;
  fg_color = params.fg_color;
  bg_color = params.bg_color;
}

abbrev pub free_request : ℕ → ℕ → ℕ → ℕ → Request
free_request a caller_pid clerk_pid target_pid = record (blank_request a) {
  caller_pid = u16 caller_pid;
  target_pid = u16 target_pid;
  request_type = Operation.free;
  clerk_pid = u8 clerk_pid;
}

abbrev pub doc_request : ℕ → ℕ → ℕ → Request
doc_request a caller_pid opcode = record (blank_request a) {
  caller_pid = u16 caller_pid;
  clerk_pid = doc_clerk_pid;
  request_type = u8 opcode;
}

-- `params->width * params->height * sizeof(uint32_t)`
abbrev pub pixel_bytes : GuiParamsPack → ℕ
pixel_bytes params = u32 (params.width * params.height * 4)

-- The copy of `n` bytes, with the zero byte that ends it.
abbrev pub with_buf : ℕ → List ℕ → ℕ → Request → Request
with_buf b bytes n r = record r {
  buf = some (record { addr = b; content = take n bytes ++ 0 ∷ [] });
  buffer_size = n;
}

-- The copy of the pixels: `n` pixels are in `pixel_bytes` bytes.
abbrev pub with_pixels : ℕ → List ℕ → ℕ → Request → Request
with_pixels b px n r = record r { pixels = some (record { addr = b; content = take n px }) }

module _ (al : Allocator) where
  open al use {Heap, kmalloc, kfree}

  -- `new_request->buf` after its `kmalloc`, up to `return`. On failure only `new_request` itself is
  -- freed.
  unfoldable pub fill_buf : ℕ → List ℕ → ℕ → Request → Option ℕ → World Heap → ℕ × World Heap
  fill_buf caller_pid bytes n r none w =
      case_error caller_pid (record w { heap = kfree r.addr w.heap })
  fill_buf caller_pid bytes n r (some b) w = queue_req al (with_buf b bytes n r) w

  -- `if (buf != NULL) …` to the end of the function
  unfoldable pub attach_buf : ℕ → Option (List ℕ) → ℕ → Request → World Heap → ℕ × World Heap
  unfolding fill_buf
  attach_buf caller_pid none n r w = queue_req al r w
  attach_buf caller_pid (some bytes) n r w =
      let (b, h) = kmalloc (u32 (n + 1)) w.heap in
      fill_buf caller_pid bytes n r b (record w { heap = h })

  -- `ledger_add_fs_req` after its first `kmalloc`
  unfoldable pub fs_with_memory :
      ℕ → ℕ → ℕ → Option (List ℕ) → ℕ → ℕ → Option ℕ → World Heap → ℕ × World Heap
  unfolding attach_buf
  fs_with_memory caller_pid type fd buf buffer_size flags none w = case_error caller_pid w
  fs_with_memory caller_pid type fd buf buffer_size flags (some a) w =
      attach_buf caller_pid buf buffer_size (fs_request a caller_pid type fd buffer_size flags) w

  unfoldable pub ledger_add_fs_req :
      ℕ → ℕ → ℕ → Option (List ℕ) → ℕ → ℕ → World Heap → ℕ × World Heap
  unfolding fs_with_memory
  ledger_add_fs_req caller_pid type fd buf buffer_size flags w =
      let (a, h) = kmalloc request_table_size w.heap in
      let rest =
        fs_with_memory caller_pid type fd buf buffer_size flags a (record w { heap = h }) in
      if leb max_fs_req_entries (ledger_count_all_clerk_reqs fs_task_pid w)
      then case_error caller_pid w
      else (if is_bad_fd fd type then case_error caller_pid w else rest)

  -- `new_request->pixels` after its `kmalloc`, and the rest of `ledger_add_gui_req`
  unfoldable pub fill_pixels :
      ℕ → GuiParamsPack → List ℕ → Request → Option ℕ → World Heap → ℕ × World Heap
  unfolding attach_buf
  fill_pixels caller_pid params px r none w =
      case_error caller_pid (record w { heap = kfree r.addr w.heap })
  fill_pixels caller_pid params px r (some b) w =
      attach_buf caller_pid params.buf params.buffer_size
        (with_pixels b px (pixel_bytes params / 4) r) w

  -- `if (params->pixels != NULL) …` to the end of the function
  unfoldable pub attach_pixels :
      ℕ → GuiParamsPack → Option (List ℕ) → Request → World Heap → ℕ × World Heap
  unfolding fill_pixels
  attach_pixels caller_pid params none r w = attach_buf caller_pid params.buf params.buffer_size r w
  attach_pixels caller_pid params (some px) r w =
      let (b, h) = kmalloc (pixel_bytes params) w.heap in
      fill_pixels caller_pid params px r b (record w { heap = h })

  unfoldable pub gui_with_memory : ℕ → GuiParamsPack → Option ℕ → World Heap → ℕ × World Heap
  unfolding attach_pixels
  gui_with_memory caller_pid params none w = case_error caller_pid w
  gui_with_memory caller_pid params (some a) w =
      attach_pixels caller_pid params params.pixels (gui_request a caller_pid params) w

  unfoldable pub ledger_add_gui_req : ℕ → GuiParamsPack → World Heap → ℕ × World Heap
  unfolding gui_with_memory
  ledger_add_gui_req caller_pid params w =
      let (a, h) = kmalloc request_table_size w.heap in
      let rest = gui_with_memory caller_pid params a (record w { heap = h }) in
      if leb max_gui_req_entries (ledger_count_all_clerk_reqs gui_task_pid w)
      then case_error caller_pid w
      else rest

  unfoldable pub doc_with_memory : ℕ → ℕ → Option ℕ → World Heap → ℕ × World Heap
  doc_with_memory caller_pid opcode none w = case_error caller_pid w
  doc_with_memory caller_pid opcode (some a) w = queue_req al (doc_request a caller_pid opcode) w

  unfoldable pub ledger_add_doc_req : ℕ → ℕ → World Heap → ℕ × World Heap
  unfolding doc_with_memory
  ledger_add_doc_req caller_pid opcode w =
      let (a, h) = kmalloc request_table_size w.heap in
      doc_with_memory caller_pid opcode a (record w { heap = h })

  unfoldable pub free_with_memory : ℕ → ℕ → ℕ → Option ℕ → World Heap → ℕ × World Heap
  free_with_memory caller_pid clerk_pid target_pid none w = (status_error, w)
  free_with_memory caller_pid clerk_pid target_pid (some a) w =
      queue_req al (free_request a caller_pid clerk_pid target_pid) w

  -- The two early returns wake nobody.
  unfoldable pub ledger_queue_free_req : ℕ → ℕ → ℕ → World Heap → ℕ × World Heap
  unfolding free_with_memory
  ledger_queue_free_req caller_pid clerk_pid target_pid w =
      let (a, h) = kmalloc request_table_size w.heap in
      let rest = free_with_memory caller_pid clerk_pid target_pid a (record w { heap = h }) in
      if leb max_tasks caller_pid || leb max_tasks target_pid then (status_error, w) else rest
