-- ===== src/Ledger/Wake.antt =====
-- No lost wake-up: a caller blocks after its request, so each call must leave a task that goes on.
use taavi_os.Common.{
  ℕ, ◌<◌, ◌≡◌, ◌⊎◌, inl, inr, refl, ◌∙◌, Bool, Option, none, some, List, leb, if◌then◌else◌,
  if_either, arith,
}
use taavi_os.Config.{
  status_ok, status_error, max_tasks, max_gui_req_entries, gui_task_pid, doc_clerk_pid, u8, u16,
}
use taavi_os.Task.{Task, ready}
use taavi_os.Ledger.Types.{Status, Request, Table, ClerkQueue, World, Allocator, put_queue}
use taavi_os.Ledger.Queue.{
  scheduler_wake_task, wake_clerk, ledger_get_queue, place, refuse_req, enqueue, queue_in,
  queue_req,
}
use taavi_os.Ledger.Entries.{Placed, PlaceResult, place-PlaceResult}
use taavi_os.Ledger.Lifecycle.{queue_found}
use taavi_os.Ledger.Steps.{queues-scheduler_wake_task, queues-wake_clerk}
use taavi_os.Ledger.Serve.{ledger_count_all_clerk_reqs}
use taavi_os.Ledger.Submit.{
  GuiParamsPack, case_error, fill_buf, attach_buf, fill_pixels, attach_pixels, gui_with_memory,
  ledger_add_gui_req, doc_with_memory, ledger_add_doc_req, doc_request,
}

-- The task of this pid, if there is one, is ready to run.
abbrev pub IsWoken : {H : Type 0} → ℕ → World H → Type 0
IsWoken pid w = pid < max_tasks → (t : Task) → w.tasks pid ≡ some t → t.state ≡ ready

-- A request that `caller` makes of `clerk`, of this type and about this key, and that waits.
pub record Asks (caller clerk type key : ℕ) (r : Request) : Type 0 where
  pub from : r.caller_pid ≡ caller
  pub to : r.clerk_pid ≡ clerk
  pub kind : r.request_type ≡ type
  pub about : r.struct_key ≡ key
  pub waits : r.status ≡ Status.pending

-- Such a request stands in the table of the clerk, at an entry that was free, and no other entry changed.
pub record IsQueued {H : Type 0} (caller clerk type key : ℕ) (queues : ℕ → Option ClerkQueue)
    (w' : World H) : Type 0 where
  pub request : Request
  pub asks : Asks caller clerk type key request
  pub old : ClerkQueue
  pub table : Table
  pub before : queues clerk ≡ some old
  pub after : w'.queues clerk ≡ some (record old { table = table })
  pub placed : Placed request old.table table

-- The request is queued and its clerk is woken, or it is refused, every queue is as it was, and its
-- caller is woken.
abbrev pub Wakes : {H : Type 0} → ℕ → ℕ → ℕ → ℕ → (ℕ → Option ClerkQueue) → ℕ × World H → Type 0
Wakes caller clerk type key queues res =
    ((res.0 ≡ status_ok) × IsQueued caller clerk type key queues res.1 × IsWoken clerk res.1)
    ⊎ ((res.0 ≡ status_error) × ((c : ℕ) → res.1.queues c ≡ queues c) × IsWoken caller res.1)

wake_task-IsWoken : {H : Type 0} (pid : ℕ) (w : World H) → IsWoken pid (scheduler_wake_task pid w)
unfolding scheduler_wake_task
wake_task-IsWoken pid w lt t e = ground arith

wake_clerk-IsWoken : {H : Type 0} (pid : ℕ) (w : World H) → IsWoken pid (wake_clerk pid w)
unfolding wake_clerk
wake_clerk-IsWoken pid w lt t e = ground arith

module _ (al : Allocator) where
  open al use {Heap, kfree}

  case_error-Wakes :
      (caller clerk type key : ℕ) (w : World Heap)
      → Wakes caller clerk type key w.queues (case_error caller w)
  case_error-Wakes caller clerk type key w =
      inr (refl, queues-scheduler_wake_task caller w, wake_task-IsWoken caller w)

  refuse_req-Wakes :
      (clerk type key : ℕ) (r : Request) (w : World Heap)
      → Wakes r.caller_pid clerk type key w.queues (refuse_req al r w)
  unfolding refuse_req
  refuse_req-Wakes clerk type key r w =
      let w' : World Heap = record w { heap = kfree r.addr w.heap } in
      inr (refl, queues-scheduler_wake_task r.caller_pid w', wake_task-IsWoken r.caller_pid w')

  enqueue-Wakes :
      (type key : ℕ) (r : Request) (q : ClerkQueue) (o : Option Table) (w : World Heap)
      → Asks r.caller_pid r.clerk_pid type key r
      → w.queues r.clerk_pid ≡ some q
      → PlaceResult r q.table o
      → Wakes r.caller_pid r.clerk_pid type key w.queues (enqueue al r q o w)
  unfolding enqueue
  enqueue-Wakes type key r q none w h e p = refuse_req-Wakes r.clerk_pid type key r w
  enqueue-Wakes type key r q (some t) w h e p =
      let w' = put_queue r.clerk_pid (record q { table = t }) w in
      inl (
        refl,
        record {
          request = r;
          asks = h;
          old = q;
          table = t;
          before = e;
          after = queues-wake_clerk r.clerk_pid w' r.clerk_pid ∙ ground arith;
          placed = p;
        },
        wake_clerk-IsWoken r.clerk_pid w',
      )

  queue_in-Wakes :
      (type key : ℕ) (r : Request) (o : Option ClerkQueue) (w : World Heap)
      → Asks r.caller_pid r.clerk_pid type key r
      → ledger_get_queue r.clerk_pid w ≡ o
      → Wakes r.caller_pid r.clerk_pid type key w.queues (queue_in al r o w)
  unfolding queue_in
  queue_in-Wakes type key r none w h e = refuse_req-Wakes r.clerk_pid type key r w
  queue_in-Wakes type key r (some q) w h e =
      enqueue-Wakes type key r q (place r q.table) w h (queue_found r.clerk_pid w e).0
        (place-PlaceResult r q.table)

  -- `queue_req` queues the request and wakes its clerk, or refuses it and wakes its caller.
  pub queue_req-Wakes :
      (caller clerk type key : ℕ) (r : Request) (w : World Heap)
      → Asks caller clerk type key r
      → Wakes caller clerk type key w.queues (queue_req al r w)
  unfolding queue_req
  queue_req-Wakes caller clerk type key r w h =
      rw (← h.from, ← h.to)
        (queue_in-Wakes type key r (ledger_get_queue r.clerk_pid w) w
          (record { from = refl; to = refl; kind = h.kind; about = h.about; waits = h.waits }) refl)

  either :
      (caller clerk type key : ℕ) (queues : ℕ → Option ClerkQueue) (b : Bool) (x y : ℕ × World Heap)
      → Wakes caller clerk type key queues x
      → Wakes caller clerk type key queues y
      → Wakes caller clerk type key queues (if b then x else y)
  either caller clerk type key queues b x y =
      if_either (λ (z : ℕ × World Heap). Wakes caller clerk type key queues z) b x y

  module _ (caller clerk type key : ℕ) where
    fill_buf-Wakes :
        (bytes : List ℕ) (n : ℕ) (r : Request) (b : Option ℕ) (w : World Heap)
        → Asks caller clerk type key r
        → Wakes caller clerk type key w.queues (fill_buf al caller bytes n r b w)
    unfolding fill_buf
    fill_buf-Wakes bytes n r none w h =
        case_error-Wakes caller clerk type key (record w { heap = kfree r.addr w.heap })
    fill_buf-Wakes bytes n r (some b) w h =
        queue_req-Wakes caller clerk type key _ w
          (record { from = h.from; to = h.to; kind = h.kind; about = h.about; waits = h.waits })

    attach_buf-Wakes :
        (buf : Option (List ℕ)) (n : ℕ) (r : Request) (w : World Heap)
        → Asks caller clerk type key r
        → Wakes caller clerk type key w.queues (attach_buf al caller buf n r w)
    unfolding attach_buf
    attach_buf-Wakes none n r w h = queue_req-Wakes caller clerk type key r w h
    attach_buf-Wakes (some bytes) n r w h = fill_buf-Wakes bytes n r _ _ h

    fill_pixels-Wakes :
        (params : GuiParamsPack) (px : List ℕ) (r : Request) (b : Option ℕ) (w : World Heap)
        → Asks caller clerk type key r
        → Wakes caller clerk type key w.queues (fill_pixels al caller params px r b w)
    unfolding fill_pixels
    fill_pixels-Wakes params px r none w h =
        case_error-Wakes caller clerk type key (record w { heap = kfree r.addr w.heap })
    fill_pixels-Wakes params px r (some b) w h =
        attach_buf-Wakes params.buf params.buffer_size _ w
          (record { from = h.from; to = h.to; kind = h.kind; about = h.about; waits = h.waits })

    attach_pixels-Wakes :
        (params : GuiParamsPack) (px : Option (List ℕ)) (r : Request) (w : World Heap)
        → Asks caller clerk type key r
        → Wakes caller clerk type key w.queues (attach_pixels al caller params px r w)
    unfolding attach_pixels
    attach_pixels-Wakes params none r w h = attach_buf-Wakes params.buf params.buffer_size r w h
    attach_pixels-Wakes params (some px) r w h = fill_pixels-Wakes params px r _ _ h

  pid_fits : (pid : ℕ) → pid < max_tasks → u16 pid ≡ pid
  pid_fits pid h = omega arith

  gui_with_memory-Wakes :
      (caller : ℕ) (params : GuiParamsPack) (a : Option ℕ) (w : World Heap)
      → caller < max_tasks
      → Wakes caller gui_task_pid
          (u8 params.opcode)
          params.struct_key
          w.queues
          (gui_with_memory al caller params a w)
  unfolding gui_with_memory
  gui_with_memory-Wakes caller params none w h =
      case_error-Wakes caller gui_task_pid (u8 params.opcode) params.struct_key w
  gui_with_memory-Wakes caller params (some a) w h =
      attach_pixels-Wakes caller gui_task_pid (u8 params.opcode) params.struct_key params
        params.pixels _ w
        (record { from = pid_fits caller h; to = refl; kind = refl; about = refl; waits = refl })

  -- A GUI request is queued with its clerk ready, or refused with its caller ready, on every path: a
  -- full table, no memory for the request, for its pixels or for its text.
  pub add_gui_req-Wakes :
      (caller : ℕ) (params : GuiParamsPack) (w : World Heap)
      → caller < max_tasks
      → Wakes caller gui_task_pid
          (u8 params.opcode)
          params.struct_key
          w.queues
          (ledger_add_gui_req al caller params w)
  unfolding ledger_add_gui_req
  add_gui_req-Wakes caller params w h =
      either caller gui_task_pid (u8 params.opcode) params.struct_key w.queues
        (leb max_gui_req_entries (ledger_count_all_clerk_reqs gui_task_pid w)) _ _
        (case_error-Wakes caller gui_task_pid (u8 params.opcode) params.struct_key w)
        (gui_with_memory-Wakes caller params _ _ h)

  doc_with_memory-Wakes :
      (caller opcode : ℕ) (a : Option ℕ) (w : World Heap)
      → caller < max_tasks
      → Wakes caller doc_clerk_pid (u8 opcode) 0 w.queues (doc_with_memory al caller opcode a w)
  unfolding doc_with_memory
  doc_with_memory-Wakes caller opcode none w h =
      case_error-Wakes caller doc_clerk_pid (u8 opcode) 0 w
  doc_with_memory-Wakes caller opcode (some a) w h =
      queue_req-Wakes caller doc_clerk_pid (u8 opcode) 0 (doc_request a caller opcode) w
        (record { from = pid_fits caller h; to = refl; kind = refl; about = refl; waits = refl })

  -- A request to the doctor clerk is queued with its clerk ready, or refused with its caller ready, on
  -- every path: a full table or no memory for the request.
  pub add_doc_req-Wakes :
      (caller opcode : ℕ) (w : World Heap)
      → caller < max_tasks
      → Wakes caller doc_clerk_pid (u8 opcode) 0 w.queues (ledger_add_doc_req al caller opcode w)
  unfolding ledger_add_doc_req
  add_doc_req-Wakes caller opcode w h = doc_with_memory-Wakes caller opcode _ _ h
