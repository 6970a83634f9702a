-- ===== src/Ledger/Calls.antt =====
-- The calls of the ledger as one step function, and what any sequence of them keeps.
use taavi_os.Common.{
  ℕ, ◌≡◌, refl, Bool, ◌||◌, Option, none, some, List, [], ◌∷◌, leb, get_or, if◌then◌else◌,
  if_either, arith, zero, suc, length, length-map, Bool-cases, inl, inr,
}
use native.Mathlib.Decide.{dec_lt}
use taavi_os.Config.{
  clerk_count, max_tasks, max_fs_req_entries, max_gui_req_entries, fs_task_pid, gui_task_pid,
}
use taavi_os.Ledger.Types.{Status, Request, World, Allocator, Table, ClerkQueue}
use taavi_os.Ledger.Queue.{scheduler_wake_task}
use taavi_os.Ledger.Serve.{ledger_count_all_clerk_reqs, holds, terminated_test}
use taavi_os.Ledger.Submit.{
  GuiParamsPack, case_error, is_bad_fd, fill_buf, attach_buf, fs_with_memory, ledger_add_fs_req,
  fill_pixels, attach_pixels, gui_with_memory, ledger_add_gui_req, doc_with_memory,
  ledger_add_doc_req, free_with_memory, ledger_queue_free_req,
}
use taavi_os.Ledger.Lifecycle.{
  Right, Moves, NoRight, Moves-same, QueueStep-refl, QueueStep, SlotStep,
}
use taavi_os.Ledger.Steps.{queues-scheduler_wake_task, queue_req-Moves}
use taavi_os.Ledger.Reap.{ledger_remove_request}
use taavi_os.Ledger.Cleared.{without_terminated, clear_queue}
use taavi_os.Ledger.Reaping.{remove_request-Reaped}

module _ (al : Allocator) where
  open al use {Heap, kmalloc, kfree}

  either :
      (b : Bool) (w : World Heap) (x y : ℕ × World Heap)
      → Moves w x.1
      → Moves w y.1
      → Moves w (if b then x else y).1
  either b w x y = if_either (λ (z : ℕ × World Heap). Moves w z.1) b x y

  case_error-Moves : (caller : ℕ) (w : World Heap) → Moves w (case_error caller w).1
  case_error-Moves caller w =
      Moves-same NoRight w (scheduler_wake_task caller w) (queues-scheduler_wake_task caller w)

  fill_buf-Moves :
      (caller : ℕ) (bytes : List ℕ) (n : ℕ) (r : Request) (b : Option ℕ) (w : World Heap)
      → r.status ≡ Status.pending
      → Moves w (fill_buf al caller bytes n r b w).1
  unfolding fill_buf
  fill_buf-Moves caller bytes n r none w s =
      case_error-Moves caller (record w { heap = kfree r.addr w.heap })
  fill_buf-Moves caller bytes n r (some b) w s = queue_req-Moves al _ w s

  attach_buf-Moves :
      (caller : ℕ) (buf : Option (List ℕ)) (n : ℕ) (r : Request) (w : World Heap)
      → r.status ≡ Status.pending
      → Moves w (attach_buf al caller buf n r w).1
  unfolding attach_buf
  attach_buf-Moves caller none n r w s = queue_req-Moves al r w s
  attach_buf-Moves caller (some bytes) n r w s = fill_buf-Moves caller bytes n r _ _ s

  fs_with_memory-Moves :
      (caller type fd : ℕ) (buf : Option (List ℕ)) (n flags : ℕ) (a : Option ℕ) (w : World Heap)
      → Moves w (fs_with_memory al caller type fd buf n flags a w).1
  unfolding fs_with_memory
  fs_with_memory-Moves caller type fd buf n flags none w = case_error-Moves caller w
  fs_with_memory-Moves caller type fd buf n flags (some a) w =
      attach_buf-Moves caller buf n _ w refl

  pub add_fs_req-Moves :
      (caller type fd : ℕ) (buf : Option (List ℕ)) (n flags : ℕ) (w : World Heap)
      → Moves w (ledger_add_fs_req al caller type fd buf n flags w).1
  unfolding ledger_add_fs_req
  add_fs_req-Moves caller type fd buf n flags w =
      either (leb max_fs_req_entries (ledger_count_all_clerk_reqs fs_task_pid w)) w _ _
        (case_error-Moves caller w)
        (either (is_bad_fd fd type) w _ _ (case_error-Moves caller w)
          (fs_with_memory-Moves caller type fd buf n flags _ _))

  fill_pixels-Moves :
      (caller : ℕ) (params : GuiParamsPack) (px : List ℕ) (r : Request) (b : Option ℕ)
      (w : World Heap)
      → r.status ≡ Status.pending
      → Moves w (fill_pixels al caller params px r b w).1
  unfolding fill_pixels
  fill_pixels-Moves caller params px r none w s =
      case_error-Moves caller (record w { heap = kfree r.addr w.heap })
  fill_pixels-Moves caller params px r (some b) w s =
      attach_buf-Moves caller params.buf params.buffer_size _ w s

  attach_pixels-Moves :
      (caller : ℕ) (params : GuiParamsPack) (px : Option (List ℕ)) (r : Request) (w : World Heap)
      → r.status ≡ Status.pending
      → Moves w (attach_pixels al caller params px r w).1
  unfolding attach_pixels
  attach_pixels-Moves caller params none r w s =
      attach_buf-Moves caller params.buf params.buffer_size r w s
  attach_pixels-Moves caller params (some px) r w s = fill_pixels-Moves caller params px r _ _ s

  gui_with_memory-Moves :
      (caller : ℕ) (params : GuiParamsPack) (a : Option ℕ) (w : World Heap)
      → Moves w (gui_with_memory al caller params a w).1
  unfolding gui_with_memory
  gui_with_memory-Moves caller params none w = case_error-Moves caller w
  gui_with_memory-Moves caller params (some a) w =
      attach_pixels-Moves caller params params.pixels _ w refl

  pub add_gui_req-Moves :
      (caller : ℕ) (params : GuiParamsPack) (w : World Heap)
      → Moves w (ledger_add_gui_req al caller params w).1
  unfolding ledger_add_gui_req
  add_gui_req-Moves caller params w =
      either (leb max_gui_req_entries (ledger_count_all_clerk_reqs gui_task_pid w)) w _ _
        (case_error-Moves caller w) (gui_with_memory-Moves caller params _ _)

  doc_with_memory-Moves :
      (caller opcode : ℕ) (a : Option ℕ) (w : World Heap)
      → Moves w (doc_with_memory al caller opcode a w).1
  unfolding doc_with_memory
  doc_with_memory-Moves caller opcode none w = case_error-Moves caller w
  doc_with_memory-Moves caller opcode (some a) w = queue_req-Moves al _ w refl

  pub add_doc_req-Moves :
      (caller opcode : ℕ) (w : World Heap) → Moves w (ledger_add_doc_req al caller opcode w).1
  unfolding ledger_add_doc_req
  add_doc_req-Moves caller opcode w = doc_with_memory-Moves caller opcode _ _

  free_with_memory-Moves :
      (caller clerk target : ℕ) (a : Option ℕ) (w : World Heap)
      → Moves w (free_with_memory al caller clerk target a w).1
  unfolding free_with_memory
  free_with_memory-Moves caller clerk target none w = λ c. QueueStep-refl (NoRight c) c (w.queues c)
  free_with_memory-Moves caller clerk target (some a) w = queue_req-Moves al _ w refl

  pub queue_free_req-Moves :
      (caller clerk target : ℕ) (w : World Heap)
      → Moves w (ledger_queue_free_req al caller clerk target w).1
  unfolding ledger_queue_free_req
  queue_free_req-Moves caller clerk target w =
      either (leb max_tasks caller || leb max_tasks target) w _ _
        (λ c. QueueStep-refl (NoRight c) c (w.queues c))
        (free_with_memory-Moves caller clerk target _ _)

  -- An entry of a table, and the same entry after the reaper.
  reaped_slot :
      (c : ℕ) (R : Right → Type 0) (o : Option Request)
      → SlotStep c R o (if holds terminated_test o then none else o)
  reaped_slot c R none = SlotStep.kept refl
  reaped_slot c R (some r) = elim (Bool-cases (terminated_test r)) [
    | inl y ↦ rw y (SlotStep.removed r refl (ground arith) refl)
    | inr n ↦ rw n (SlotStep.kept refl)
  ]

  reaped_slots :
      (c : ℕ) (R : Right → Type 0) (t : Table) (i : ℕ)
      → SlotStep c R (get_or t i none) (get_or (without_terminated t) i none)
  reaped_slots c R [] i = SlotStep.kept refl
  reaped_slots c R (o ∷ t) zero = reaped_slot c R o
  reaped_slots c R (o ∷ t) (suc i) = reaped_slots c R t i

  length-without_terminated : (t : Table) → length (without_terminated t) ≡ length t
  length-without_terminated t = length-map t _

  reaped_queue : (c : ℕ) (o : Option ClerkQueue) → QueueStep c (NoRight c) o (clear_queue o)
  reaped_queue c none = tt
  reaped_queue c (some q) = record {
    length_eq = length-without_terminated q.table;
    slots = λ i. reaped_slots c _ q.table i;
    last = inl refl;
  }

  pub remove_request-Moves : (w : World Heap) → Moves w (ledger_remove_request al w).1
  remove_request-Moves w c = elim (dec_lt c clerk_count) [
    | yes lt ↦ rw ((remove_request-Reaped al w).cleared c lt) (reaped_queue c (w.queues c))
    | no ge ↦
        rw ((remove_request-Reaped al w).kept c (omega arith))
          (QueueStep-refl (NoRight c) c (w.queues c))
  ]
