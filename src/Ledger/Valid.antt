-- ===== src/Ledger/Valid.antt =====
-- The ledger as a transition system: its calls in any order, from tasks and clerks alike. Interrupts
-- are taken between calls, since each runs to its end on the single core of this kernel.
use taavi_os.Common.{
  ℕ, ◌<◌, ◌≡◌, ◌≢◌, ◌⊎◌, inl, inr, ◌∙◌, Bool, true, false, Option, none, some, List, length, get_or,
  get_or-replicate, length-replicate, ◌==◌, if◌then◌else◌, arith,
}
use taavi_os.Config.{
  max_fs_req_entries, max_gui_req_entries, max_reaper_req_entries, max_doc_req_entries, fs_task_pid,
  gui_task_pid, reaper_task_pid, doc_clerk_pid,
}
use taavi_os.Ledger.Types.{Status, Request, ClerkQueue, World, Allocator}
use taavi_os.Ledger.Queue.{ledger_get_queue, ledger_init, empty_queue}
use taavi_os.Ledger.Serve.{ledger_fetch_next_req, ledger_check_request, set_request}
use taavi_os.Ledger.Collect.{ledger_collect}
use taavi_os.Ledger.Submit.{
  GuiParamsPack, ledger_add_fs_req, ledger_add_gui_req, ledger_add_doc_req, ledger_queue_free_req,
}
use taavi_os.Ledger.Reap.{ledger_remove_request}
use taavi_os.Ledger.Lifecycle.{Right, SlotStep, QueueStep, MovesBy, NoRight}
use taavi_os.Ledger.Steps.{
  world_after, RescuesAt, AnswersAt, fetch_next_req-Moves, check_request-Moves, set_request-Moves,
  collect-Moves,
}
use taavi_os.Ledger.Calls.{
  add_fs_req-Moves, add_gui_req-Moves, add_doc_req-Moves, queue_free_req-Moves,
  remove_request-Moves,
}

-- The length of the table of clerk `c`, `none` where it has no queue.
abbrev pub capacity : ℕ → Option ℕ
capacity c =
    if c == fs_task_pid
    then some max_fs_req_entries
    else (if c == gui_task_pid
        then some max_gui_req_entries
        else (if c == reaper_task_pid
            then some max_reaper_req_entries
            else (if c == doc_clerk_pid then some max_doc_req_entries else none)))

abbrev BelongsTo : ℕ → Option Request → Type 0
BelongsTo c none = Unit
BelongsTo c (some r) = r.clerk_pid ≡ c

abbrev InRange : Option ℕ → ℕ → Type 0
InRange none n = Unit
InRange (some i) n = i < n

-- The queue of clerk `c`: its table has its length, `last_idx` stands inside, and each request in it
-- is addressed to this clerk.
pub record QueueIsValid (c n : ℕ) (q : ClerkQueue) : Type 0 where
  pub length_eq : length q.table ≡ n
  pub last_in : InRange q.last_idx n
  pub owned : (i : ℕ) → BelongsTo c (get_or q.table i none)

abbrev pub SlotIsValid : ℕ → Option ℕ → Option ClerkQueue → Type 0
SlotIsValid c none none = Unit
SlotIsValid c none (some q) = ⊥
SlotIsValid c (some n) none = ⊥
SlotIsValid c (some n) (some q) = QueueIsValid c n q

abbrev pub IsValid : {H : Type 0} → World H → Type 0
IsValid w = (c : ℕ) → SlotIsValid c (capacity c) (w.queues c)

step_belongs :
    (c : ℕ) {R : Right → Type 0} {a b : Option Request}
    → SlotStep c R a b
    → BelongsTo c a
    → BelongsTo c b
step_belongs c (SlotStep.kept e) h = rw e h
step_belongs c (SlotStep.placed r e f s k) h = rw f k
step_belongs c (SlotStep.started r e s f) h = rw f (rw e at h)
step_belongs c (SlotStep.finished l r r' e s f p k) h = rw f (k ∙ (rw e at h))
step_belongs c (SlotStep.collected r e s f) h = rw f (rw e at h)
step_belongs c (SlotStep.rescued l r e f) h = rw f (rw e at h)
step_belongs c (SlotStep.removed r e s f) h = rw f tt

moves_last :
    (n : ℕ) (old new : Option ℕ) (len : ℕ)
    → len ≡ n
    → (new ≡ old) ⊎ ((i : ℕ) × (new ≡ some i) × (i < len))
    → InRange old n
    → InRange new n
moves_last n old new len e (inl k) h = rw k h
moves_last n old new len e (inr (i, k, lt)) h = rw k (omega arith)

queue_moves_valid :
    (c : ℕ) (R : Right → Type 0) (n : Option ℕ) (o o' : Option ClerkQueue)
    → QueueStep c R o o'
    → SlotIsValid c n o
    → SlotIsValid c n o'
queue_moves_valid c R none none none m v = tt
queue_moves_valid c R none none (some q') m v = absurd m
queue_moves_valid c R none (some q) o' m v = absurd v
queue_moves_valid c R (some n) none o' m v = absurd v
queue_moves_valid c R (some n) (some q) none m v = absurd m
queue_moves_valid c R (some n) (some q) (some q') m v = record {
  length_eq = m.length_eq ∙ v.length_eq;
  last_in = moves_last n q.last_idx q'.last_idx (length q.table) v.length_eq m.last v.last_in;
  owned = λ i. step_belongs c (m.slots i) (v.owned i);
}

MovesBy-IsValid :
    {H : Type 0} (R : ℕ → Right → Type 0) (w w' : World H) → MovesBy R w w' → IsValid w → IsValid w'
MovesBy-IsValid R w w' m v c =
    queue_moves_valid c (R c) (capacity c) (w.queues c) (w'.queues c) (m c) (v c)

empty_valid : (c n : ℕ) → SlotIsValid c (some n) (empty_queue n)
empty_valid c n = record {
  length_eq = length-replicate n none;
  last_in = tt;
  owned = λ i. rw (get_or-replicate {A = Option Request} n i none) tt;
}

init_slot :
    (c : ℕ) (fs gui reaper doc : Bool)
    → SlotIsValid c
        (if fs
          then some max_fs_req_entries
          else (if gui
              then some max_gui_req_entries
              else (if reaper
                  then some max_reaper_req_entries
                  else (if doc then some max_doc_req_entries else none))))
        (if fs
          then empty_queue max_fs_req_entries
          else (if gui
              then empty_queue max_gui_req_entries
              else (if reaper
                  then empty_queue max_reaper_req_entries
                  else (if doc then empty_queue max_doc_req_entries else none))))
init_slot c true gui reaper doc = empty_valid c max_fs_req_entries
init_slot c false true reaper doc = empty_valid c max_gui_req_entries
init_slot c false false true doc = empty_valid c max_reaper_req_entries
init_slot c false false false true = empty_valid c max_doc_req_entries
init_slot c false false false false = tt

module _ (al : Allocator) where
  open al use {Heap}

  -- One call, from a task or a clerk. A clerk stores only to a request that it has in progress.
  pub data Step (w w' : World Heap) : Type 0 where
    add_fs :
        (caller type fd : ℕ) (buf : Option (List ℕ)) (n flags : ℕ)
        → w' ≡ (ledger_add_fs_req al caller type fd buf n flags w).1
        → Step w w'
    add_gui :
        (caller : ℕ) (params : GuiParamsPack)
        → w' ≡ (ledger_add_gui_req al caller params w).1
        → Step w w'
    add_doc : (caller opcode : ℕ) → w' ≡ (ledger_add_doc_req al caller opcode w).1 → Step w w'
    add_free :
        (caller clerk target : ℕ)
        → w' ≡ (ledger_queue_free_req al caller clerk target w).1
        → Step w w'
    collect :
        (caller clerk : ℕ) (out : Bool)
        → w' ≡ world_after w (ledger_collect caller clerk out w)
        → Step w w'
    fetch : (clerk : ℕ) → w' ≡ (ledger_fetch_next_req clerk w).1 → Step w w'
    check : (clerk : ℕ) → w' ≡ ledger_check_request clerk w → Step w w'
    store :
        (clerk i : ℕ) (r old : Request) (q : ClerkQueue)
        → ledger_get_queue clerk w ≡ some q
        → get_or q.table i none ≡ some old
        → old.status ≡ Status.in_progress
        → r.status ≢ Status.pending
        → r.clerk_pid ≡ old.clerk_pid
        → w' ≡ set_request clerk i r w
        → Step w w'
    reap : w' ≡ (ledger_remove_request al w).1 → Step w w'

  -- The rights of a call: `ledger_check_request` rescues, at its own clerk; a clerk's store answers, there.
  abbrev pub Rights : {w w' : World Heap} → Step w w' → ℕ → Right → Type 0
  Rights (Step.add_fs caller type fd buf n flags e) = NoRight
  Rights (Step.add_gui caller params e) = NoRight
  Rights (Step.add_doc caller opcode e) = NoRight
  Rights (Step.add_free caller clerk target e) = NoRight
  Rights (Step.collect caller clerk out e) = NoRight
  Rights (Step.fetch clerk e) = NoRight
  Rights (Step.check clerk e) = RescuesAt clerk
  Rights (Step.store clerk i r old q e h s p k f) = AnswersAt clerk
  Rights (Step.reap e) = NoRight

  pub Step-Moves : {w w' : World Heap} → (s : Step w w') → MovesBy (Rights s) w w'
  Step-Moves {w} (Step.add_fs caller type fd buf n flags e) =
      rw e (add_fs_req-Moves al caller type fd buf n flags w)
  Step-Moves {w} (Step.add_gui caller params e) = rw e (add_gui_req-Moves al caller params w)
  Step-Moves {w} (Step.add_doc caller opcode e) = rw e (add_doc_req-Moves al caller opcode w)
  Step-Moves {w} (Step.add_free caller clerk target e) =
      rw e (queue_free_req-Moves al caller clerk target w)
  Step-Moves {w} (Step.collect caller clerk out e) = rw e (collect-Moves caller clerk out w)
  Step-Moves {w} (Step.fetch clerk e) = rw e (fetch_next_req-Moves clerk w)
  Step-Moves {w} (Step.check clerk e) = rw e (check_request-Moves clerk w)
  Step-Moves {w} (Step.store clerk i r old q e h s p k f) =
      rw f (set_request-Moves clerk i r w e h s p k)
  Step-Moves {w} (Step.reap e) = rw e (remove_request-Moves al w)

  pub data Reach (w : World Heap) : World Heap → Type 0 where
    here : Reach w w
    next : {u v : World Heap} → Reach w u → Step u v → Reach w v

  -- In every state that calls of the ledger reach from a valid one, in whatever order they run, each
  -- clerk's table has its length, its last index is an entry of it, and each request in it names that
  -- clerk.
  pub Reach-IsValid : {w w' : World Heap} → Reach w w' → IsValid w → IsValid w'
  Reach-IsValid Reach.here v = v
  Reach-IsValid (Reach.next {u = u} {v = x} r s) v =
      MovesBy-IsValid (Rights s) u x (Step-Moves s) (Reach-IsValid r v)

  -- The queues that `ledger_init` leaves are valid, whatever the tasks and the heap: each clerk's table
  -- has its length, no last index and no request.
  pub init-IsValid : (w : World Heap) → ((c : ℕ) → w.queues c ≡ ledger_init c) → IsValid w
  unfolding ledger_init
  init-IsValid w h c = rw (h c) (
      init_slot c (c == fs_task_pid) (c == gui_task_pid) (c == reaper_task_pid)
        (c == doc_clerk_pid))
