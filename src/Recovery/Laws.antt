-- ===== src/Recovery/Laws.antt =====
-- What the registry keeps, and the state that the recovery of a clerk leaves.
use taavi_os.Common.{
  ℕ, ◌<◌, ◌≡◌, ◌≢◌, ◌⊎◌, inl, inr, refl, Bool-cases, Option, none, some, [], ◌∷◌, get_or, set, ltb,
  lt→ltb, ◌==◌, ◌∙◌, arith,
}
use taavi_os.Config.{status_ok, status_error, max_tasks}
use taavi_os.Task.{Task, TaskState, task_get, set_state}
use taavi_os.Task.Update.{update-slot}
use taavi_os.Ledger.Types.{Status, Request, ClerkQueue, World, Allocator}
use taavi_os.Ledger.Queue.{ledger_get_queue, scheduler_wake_task}
use taavi_os.Ledger.Serve.{terminate_entry, serve_at, with_status, ledger_check_request}
use taavi_os.Ledger.Fetch.{Rescued, check_request-Rescued, check_request-terminate_entry}
use taavi_os.Recovery.Blankie.{
  Blankie, Registry, register_slot, find_blankie, register_with, register_found, blankie_register,
  rested, activate_with, blankie_activate,
}
use taavi_os.Recovery.HailMary.{clerk_recovery}

-- The new registry has the new entry, and for every other pid what it had.
pub record Registered (b : Blankie) (reg reg' : Registry) : Type 0 where
  pub found : find_blankie b.pid reg' ≡ some b
  pub others : (pid : ℕ) → pid ≢ b.pid → find_blankie pid reg' ≡ find_blankie pid reg

abbrev SlotRegistered : Blankie → Registry → Option Registry → Type 0
SlotRegistered b reg none = Unit
SlotRegistered b reg (some reg') = Registered b reg reg'

cons_registered :
    (b c : Blankie) (t : Registry) (o : Option Registry)
    → c.pid ≢ b.pid
    → SlotRegistered b t o
    → SlotRegistered b (some c ∷ t) (elim o [ none ↦ none | some t' ↦ some (some c ∷ t') ])
unfolding find_blankie
cons_registered b c t none ne h = tt
cons_registered b c t (some t') ne h = record {
  found = ground (arith, h.found);
  others = λ pid k. ground (arith, h.others pid k);
}

find_cons :
    (pid : ℕ) (c : Blankie) (t : Registry)
    → find_blankie pid (some c ∷ t) ≡ none
    → (c.pid ≢ pid) × (find_blankie pid t ≡ none)
unfolding find_blankie
find_cons pid c t h = elim (Bool-cases (c.pid == pid)) [
  | inl y ↦ let h' : some c ≡ none = rw y at h in cc
  | inr n ↦ (λ e. ground arith, rw n at h)
]

slot-SlotRegistered :
    (b : Blankie) (reg : Registry)
    → find_blankie b.pid reg ≡ none
    → SlotRegistered b reg (register_slot b reg)
unfolding register_slot find_blankie
slot-SlotRegistered b [] h = tt
slot-SlotRegistered b (none ∷ t) h = record { found = ground arith; others = λ pid k. ground arith }
slot-SlotRegistered b (some c ∷ t) h =
    let (ne, h') = find_cons b.pid c t h in
    cons_registered b c t (register_slot b t) ne (slot-SlotRegistered b t h')

module _ (al : Allocator) where
  open al use {Heap, kmalloc}

  -- What `blankie_register` returns.
  abbrev pub RegisterResult : Blankie → Registry → ℕ × Registry × Heap → Type 0
  RegisterResult b reg res =
      ((res.0 ≡ status_ok) × Registered b reg res.1) ⊎ ((res.0 ≡ status_error) × (res.1 ≡ reg))

  with-RegisterResult :
      (b : Blankie) (a : Option ℕ) (reg' reg : Registry) (h : Heap)
      → Registered b reg reg'
      → RegisterResult b reg (register_with al a reg' reg h)
  unfolding register_with
  with-RegisterResult b none reg' reg h r = inr (refl, refl)
  with-RegisterResult b (some a) reg' reg h r = inl (refl, r)

  found-RegisterResult :
      (b : Blankie) (o : Option Registry) (reg : Registry) (h : Heap)
      → SlotRegistered b reg o
      → RegisterResult b reg (register_found al o reg h)
  unfolding register_found
  found-RegisterResult b none reg h r = inr (refl, refl)
  found-RegisterResult b (some reg') reg h r = with-RegisterResult b _ reg' reg _ r

  -- `blankie_register` of a pid that has no entry: it succeeds, and then this pid's entry is the one
  -- given and every other pid's entry is as before, or it fails and the registry is as before.
  pub register-RegisterResult :
      (b : Blankie) (reg : Registry) (h : Heap)
      → find_blankie b.pid reg ≡ none
      → RegisterResult b reg (blankie_register al b.pid b.entry_point b.stack_top reg h)
  unfolding blankie_register
  register-RegisterResult b reg h e =
      found-RegisterResult b (register_slot b reg) reg h (slot-SlotRegistered b reg e)

-- The task of clerk `c` sleeps, has not started, and starts over where the registry says.
pub record AtRest {H : Type 0} (b : Blankie) (c : ℕ) (w : World H) : Type 0 where
  pub task : Task
  pub task_eq : w.tasks c ≡ some task
  pub sleeps : task.state ≡ TaskState.sleeping
  pub not_started : task.started ≡ 0
  pub entry : task.context.eip ≡ b.entry_point
  pub stack : task.context.esp ≡ b.stack_top
  pub frame : task.context.ebp ≡ b.stack_top

-- What `blankie_activate` leaves: the clerk at rest, every other task and the rest of the state as before.
pub record Activated {H : Type 0} (b : Blankie) (c : ℕ) (w : World H) (res : ℕ × World H)
    : Type 0 where
  pub status : res.0 ≡ status_ok
  pub at_rest : AtRest b c res.1
  pub others : (pid : ℕ) → pid ≢ c → res.1.tasks pid ≡ w.tasks pid
  pub queues_eq : res.1.queues ≡ w.queues
  pub heap_eq : res.1.heap ≡ w.heap

activate-activate_with :
    {H : Type 0} (reg : Registry) (c : ℕ) (w : World H) {b : Blankie} {t : Task}
    → c < max_tasks
    → w.tasks c ≡ some t
    → find_blankie c reg ≡ some b
    → blankie_activate reg c w ≡ activate_with c (some t) (some b) w
unfolding blankie_activate task_get
activate-activate_with reg c w lt e f = rw (lt→ltb c max_tasks lt, e, f) refl

activate_with-Activated :
    {H : Type 0} (c : ℕ) (w : World H) (b : Blankie) (t : Task)
    → Activated b c w (activate_with c (some t) (some b) w)
unfolding activate_with
activate_with-Activated c w b t = record {
  status = refl;
  at_rest = record {
    task = rested b t;
    task_eq = ground arith;
    sleeps = refl;
    not_started = refl;
    entry = refl;
    stack = refl;
    frame = refl;
  };
  others = λ pid ne. ground arith;
  queues_eq = refl;
  heap_eq = refl;
}

-- `blankie_activate` of a clerk with a task and an entry in the registry succeeds: its task sleeps, has
-- not started and starts over at its entry point on an empty stack; nothing else changes.
pub activate-Activated :
    {H : Type 0} (reg : Registry) (c : ℕ) (w : World H) {b : Blankie} {t : Task}
    → c < max_tasks
    → w.tasks c ≡ some t
    → find_blankie c reg ≡ some b
    → Activated b c w (blankie_activate reg c w)
activate-Activated reg c w {b} {t} lt e f =
    rw (activate-activate_with reg c w lt e f) (activate_with-Activated c w b t)

wake_task-slot :
    {H : Type 0} (pid c : ℕ) (w : World H)
    → ((t : Task) × (w.tasks c ≡ some t))
    → (t' : Task) × ((scheduler_wake_task pid w).tasks c ≡ some t')
unfolding scheduler_wake_task
wake_task-slot pid c w (t, e) = elim (Bool-cases (ltb pid max_tasks)) [
  | inl y ↦
      let (t', at, any) =
        update-slot (λ u. Unit) pid (set_state TaskState.ready) c w.tasks (λ u x. x) (t, e, tt) in
      rw y (t', at)
  | inr n ↦ rw n (t, e)
]

-- The Hail Mary keeps the task of every clerk in its slot.
check_request-task :
    {H : Type 0} (c : ℕ) (w : World H) {q : ClerkQueue} {i : ℕ} {r : Request} {t : Task}
    → ledger_get_queue c w ≡ some q
    → q.last_idx ≡ some i
    → get_or q.table i none ≡ some r
    → w.tasks c ≡ some t
    → (t' : Task) × ((ledger_check_request c w).tasks c ≡ some t')
unfolding terminate_entry
check_request-task c w {q} {i} {r} {t} e l g k =
    let w' = serve_at c q i (with_status Status.terminated r) w in
    rw (check_request-terminate_entry c w e l g) (wake_task-slot r.caller_pid c w' (t, k))

-- What the recovery of clerk `c` leaves.
pub record Recovered {H : Type 0} (b : Blankie) (c : ℕ) (q : ClerkQueue) (i : ℕ) (r : Request)
    (w w' : World H) : Type 0 where
  pub at_rest : AtRest b c w'
  pub terminated :
      ledger_get_queue c w'
      ≡ some (record {
        table = set q.table i (some (with_status Status.terminated r));
        last_idx = some i;
      })
  pub caller_ready :
      (u : Task)
      → r.caller_pid ≢ c
      → r.caller_pid < max_tasks
      → w.tasks r.caller_pid ≡ some u
      → w'.tasks r.caller_pid ≡ some (set_state TaskState.ready u)
  pub heap_eq : w'.heap ≡ w.heap

recovered :
    {H : Type 0} (b : Blankie) (c : ℕ) (q : ClerkQueue) (i : ℕ) (r : Request) (w v : World H)
    (res : ℕ × World H)
    → Rescued c q i r w v
    → Activated b c v res
    → Recovered b c q i r w res.1
unfolding ledger_get_queue
recovered b c q i r w v res s a = record {
  at_rest = a.at_rest;
  terminated = rw a.queues_eq s.queue_eq;
  caller_ready = λ u ne lt k. a.others r.caller_pid ne ∙ s.woken u lt k;
  heap_eq = a.heap_eq ∙ s.heap_eq;
}

-- The recovery of a clerk that faulted on the request `r`, the one it fetched last: the request is
-- TERMINATED and its caller, another task, is ready, so that no caller waits for an answer that does
-- not come; and the clerk sleeps and starts over at its entry point.
pub recovery-Recovered :
    {H : Type 0} (reg : Registry) (c : ℕ) (w : World H) {q : ClerkQueue} {i : ℕ} {r : Request}
    {b : Blankie} {t : Task}
    → c < max_tasks
    → w.tasks c ≡ some t
    → find_blankie c reg ≡ some b
    → ledger_get_queue c w ≡ some q
    → q.last_idx ≡ some i
    → get_or q.table i none ≡ some r
    → Recovered b c q i r w (clerk_recovery reg c w)
unfolding clerk_recovery
recovery-Recovered reg c w {q} {i} {r} {b} lt k f e l g =
    let (t', at) = check_request-task c w e l g k in
    recovered b c q i r w (ledger_check_request c w) _ (check_request-Rescued c w e l g)
      (activate-Activated reg c (ledger_check_request c w) lt at f)
