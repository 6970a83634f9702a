-- ===== src/Ledger/Fetch.antt =====
-- What `ledger_fetch_next_req` promises its clerk, and what `ledger_check_request` does to the
-- request that the clerk fetched last.
use taavi_os.Common.{
  ℕ, zero, suc, ◌<◌, ◌≡◌, ◌≢◌, ◌⊎◌, inl, inr, refl, sym, ap, true, false, Option, none, some, [],
  ◌∷◌, length, get_or, set, arith,
}
use taavi_os.Config.{max_tasks}
use taavi_os.Task.{Task, TaskState, set_state}
use taavi_os.Ledger.Types.{Status, Request, Table, ClerkQueue, World, put_queue, is_in_progress}
use taavi_os.Ledger.Queue.{ledger_get_queue}
use taavi_os.Ledger.Serve.{
  holds, find_entry, queue_count, in_progress_test, pending_test, open_test, with_status,
  serve_pending, serve_started, serve_queue, ledger_fetch_next_req, ledger_check_request,
  terminate_last, terminate_entry,
}
use taavi_os.Ledger.Entries.{NoneHolds, Found, Searched, find_entry-Searched, count_entries-none}

-- The choice of `ledger_fetch_next_req` in queue `q`, and the queue after it: entry `i` holds `r`,
-- which is in progress, and no other entry has changed.
pub record Serves (q : ClerkQueue) (i : ℕ) (r : Request) (q' : ClerkQueue) : Type 0 where
  pub old : Request
  pub was_there : get_or q.table i none ≡ some old
  pub running : r ≡ with_status Status.in_progress old
  pub table_eq : q'.table ≡ set q.table i (some r)
  pub inside : i < length q.table
  pub last_idx_eq : q'.last_idx ≡ some i
  -- it was in progress already, or it was pending while none was in progress
  pub order :
      Found in_progress_test q.table i old
      ⊎ (NoneHolds in_progress_test q.table × Found pending_test q.table i old)

set_same : (t : Table) (i : ℕ) (r : Request) → get_or t i none ≡ some r → set t i (some r) ≡ t
set_same [] i r h = refl
set_same (o ∷ t) zero r h = ap (λ x. x ∷ t) (sym h)
set_same (o ∷ t) (suc i) r h = ap (λ x. o ∷ x) (set_same t i r h)

pub with_status_same :
    (r : Request) → in_progress_test r ≡ true → with_status Status.in_progress r ≡ r
with_status_same r h = go r.status refl h
  where
    go :
        (s : Status) → r.status ≡ s → is_in_progress s ≡ true → with_status Status.in_progress r ≡ r
    go Status.in_progress e h' = ap (λ s. with_status s r) (sym e)
    go Status.pending e h' = cc
    go _ e h' = cc

-- No request is open where none is in progress and none is pending.
NoneHolds-open :
    (t : Table) → NoneHolds in_progress_test t → NoneHolds pending_test t → NoneHolds open_test t
NoneHolds-open t h k j = go (get_or t j none) (h j) (k j)
  where
    go :
        (o : Option Request)
        → holds in_progress_test o ≡ false
        → holds pending_test o ≡ false
        → holds open_test o ≡ false
    go none a b = refl
    go (some r) a b = ground arith

-- What a fetch for clerk `c` in state `w` gives: either it finds no open request and changes nothing,
-- or it serves one of the clerk's queue.
abbrev pub Fetched : {H : Type 0} → ℕ → World H → Option (ℕ × Request) × World H → Type 0
Fetched c w (none, w') = (w' ≡ w) × (queue_count open_test c w ≡ 0)
Fetched c w (some (i, r), w') =
    (q : ClerkQueue) × (q' : ClerkQueue) × (ledger_get_queue c w ≡ some q)
    × (w' ≡ put_queue c q' w)
    × Serves q i r q'

serve_pending-Fetched :
    {H : Type 0} (c : ℕ) (w : World H) (q : ClerkQueue) (res : Option (ℕ × Request))
    → ledger_get_queue c w ≡ some q
    → NoneHolds in_progress_test q.table
    → Searched pending_test q.table res
    → Fetched c w (serve_pending c q w res)
unfolding serve_pending queue_count
serve_pending-Fetched c w q none e h k =
    (refl, rw (e, queue_count) (count_entries-none open_test q.table (NoneHolds-open q.table h k)))
serve_pending-Fetched c w q (some (i, r)) e h k = (
  q,
  _,
  e,
  refl,
  record {
    old = r;
    was_there = k.at_index;
    running = refl;
    table_eq = refl;
    inside = k.inside;
    last_idx_eq = refl;
    order = inr (h, k);
  },
)

serve_started-Fetched :
    {H : Type 0} (c : ℕ) (w : World H) (q : ClerkQueue) (res : Option (ℕ × Request))
    → ledger_get_queue c w ≡ some q
    → Searched in_progress_test q.table res
    → Fetched c w (serve_started c q w res)
unfolding serve_started
serve_started-Fetched c w q none e h =
    serve_pending-Fetched c w q (find_entry pending_test q.table) e h
      (find_entry-Searched pending_test q.table)
serve_started-Fetched c w q (some (i, r)) e h = (
  q,
  _,
  e,
  refl,
  record {
    old = r;
    was_there = h.at_index;
    running = sym (with_status_same r h.passes);
    table_eq = sym (set_same q.table i r h.at_index);
    inside = h.inside;
    last_idx_eq = refl;
    order = inl h;
  },
)

serve_queue-Fetched :
    {H : Type 0} (c : ℕ) (w : World H) (o : Option ClerkQueue)
    → ledger_get_queue c w ≡ o
    → Fetched c w (serve_queue c w o)
unfolding serve_queue queue_count
serve_queue-Fetched c w none e = (refl, rw (e, queue_count))
serve_queue-Fetched c w (some q) e =
    serve_started-Fetched c w q (find_entry in_progress_test q.table) e
      (find_entry-Searched in_progress_test q.table)

-- A fetch either changes nothing and the clerk has no open request, or it gives the clerk the first
-- request of its queue that is in progress, or, if none is, the first that is pending, now in
-- progress; it records the entry, and changes no other entry, no other queue, no task and
-- not the heap.
pub fetch_next_req-Fetched :
    {H : Type 0} (c : ℕ) (w : World H) → Fetched c w (ledger_fetch_next_req c w)
unfolding ledger_fetch_next_req
fetch_next_req-Fetched c w = serve_queue-Fetched c w (ledger_get_queue c w) refl

open_count_found :
    {H : Type 0} (c : ℕ) (w : World H) (res : Option (ℕ × Request) × World H)
    → Fetched c w res
    → 0 < queue_count open_test c w
    → (i : ℕ) × (r : Request) × (res.0 ≡ some (i, r))
open_count_found c w (none, w') f h = absurd (omega (arith, f.1))
open_count_found c w (some (i, r), w') f h = (i, r, refl)

-- A clerk whose queue holds an open request is given one by `ledger_fetch_next_req`.
pub fetch_next_req-ne-none :
    {H : Type 0} (c : ℕ) (w : World H)
    → 0 < queue_count open_test c w
    → (i : ℕ) × (r : Request) × ((ledger_fetch_next_req c w).0 ≡ some (i, r))
fetch_next_req-ne-none c w h =
    open_count_found c w (ledger_fetch_next_req c w) (fetch_next_req-Fetched c w) h

-- What the Hail Mary does to the fetched request: entry `i` of clerk `c` is terminated and no other
-- entry of its queue changes, no other queue changes, and the caller's task, if any, is ready.
pub record Rescued {H : Type 0} (c : ℕ) (q : ClerkQueue) (i : ℕ) (r : Request) (w w' : World H)
    : Type 0 where
  pub queue_eq :
      ledger_get_queue c w'
      ≡ some (record {
        table = set q.table i (some (with_status Status.terminated r));
        last_idx = some i;
      })
  pub others : (d : ℕ) → d ≢ c → w'.queues d ≡ w.queues d
  pub woken :
      (t : Task)
      → r.caller_pid < max_tasks
      → w.tasks r.caller_pid ≡ some t
      → w'.tasks r.caller_pid ≡ some (set_state TaskState.ready t)
  pub heap_eq : w'.heap ≡ w.heap

terminate_entry-Rescued :
    {H : Type 0} (c : ℕ) (w : World H) (q : ClerkQueue) (i : ℕ) (r : Request)
    → ledger_get_queue c w ≡ some q
    → Rescued c q i r w (terminate_entry c q i (some r) w)
unfolding terminate_entry ledger_get_queue
terminate_entry-Rescued c w q i r e = record {
  queue_eq = ground arith;
  others = λ d ne. ground arith;
  woken = λ t h k. ground arith;
  heap_eq = ground arith;
}

pub check_request-terminate_entry :
    {H : Type 0} (c : ℕ) (w : World H) {q : ClerkQueue} {i : ℕ} {r : Request}
    → ledger_get_queue c w ≡ some q
    → q.last_idx ≡ some i
    → get_or q.table i none ≡ some r
    → ledger_check_request c w ≡ terminate_entry c q i (some r) w
unfolding ledger_check_request terminate_last
check_request-terminate_entry c w e l g = rw (e, ledger_check_request, l, g)

-- `ledger_check_request` for clerk `c`, where entry `i` of its queue was fetched last and holds `r`: that
-- entry is terminated, no other entry of the queue and no other queue changes, and the task that made
-- the request, if any, is ready.
pub check_request-Rescued :
    {H : Type 0} (c : ℕ) (w : World H) {q : ClerkQueue} {i : ℕ} {r : Request}
    → ledger_get_queue c w ≡ some q
    → q.last_idx ≡ some i
    → get_or q.table i none ≡ some r
    → Rescued c q i r w (ledger_check_request c w)
check_request-Rescued c w {q} {i} {r} e l g =
    rw (check_request-terminate_entry c w e l g) (terminate_entry-Rescued c w q i r e)
