-- ===== src/Ledger/Serve.antt =====
-- ledger_core.c, what a clerk calls: `ledger_fetch_next_req`, `ledger_check_request` and the counts.
use taavi_os.Common.{
  ℕ, zero, suc, ◌+◌, Bool, true, false, ◌||◌, Option, none, some, [], ◌∷◌, get_or, set, ltb,
  if◌then◌else◌,
}
use taavi_os.Config.{status_error, clerk_count}
use taavi_os.Ledger.Types.{
  Status, is_pending, is_in_progress, is_terminated, is_open, Request, Table, ClerkQueue, World,
  put_queue,
}
use taavi_os.Ledger.Queue.{scheduler_wake_task, ledger_get_queue}

abbrev pub is_some_request : Request → Bool
is_some_request r = true

-- `q->table[i] != NULL` and a test of the request there.
abbrev pub holds : (Request → Bool) → Option Request → Bool
holds p none = false
holds p (some r) = p r

-- an index into a table, counted from the entry before it
abbrev pub shift : Option (ℕ × Request) → Option (ℕ × Request)
shift none = none
shift (some (i, r)) = some (suc i, r)

-- `for (i = 0; i < q->max_entries; i++) if (…) return i`, with the request found there.
unfoldable pub find_entry : (Request → Bool) → Table → Option (ℕ × Request)
find_entry p [] = none
find_entry p (none ∷ t) = shift (find_entry p t)
find_entry p (some q ∷ t) = if p q then some (0, q) else shift (find_entry p t)

-- `for (i = 0; i < q->max_entries; i++) if (…) req_count++`
unfoldable pub count_entries : (Request → Bool) → Table → ℕ
count_entries p [] = 0
count_entries p (o ∷ t) = (if holds p o then 1 else 0) + count_entries p t

abbrev pub with_status : Status → Request → Request
with_status s r = record r { status = s }

-- `*q->last_idx = i`, and the request at `i` replaced.
abbrev pub serve_at : {H : Type 0} → ℕ → ClerkQueue → ℕ → Request → World H → World H
serve_at c q i r = put_queue c (record { table = set q.table i (some r); last_idx = some i })

abbrev pub in_progress_test : Request → Bool
in_progress_test r = is_in_progress r.status

abbrev pub pending_test : Request → Bool
pending_test r = is_pending r.status

abbrev pub open_test : Request → Bool
open_test r = is_open r.status

abbrev pub terminated_test : Request → Bool
terminated_test r = is_terminated r.status

-- the second loop: the first request that is PENDING starts
unfoldable pub serve_pending :
    {H : Type 0} → ℕ → ClerkQueue → World H → Option (ℕ × Request) → Option (ℕ × Request) × World H
serve_pending c q w none = (none, w)
serve_pending c q w (some (i, r)) =
    let r' = with_status Status.in_progress r in (some (i, r'), serve_at c q i r' w)

-- the first loop: a request that is IN_PROGRESS goes on
unfoldable pub serve_started :
    {H : Type 0} → ℕ → ClerkQueue → World H → Option (ℕ × Request) → Option (ℕ × Request) × World H
unfolding serve_pending find_entry
serve_started c q w none = serve_pending c q w (find_entry pending_test q.table)
serve_started c q w (some (i, r)) = (some (i, r), put_queue c (record q { last_idx = some i }) w)

unfoldable pub serve_queue :
    {H : Type 0} → ℕ → World H → Option ClerkQueue → Option (ℕ × Request) × World H
unfolding serve_started
serve_queue c w none = (none, w)
serve_queue c w (some q) = serve_started c q w (find_entry in_progress_test q.table)

-- The result is the entry's index with the request that the returned pointer shows.
unfoldable pub ledger_fetch_next_req : {H : Type 0} → ℕ → World H → Option (ℕ × Request) × World H
unfolding ledger_get_queue serve_queue
ledger_fetch_next_req clerk_pid w = serve_queue clerk_pid w (ledger_get_queue clerk_pid w)

-- `entry = q->table[i]`, NULL or a request.
unfoldable pub terminate_entry :
    {H : Type 0} → ℕ → ClerkQueue → ℕ → Option Request → World H → World H
unfolding scheduler_wake_task
terminate_entry c q i none w = w
terminate_entry c q i (some r) w =
    scheduler_wake_task r.caller_pid (serve_at c q i (with_status Status.terminated r) w)

-- the body after `*q->last_idx == -1`
unfoldable pub terminate_last : {H : Type 0} → ℕ → ClerkQueue → Option ℕ → World H → World H
unfolding terminate_entry
terminate_last c q none w = w
terminate_last c q (some i) w = terminate_entry c q i (get_or q.table i none) w

unfoldable pub ledger_check_request : {H : Type 0} → ℕ → World H → World H
unfolding ledger_get_queue terminate_last
ledger_check_request clerk_pid w = elim (ledger_get_queue clerk_pid w) [
  | none ↦ w
  | some q ↦ terminate_last clerk_pid q q.last_idx w
]

-- A store by the clerk through the pointer that `ledger_fetch_next_req` gave it.
unfoldable pub set_request : {H : Type 0} → ℕ → ℕ → Request → World H → World H
unfolding ledger_get_queue
set_request clerk_pid i r w = elim (ledger_get_queue clerk_pid w) [
  | none ↦ w
  | some q ↦ put_queue clerk_pid (record q { table = set q.table i (some r) }) w
]

-- The count of one queue, 0 where the clerk has none.
unfoldable pub queue_count : {H : Type 0} → (Request → Bool) → ℕ → World H → ℕ
unfolding ledger_get_queue count_entries
queue_count p clerk_pid w = elim (ledger_get_queue clerk_pid w) [
  | none ↦ 0
  | some q ↦ count_entries p q.table
]

unfoldable pub ledger_count_clerk_reqs : {H : Type 0} → ℕ → World H → ℕ
unfolding queue_count
ledger_count_clerk_reqs clerk_pid w =
    if ltb clerk_pid clerk_count then queue_count open_test clerk_pid w else status_error

unfoldable pub ledger_count_all_clerk_reqs : {H : Type 0} → ℕ → World H → ℕ
unfolding queue_count
ledger_count_all_clerk_reqs clerk_pid w =
    if ltb clerk_pid clerk_count then queue_count is_some_request clerk_pid w else status_error

-- The sum of a count over the clerks from `c` on, `n` of them left.
unfoldable pub count_from : {H : Type 0} → (Request → Bool) → ℕ → ℕ → World H → ℕ
unfolding queue_count
count_from p zero c w = 0
count_from p (suc n) c w = queue_count p c w + count_from p n (c + 1) w

unfoldable pub ledger_count_active_reqs : {H : Type 0} → World H → ℕ
unfolding count_from
ledger_count_active_reqs w = count_from open_test clerk_count 0 w

-- Whether some entry passes the test.
unfoldable pub any_entry : (Request → Bool) → Table → Bool
any_entry p [] = false
any_entry p (o ∷ t) = holds p o || any_entry p t

-- The search through the queues of the clerks from `c` on, `n` of them left.
unfoldable pub any_from : {H : Type 0} → (Request → Bool) → ℕ → ℕ → World H → Bool
unfolding ledger_get_queue any_entry
any_from p zero c w = false
any_from p (suc n) c w =
    elim (ledger_get_queue c w) [ none ↦ false | some q ↦ any_entry p q.table ]
    || any_from p n (c + 1) w

unfoldable pub ledger_has_killable_reqs : {H : Type 0} → World H → Bool
unfolding any_from
ledger_has_killable_reqs w = any_from terminated_test clerk_count 0 w
