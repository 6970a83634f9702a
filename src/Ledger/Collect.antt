-- ===== src/Ledger/Collect.antt =====
-- ledger_core.c, `ledger_collect`: a caller takes the answer to its request.
use taavi_os.Common.{
  ℕ, Bool, true, false, ◌&&◌, ◌||◌, Option, none, some, List, [], ◌∷◌, ◌++◌, length, take, set, leb,
  ◌==◌, if◌then◌else◌,
}
use taavi_os.Config.{status_ok, status_error}
use taavi_os.Ledger.Operation
use taavi_os.Ledger.Types.{
  Status, terminated, failed, is_answered, Block, Request, ClerkQueue, World, put_queue,
}
use taavi_os.Ledger.Queue.{ledger_get_queue}
use taavi_os.Ledger.Serve.{find_entry, with_status}

-- `memcpy(out, req->buf, n); out[n] = '\0'` where `out` is not NULL: what stands in `out` after it.
-- The outer `none` is a fault, a read beyond the buffer or through NULL.
unfoldable pub copy_out : Bool → Option Block → ℕ → Option (Option (List ℕ))
copy_out false b n = some none
copy_out true none n = if n == 0 then some (some (0 ∷ [])) else none
copy_out true (some b) n =
    if leb n (length b.content) then some (some (take n b.content ++ 0 ∷ [])) else none

abbrev pub returns_key : ℕ → Bool
returns_key type = type == Operation.create || type == Operation.open_file

abbrev pub returns_data : ℕ → Bool
returns_data type = type == Operation.list || type == Operation.read

-- The `switch` of a COMPLETE request, and the FAILED case: the return value and `out`.
unfoldable pub answer : Bool → Request → Status → Option (ℕ × Option (List ℕ))
unfolding copy_out
answer out r failed = some (status_error, none)
answer out r _ =
    if returns_key r.request_type
    then some (r.struct_key, none)
    else (if returns_data r.request_type
        then elim (copy_out out r.buf r.buffer_size) [
          | none ↦ none
          | some data_out ↦ some (r.buffer_size, data_out)
        ]
        else some (status_ok, none))

-- the entry at which the loop stops
abbrev pub collectable : ℕ → Request → Bool
collectable caller_pid r = r.caller_pid == caller_pid && is_answered r.status

-- What `ledger_collect` gives: its return value, what stands in the caller's buffer if the call wrote
-- to it, and the new state; `none` is a fault.
abbrev pub Collected : Type 0 → Type 0
Collected H = Option (ℕ × Option (List ℕ) × World H)

-- `req->status = TERMINATED; return …`
unfoldable pub hand_over :
    {H : Type 0}
    → ℕ
    → ClerkQueue
    → ℕ
    → Request
    → World H
    → Option (ℕ × Option (List ℕ))
    → Collected H
hand_over c q i r w none = none
hand_over c q i r w (some (code, written)) = some (
  code,
  written,
  put_queue c (record q { table = set q.table i (some (with_status terminated r)) }) w,
)

unfoldable pub collect_entry :
    {H : Type 0} → ℕ → ClerkQueue → Bool → World H → Option (ℕ × Request) → Collected H
unfolding hand_over answer
collect_entry c q out w none = some (status_error, none, w)
collect_entry c q out w (some (i, r)) = hand_over c q i r w (answer out r r.status)

-- `out` says whether the caller gave a buffer.
unfoldable pub ledger_collect : {H : Type 0} → ℕ → ℕ → Bool → World H → Collected H
unfolding ledger_get_queue find_entry collect_entry
ledger_collect caller_pid clerk_pid out w = elim (ledger_get_queue clerk_pid w) [
  | none ↦ some (status_error, none, w)
  | some q ↦ collect_entry clerk_pid q out w (find_entry (collectable caller_pid) q.table)
]
