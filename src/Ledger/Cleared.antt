-- ===== src/Ledger/Cleared.antt =====
-- What removing the terminated requests should do to a table and to the heap, and what of the ledger's
-- counts and searches depends on the tables only.
use taavi_os.Common.{
  ℕ, zero, suc, ◌+◌, ◌<◌, ◌≤◌, ◌≡◌, refl, ap, ap₂, Bool, false, Option, none, some, List, [], ◌∷◌,
  ◌++◌, map, if◌then◌else◌, arith,
}
use taavi_os.Ledger.Types.{Block, Request, Table, ClerkQueue, World}
use taavi_os.Ledger.Queue.{ledger_get_queue}
use taavi_os.Ledger.Serve.{holds, queue_count, count_from, any_entry, any_from, terminated_test}

-- The table without its terminated requests.
abbrev pub without_terminated : Table → Table
without_terminated = map (λ o. if holds terminated_test o then none else o)

abbrev pub clear_queue : Option ClerkQueue → Option ClerkQueue
clear_queue none = none
clear_queue (some q) = some (record q { table = without_terminated q.table })

abbrev block_addrs : Option Block → List ℕ
block_addrs none = []
block_addrs (some b) = b.addr ∷ []

-- The addresses that a request owns, in the order in which they are freed.
abbrev pub request_addrs : Request → List ℕ
request_addrs r = block_addrs r.buf ++ block_addrs r.pixels ++ r.addr ∷ []

abbrev pub entry_addrs : Option Request → List ℕ
entry_addrs none = []
entry_addrs (some r) = if terminated_test r then request_addrs r else []

-- The addresses that the terminated requests of a table own.
abbrev pub terminated_addrs : Table → List ℕ
terminated_addrs [] = []
terminated_addrs (o ∷ t) = entry_addrs o ++ terminated_addrs t

abbrev pub queue_addrs : Option ClerkQueue → List ℕ
queue_addrs none = []
queue_addrs (some q) = terminated_addrs q.table

-- The same for the queues of the clerks from `c` on, `n` of them.
abbrev pub addrs_from : {H : Type 0} → ℕ → ℕ → World H → List ℕ
addrs_from zero c w = []
addrs_from (suc n) c w = queue_addrs (w.queues c) ++ addrs_from n (c + 1) w

any_entry-without_terminated :
    (t : Table) → any_entry terminated_test (without_terminated t) ≡ false
unfolding any_entry
any_entry-without_terminated [] = refl
any_entry-without_terminated (none ∷ t) = any_entry-without_terminated t
any_entry-without_terminated (some r ∷ t) = ground (arith, any_entry-without_terminated t)

-- Counts and addresses read only the queues from `c` on.
queue_count_congr :
    {H : Type 0} (p : Request → Bool) (c : ℕ) (w w' : World H)
    → w.queues c ≡ w'.queues c
    → queue_count p c w ≡ queue_count p c w'
unfolding queue_count ledger_get_queue
queue_count_congr p c w w' e = ground arith

pub count_from_congr :
    {H : Type 0} (p : Request → Bool) (n c : ℕ) (w w' : World H)
    → ((d : ℕ) → c ≤ d → w.queues d ≡ w'.queues d)
    → count_from p n c w ≡ count_from p n c w'
unfolding count_from
count_from_congr p zero c w w' h = refl
count_from_congr p (suc n) c w w' h =
    ap₂ ◌+◌ (queue_count_congr p c w w' (h c (omega arith)))
      (count_from_congr p n (c + 1) w w' (λ d l. h d (omega arith)))

pub addrs_from_congr :
    {H : Type 0} (n c : ℕ) (w w' : World H)
    → ((d : ℕ) → c ≤ d → w.queues d ≡ w'.queues d)
    → addrs_from n c w ≡ addrs_from n c w'
addrs_from_congr zero c w w' h = refl
addrs_from_congr (suc n) c w w' h =
    ap₂ ◌++◌ (ap queue_addrs (h c (omega arith)))
      (addrs_from_congr n (c + 1) w w' (λ d l. h d (omega arith)))

any_entry-clear_queue :
    (o : Option ClerkQueue)
    → elim (clear_queue o) as (λ x. Bool) [
      | none ↦ false
      | some q ↦ any_entry terminated_test q.table
    ]
      ≡ false
any_entry-clear_queue none = refl
any_entry-clear_queue (some q) = any_entry-without_terminated q.table

pub any_from_cleared :
    {H : Type 0} (n c : ℕ) (w w' : World H)
    → ((d : ℕ) → c ≤ d → d < c + n → w'.queues d ≡ clear_queue (w.queues d))
    → any_from terminated_test n c w' ≡ false
unfolding any_from ledger_get_queue
any_from_cleared zero c w w' h = refl
any_from_cleared (suc n) c w w' h = ground (
  arith,
  h c (omega arith) (omega arith),
  any_entry-clear_queue (w.queues c),
  any_from_cleared n (c + 1) w w' (λ d l k. h d (omega arith) (omega arith)),
)
