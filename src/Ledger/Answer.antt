-- ===== src/Ledger/Answer.antt =====
-- How an answer travels from a clerk to the caller that waits for it.
use taavi_os.Common.{
  ℕ, zero, suc, ◌<◌, ◌≤◌, ◌≡◌, refl, ap, ◌∙◌, Bool, true, false, Option, none, some, [], ◌∷◌, ◌++◌,
  length, take, set, arith,
}
use taavi_os.Config.{status_error}
use taavi_os.Ledger.Operation
use taavi_os.Ledger.Types.{
  complete, terminated, Block, Request, Table, ClerkQueue, World, put_queue,
}
use taavi_os.Ledger.Queue.{ledger_get_queue}
use taavi_os.Ledger.Serve.{find_entry, with_status, set_request}
use taavi_os.Ledger.Collect.{
  copy_out, answer, collectable, hand_over, collect_entry, ledger_collect,
}
use taavi_os.Ledger.Entries.{NoneHolds}

-- A request that alone passes the test is the one that a search finds.
find_entry-set :
    (p : Request → Bool) (t : Table) (i : ℕ) (r : Request)
    → i < length t
    → NoneHolds p t
    → p r ≡ true
    → find_entry p (set t i (some r)) ≡ some (i, r)
unfolding find_entry
find_entry-set p [] i r lt h e = absurd (omega arith)
find_entry-set p (o ∷ t) zero r lt h e = rw e
find_entry-set p (none ∷ t) (suc i) r lt h e =
    rw (find_entry-set p t i r (omega arith) (λ j. h (suc j)) e)
find_entry-set p (some q ∷ t) (suc i) r lt h e =
    rw (h 0, find_entry-set p t i r (omega arith) (λ j. h (suc j)) e)

-- The request is a finished read of `caller`, and its buffer holds the bytes that it announces.
pub record IsReadAnswer (caller : ℕ) (r : Request) (b : Block) : Type 0 where
  pub owner : r.caller_pid ≡ caller
  pub status_eq : r.status ≡ complete
  pub type_eq : r.request_type ≡ Operation.read
  pub buf_eq : r.buf ≡ some b
  pub within : r.buffer_size ≤ length b.content

answer_read :
    (caller : ℕ) (r : Request) (b : Block)
    → IsReadAnswer caller r b
    → answer true r r.status ≡ some (r.buffer_size, some (take r.buffer_size b.content ++ 0 ∷ []))
unfolding answer copy_out
answer_read caller r b v = ground arith

read_collectable :
    (caller : ℕ) (r : Request) (b : Block) → IsReadAnswer caller r b → collectable caller r ≡ true
read_collectable caller r b v = ground arith

find_entry-none : (p : Request → Bool) (t : Table) → NoneHolds p t → find_entry p t ≡ none
unfolding find_entry
find_entry-none p [] h = refl
find_entry-none p (none ∷ t) h = rw (find_entry-none p t (λ j. h (suc j)))
find_entry-none p (some q ∷ t) h = rw (h 0, find_entry-none p t (λ j. h (suc j)))

NoneHolds-set :
    (p : Request → Bool) (t : Table) (i : ℕ) (r : Request)
    → NoneHolds p t
    → p r ≡ false
    → NoneHolds p (set t i (some r))
NoneHolds-set p [] i r h e j = refl
NoneHolds-set p (o ∷ t) zero r h e zero = e
NoneHolds-set p (o ∷ t) zero r h e (suc j) = h (suc j)
NoneHolds-set p (o ∷ t) (suc i) r h e zero = h 0
NoneHolds-set p (o ∷ t) (suc i) r h e (suc j) = NoneHolds-set p t i r (λ k. h (suc k)) e j

set_twice : (t : Table) (i : ℕ) (a b : Option Request) → set (set t i a) i b ≡ set t i b
set_twice [] i a b = refl
set_twice (o ∷ t) zero a b = refl
set_twice (o ∷ t) (suc i) a b = ap (λ x. o ∷ x) (set_twice t i a b)

queue_found-put_queue :
    {H : Type 0} (c : ℕ) (w : World H) {q : ClerkQueue} (q' : ClerkQueue)
    → ledger_get_queue c w ≡ some q
    → ledger_get_queue c (put_queue c q' w) ≡ some q'
unfolding ledger_get_queue
queue_found-put_queue c w q' e = ground arith

collect-some :
    {H : Type 0} (caller c : ℕ) (out : Bool) (w : World H) {q : ClerkQueue} {i : ℕ} {r : Request}
    → ledger_get_queue c w ≡ some q
    → find_entry (collectable caller) q.table ≡ some (i, r)
    → ledger_collect caller c out w ≡ hand_over c q i r w (answer out r r.status)
unfolding ledger_collect collect_entry
collect-some caller c out w e f = rw (ledger_collect, e, f)

collect-none :
    {H : Type 0} (caller c : ℕ) (out : Bool) (w : World H) {q : ClerkQueue}
    → ledger_get_queue c w ≡ some q
    → NoneHolds (collectable caller) q.table
    → ledger_collect caller c out w ≡ some (status_error, none, w)
unfolding ledger_collect collect_entry
collect-none caller c out w {q} e h =
    rw (ledger_collect, e, find_entry-none (collectable caller) q.table h)

set_request-put_queue :
    {H : Type 0} (c i : ℕ) (r : Request) (w : World H) {q : ClerkQueue}
    → ledger_get_queue c w ≡ some q
    → set_request c i r w ≡ put_queue c (record q { table = set q.table i (some r) }) w
unfolding set_request
set_request-put_queue c i r w e = rw (set_request, e)

-- A clerk answers a read, where the caller has no other answer waiting at this clerk. Then the
-- caller's `ledger_collect` returns the size and leaves the bytes, ended by a zero, in its buffer;
-- and a second `ledger_collect` finds nothing, so that the answer is delivered once.
pub store-collect :
    {H : Type 0} (caller c i : ℕ) (w : World H) {q : ClerkQueue} {r : Request} {b : Block}
    → ledger_get_queue c w ≡ some q
    → i < length q.table
    → NoneHolds (collectable caller) q.table
    → IsReadAnswer caller r b
    → (w' : World H) × (ledger_collect caller c true (set_request c i r w)
        ≡ some (r.buffer_size, some (take r.buffer_size b.content ++ 0 ∷ []), w'))
      × ((out : Bool) → ledger_collect caller c out w' ≡ some (status_error, none, w'))
unfolding hand_over
store-collect {H} caller c i w {q} {r} {b} e lt h v = (
  w',
  rw (set_request-put_queue c i r w e) (
      collect-some caller c true w1 e1 found
      ∙ ap (hand_over c q1 i r w1) (answer_read caller r b v)),
  λ out. collect-none caller c out w' (queue_found-put_queue c w1 q2 e1) gone,
)
  where
    q1 : ClerkQueue
    q1 = record q { table = set q.table i (some r) }

    w1 : World H
    w1 = put_queue c q1 w

    e1 : ledger_get_queue c w1 ≡ some q1
    e1 = queue_found-put_queue c w q1 e

    q2 : ClerkQueue
    q2 = record q1 { table = set q1.table i (some (with_status terminated r)) }

    w' : World H
    w' = put_queue c q2 w1

    found : find_entry (collectable caller) q1.table ≡ some (i, r)
    found = find_entry-set (collectable caller) q.table i r lt h (read_collectable caller r b v)

    gone : NoneHolds (collectable caller) q2.table
    gone j =
        rw (set_twice q.table i (some r) (some (with_status terminated r))) (
          NoneHolds-set (collectable caller) q.table i (with_status terminated r) h (ground arith)
            j)
