-- ===== src/Ledger/Steps.antt =====
-- Every call of the ledger takes each request one step along its life, or leaves it alone.
use taavi_os.Common.{
  ℕ, zero, suc, ◌<◌, ◌≡◌, ◌≢◌, inl, inr, refl, ap, Bool, true, Option, none, some, List, [], ◌∷◌,
  length, get_or, set, arith,
}
use taavi_os.Config.{status_error}
use taavi_os.Ledger.Types.{
  Status, is_answered, Request, Table, ClerkQueue, World, Allocator, put_queue,
}
use taavi_os.Ledger.Queue.{
  scheduler_wake_task, wake_clerk, ledger_get_queue, place, refuse_req, enqueue, queue_in,
  queue_req,
}
use taavi_os.Ledger.Serve.{
  find_entry, pending_test, with_status, serve_at, ledger_fetch_next_req, terminate_entry,
  terminate_last, ledger_check_request, set_request,
}
use taavi_os.Ledger.Collect.{
  collectable, Collected, hand_over, collect_entry, ledger_collect, answer,
}
use taavi_os.Ledger.Entries.{Searched, find_entry-Searched, PlaceResult, place-PlaceResult}
use taavi_os.Ledger.Fetch.{Serves, Fetched, with_status_same, fetch_next_req-Fetched}
use taavi_os.Ledger.Lifecycle.{
  Right, SlotStep, Moves, MovesBy, NoRight, QueueStep-refl, Moves-same, QueueMoves-set,
  Moves-put_queue,
}

pending_status : (r : Request) → pending_test r ≡ true → r.status ≡ Status.pending
pending_status r h = ground arith

answered_of : (caller : ℕ) (r : Request) → collectable caller r ≡ true → is_answered r.status ≡ true
answered_of caller r h = ground arith

-- The state after a call of `ledger_collect`; where it faults, the state before it.
abbrev pub world_after : {H : Type 0} → World H → Collected H → World H
world_after w none = w
world_after w (some (code, written, w')) = w'

pub queues-scheduler_wake_task :
    {H : Type 0} (pid : ℕ) (w : World H) (c : ℕ) → (scheduler_wake_task pid w).queues c ≡ w.queues c
unfolding scheduler_wake_task
queues-scheduler_wake_task pid w c = ground arith

pub queues-wake_clerk :
    {H : Type 0} (pid : ℕ) (w : World H) (c : ℕ) → (wake_clerk pid w).queues c ≡ w.queues c
unfolding wake_clerk
queues-wake_clerk pid w c = ground arith

-- A world with the queues of a stepped one takes the same step.
Moves-then_same :
    {H : Type 0} (R : ℕ → Right → Type 0) (w w' w'' : World H)
    → MovesBy R w w'
    → ((c : ℕ) → w''.queues c ≡ w'.queues c)
    → MovesBy R w w''
Moves-then_same R w w' w'' m h c = rw (h c) (m c)

served_step :
    (c : ℕ) (R : Right → Type 0) {q q' : ClerkQueue} {i : ℕ} {r : Request}
    → (s : Serves q i r q') → SlotStep c R (get_or q.table i none) (some r)
served_step c R {r = r} s = elim s.order [
  | inl f ↦ SlotStep.kept (rw (s.was_there, s.running) (ap some (with_status_same s.old f.passes)))
  | inr f ↦ SlotStep.started s.old s.was_there (pending_status s.old f.1.passes) (ap some s.running)
]

-- `ledger_fetch_next_req` starts at most one request.
fetch_step :
    {H : Type 0} (c : ℕ) (w : World H) (res : Option (ℕ × Request) × World H)
    → Fetched c w res
    → Moves w res.1
fetch_step c w (none, w') f = Moves-same NoRight w w' (λ d. ap (λ x. x.queues d) f.0)
fetch_step c w (some (i, r), w') (q, q', e, p, s) = rw p (
    Moves-put_queue NoRight c w q q' e
      (QueueMoves-set c q q' i r s.inside s.table_eq (served_step c _ s) (inr s.last_idx_eq)))

pub fetch_next_req-Moves :
    {H : Type 0} (c : ℕ) (w : World H) → Moves w (ledger_fetch_next_req c w).1
fetch_next_req-Moves c w = fetch_step c w (ledger_fetch_next_req c w) (fetch_next_req-Fetched c w)

-- An entry that holds a request stands inside its table.
inside_table : (t : Table) (i : ℕ) {r : Request} → get_or t i none ≡ some r → i < length t
inside_table [] i h = cc
inside_table (o ∷ t) zero h = omega arith
inside_table (o ∷ t) (suc i) h = omega (arith, inside_table t i h)

-- The rights of the Hail Mary of clerk `c`.
abbrev pub RescuesAt : ℕ → ℕ → Right → Type 0
RescuesAt c d Right.rescue = d ≡ c
RescuesAt c d Right.answer = ⊥

-- The rights of a store of clerk `c`.
abbrev pub AnswersAt : ℕ → ℕ → Right → Type 0
AnswersAt c d Right.rescue = ⊥
AnswersAt c d Right.answer = d ≡ c

terminate_entry-Moves :
    {H : Type 0} (c : ℕ) (w : World H) (q : ClerkQueue) (i : ℕ) (o : Option Request)
    → ledger_get_queue c w ≡ some q
    → q.last_idx ≡ some i
    → get_or q.table i none ≡ o
    → MovesBy (RescuesAt c) w (terminate_entry c q i o w)
unfolding terminate_entry
terminate_entry-Moves c w q i none e l h = λ d. QueueStep-refl (RescuesAt c d) d (w.queues d)
terminate_entry-Moves c w q i (some r) e l h =
    let w' = serve_at c q i (with_status Status.terminated r) w in
    Moves-then_same (RescuesAt c) w w' (scheduler_wake_task r.caller_pid w')
      (Moves-put_queue (RescuesAt c) c w q _ e (
        QueueMoves-set c q _ i _ (inside_table q.table i h) refl
          (SlotStep.rescued (refl, l) r h refl) (inr refl)))
      (queues-scheduler_wake_task r.caller_pid w')

terminate_last-Moves :
    {H : Type 0} (c : ℕ) (w : World H) (q : ClerkQueue) (o : Option ℕ)
    → ledger_get_queue c w ≡ some q
    → q.last_idx ≡ o
    → MovesBy (RescuesAt c) w (terminate_last c q o w)
unfolding terminate_last
terminate_last-Moves c w q none e l = λ d. QueueStep-refl (RescuesAt c d) d (w.queues d)
terminate_last-Moves c w q (some i) e l =
    terminate_entry-Moves c w q i (get_or q.table i none) e l refl

-- `ledger_check_request` terminates at most one request, the last one that its clerk fetched.
pub check_request-Moves :
    {H : Type 0} (c : ℕ) (w : World H) → MovesBy (RescuesAt c) w (ledger_check_request c w)
unfolding ledger_check_request
check_request-Moves c w = go (ledger_get_queue c w) refl
  where
    go :
        (o : Option ClerkQueue)
        → ledger_get_queue c w ≡ o
        → MovesBy (RescuesAt c) w (elim o [ none ↦ w | some q ↦ terminate_last c q q.last_idx w ])
    go none e = λ d. QueueStep-refl (RescuesAt c d) d (w.queues d)
    go (some q) e = terminate_last-Moves c w q q.last_idx e refl

set_request-put_queue :
    {H : Type 0} (c i : ℕ) (r : Request) (w : World H) {q : ClerkQueue}
    → ledger_get_queue c w ≡ some q
    → set_request c i r w ≡ put_queue c (record q { table = set q.table i (some r) }) w
unfolding set_request
set_request-put_queue c i r w e = rw (set_request, e)

-- A clerk's store through the pointer that it fetched.
pub set_request-Moves :
    {H : Type 0} (c i : ℕ) (r : Request) (w : World H) {q : ClerkQueue} {old : Request}
    → ledger_get_queue c w ≡ some q
    → get_or q.table i none ≡ some old
    → old.status ≡ Status.in_progress
    → r.status ≢ Status.pending
    → r.clerk_pid ≡ old.clerk_pid
    → MovesBy (AnswersAt c) w (set_request c i r w)
set_request-Moves c i r w {q} {old} e h s p k = rw (set_request-put_queue c i r w e) (
    Moves-put_queue (AnswersAt c) c w q _ e (
      QueueMoves-set c q _ i r (inside_table q.table i h) refl
        (SlotStep.finished refl old r h s refl p k) (inl refl)))

hand_over-Moves :
    {H : Type 0} (c : ℕ) (w : World H) (q : ClerkQueue) (i : ℕ) (r : Request)
    (ans : Option (ℕ × Option (List ℕ)))
    → ledger_get_queue c w ≡ some q
    → get_or q.table i none ≡ some r
    → is_answered r.status ≡ true
    → Moves w (world_after w (hand_over c q i r w ans))
unfolding hand_over
hand_over-Moves c w q i r none e h s = λ d. QueueStep-refl (NoRight d) d (w.queues d)
hand_over-Moves c w q i r (some (code, data_out)) e h s = Moves-put_queue NoRight c w q _ e (
    QueueMoves-set c q _ i _ (inside_table q.table i h) refl (SlotStep.collected r h s refl)
      (inl refl))

collect_entry-Moves :
    {H : Type 0} (caller c : ℕ) (out : Bool) (w : World H) (q : ClerkQueue)
    (res : Option (ℕ × Request))
    → ledger_get_queue c w ≡ some q
    → Searched (collectable caller) q.table res
    → Moves w (world_after w (collect_entry c q out w res))
unfolding collect_entry
collect_entry-Moves caller c out w q none e f = λ d. QueueStep-refl (NoRight d) d (w.queues d)
collect_entry-Moves caller c out w q (some (i, r)) e f =
    hand_over-Moves c w q i r (answer out r r.status) e f.at_index (answered_of caller r f.passes)

-- `ledger_collect` terminates at most one request, which was answered.
pub collect-Moves :
    {H : Type 0} (caller c : ℕ) (out : Bool) (w : World H)
    → Moves w (world_after w (ledger_collect caller c out w))
unfolding ledger_collect
collect-Moves {H} caller c out w = go (ledger_get_queue c w) refl
  where
    go :
        (o : Option ClerkQueue)
        → ledger_get_queue c w ≡ o
        → Moves w (
            world_after w (elim o as (λ x. Collected H) [
              | none ↦ some (status_error, none, w)
              | some q ↦ collect_entry c q out w (find_entry (collectable caller) q.table)
            ]))
    go none e = λ d. QueueStep-refl (NoRight d) d (w.queues d)
    go (some q) e =
        collect_entry-Moves caller c out w q _ e (find_entry-Searched (collectable caller) q.table)

module _ (al : Allocator) where
  open al use {Heap}

  refuse_req-Moves : (r : Request) (w : World Heap) → Moves w (refuse_req al r w).1
  unfolding refuse_req
  refuse_req-Moves r w =
      let w' : World Heap = record w { heap = al.kfree r.addr w.heap } in
      Moves-same NoRight w (scheduler_wake_task r.caller_pid w')
        (queues-scheduler_wake_task r.caller_pid w')

  enqueue-Moves :
      (r : Request) (w : World Heap) (q : ClerkQueue) (o : Option Table)
      → ledger_get_queue r.clerk_pid w ≡ some q
      → r.status ≡ Status.pending
      → PlaceResult r q.table o
      → Moves w (enqueue al r q o w).1
  unfolding enqueue
  enqueue-Moves r w q none e s p = refuse_req-Moves r w
  enqueue-Moves r w q (some t) e s p =
      let w' = put_queue r.clerk_pid (record q { table = t }) w in
      Moves-then_same NoRight w w' (wake_clerk r.clerk_pid w')
        (Moves-put_queue NoRight r.clerk_pid w q _ e (
          QueueMoves-set r.clerk_pid q _ p.slot r p.inside p.table_eq
            (SlotStep.placed r p.was_free refl s refl) (inl refl)))
        (queues-wake_clerk r.clerk_pid w')

  queue_in-Moves :
      (r : Request) (w : World Heap) (o : Option ClerkQueue)
      → ledger_get_queue r.clerk_pid w ≡ o
      → r.status ≡ Status.pending
      → Moves w (queue_in al r o w).1
  unfolding queue_in
  queue_in-Moves r w none e s = refuse_req-Moves r w
  queue_in-Moves r w (some q) e s =
      enqueue-Moves r w q (place r q.table) e s (place-PlaceResult r q.table)

  -- A new request is queued as PENDING at a free entry of its clerk's table, or nowhere.
  pub queue_req-Moves :
      (r : Request) (w : World Heap) → r.status ≡ Status.pending → Moves w (queue_req al r w).1
  unfolding queue_req
  queue_req-Moves r w s = queue_in-Moves r w (ledger_get_queue r.clerk_pid w) refl s
