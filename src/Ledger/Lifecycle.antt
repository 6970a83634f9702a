-- ===== src/Ledger/Lifecycle.antt =====
-- The life of a request: how an entry of a request table may change from one call to the next.
-- `Moves` holds the steps that ledger.h's statuses allow; the lemmas show it of the small operations.
use taavi_os.Common.{
  ℕ, ◌<◌, ◌≡◌, ◌≢◌, ◌⊎◌, inl, inr, refl, subst, true, Option, none, some, length, length-set,
  get_or, set, get_or-set, ◌==◌, if◌then◌else◌, arith, Bool-cases, ==_iff,
}
use taavi_os.Config.{clerk_count}
use taavi_os.Ledger.Types.{Status, is_answered, Request, ClerkQueue, World, put_queue}
use taavi_os.Ledger.Queue.{ledger_get_queue}
use taavi_os.Ledger.Serve.{with_status}

-- What only some calls may do: to terminate a request that is not answered, and to store an answer.
pub data Right : Type 0 where
  rescue answer : Right

-- One entry of the table of clerk `c`, before and after a call; `R` says which rights the call has there.
pub data SlotStep (c : ℕ) (R : Right → Type 0) (a b : Option Request) : Type 0 where
  kept : b ≡ a → SlotStep c R a b
  placed :
      (r : Request)
      → a ≡ none
      → b ≡ some r
      → r.status ≡ Status.pending
      → r.clerk_pid ≡ c
      → SlotStep c R a b
  started :
      (r : Request)
      → a ≡ some r
      → r.status ≡ Status.pending
      → b ≡ some (with_status Status.in_progress r)
      → SlotStep c R a b
  finished :
      R Right.answer
      → (r r' : Request) → a ≡ some r
      → r.status ≡ Status.in_progress
      → b ≡ some r'
      → r'.status ≢ Status.pending
      → r'.clerk_pid ≡ r.clerk_pid
      → SlotStep c R a b
  collected :
      (r : Request)
      → a ≡ some r
      → is_answered r.status ≡ true
      → b ≡ some (with_status Status.terminated r)
      → SlotStep c R a b
  rescued :
      R Right.rescue
      → (r : Request) → a ≡ some r
      → b ≡ some (with_status Status.terminated r)
      → SlotStep c R a b
  removed : (r : Request) → a ≡ some r → r.status ≡ Status.terminated → b ≡ none → SlotStep c R a b

-- The rights at entry `i`: to rescue, only at the last entry that the clerk fetched.
abbrev pub At : (Right → Type 0) → ClerkQueue → ℕ → Right → Type 0
At R q i Right.rescue = R Right.rescue × (q.last_idx ≡ some i)
At R q i Right.answer = R Right.answer

-- A queue keeps its length, its entries move by `SlotStep`, and `last_idx` stays inside.
pub record QueueMoves (c : ℕ) (R : Right → Type 0) (q q' : ClerkQueue) : Type 0 where
  pub length_eq : length q'.table ≡ length q.table
  pub slots : (i : ℕ) → SlotStep c (At R q i) (get_or q.table i none) (get_or q'.table i none)
  pub last : (q'.last_idx ≡ q.last_idx) ⊎ ((i : ℕ) × (q'.last_idx ≡ some i) × (i < length q.table))

abbrev pub QueueStep : ℕ → (Right → Type 0) → Option ClerkQueue → Option ClerkQueue → Type 0
QueueStep c R none none = Unit
QueueStep c R none (some q') = ⊥
QueueStep c R (some q) none = ⊥
QueueStep c R (some q) (some q') = QueueMoves c R q q'

-- Every queue takes such a step; `R c` says which rights the call has at clerk `c`.
abbrev pub MovesBy : {H : Type 0} → (ℕ → Right → Type 0) → World H → World H → Type 0
MovesBy R w w' = (c : ℕ) → QueueStep c (R c) (w.queues c) (w'.queues c)

-- A call without any of these rights.
abbrev pub NoRight : ℕ → Right → Type 0
NoRight c x = ⊥

abbrev pub Moves : {H : Type 0} → World H → World H → Type 0
Moves w w' = MovesBy NoRight w w'

pub QueueStep-refl : (R : Right → Type 0) (c : ℕ) (o : Option ClerkQueue) → QueueStep c R o o
QueueStep-refl R c none = tt
QueueStep-refl R c (some q) = record {
  length_eq = refl;
  slots = λ i. SlotStep.kept refl;
  last = inl refl;
}

-- A world whose queues are those of another.
pub Moves-same :
    {H : Type 0} (R : ℕ → Right → Type 0) (w w' : World H)
    → ((c : ℕ) → w'.queues c ≡ w.queues c)
    → MovesBy R w w'
Moves-same R w w' h c = rw (h c) (QueueStep-refl (R c) c (w.queues c))

-- One entry of one table changes.
pub QueueMoves-set :
    {R : Right → Type 0} (c : ℕ) (q q' : ClerkQueue) (i : ℕ) (r : Request)
    → i < length q.table
    → q'.table ≡ set q.table i (some r)
    → SlotStep c (At R q i) (get_or q.table i none) (some r)
    → (q'.last_idx ≡ q.last_idx) ⊎ (q'.last_idx ≡ some i)
    → QueueMoves c R q q'
QueueMoves-set {R} c q q' i r lt e s l = record {
  length_eq = rw e (length-set q.table i (some r));
  slots = λ j. rw (e, get_or-set q.table i j (some r) none lt) (at j);
  last = elim l [ inl a ↦ inl a | inr b ↦ inr (i, b, lt) ];
}
  where
    at :
        (j : ℕ)
        → SlotStep c
            (At R q j)
            (get_or q.table j none)
            (if i == j then some r else get_or q.table j none)
    at j = elim (Bool-cases (i == j)) [
      | inl y ↦ rw y (rw (← (==_iff i j).0 y) s)
      | inr n ↦ rw n (SlotStep.kept refl)
    ]

pub queue_found :
    {H : Type 0} (c : ℕ) (w : World H) {q : ClerkQueue}
    → ledger_get_queue c w ≡ some q
    → (w.queues c ≡ some q) × (c < clerk_count)
unfolding ledger_get_queue
queue_found c w h = ground arith

-- Where a step of one queue is put in its place, the world takes a step.
pub Moves-put_queue :
    {H : Type 0} (R : ℕ → Right → Type 0) (c : ℕ) (w : World H) (q q' : ClerkQueue)
    → ledger_get_queue c w ≡ some q
    → QueueMoves c (R c) q q'
    → MovesBy R w (put_queue c q' w)
Moves-put_queue R c w q q' e m d = elim (Bool-cases (c == d)) [
  | inl y ↦ rw y (
      subst (λ k. QueueStep k (R k) (w.queues k) (some q')) ((==_iff c d).0 y)
        (rw ((queue_found c w e).0) m))
  | inr n ↦ rw n (QueueStep-refl (R d) d (w.queues d))
]
