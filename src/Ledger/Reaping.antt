-- ===== src/Ledger/Reaping.antt =====
-- `ledger_remove_request` against a description of what it should do to each table and to the heap.
use mathlib.Core.List.{foldl}
use native.Mathlib.Decide.{ℕ_discrete}
use taavi_os.Common.{
  ℕ, zero, suc, ◌+◌, ◌<◌, ◌≤◌, ◌≡◌, refl, sym, ap, ap₂, ◌∙◌, false, Option, none, some, List, [],
  ◌∷◌, ◌++◌, if◌then◌else◌, arith, ◌⊎◌, Bool-cases, lt→ltb, inl, inr, ◌≢◌,
}
use taavi_os.Config.{clerk_count}
use taavi_os.Ledger.Types.{Request, Table, ClerkQueue, World, Allocator}
use taavi_os.Ledger.Queue.{ledger_get_queue}
use taavi_os.Ledger.Serve.{
  holds, count_entries, queue_count, count_from, terminated_test, ledger_has_killable_reqs,
}
use taavi_os.Ledger.Reap.{
  free_request_memory, reap_entry, reap_table, reap_found, reap_queue, reap_from,
  ledger_remove_request,
}
use taavi_os.Ledger.Cleared.{
  without_terminated, clear_queue, request_addrs, entry_addrs, terminated_addrs, queue_addrs,
  addrs_from, count_from_congr, addrs_from_congr, any_from_cleared,
}

module _ (al : Allocator) where
  open al use {Heap, kfree}

  -- `kfree` of each address in turn
  abbrev pub free_all : List ℕ → Heap → Heap
  free_all addrs h = foldl (λ g a. kfree a g) h addrs

  free_all-append :
      (xs ys : List ℕ) (h : Heap) → free_all (xs ++ ys) h ≡ free_all ys (free_all xs h)
  free_all-append [] ys h = refl
  free_all-append (a ∷ xs) ys h = free_all-append xs ys (kfree a h)

  -- One table: the number of its terminated requests, the table without them, and their memory freed.
  abbrev TableReaped : Table → Heap → ℕ × Table × Heap → Type 0
  TableReaped t h (n, t', h') =
      (n ≡ count_entries terminated_test t)
      × (t' ≡ without_terminated t)
      × (h' ≡ free_all (terminated_addrs t) h)

  entry_reaped :
      (o : Option Request) (h : Heap)
      → (reap_entry al o h).0 ≡ (if holds terminated_test o then 1 else 0)
  unfolding reap_entry
  entry_reaped none h = refl
  entry_reaped (some r) h = ground arith

  entry_cleared :
      (o : Option Request) (h : Heap)
      → (reap_entry al o h).1 ≡ (if holds terminated_test o then none else o)
  unfolding reap_entry
  entry_cleared none h = refl
  entry_cleared (some r) h = ground arith

  request_freed :
      (r : Request) (h : Heap) → free_request_memory al r h ≡ free_all (request_addrs r) h
  unfolding free_request_memory
  request_freed r h = ground arith

  entry_freed : (o : Option Request) (h : Heap) → (reap_entry al o h).2 ≡ free_all (entry_addrs o) h
  unfolding reap_entry
  entry_freed none h = refl
  entry_freed (some r) h = elim (Bool-cases (terminated_test r)) [
    | inl e ↦ rw e (request_freed r h)
    | inr e ↦ rw e refl
  ]

  table_reaped : (t : Table) (h : Heap) → TableReaped t h (reap_table al t h)
  unfolding reap_table count_entries
  table_reaped [] h = (refl, refl, refl)
  table_reaped (o ∷ t) h =
      let ih = table_reaped t (reap_entry al o h).2 in
      (
        omega (arith, entry_reaped o h, ih.0),
        ap₂ ◌∷◌ (entry_cleared o h) ih.1,
        ih.2
            ∙ ap (free_all (terminated_addrs t)) (entry_freed o h)
            ∙ sym (free_all-append (entry_addrs o) (terminated_addrs t) h),
      )

  -- What reaping the queue of clerk `c` does.
  record QueueReaped (c : ℕ) (w : World Heap) (res : ℕ × World Heap) : Type 0 where
    count : res.0 ≡ queue_count terminated_test c w
    cleared : res.1.queues c ≡ clear_queue (w.queues c)
    kept : (d : ℕ) → d ≢ c → res.1.queues d ≡ w.queues d
    tasks_eq : res.1.tasks ≡ w.tasks
    freed : res.1.heap ≡ free_all (queue_addrs (w.queues c)) w.heap

  found_reaped :
      (c : ℕ) (w : World Heap) (o : Option ClerkQueue)
      → c < clerk_count
      → w.queues c ≡ o
      → QueueReaped c w (reap_found al c o w)
  unfolding reap_found queue_count ledger_get_queue
  found_reaped c w none lt e = record {
    count = ground arith;
    cleared = rw e refl;
    kept = λ d ne. refl;
    tasks_eq = refl;
    freed = rw e refl;
  }
  found_reaped c w (some q) lt e = record {
    count = ground (arith, (table_reaped q.table w.heap).0);
    cleared = ground (arith, (table_reaped q.table w.heap).1);
    kept = λ d ne. ground arith;
    tasks_eq = refl;
    freed = rw e ((table_reaped q.table w.heap).2);
  }

  queue_reaped : (c : ℕ) (w : World Heap) → c < clerk_count → QueueReaped c w (reap_queue al c w)
  unfolding reap_queue ledger_get_queue
  queue_reaped c w lt = rw (lt→ltb c clerk_count lt) (found_reaped c w (w.queues c) lt refl)

  -- What reaping the queues of `n` clerks from `c` on does.
  record LoopReaped (n c : ℕ) (w : World Heap) (res : ℕ × World Heap) : Type 0 where
    count : res.0 ≡ count_from terminated_test n c w
    cleared : (d : ℕ) → c ≤ d → d < c + n → res.1.queues d ≡ clear_queue (w.queues d)
    kept : (d : ℕ) → (d < c) ⊎ (c + n ≤ d) → res.1.queues d ≡ w.queues d
    tasks_eq : res.1.tasks ≡ w.tasks
    freed : res.1.heap ≡ free_all (addrs_from n c w) w.heap

  loop_step :
      (n c : ℕ) (w : World Heap) (one : ℕ × World Heap) (rest : ℕ × World Heap)
      → QueueReaped c w one
      → LoopReaped n (c + 1) one.1 rest
      → LoopReaped (suc n) c w (one.0 + rest.0, rest.1)
  unfolding count_from
  loop_step n c w one rest q l = record {
    count = ap₂ ◌+◌ q.count (
        l.count
        ∙ count_from_congr terminated_test n (c + 1) one.1 w (λ d k. q.kept d (omega arith)));
    cleared = λ d lo hi. elim (ℕ_discrete d c) [
      | yes e ↦ rw e (l.kept c (inl (omega arith)) ∙ q.cleared)
      | no ne ↦ l.cleared d (omega arith) (omega arith) ∙ ap clear_queue (q.kept d ne)
    ];
    kept = λ d out. l.kept d (omega arith) ∙ q.kept d (omega arith);
    tasks_eq = l.tasks_eq ∙ q.tasks_eq;
    freed =
        l.freed
        ∙ ap₂ free_all (addrs_from_congr n (c + 1) one.1 w (λ d k. q.kept d (omega arith))) q.freed
        ∙ sym (free_all-append (queue_addrs (w.queues c)) (addrs_from n (c + 1) w) w.heap);
  }

  loop_reaped :
      (n c : ℕ) (w : World Heap) → c + n ≤ clerk_count → LoopReaped n c w (reap_from al n c w)
  unfolding reap_from count_from
  loop_reaped zero c w h = record {
    count = refl;
    cleared = λ d lo hi. absurd (omega arith);
    kept = λ d lt. refl;
    tasks_eq = refl;
    freed = refl;
  }
  loop_reaped (suc n) c w h =
      loop_step n c w (reap_queue al c w) (reap_from al n (c + 1) (reap_queue al c w).1)
        (queue_reaped c w (omega arith)) (loop_reaped n (c + 1) (reap_queue al c w).1 (omega arith))

  -- What `ledger_remove_request` promises.
  pub record Reaped (w : World Heap) (res : ℕ × World Heap) : Type 0 where
    pub count : res.0 ≡ count_from terminated_test clerk_count 0 w
    pub cleared : (c : ℕ) → c < clerk_count → res.1.queues c ≡ clear_queue (w.queues c)
    pub kept : (c : ℕ) → clerk_count ≤ c → res.1.queues c ≡ w.queues c
    pub none_left : ledger_has_killable_reqs res.1 ≡ false
    pub tasks_eq : res.1.tasks ≡ w.tasks
    pub freed : res.1.heap ≡ free_all (addrs_from clerk_count 0 w) w.heap

  -- `ledger_remove_request` returns the number of terminated requests; every clerk's table loses
  -- exactly those, so none is killable afterwards; the heap sees one `kfree` for each buffer, each
  -- pixel block and each terminated request, in table order, and no other; no task changes.
  pub remove_request-Reaped : (w : World Heap) → Reaped w (ledger_remove_request al w)
  unfolding ledger_remove_request ledger_has_killable_reqs
  remove_request-Reaped w = record {
    count = l.count;
    cleared = λ c lt. l.cleared c (omega arith) (omega arith);
    kept = λ c h. l.kept c (inr h);
    none_left = any_from_cleared clerk_count 0 w (reap_from al clerk_count 0 w).1 l.cleared;
    tasks_eq = l.tasks_eq;
    freed = l.freed;
  }
    where
      l : LoopReaped clerk_count 0 w (reap_from al clerk_count 0 w)
      l = loop_reaped clerk_count 0 w (omega arith)
