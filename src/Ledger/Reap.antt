-- ===== src/Ledger/Reap.antt =====
-- ledger_core.c, `ledger_remove_request`: every TERMINATED request is freed and its entry cleared.
use taavi_os.Common.{ℕ, zero, suc, ◌+◌, Option, none, some, [], ◌∷◌, if◌then◌else◌}
use taavi_os.Config.{clerk_count}
use taavi_os.Ledger.Types.{Block, Request, Table, ClerkQueue, World, Allocator, put_queue}
use taavi_os.Ledger.Queue.{ledger_get_queue}
use taavi_os.Ledger.Serve.{terminated_test}

module _ (al : Allocator) where
  open al use {Heap, kfree}

  -- `if (p != NULL) kfree(p);`
  unfoldable pub free_block : Option Block → Heap → Heap
  free_block none h = h
  free_block (some b) h = kfree b.addr h

  unfoldable pub free_request_memory : Request → Heap → Heap
  unfolding free_block
  free_request_memory r h = kfree r.addr (free_block r.pixels (free_block r.buf h))

  -- One round of the inner loop: what it adds to `kill_count`, the entry and the heap after it.
  unfoldable pub reap_entry : Option Request → Heap → ℕ × Option Request × Heap
  unfolding free_request_memory
  reap_entry none h = (0, none, h)
  reap_entry (some r) h =
      if terminated_test r then (1, none, free_request_memory r h) else (0, some r, h)

  unfoldable pub reap_table : Table → Heap → ℕ × Table × Heap
  unfolding reap_entry
  reap_table [] h = (0, [], h)
  reap_table (o ∷ t) h =
      let (k, o', h') = reap_entry o h in
      let (n, t', h'') = reap_table t h' in (k + n, o' ∷ t', h'')

  -- One round of the outer loop, with the queue that `ledger_get_queue` found.
  unfoldable pub reap_found : ℕ → Option ClerkQueue → World Heap → ℕ × World Heap
  unfolding reap_table
  reap_found c none w = (0, w)
  reap_found c (some q) w =
      let (n, t, h) = reap_table q.table w.heap in
      (n, record (put_queue c (record q { table = t }) w) { heap = h })

  unfoldable pub reap_queue : ℕ → World Heap → ℕ × World Heap
  unfolding ledger_get_queue reap_found
  reap_queue c w = reap_found c (ledger_get_queue c w) w

  -- The outer loop from clerk `c` on, `n` clerks left.
  unfoldable pub reap_from : ℕ → ℕ → World Heap → ℕ × World Heap
  unfolding reap_queue
  reap_from zero c w = (0, w)
  reap_from (suc n) c w =
      let (k, w') = reap_queue c w in let (m, w'') = reap_from n (c + 1) w' in (k + m, w'')

  unfoldable pub ledger_remove_request : World Heap → ℕ × World Heap
  unfolding reap_from
  ledger_remove_request w = reap_from clerk_count 0 w
