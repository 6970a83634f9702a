-- ===== src/Heap/Alloc.antt =====
-- kmalloc.c: `__kmalloc`, with the growth of the heap, and `kmalloc_init`.
use taavi_os.Common.{
  ℕ, zero, suc, ◌+◌, ◌-◌, ◌/◌, ◌^◌, Bool, not, ◌||◌, Option, none, some, List, [], ◌∷◌, ltb, leb,
  ◌==◌, if◌then◌else◌,
}
use taavi_os.Config.{status_ok, status_error, u32}
use taavi_os.Heap.Free.{
  Headers, HeapState, header_size, heap_magic, put_header, update_remaining_heap_size,
  free_block_at,
}

-- `vmm_alloc` of the kernel's page directory, and `task_sync_kernel_entries_to_all_tasks` after it: the
-- virtual memory manager as the heap uses it. It may fail.
pub record Vmm : Type 1 where
  pub State : Type 0
  pub vmm_alloc : ℕ → ℕ → State → Bool × State

abbrev pub heap_ceil : ℕ
heap_ceil = 0xD800_0000

-- `(ADDITION_HEAP_PAGE_SIZE * PAGE_SIZE) * 2`
abbrev pub addition_size : ℕ
addition_size = 2097152

-- A free block at `c` that is large enough: the headers after the split, and what stands in the list
-- instead of `c`.
unfoldable pub split_at : Headers → ℕ → ℕ → Headers × List ℕ
split_at m c size =
    if leb (u32 (size + header_size + 1)) (m c).size
    then (
      put_header c (record (m c) { size = size })
          (put_header (u32 (c + header_size + size))
            (record { magic = heap_magic; size = (m c).size - size - header_size }) m),
      u32 (c + header_size + size) ∷ [],
    )
    else (m, [])

abbrev pub onto : List ℕ → List ℕ → List ℕ
onto [] l = l
onto (a ∷ k) l = a ∷ onto k l

-- What taking a block leaves: its address, the headers and the list.
abbrev pub Taken : Type 0
Taken = Option (ℕ × Headers × List ℕ)

abbrev pub keep_front : ℕ → Taken → Taken
keep_front c none = none
keep_front c (some (a, m, l)) = some (a, m, c ∷ l)

-- The inner loop: the first block that is large enough is taken out of the list.
unfoldable pub take_block : Headers → ℕ → List ℕ → Taken
unfolding split_at
take_block m size [] = none
take_block m size (c ∷ l) =
    let rest = keep_front c (take_block m size l) in
    let (m', k) = split_at m c size in if leb size (m c).size then some (c, m', onto k l) else rest

-- The new block at the ceiling, and the list with it.
abbrev pub extend : HeapState → HeapState
extend s =
    let t =
      (free_block_at s.current_heap_ceiling (record s {
        headers =
            put_header s.current_heap_ceiling
              (record { magic = heap_magic; size = addition_size - header_size }) s.headers;
      })).1 in
    update_remaining_heap_size
      (record t { current_heap_ceiling = u32 (s.current_heap_ceiling + addition_size) })

-- The rounds that the ceiling leaves room for, and one more.
abbrev pub rounds : HeapState → ℕ
rounds s = (heap_ceil - s.current_heap_ceiling) / addition_size + 1

module _ (vm : Vmm) where
  open vm use {State, vmm_alloc}

  -- The return with the block that the inner loop took; where it took none, the rest of the round.
  unfoldable pub return_taken :
      Taken → HeapState → State → Option (ℕ × HeapState × State) → Option (ℕ × HeapState × State)
  return_taken none s v grow = grow
  return_taken (some (a, m, l)) s v grow = some (
    u32 (a + header_size),
    update_remaining_heap_size (record s { headers = m; free_list = l }),
    v,
  )

  -- `__kmalloc` with fuel for the outer loop. `none` is out of fuel; 0 is NULL.
  unfoldable pub alloc_loop : ℕ → ℕ → HeapState → State → Option (ℕ × HeapState × State)
  unfolding take_block return_taken
  alloc_loop zero size s v = none
  alloc_loop (suc fuel) size s v =
      let (ok, v') = vmm_alloc s.current_heap_ceiling addition_size v in
      let rest = alloc_loop fuel size (extend s) v' in
      return_taken (take_block s.headers size s.free_list) s v (
        if ltb heap_ceil (u32 (addition_size + s.current_heap_ceiling))
        then some (0, s, v)
        else (if not ok then some (0, s, v') else rest))

  unfoldable pub kmalloc : ℕ → HeapState → State → Option (ℕ × HeapState × State)
  unfolding alloc_loop
  kmalloc size s v = if size == 0 then some (0, s, v) else alloc_loop (rounds s) size s v

  -- `kmalloc_init`; a refusal leaves the heap as it was.
  unfoldable pub kmalloc_init : ℕ → ℕ → HeapState → State → ℕ × HeapState × State
  kmalloc_init heap_start heap_size s v =
      let (ok, v') = vmm_alloc heap_start heap_size v in
      if heap_start == 0 || heap_size == 0
      then (status_error, s, v)
      else (if not ok then (status_error, s, v') else (
        status_ok,
        update_remaining_heap_size (record {
          headers =
              put_header heap_start
                (record { magic = heap_magic; size = u32 (heap_size + 2 ^ 32 - header_size) })
                s.headers;
          free_list = heap_start ∷ [];
          remaining_heap_size = s.remaining_heap_size;
          current_heap_ceiling = u32 (heap_start + heap_size);
        }),
        v',
      ))
