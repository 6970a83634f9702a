-- ===== src/Heap/Free.antt =====
-- kmalloc.c: the state of the heap, `__merge` and `__kfree`. The list of addresses in `free_list` stands
-- for the blocks that the `next` pointers link, in their order; `headers` is the memory at a block's
-- address. The lock around the calls is left out: it is held from the first line to the last.
use taavi_os.Common.{
  ℕ, ◌+◌, ◌-◌, ◌^◌, Bool, true, false, not, Option, none, some, List, [], ◌∷◌, ltb, ◌==◌,
  if◌then◌else◌,
}
use taavi_os.Config.{status_ok, status_error, u32}

-- `block_header_t` without `next`
pub record Header : Type 0 where
  pub magic : ℕ
  pub size : ℕ

abbrev pub Headers : Type 0
Headers = ℕ → Header

pub record HeapState : Type 0 where
  pub headers : Headers
  pub free_list : List ℕ
  pub remaining_heap_size : ℕ
  pub current_heap_ceiling : ℕ

-- sizeof(block_header_t)
abbrev pub header_size : ℕ
header_size = 12

abbrev pub heap_magic : ℕ
heap_magic = 0xDEAD_BEEF

abbrev pub put_header : ℕ → Header → Headers → Headers
put_header a b m x = if a == x then b else m x

-- The address behind the block at `a`.
abbrev pub block_end : Headers → ℕ → ℕ
block_end m a = u32 (a + header_size + (m a).size)

-- The loop of `update_remaining_heap_size`.
abbrev pub total_free : Headers → ℕ → List ℕ → ℕ
total_free m acc [] = acc
total_free m acc (a ∷ l) = total_free m (u32 (acc + header_size + (m a).size)) l

abbrev pub update_remaining_heap_size : HeapState → HeapState
update_remaining_heap_size s = record s { remaining_heap_size = total_free s.headers 0 s.free_list }

-- `current->size += sizeof(block_header_t) + current->next->size`
abbrev pub absorb : Headers → ℕ → ℕ → Headers
absorb m c n = put_header c (record (m c) { size = u32 ((m c).size + header_size + (m n).size) }) m

-- The loop of `__merge` at the block `c`, with the rest of the list behind it: whether it came to the
-- end, the headers, and the list behind `c`.
unfoldable pub merge_from : Headers → ℕ → List ℕ → Bool × Headers × List ℕ
merge_from m c [] = (true, m, [])
merge_from m c (n ∷ l) =
    let joined = merge_from (absorb m c n) c l in
    let (ok, m', k) = merge_from m n l in
    if not ((m n).magic == heap_magic)
    then (false, m, n ∷ l)
    else (if block_end m c == n then joined else (ok, m', n ∷ k))

unfoldable pub merge_list : Headers → List ℕ → Bool × Headers × List ℕ
unfolding merge_from
merge_list m [] = (true, m, [])
merge_list m (c ∷ l) = let (ok, m', k) = merge_from m c l in (ok, m', c ∷ k)

-- The end of `__merge`.
abbrev pub merged : Bool → HeapState → ℕ × HeapState
merged true s = (status_ok, update_remaining_heap_size s)
merged false s = (status_error, s)

unfoldable pub heap_merge : HeapState → ℕ × HeapState
unfolding merge_list
heap_merge s =
    let (ok, m, l) = merge_list s.headers s.free_list in
    merged ok (record s { headers = m; free_list = l })

-- The search of `__kfree` for the place of the block at `a`: the list with it, `none` where it is there.
unfoldable pub insert_block : ℕ → List ℕ → Option (List ℕ)
insert_block a [] = some (a ∷ [])
insert_block a (c ∷ l) =
    let rest : Option (List ℕ) = elim (insert_block a l) [
      | none ↦ none
      | some l' ↦ some (c ∷ l')
    ] in
    if ltb c a then rest else (if c == a then none else some (a ∷ c ∷ l))

unfoldable pub free_inserted : Option (List ℕ) → HeapState → ℕ × HeapState
unfolding heap_merge
free_inserted none s = (status_error, s)
free_inserted (some l) s = heap_merge (record s { free_list = l })

-- `__kfree` of the block at `a`, which is `ptr - sizeof(block_header_t)`.
unfoldable pub free_block_at : ℕ → HeapState → ℕ × HeapState
unfolding insert_block free_inserted
free_block_at a s =
    if not ((s.headers a).magic == heap_magic)
    then (status_error, s)
    else free_inserted (insert_block a s.free_list) s

-- `kfree`; 0 is NULL.
unfoldable pub kfree : ℕ → HeapState → ℕ × HeapState
unfolding free_block_at
kfree ptr s =
    if ptr == 0 then (status_error, s) else free_block_at (u32 (ptr + 2 ^ 32 - header_size)) s
