-- ===== src/Heap/FreeLaws.antt =====
-- `__kfree`: a block that was allocated is free again, and nothing else changes.
use taavi_os.Common.{
  ℕ, ◌+◌, ◌-◌, ◌^◌, ◌<◌, ◌≤◌, ◌≡◌, inl, inr, refl, ◌∙◌, Bool, true, false, ◌||◌, none, List, [],
  ◌∷◌, ltb, ◌==◌, Bool-cases, arith,
}
use taavi_os.Config.{status_ok, status_error, u32}
use taavi_os.Heap.Free.{
  Headers, HeapState, header_size, heap_magic, insert_block, merge_from, merge_list, heap_merge,
  free_inserted, free_block_at, kfree,
}
use taavi_os.Heap.Layout.{
  Laid, AllMagic, in_block, covers, sum, Spaced, Laid-le, total_free-sum, covers_below,
  covers_above,
}
use taavi_os.Heap.Insert.{Outside, Placed, in_own, insert_block-Inserted}
use taavi_os.Heap.MergeLaws.{merge_from-Merged}

-- The heap between calls.
pub record IsValid (s : HeapState) : Type 0 where
  pub laid : Laid s.headers 0 s.free_list s.current_heap_ceiling
  pub magic : AllMagic s.headers s.free_list
  pub small : s.current_heap_ceiling ≤ 0xD800_0000
  pub remaining : s.remaining_heap_size ≡ sum s.headers s.free_list

-- The abstract view of the heap: which addresses are free.
abbrev pub is_free : HeapState → ℕ → Bool
is_free s x = covers s.headers s.free_list x

-- No two blocks of a list touch.
abbrev pub NoTouch : Headers → List ℕ → Type 0
NoTouch m [] = Unit
NoTouch m (c ∷ k) = Spaced m (c + header_size + (m c).size) k

-- What giving the block at `a` back does, in memory that ends at `hi`.
pub record Freed (s : HeapState) (a hi : ℕ) (res : ℕ × HeapState) : Type 0 where
  pub status : res.0 ≡ status_ok
  pub laid : Laid res.1.headers 0 res.1.free_list hi
  pub magic : AllMagic res.1.headers res.1.free_list
  pub cover : (x : ℕ) → is_free res.1 x ≡ (in_block s.headers a x || is_free s x)
  pub kept :
      (x : ℕ) → in_block s.headers a x ≡ false → is_free s x ≡ false → res.1.headers x ≡ s.headers x
  pub same_ceiling : res.1.current_heap_ceiling ≡ s.current_heap_ceiling
  pub remaining : res.1.remaining_heap_size ≡ sum res.1.headers res.1.free_list
  pub bytes :
      sum res.1.headers res.1.free_list
      ≡ header_size + (s.headers a).size + sum s.headers s.free_list
  pub coalesced : NoTouch res.1.headers res.1.free_list

Placed-Freed :
    (s : HeapState) (a hi : ℕ) (l : List ℕ)
    → Placed s.headers 0 a s.free_list hi l
    → hi < 2 ^ 32
    → AllMagic s.headers s.free_list
    → (s.headers a).magic ≡ heap_magic
    → Freed s a hi (heap_merge (record s { free_list = l }))
unfolding heap_merge merge_list
Placed-Freed s a hi [] p w g ga = absurd (ground (arith, p.cover a, in_own s.headers a))
Placed-Freed s a hi (c ∷ k) p w g ga =
    let m' = merge_from-Merged s.headers c k hi (omega arith, p.laid.1) w (p.magic g ga) in
    let new = (merge_from s.headers c k).1 in
    let list = c ∷ (merge_from s.headers c k).2 in
    let le : c + sum new list ≤ hi = Laid-le new c list hi m'.laid in
    rw m'.no_error (record {
      status = refl;
      laid = (omega arith, m'.laid.1);
      magic = m'.magic;
      cover = λ x. m'.same_cover x ∙ p.cover x;
      kept = λ x e f. m'.kept x (ground (arith, p.cover x));
      same_ceiling = refl;
      remaining = total_free-sum new 0 list (omega arith) ∙ (omega arith);
      bytes = m'.same_sum ∙ p.size;
      coalesced = m'.spaced;
    })

-- The block at `a` is no free block, lies below `hi`, and has its magic number.
pub record IsAllocated (s : HeapState) (a hi : ℕ) : Type 0 where
  pub magic : (s.headers a).magic ≡ heap_magic
  pub below : a + header_size + (s.headers a).size ≤ hi
  pub outside : Outside s.headers a s.free_list

pub free_block_at-Freed :
    (s : HeapState) (a hi : ℕ)
    → Laid s.headers 0 s.free_list hi
    → hi < 2 ^ 32
    → AllMagic s.headers s.free_list
    → IsAllocated s a hi
    → Freed s a hi (free_block_at a s)
unfolding free_block_at free_inserted
free_block_at-Freed s a hi h w g al =
    let good : ((s.headers a).magic == heap_magic) ≡ true = ground (arith, al.magic) in
    let (l, e, p) =
      insert_block-Inserted s.headers 0 a s.free_list hi h (omega arith) al.below al.outside in
    rw (good, e) (Placed-Freed s a hi l p w g al.magic)

abbrev pub has : ℕ → List ℕ → Bool
has a [] = false
has a (c ∷ l) = c == a || has a l

has-covers : (m : Headers) (a : ℕ) (l : List ℕ) → has a l ≡ true → covers m l a ≡ true
has-covers m a [] h = cc
has-covers m a (c ∷ l) h = ground (arith, has-covers m a l)

insert_block-none :
    (m : Headers) (lo a : ℕ) (l : List ℕ) (hi : ℕ)
    → Laid m lo l hi
    → has a l ≡ true
    → insert_block a l ≡ none
unfolding insert_block
insert_block-none m lo a [] hi h k = cc
insert_block-none m lo a (c ∷ l) hi h k = elim (Bool-cases (c == a)) [
  | inl y ↦ ground (arith, y)
  | inr z ↦
      let k' : has a l ≡ true = ground arith in
      let far : covers m l a ≡ true = has-covers m a l k' in
      let lt : ltb c a ≡ true =
        ground (arith, covers_below m (c + header_size + (m c).size) l hi a h.1) in
      rw (lt, insert_block-none m (c + header_size + (m c).size) a l hi h.1 k') refl
]

kfree-free_block_at :
    (a : ℕ) (s : HeapState)
    → a + header_size < 2 ^ 32
    → kfree (a + header_size) s ≡ free_block_at a s
unfolding kfree
kfree-free_block_at a s h =
    let back : u32 (a + header_size + 2 ^ 32 - header_size) ≡ a = omega arith in
    let pos : (a + header_size == 0) ≡ false = ground arith in rw (pos, back) refl

refused :
    (a : ℕ) (s : HeapState)
    → insert_block a s.free_list ≡ none
    → free_block_at a s ≡ (status_error, s)
unfolding free_block_at free_inserted
refused a s e = elim (Bool-cases ((s.headers a).magic == heap_magic)) [
  | inl y ↦ rw (y, e) refl
  | inr n ↦ rw n refl
]

-- `kfree` of the pointer to a free block, a double free, is refused and the heap is as it was.
pub kfree-double :
    (s : HeapState) (a : ℕ)
    → IsValid s
    → has a s.free_list ≡ true
    → kfree (a + header_size) s ≡ (status_error, s)
kfree-double s a v h =
    let inside : a < s.current_heap_ceiling = ground (
      arith,
      has-covers s.headers a s.free_list h,
      covers_above s.headers 0 s.free_list s.current_heap_ceiling a v.laid,
    ) in
    kfree-free_block_at a s (omega (arith, v.small))
    ∙ refused a s (insert_block-none s.headers 0 a s.free_list s.current_heap_ceiling v.laid h)

-- `kfree` of the pointer to an allocated block: exactly the addresses of the block become free, the
-- headers of other blocks and the ceiling stay, and no two free blocks touch afterwards.
pub kfree-Freed :
    (s : HeapState) (a : ℕ)
    → IsValid s
    → IsAllocated s a s.current_heap_ceiling
    → Freed s a s.current_heap_ceiling (kfree (a + header_size) s)
kfree-Freed s a v al =
    rw (kfree-free_block_at a s (omega (arith, v.small, al.below)))
      (free_block_at-Freed s a s.current_heap_ceiling v.laid (omega (arith, v.small)) v.magic al)

-- The heap is valid after `kfree` of an allocated block.
pub kfree-IsValid :
    (s : HeapState) (a : ℕ)
    → IsValid s
    → IsAllocated s a s.current_heap_ceiling
    → IsValid (kfree (a + header_size) s).1
kfree-IsValid s a v al =
    let f = kfree-Freed s a v al in
    record {
      laid = rw f.same_ceiling f.laid;
      magic = f.magic;
      small = rw f.same_ceiling v.small;
      remaining = f.remaining;
    }
