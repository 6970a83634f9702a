-- ===== src/Heap/AllocLaws.antt =====
-- `kmalloc`: it gives memory that was free to one caller, grows the heap when it must, and ends.
use taavi_os.Common.{
  ℕ, zero, suc, ◌+◌, ◌<◌, ◌≤◌, ◌≡◌, ◌⊎◌, inl, inr, refl, sym, ◌∙◌, true, false, ◌||◌, Option, none,
  some, List, ltb, ◌==◌, Bool-cases, arith,
}
use taavi_os.Config.{u32}
use taavi_os.Heap.Free.{Headers, HeapState, header_size, update_remaining_heap_size}
use taavi_os.Heap.Alloc.{
  Vmm, heap_ceil, addition_size, Taken, take_block, extend, return_taken, alloc_loop, rounds,
  kmalloc,
}
use taavi_os.Heap.Layout.{in_block, Laid-le, total_free-sum}
use taavi_os.Heap.FreeLaws.{IsValid, is_free, IsAllocated}
use taavi_os.Heap.TakeLaws.{Took, AllSmall, TakeResult, take_block-TakeResult}
use taavi_os.Heap.GrowLaws.{in_growth, Grown, Grown-refl, Grown-trans, extend-Grown, ceiling_eq}

-- The caller gets the block at `a`, of at least `size` bytes: it was free or lies in new memory, it is
-- free no more, and no other address and no header outside the free memory changed.
pub record Given (s : HeapState) (size ptr : ℕ) (s' : HeapState) : Type 0 where
  pub a : ℕ
  pub ptr_eq : ptr ≡ a + header_size
  pub large : size ≤ (s'.headers a).size
  pub valid : IsValid s'
  pub allocated : IsAllocated s' a s'.current_heap_ceiling
  pub cover :
      (x : ℕ) → (in_block s'.headers a x || is_free s' x) ≡ (is_free s x || in_growth s s' x)
  pub kept : (x : ℕ) → x < s.current_heap_ceiling → is_free s x ≡ false → s'.headers x ≡ s.headers x
  pub up : s.current_heap_ceiling ≤ s'.current_heap_ceiling

-- Taking a block from the grown heap `t`.
Took-Given :
    (s t : HeapState) (size a : ℕ) (m' : Headers) (l' : List ℕ)
    → Grown s t
    → Took t.headers 0 size t.free_list t.current_heap_ceiling a m' l'
    → Given s size
        (u32 (a + header_size))
        (update_remaining_heap_size (record t { headers = m'; free_list = l' }))
Took-Given s t size a m' l' g k =
    let le = Laid-le m' 0 l' t.current_heap_ceiling k.laid in
    record {
      a = a;
      ptr_eq = omega (arith, k.below, g.valid.small);
      large = k.large;
      valid = record {
        laid = k.laid;
        magic = k.magic;
        small = g.valid.small;
        remaining = total_free-sum m' 0 l' (omega (arith, g.valid.small)) ∙ (omega arith);
      };
      allocated = record { magic = k.own_magic; below = k.below; outside = k.outside };
      cover = λ x. sym (k.cover x) ∙ g.cover x;
      kept = λ x h e. k.kept x (ground (arith, g.cover x)) ∙ g.kept x h e;
      up = g.up;
    }

Given-later :
    {s t : HeapState} {size ptr : ℕ} {s' : HeapState}
    → Grown s t
    → Given t size ptr s'
    → Given s size ptr s'
Given-later {s} {t} g r = record {
  a = r.a;
  ptr_eq = r.ptr_eq;
  large = r.large;
  valid = r.valid;
  allocated = r.allocated;
  cover = λ x. ground (arith, r.cover x, g.cover x, g.up, r.up);
  kept = λ x h e. r.kept x (omega (arith, g.up)) (ground (arith, g.cover x)) ∙ g.kept x h e;
  up = omega (arith, g.up, r.up);
}

-- Enough fuel for the loop: a round for each growth that is left, and one more.
abbrev pub Enough : ℕ → HeapState → Type 0
Enough fuel s = rounds s ≤ fuel

module _ (vm : Vmm) where
  open vm use {State, vmm_alloc}

  -- The growths of a call that looks for `size` bytes, each made because no free block was large enough
  -- and below the ceiling of all heaps, with the pages that were asked for at the end of the heap.
  pub data Grows (size : ℕ) (t : HeapState) (u : State) : HeapState → State → Type 0 where
    done : Grows size t u t u
    more :
        {s : HeapState} {v : State}
        → AllSmall s.headers size s.free_list
        → (vmm_alloc s.current_heap_ceiling addition_size v).0 ≡ true
        → Grows size t u (extend s) (vmm_alloc s.current_heap_ceiling addition_size v).1
        → Grows size t u s v

  -- The heap cannot grow: it would pass the ceiling of all heaps, or the pages are refused.
  abbrev pub CannotGrow : HeapState → State → State → Type 0
  CannotGrow s v v' =
      ((ltb heap_ceil (u32 (addition_size + s.current_heap_ceiling)) ≡ true) × (v' ≡ v))
      ⊎ (((vmm_alloc s.current_heap_ceiling addition_size v).0 ≡ false)
          × (v' ≡ (vmm_alloc s.current_heap_ceiling addition_size v).1))

  -- NULL: no free block was large enough, the heap grew as often as it could, and none is large enough now.
  pub record Exhausted (s : HeapState) (size : ℕ) (v : State) (s' : HeapState) (v' : State)
      : Type 0 where
    pub grown : Grown s s'
    pub before : AllSmall s.headers size s.free_list
    pub after : AllSmall s'.headers size s'.free_list
    pub last : State
    pub grows : Grows size s' last s v
    pub stuck : CannotGrow s' last v'

  -- The result of `kmalloc`: NULL, where the heap cannot serve the call, or a pointer to a block.
  abbrev pub AllocResult : HeapState → ℕ → State → ℕ × HeapState × State → Type 0
  AllocResult s size v res =
      ((res.0 ≡ 0) × Exhausted s size v res.1 res.2) ⊎ Given s size res.0 res.1

  abbrev pub Returns : HeapState → ℕ → State → Option (ℕ × HeapState × State) → Type 0
  Returns s size v o = (res : ℕ × HeapState × State) × (o ≡ some res) × AllocResult s size v res

  Returns-later :
      (s : HeapState) (size : ℕ) (v : State) (o : Option (ℕ × HeapState × State))
      → Grown s (extend s)
      → AllSmall s.headers size s.free_list
      → (vmm_alloc s.current_heap_ceiling addition_size v).0 ≡ true
      → Returns (extend s) size (vmm_alloc s.current_heap_ceiling addition_size v).1 o
      → Returns s size v o
  Returns-later s size v o g small mapped (res, e, inl (z, x)) = (
    res,
    e,
    inl (
      z,
      record {
        grown = Grown-trans s (extend s) res.1 g x.grown;
        before = small;
        after = x.after;
        last = x.last;
        grows = Grows.more small mapped x.grows;
        stuck = x.stuck;
      },
    ),
  )
  Returns-later s size v o g small mapped (res, e, inr r) = (res, e, inr (Given-later g r))

  return_taken-Returns :
      (s : HeapState) (size : ℕ) (v : State) (o : Taken) (grow : Option (ℕ × HeapState × State))
      → IsValid s
      → TakeResult s.headers 0 size s.free_list s.current_heap_ceiling o
      → (AllSmall s.headers size s.free_list → Returns s size v grow)
      → Returns s size v (return_taken vm o s v grow)
  unfolding return_taken
  return_taken-Returns s size v none grow i r h = h r
  return_taken-Returns s size v (some (a, m, l)) grow i r h =
      (_, refl, inr (Took-Given s s size a m l (Grown-refl s i) r))

  Exhausted-now :
      (s : HeapState) (size : ℕ) (v v' : State)
      → IsValid s
      → AllSmall s.headers size s.free_list
      → CannotGrow s v v'
      → Exhausted s size v s v'
  Exhausted-now s size v v' i small stuck = record {
    grown = Grown-refl s i;
    before = small;
    after = small;
    last = v;
    grows = Grows.done;
    stuck = stuck;
  }

  alloc_loop-Returns :
      (fuel size : ℕ) (s : HeapState) (v : State)
      → IsValid s
      → Enough fuel s
      → Returns s size v (alloc_loop vm fuel size s v)
  unfolding alloc_loop
  alloc_loop-Returns zero size s v i en = absurd (omega arith)
  alloc_loop-Returns (suc fuel) size s v i en =
      let v' = (vmm_alloc s.current_heap_ceiling addition_size v).1 in
      return_taken-Returns s size v (take_block s.headers size s.free_list) _ i
        (take_block-TakeResult s.headers 0 size s.free_list s.current_heap_ceiling i.laid i.small
          i.magic)
        (λ small. elim (Bool-cases (ltb heap_ceil (u32 (addition_size + s.current_heap_ceiling)))) [
          | inl full ↦
              rw full (_, refl, inl (refl, Exhausted-now s size v _ i small (inl (full, refl))))
          | inr room ↦
              let r : s.current_heap_ceiling + addition_size ≤ heap_ceil =
                ground (arith, i.small) in
              elim (Bool-cases (vmm_alloc s.current_heap_ceiling addition_size v).0) [
                | inr refused ↦
                    rw (room, refused)
                      (_, refl, inl (refl, Exhausted-now s size v _ i small (inr (refused, refl))))
                | inl mapped ↦
                    let g = extend-Grown s i r in
                    rw (room, mapped)
                      (Returns-later s size v _ g small mapped (
                        alloc_loop-Returns fuel size (extend s) v' g.valid
                          (omega (arith, ceiling_eq s i r))))
              ]
        ])

  -- `kmalloc` of a size that is not 0, on a valid heap, always ends. It returns NULL only where no
  -- free block was large enough, the heap grew, each time because still none was, until it was at its
  -- ceiling or the pages were refused, and none is large enough then; nothing changed but for the growth.
  -- Or it returns a pointer to a block that is large enough and was free or is new memory, and the block
  -- is free no more, while every other address is free or not as before.
  pub kmalloc-Returns :
      (size : ℕ) (s : HeapState) (v : State)
      → 0 < size
      → IsValid s
      → Returns s size v (kmalloc vm size s v)
  unfolding kmalloc
  kmalloc-Returns size s v pos i =
      let nz : (size == 0) ≡ false = ground arith in
      rw nz (alloc_loop-Returns (rounds s) size s v i (omega arith))
