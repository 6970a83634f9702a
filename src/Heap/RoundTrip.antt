-- ===== src/Heap/RoundTrip.antt =====
-- `kmalloc_init`, and a block that is taken and given back.
use taavi_os.Common.{
  ℕ, ◌+◌, ◌-◌, ◌^◌, ◌<◌, ◌≤◌, ◌≡◌, ◌≢◌, ◌⊎◌, inl, inr, refl, ap, ◌∙◌, true, false, ◌&&◌, ◌||◌, some,
  [], ◌∷◌, ltb, leb, ◌==◌, arith,
}
use taavi_os.Config.{u32, status_ok}
use taavi_os.Heap.Free.{
  Headers, update_remaining_heap_size, HeapState, header_size, heap_magic, put_header, kfree,
}
use taavi_os.Heap.Alloc.{Vmm, heap_ceil, kmalloc, kmalloc_init}
use taavi_os.Heap.FreeLaws.{IsValid, is_free, kfree-Freed}
use taavi_os.Heap.TakeLaws.{AllSmall}
use taavi_os.Heap.GrowLaws.{in_growth}
use taavi_os.Heap.AllocLaws.{Given, kmalloc-Returns}

-- The block that a caller was given, given back.
Given-kfree :
    (s : HeapState) (size ptr : ℕ) (s' : HeapState)
    → Given s size ptr s'
    → (ptr ≢ 0)
      × ((kfree ptr s').0 ≡ status_ok)
      × ((x : ℕ) → is_free (kfree ptr s').1 x ≡ (is_free s x || in_growth s s' x))
Given-kfree s size ptr s' g =
    let f = kfree-Freed s' g.a g.valid g.allocated in
    rw g.ptr_eq (omega arith, f.status, λ x. f.cover x ∙ g.cover x)

-- A heap that is one block.
one_block-IsValid :
    (m : Headers) (start size old : ℕ)
    → header_size ≤ size
    → start + size ≤ heap_ceil
    → let s = update_remaining_heap_size (record {
      headers =
          put_header start
            (record { magic = heap_magic; size = u32 (size + 2 ^ 32 - header_size) })
            m;
      free_list = start ∷ [];
      remaining_heap_size = old;
      current_heap_ceiling = u32 (start + size);
    }) in
      IsValid s × ((x : ℕ) → is_free s x ≡ (leb start x && ltb x (start + size)))
one_block-IsValid m start size old h top =
    let m' =
      put_header start (record { magic = heap_magic; size = u32 (size + 2 ^ 32 - header_size) })
        m in
    let here : m' start ≡ record { magic = heap_magic; size = u32 (size + 2 ^ 32 - header_size) } =
      ground arith in
    let its_size : (m' start).size ≡ size - header_size = ap (λ b. b.size) here ∙ (omega arith) in
    (
      record {
        laid = (omega arith, omega (arith, its_size));
        magic = (ap (λ b. b.magic) here, tt);
        small = omega arith;
        remaining = omega (arith, its_size);
      },
      λ x. ground (arith, its_size),
    )

module _ (vm : Vmm) where
  open vm use {State, vmm_alloc}

  -- On a valid heap and for a size that is not 0, `kmalloc` returns NULL only where no free block of the
  -- heap was large enough. Any other pointer that it returns is not NULL, `kfree` of it succeeds, and then
  -- the free addresses are those from before the two calls and the memory by which the heap grew.
  pub kmalloc-kfree :
      (size : ℕ) (s : HeapState) (v : State)
      → 0 < size
      → IsValid s
      → (ptr : ℕ) × (s' : HeapState) × (v' : State) × (kmalloc vm size s v ≡ some (ptr, s', v'))
        × (((ptr ≡ 0) × AllSmall s.headers size s.free_list)
            ⊎ ((ptr ≢ 0)
                × ((kfree ptr s').0 ≡ status_ok)
                × ((x : ℕ) → is_free (kfree ptr s').1 x ≡ (is_free s x || in_growth s s' x))))
  kmalloc-kfree size s v pos i =
      let (res, e, r) = kmalloc-Returns vm size s v pos i in
      elim r [
        | inl (z, x) ↦ (res.0, res.1, res.2, e, inl (z, x.before))
        | inr g ↦ (res.0, res.1, res.2, e, inr (Given-kfree s size res.0 res.1 g))
      ]

  -- For memory that starts after address 0, is no smaller than a header (12 bytes), ends at HEAP_CEIL or
  -- before it, and whose pages are mapped, `kmalloc_init` returns STATUS_OK and leaves a valid heap in which exactly the addresses of the
  -- given memory are free.
  pub kmalloc_init-IsValid :
      (start size : ℕ) (s : HeapState) (v : State)
      → 0 < start
      → header_size ≤ size
      → start + size ≤ heap_ceil
      → (vmm_alloc start size v).0 ≡ true
      → let r = kmalloc_init vm start size s v in
        (r.0 ≡ status_ok)
        × IsValid r.1
        × ((x : ℕ) → is_free r.1 x ≡ (leb start x && ltb x (start + size)))
  unfolding kmalloc_init
  kmalloc_init-IsValid start size s v pos h top mapped =
      let a : (start == 0) ≡ false = ground arith in
      let b : (size == 0) ≡ false = ground arith in
      let (valid, free) = one_block-IsValid s.headers start size s.remaining_heap_size h top in
      rw (a, b, mapped) (refl, valid, free)
