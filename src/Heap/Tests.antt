-- ===== src/Heap/Tests.antt =====
-- Runs of the heap, and its theorems, on a small one.
use taavi_os.Common.{
  ℕ, ◌+◌, ◌≡◌, ◌⊎◌, ◌≢◌, ◌&&◌, ◌||◌, refl, none, some, List, [], ◌∷◌, leb, ltb, arith,
}
use taavi_os.Config.{status_ok}
use taavi_os.Heap.Free.{HeapState, heap_magic, kfree}
use taavi_os.Heap.Alloc.{Vmm, kmalloc, kmalloc_init}
use taavi_os.Heap.FreeLaws.{IsValid, is_free, IsAllocated, Freed, kfree-Freed}
use taavi_os.Heap.GrowLaws.{in_growth}
use taavi_os.Heap.TakeLaws.{AllSmall}
use taavi_os.Heap.AllocLaws.{Returns, kmalloc-Returns}
use taavi_os.Heap.RoundTrip.{kmalloc-kfree, kmalloc_init-IsValid}

-- Pages can be mapped five times.
abbrev pages : Vmm
pages = record { State = ℕ; vmm_alloc = λ a n v. (ltb v 5, v + 1) }

-- An allocated block of 88 bytes at 1000, and a free one of 88 bytes behind it.
abbrev small : HeapState
small = record {
  headers = λ a. record { magic = heap_magic; size = 88 };
  free_list = 1100 ∷ [];
  remaining_heap_size = 100;
  current_heap_ceiling = 1200;
}

small-IsValid : IsValid small
small-IsValid = record {
  laid = (omega arith, omega arith);
  magic = (refl, tt);
  small = omega arith;
  remaining = refl;
}

small-IsAllocated : IsAllocated small 1000 1200
small-IsAllocated = record { magic = refl; below = omega arith; outside = λ x e. ground arith }

-- The first 20 bytes of the free block, and what is left of it.
takes :
    (elim (kmalloc pages 20 small 0) as (λ o. List ℕ) [
      | none ↦ []
      | some (p, s, v) ↦ p ∷ s.free_list
    ])
    ≡ 1112 ∷ 1132 ∷ []
unfolding kmalloc
takes = refl

-- The freed block takes in the free one behind it.
joins : (kfree 1012 small).1.free_list ≡ 1000 ∷ []
unfolding kfree
joins = refl

kmalloc-Returns_example : Returns pages small 20 0 (kmalloc pages 20 small 0)
kmalloc-Returns_example = kmalloc-Returns pages 20 small 0 (omega arith) small-IsValid

kfree-Freed_example : Freed small 1000 1200 (kfree 1012 small)
kfree-Freed_example = kfree-Freed small 1000 small-IsValid small-IsAllocated

kmalloc-kfree_example :
    (ptr : ℕ) × (s' : HeapState) × (v' : ℕ) × (kmalloc pages 20 small 0 ≡ some (ptr, s', v'))
    × (((ptr ≡ 0) × AllSmall small.headers 20 small.free_list)
        ⊎ ((ptr ≢ 0)
            × ((kfree ptr s').0 ≡ status_ok)
            × ((x : ℕ) → is_free (kfree ptr s').1 x ≡ (is_free small x || in_growth small s' x))))
kmalloc-kfree_example = kmalloc-kfree pages 20 small 0 (omega arith) small-IsValid

kmalloc_init-IsValid_example :
    let r = kmalloc_init pages 4096 8192 small 0 in
    (r.0 ≡ status_ok) × IsValid r.1 × ((x : ℕ) → is_free r.1 x ≡ (leb 4096 x && ltb x 12288))
kmalloc_init-IsValid_example =
    kmalloc_init-IsValid pages 4096 8192 small 0 (omega arith) (omega arith) (omega arith) refl
