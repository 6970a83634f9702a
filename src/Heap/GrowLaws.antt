-- ===== src/Heap/GrowLaws.antt =====
-- The growth of the heap in `__kmalloc`: what is free afterwards, and what stays.
use taavi_os.Common.{
  ℕ, ◌+◌, ◌-◌, ◌<◌, ◌≤◌, ◌≡◌, refl, ap, ◌∙◌, Bool, false, ◌&&◌, ◌||◌, List, [], ◌∷◌, ltb, leb,
  arith,
}
use taavi_os.Heap.Free.{Headers, HeapState, header_size, heap_magic, put_header, free_block_at}
use taavi_os.Heap.Alloc.{heap_ceil, addition_size, extend}
use taavi_os.Heap.Layout.{
  Laid, sum, SameOn, Laid-le, total_free-sum, Laid-same, covers_same, magic_same, covers_above,
}
use taavi_os.Heap.FreeLaws.{IsValid, is_free, Freed, IsAllocated, free_block_at-Freed}

-- The address lies in the memory by which the heap grew.
abbrev pub in_growth : HeapState → HeapState → ℕ → Bool
in_growth s s' x = leb s.current_heap_ceiling x && ltb x s'.current_heap_ceiling

-- The heap has grown, by nothing or more: the new memory is free, and nothing else changed.
pub record Grown (s s' : HeapState) : Type 0 where
  pub valid : IsValid s'
  pub up : s.current_heap_ceiling ≤ s'.current_heap_ceiling
  pub cover : (x : ℕ) → is_free s' x ≡ (is_free s x || in_growth s s' x)
  pub kept : (x : ℕ) → x < s.current_heap_ceiling → is_free s x ≡ false → s'.headers x ≡ s.headers x

pub Grown-refl : (s : HeapState) → IsValid s → Grown s s
Grown-refl s v = record {
  valid = v;
  up = omega arith;
  cover = λ x. ground arith;
  kept = λ x e f. refl;
}

pub Grown-trans : (s t u : HeapState) → Grown s t → Grown t u → Grown s u
Grown-trans s t u g h = record {
  valid = h.valid;
  up = omega (arith, g.up, h.up);
  cover = λ x. ground (arith, g.cover x, h.cover x, g.up, h.up);
  kept = λ x e f. h.kept x (omega (arith, g.up)) (ground (arith, g.cover x)) ∙ g.kept x e f;
}

Laid-up :
    (m : Headers) (lo : ℕ) (l : List ℕ) (hi hi' : ℕ) → hi ≤ hi' → Laid m lo l hi → Laid m lo l hi'
Laid-up m lo [] hi hi' w h = omega arith
Laid-up m lo (a ∷ l) hi hi' w h = (h.0, Laid-up m (a + header_size + (m a).size) l hi hi' w h.1)

same_below :
    (m m' : Headers) (lo : ℕ) (l : List ℕ) (hi : ℕ)
    → ((a : ℕ) → a < hi → m' a ≡ m a)
    → Laid m lo l hi
    → SameOn m m' l
same_below m m' lo [] hi h k = tt
same_below m m' lo (a ∷ l) hi h k = (
  h a (omega (arith, Laid-le m (a + header_size + (m a).size) l hi k.1)),
  same_below m m' (a + header_size + (m a).size) l hi h k.1,
)

-- One round of growth.
module _ (s : HeapState) (v : IsValid s)
    (room : s.current_heap_ceiling + addition_size ≤ heap_ceil) where
  abbrev c : ℕ
  c = s.current_heap_ceiling

  -- The heap with the header of the new block.
  abbrev s1 : HeapState
  s1 = record s {
    headers =
        put_header c (record { magic = heap_magic; size = addition_size - header_size }) s.headers;
  }

  same1 : SameOn s.headers s1.headers s.free_list
  same1 = same_below s.headers s1.headers 0 s.free_list c (λ a h. ground arith) v.laid

  new_block : s1.headers c ≡ record { magic = heap_magic; size = addition_size - header_size }
  new_block = ground arith

  new_size : (s1.headers c).size ≡ addition_size - header_size
  new_size = ap (λ b. b.size) new_block

  new-IsAllocated : IsAllocated s1 c (c + addition_size)
  new-IsAllocated = record {
    magic = ap (λ b. b.magic) new_block;
    below = omega (arith, new_size);
    outside = λ x e.
        covers_same s.headers s1.headers s.free_list x same1
        ∙ covers_above s.headers 0 s.free_list c x v.laid (ground arith);
  }

  freed : Freed s1 c (c + addition_size) (free_block_at c s1)
  freed =
      free_block_at-Freed s1 c (c + addition_size)
        (Laid-up s1.headers 0 s.free_list c (c + addition_size) (omega arith)
          (Laid-same s.headers s1.headers 0 s.free_list c same1 v.laid))
        (omega arith) (magic_same s.headers s1.headers s.free_list same1 v.magic) new-IsAllocated

  pub ceiling_eq : (extend s).current_heap_ceiling ≡ c + addition_size
  ceiling_eq = omega arith

  pub extend-Grown : Grown s (extend s)
  extend-Grown =
      let f = freed in
      let t = (free_block_at c s1).1 in
      let le : 0 + sum t.headers t.free_list ≤ c + addition_size =
        Laid-le t.headers 0 t.free_list (c + addition_size) f.laid in
      record {
        valid = record {
          laid = rw ceiling_eq f.laid;
          magic = f.magic;
          small = omega (arith, ceiling_eq);
          remaining = total_free-sum t.headers 0 t.free_list (omega arith) ∙ (omega arith);
        };
        up = omega (arith, ceiling_eq);
        cover = λ x. ground (
          arith,
          f.cover x,
          new_size,
          ceiling_eq,
          covers_same s.headers s1.headers s.free_list x same1,
        );
        kept = λ x h e.
            f.kept x (ground arith) (covers_same s.headers s1.headers s.free_list x same1 ∙ e)
            ∙ (ground arith);
      }
