-- ===== src/Heap/Layout.antt =====
-- What a free list stands for: blocks in the order of their addresses that do not overlap, and the set
-- of the addresses that are free.
use taavi_os.Common.{
  ℕ, ◌+◌, ◌^◌, ◌<◌, ◌≤◌, ◌≡◌, refl, ◌∙◌, Bool, false, ◌&&◌, ◌||◌, List, [], ◌∷◌, ltb, leb, arith,
}
use taavi_os.Config.{u32}
use taavi_os.Heap.Free.{Headers, header_size, heap_magic, total_free}

-- The blocks of the list lie from `lo` on, one behind the other, and end before `hi`.
abbrev pub Laid : Headers → ℕ → List ℕ → ℕ → Type 0
Laid m lo [] hi = lo ≤ hi
Laid m lo (a ∷ l) hi = (lo ≤ a) × Laid m (a + header_size + (m a).size) l hi

-- Every header has the magic number.
abbrev pub AllMagic : Headers → List ℕ → Type 0
AllMagic m [] = Unit
AllMagic m (a ∷ l) = ((m a).magic ≡ heap_magic) × AllMagic m l

-- The address `x` lies in the block at `a`, its header included.
abbrev pub in_block : Headers → ℕ → ℕ → Bool
in_block m a x = leb a x && ltb x (a + header_size + (m a).size)

-- The address `x` lies in a block of the list.
abbrev pub covers : Headers → List ℕ → ℕ → Bool
covers m [] x = false
covers m (a ∷ l) x = in_block m a x || covers m l x

-- The bytes of the blocks, headers included.
abbrev pub sum : Headers → List ℕ → ℕ
sum m [] = 0
sum m (a ∷ l) = header_size + (m a).size + sum m l

-- No two blocks touch, and the first one does not touch `lo`.
abbrev pub Spaced : Headers → ℕ → List ℕ → Type 0
Spaced m lo [] = Unit
Spaced m lo (a ∷ l) = (lo < a) × Spaced m (a + header_size + (m a).size) l

-- Two stores with the same headers of the blocks of a list.
abbrev pub SameOn : Headers → Headers → List ℕ → Type 0
SameOn m m' [] = Unit
SameOn m m' (a ∷ l) = (m' a ≡ m a) × SameOn m m' l

pub Laid-le : (m : Headers) (lo : ℕ) (l : List ℕ) (hi : ℕ) → Laid m lo l hi → lo + sum m l ≤ hi
Laid-le m lo [] hi h = omega arith
Laid-le m lo (a ∷ l) hi h = omega (arith, h.0, Laid-le m (a + header_size + (m a).size) l hi h.1)

pub Laid-weaken :
    (m : Headers) (lo lo' : ℕ) (l : List ℕ) (hi : ℕ) → lo' ≤ lo → Laid m lo l hi → Laid m lo' l hi
Laid-weaken m lo lo' [] hi w h = omega arith
Laid-weaken m lo lo' (a ∷ l) hi w h = (omega (arith, h.0), h.1)

pub total_free-sum :
    (m : Headers) (acc : ℕ) (l : List ℕ)
    → acc + sum m l < 2 ^ 32
    → total_free m acc l ≡ acc + sum m l
total_free-sum m acc [] h = omega arith
total_free-sum m acc (a ∷ l) h =
    let e : u32 (acc + header_size + (m a).size) ≡ acc + header_size + (m a).size = omega arith in
    rw e (total_free-sum m (acc + header_size + (m a).size) l (omega arith) ∙ (omega arith))

pub same_from :
    (m m' : Headers) (lo : ℕ) (l : List ℕ) (hi : ℕ)
    → ((a : ℕ) → lo ≤ a → m' a ≡ m a)
    → Laid m lo l hi
    → SameOn m m' l
same_from m m' lo [] hi h k = tt
same_from m m' lo (a ∷ l) hi h k = (
  h a k.0,
  same_from m m' (a + header_size + (m a).size) l hi (λ x w. h x (omega (arith, k.0))) k.1,
)

module _ (m m' : Headers) where
  pub Laid-same : (lo : ℕ) (l : List ℕ) (hi : ℕ) → SameOn m m' l → Laid m lo l hi → Laid m' lo l hi
  Laid-same lo [] hi s h = h
  Laid-same lo (a ∷ l) hi s h =
      (h.0, rw s.0 (Laid-same (a + header_size + (m a).size) l hi s.1 h.1))

  pub covers_same : (l : List ℕ) (x : ℕ) → SameOn m m' l → covers m' l x ≡ covers m l x
  covers_same [] x s = refl
  covers_same (a ∷ l) x s = rw (s.0, covers_same l x s.1) refl

  pub sum_same : (l : List ℕ) → SameOn m m' l → sum m' l ≡ sum m l
  sum_same [] s = refl
  sum_same (a ∷ l) s = rw (s.0, sum_same l s.1) refl

  pub magic_same : (l : List ℕ) → SameOn m m' l → AllMagic m l → AllMagic m' l
  magic_same [] s h = h
  magic_same (a ∷ l) s h = (rw s.0 h.0, magic_same l s.1 h.1)

-- A list that is laid out from `lo` on covers nothing below it, and nothing from its end on.
pub covers_below :
    (m : Headers) (lo : ℕ) (l : List ℕ) (hi x : ℕ) → Laid m lo l hi → x < lo → covers m l x ≡ false
covers_below m lo [] hi x h w = refl
covers_below m lo (a ∷ l) hi x h w =
    ground (arith, h.0, covers_below m (a + header_size + (m a).size) l hi x h.1)

pub covers_above :
    (m : Headers) (lo : ℕ) (l : List ℕ) (hi x : ℕ) → Laid m lo l hi → hi ≤ x → covers m l x ≡ false
covers_above m lo [] hi x h w = refl
covers_above m lo (a ∷ l) hi x h w = ground (
  arith,
  Laid-le m (a + header_size + (m a).size) l hi h.1,
  covers_above m (a + header_size + (m a).size) l hi x h.1 w,
)
