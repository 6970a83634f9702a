-- ===== src/Heap/TakeLaws.antt =====
-- The inner loop of `__kmalloc`: the first block that is large enough, split where it can be.
use taavi_os.Common.{
  ℕ, ◌+◌, ◌-◌, ◌<◌, ◌≤◌, ◌≡◌, ◌≢◌, inl, inr, refl, ap, true, false, ◌||◌, none, some, List, [], ◌∷◌,
  leb, Bool-cases, arith,
}
use taavi_os.Config.{u32}
use taavi_os.Heap.Free.{Headers, header_size, heap_magic, put_header}
use taavi_os.Heap.Alloc.{split_at, onto, Taken, keep_front, take_block}
use taavi_os.Heap.Layout.{
  Laid, AllMagic, in_block, covers, sum, SameOn, Laid-le, Laid-weaken, same_from, Laid-same,
  covers_same, sum_same, magic_same, covers_below,
}

-- What taking the block at `a` for `size` bytes out of the list `l` leaves.
pub record Took (m : Headers) (lo size : ℕ) (l : List ℕ) (hi a : ℕ) (m' : Headers) (l' : List ℕ)
    : Type 0 where
  pub from : lo ≤ a
  pub below : a + header_size + (m' a).size ≤ hi
  pub large : size ≤ (m' a).size
  pub own_magic : (m' a).magic ≡ heap_magic
  pub laid : Laid m' lo l' hi
  pub magic : AllMagic m' l'
  pub cover : (x : ℕ) → covers m l x ≡ (in_block m' a x || covers m' l' x)
  pub outside : (x : ℕ) → in_block m' a x ≡ true → covers m' l' x ≡ false
  pub kept : (x : ℕ) → covers m l x ≡ false → m' x ≡ m x
  pub bytes : sum m l ≡ header_size + (m' a).size + sum m' l'

-- No block of the list is large enough.
abbrev pub AllSmall : Headers → ℕ → List ℕ → Type 0
AllSmall m size [] = Unit
AllSmall m size (c ∷ l) = ((m c).size < size) × AllSmall m size l

abbrev pub TakeResult : Headers → ℕ → ℕ → List ℕ → ℕ → Taken → Type 0
TakeResult m lo size l hi none = AllSmall m size l
TakeResult m lo size l hi (some (a, m', l')) = Took m lo size l hi a m' l'

module _ (m : Headers) (lo size c : ℕ) (l : List ℕ) (hi : ℕ) (h : Laid m lo (c ∷ l) hi)
    (w : hi ≤ 0xD800_0000) (g : AllMagic m (c ∷ l)) where
  -- The whole block is taken.
  take_whole : size ≤ (m c).size → Took m lo size (c ∷ l) hi c m l
  take_whole fit = record {
    from = h.0;
    below = omega (arith, Laid-le m (c + header_size + (m c).size) l hi h.1);
    large = fit;
    own_magic = g.0;
    laid = Laid-weaken m (c + header_size + (m c).size) lo l hi (omega (arith, h.0)) h.1;
    magic = g.1;
    cover = λ x. refl;
    outside = λ x e. covers_below m (c + header_size + (m c).size) l hi x h.1 (ground arith);
    kept = λ x e. refl;
    bytes = refl;
  }

  -- The end of the block at `c`, from `n` on, is split off.
  module _ (room : size + header_size + 1 ≤ (m c).size) where
    abbrev n : ℕ
    n = u32 (c + header_size + size)

    abbrev m2 : Headers
    m2 =
        put_header c (record (m c) { size = size })
          (put_header n (record { magic = heap_magic; size = (m c).size - size - header_size }) m)

    n_eq : n ≡ c + header_size + size
    n_eq = omega (arith, Laid-le m (c + header_size + (m c).size) l hi h.1)

    first : (m2 c).size ≡ size
    first = ground arith

    first_magic : (m2 c).magic ≡ heap_magic
    first_magic = ground (arith, g.0)

    second : m2 n ≡ record { magic = heap_magic; size = (m c).size - size - header_size }
    second = ground (arith, n_eq)

    second_size : (m2 n).size ≡ (m c).size - size - header_size
    second_size = ap (λ b. b.size) second

    others : (x : ℕ) → x ≢ c → x ≢ n → m2 x ≡ m x
    others x k j = ground arith

    same2 : SameOn m m2 l
    same2 =
        same_from m m2 (c + header_size + (m c).size) l hi
          (λ x k. others x (λ e. omega arith) (λ e. omega (arith, n_eq))) h.1

    cover2 : (x : ℕ) → covers m (c ∷ l) x ≡ (in_block m2 c x || covers m2 (n ∷ l) x)
    cover2 x = ground (arith, first, second_size, n_eq, covers_same m m2 l x same2)

    take_split : Took m lo size (c ∷ l) hi c m2 (n ∷ l)
    take_split = record {
      from = h.0;
      below = omega (arith, first, Laid-le m (c + header_size + (m c).size) l hi h.1);
      large = omega (arith, first);
      own_magic = first_magic;
      laid = (
        omega (arith, h.0, n_eq),
        Laid-weaken m2 (c + header_size + (m c).size) (n + header_size + (m2 n).size) l hi
            (omega (arith, n_eq, second_size))
            (Laid-same m m2 (c + header_size + (m c).size) l hi same2 h.1),
      );
      magic = (ap (λ b. b.magic) second, magic_same m m2 l same2 g.1);
      cover = cover2;
      outside = λ x e. ground (
        arith,
        first,
        n_eq,
        covers_same m m2 l x same2,
        covers_below m (c + header_size + (m c).size) l hi x h.1,
      );
      kept = λ x e. others x (λ k. ground arith) (λ k. ground (arith, n_eq));
      bytes = omega (arith, first, second_size, sum_same m m2 l same2);
    }

  take_fit :
      size ≤ (m c).size → let r = split_at m c size in Took m lo size (c ∷ l) hi c r.0 (onto r.1 l)
  unfolding split_at
  take_fit fit =
      let le = Laid-le m (c + header_size + (m c).size) l hi h.1 in
      let no_wrap : u32 (size + header_size + 1) ≡ size + header_size + 1 = omega arith in
      elim (Bool-cases (leb (size + header_size + 1) (m c).size)) [
        | inl y ↦ rw (no_wrap, y) (take_split (ground arith))
        | inr z ↦ rw (no_wrap, z) (take_whole fit)
      ]

  take_later :
      {a : ℕ} {m' : Headers} {l' : List ℕ}
      → Took m (c + header_size + (m c).size) size l hi a m' l'
      → Took m lo size (c ∷ l) hi a m' (c ∷ l')
  take_later {a} {m'} r =
      let own : m' c ≡ m c =
        r.kept c (covers_below m (c + header_size + (m c).size) l hi c h.1 (omega arith)) in
      record {
        from = omega (arith, r.from, h.0);
        below = r.below;
        large = r.large;
        own_magic = r.own_magic;
        laid = (h.0, rw own r.laid);
        magic = (rw own g.0, r.magic);
        cover = λ x. ground (arith, own, r.cover x);
        outside = λ x e. ground (arith, own, r.outside x e, r.from);
        kept = λ x e. r.kept x (ground arith);
        bytes = omega (arith, ap (λ b. b.size) own, r.bytes);
      }

  keep_front-TakeResult :
      (o : Taken)
      → TakeResult m (c + header_size + (m c).size) size l hi o
      → (m c).size < size
      → TakeResult m lo size (c ∷ l) hi (keep_front c o)
  keep_front-TakeResult none r s = (s, r)
  keep_front-TakeResult (some (a, m', l')) r s = take_later r

pub take_block-TakeResult :
    (m : Headers) (lo size : ℕ) (l : List ℕ) (hi : ℕ)
    → Laid m lo l hi
    → hi ≤ 0xD800_0000
    → AllMagic m l
    → TakeResult m lo size l hi (take_block m size l)
unfolding take_block
take_block-TakeResult m lo size [] hi h w g = tt
take_block-TakeResult m lo size (c ∷ l) hi h w g = elim (Bool-cases (leb size (m c).size)) [
  | inl y ↦ rw y (take_fit m lo size c l hi h w g (ground arith))
  | inr z ↦ rw z (
      keep_front-TakeResult m lo size c l hi h w g (take_block m size l)
        (take_block-TakeResult m (c + header_size + (m c).size) size l hi h.1 w g.1) (ground arith))
]
