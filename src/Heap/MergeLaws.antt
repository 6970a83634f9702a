-- ===== src/Heap/MergeLaws.antt =====
-- `__merge`: blocks that touch become one, and the free memory stays the same.
use taavi_os.Common.{
  ℕ, ◌+◌, ◌^◌, ◌<◌, ◌≡◌, ◌≢◌, inl, inr, refl, ap, ◌∙◌, Bool, true, false, List, [], ◌∷◌, ◌==◌,
  Bool-cases, arith,
}
use taavi_os.Config.{u32}
use taavi_os.Heap.Free.{Headers, header_size, heap_magic, block_end, absorb, merge_from}
use taavi_os.Heap.Layout.{
  Laid, AllMagic, covers, sum, Spaced, SameOn, Laid-le, Laid-weaken, same_from, Laid-same,
  covers_same, sum_same, magic_same, covers_below,
}

-- What merging from block `c` on, with `l` behind it, leaves: no error, and a list from `c` on that is laid
-- out in order, has its magic numbers, has no two blocks that touch, covers the same addresses and
-- has the same size; headers outside these blocks are as before.
pub record Merged (m : Headers) (c : ℕ) (l : List ℕ) (hi : ℕ) (ok : Bool) (m' : Headers)
    (k : List ℕ) : Type 0 where
  pub no_error : ok ≡ true
  pub laid : Laid m' c (c ∷ k) hi
  pub magic : AllMagic m' (c ∷ k)
  pub spaced : Spaced m' (c + header_size + (m' c).size) k
  pub same_cover : (x : ℕ) → covers m' (c ∷ k) x ≡ covers m (c ∷ l) x
  pub same_sum : sum m' (c ∷ k) ≡ sum m (c ∷ l)
  pub kept : (x : ℕ) → covers m (c ∷ l) x ≡ false → m' x ≡ m x

absorb_at :
    (m : Headers) (c n : ℕ) (l : List ℕ) (hi : ℕ)
    → Laid m c (c ∷ n ∷ l) hi
    → hi < 2 ^ 32
    → (absorb m c n c).size ≡ (m c).size + header_size + (m n).size
absorb_at m c n l hi h w =
    let le = Laid-le m c (c ∷ n ∷ l) hi h in
    let e : u32 ((m c).size + header_size + (m n).size) ≡ (m c).size + header_size + (m n).size =
      omega arith in
    ground arith

-- The block `n` touches the end of `c`, and `c` takes it in.
module _ (m : Headers) (c n : ℕ) (l : List ℕ) (hi : ℕ) (h : Laid m c (c ∷ n ∷ l) hi)
    (w : hi < 2 ^ 32) (g : AllMagic m (c ∷ n ∷ l)) where
  abbrev m1 : Headers
  m1 = absorb m c n

  size1 : (m1 c).size ≡ (m c).size + header_size + (m n).size
  size1 = absorb_at m c n l hi h w

  other1 : (x : ℕ) → c < x → m1 x ≡ m x
  other1 x k = ground arith

  same1 : SameOn m m1 l
  same1 =
      same_from m m1 (n + header_size + (m n).size) l hi (λ x k. other1 x (omega (arith, h.1.0)))
        h.1.1

  magic1 : AllMagic m1 (c ∷ l)
  magic1 = (ground (arith, g.0), magic_same m m1 l same1 g.1.1)

  module _ (touch : c + header_size + (m c).size ≡ n) where
    laid1 : Laid m1 c (c ∷ l) hi
    laid1 = (
      omega arith,
      Laid-weaken m1 (n + header_size + (m n).size) (c + header_size + (m1 c).size) l hi
          (omega (arith, size1)) (Laid-same m m1 (n + header_size + (m n).size) l hi same1 h.1.1),
    )

    cover1 : (x : ℕ) → covers m1 (c ∷ l) x ≡ covers m (c ∷ n ∷ l) x
    cover1 x = ground (arith, size1, covers_same m m1 l x same1)

    sum1 : sum m1 (c ∷ l) ≡ sum m (c ∷ n ∷ l)
    sum1 = omega (arith, size1, sum_same m m1 l same1)

    kept1 : (x : ℕ) → covers m (c ∷ n ∷ l) x ≡ false → m1 x ≡ m x
    kept1 x e = ground arith

    joined :
        {ok : Bool} {m' : Headers} {k : List ℕ}
        → Merged m1 c l hi ok m' k
        → Merged m c (n ∷ l) hi ok m' k
    joined r = record {
      no_error = r.no_error;
      laid = r.laid;
      magic = r.magic;
      spaced = r.spaced;
      same_cover = λ x. r.same_cover x ∙ cover1 x;
      same_sum = r.same_sum ∙ sum1;
      kept = λ x e. r.kept x (cover1 x ∙ e) ∙ kept1 x e;
    }

  -- The block `n` lies behind a gap.
  apart :
      c + header_size + (m c).size ≢ n
      → {ok : Bool} {m' : Headers} {k : List ℕ} → Merged m n l hi ok m' k
      → Merged m c (n ∷ l) hi ok m' (n ∷ k)
  apart gap {m' = m'} r = record {
    no_error = r.no_error;
    laid = (omega arith, (rw own h.1.0, r.laid.1));
    magic = (rw own g.0, r.magic);
    spaced = (rw own (omega (arith, h.1.0)), r.spaced);
    same_cover = λ x. ground (arith, own, r.same_cover x);
    same_sum = omega (arith, ap (λ b. b.size) own, r.same_sum);
    kept = λ x e. r.kept x (ground arith);
  }
    where
      own : m' c ≡ m c
      own = r.kept c (covers_below m n (n ∷ l) hi c (omega arith, h.1.1) (omega (arith, h.1.0)))

pub merge_from-Merged :
    (m : Headers) (c : ℕ) (l : List ℕ) (hi : ℕ)
    → Laid m c (c ∷ l) hi
    → hi < 2 ^ 32
    → AllMagic m (c ∷ l)
    → let r = merge_from m c l in Merged m c l hi r.0 r.1 r.2
unfolding merge_from
merge_from-Merged m c [] hi h w g = record {
  no_error = refl;
  laid = h;
  magic = g;
  spaced = tt;
  same_cover = λ x. refl;
  same_sum = refl;
  kept = λ x e. refl;
}
merge_from-Merged m c (n ∷ l) hi h w g =
    let good : ((m n).magic == heap_magic) ≡ true = ground (arith, g.1.0) in
    let le = Laid-le m c (c ∷ n ∷ l) hi h in
    let end : block_end m c ≡ c + header_size + (m c).size = omega arith in
    elim (Bool-cases (block_end m c == n)) [
      | inl y ↦
          let touch : c + header_size + (m c).size ≡ n = ground (arith, end) in
          rw (good, y)
            (joined m c n l hi h w g touch (
              merge_from-Merged (absorb m c n) c l hi (laid1 m c n l hi h w g touch) w
                (magic1 m c n l hi h w g)))
      | inr z ↦
          rw (good, z)
            (apart m c n l hi h w g (λ e. ground (arith, end))
              (merge_from-Merged m n l hi (omega arith, h.1.1) w g.1))
    ]
