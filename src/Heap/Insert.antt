-- ===== src/Heap/Insert.antt =====
-- The search of `__kfree` for the place of a block.
use taavi_os.Common.{
  ℕ, ◌+◌, ◌≤◌, ◌≡◌, inl, inr, refl, true, false, ◌||◌, Option, none, some, List, [], ◌∷◌, ltb, ◌==◌,
  Bool-cases, arith,
}
use taavi_os.Heap.Free.{Headers, header_size, heap_magic, insert_block}
use taavi_os.Heap.Layout.{Laid, AllMagic, in_block, covers, sum}

-- The block at `a` lies outside the free blocks.
abbrev pub Outside : Headers → ℕ → List ℕ → Type 0
Outside m a l = (x : ℕ) → in_block m a x ≡ true → covers m l x ≡ false

-- The list `result` is `l` with the block at `a` in its place.
pub record Placed (m : Headers) (lo a : ℕ) (l : List ℕ) (hi : ℕ) (result : List ℕ) : Type 0 where
  pub laid : Laid m lo result hi
  pub magic : AllMagic m l → (m a).magic ≡ heap_magic → AllMagic m result
  pub cover : (x : ℕ) → covers m result x ≡ (in_block m a x || covers m l x)
  pub size : sum m result ≡ header_size + (m a).size + sum m l

-- The search for the place finds one.
abbrev pub Inserted : Headers → ℕ → ℕ → List ℕ → ℕ → Option (List ℕ) → Type 0
Inserted m lo a l hi o = (l' : List ℕ) × (o ≡ some l') × Placed m lo a l hi l'

pub in_own : (m : Headers) (a : ℕ) → in_block m a a ≡ true
in_own m a = ground arith

insert_next :
    (m : Headers) (lo a c : ℕ) (l : List ℕ) (hi : ℕ) (o : Option (List ℕ))
    → lo ≤ c
    → Inserted m (c + header_size + (m c).size) a l hi o
    → Inserted m lo a (c ∷ l) hi (elim o [ none ↦ none | some l' ↦ some (c ∷ l') ])
insert_next m lo a c l hi o le (l', e, r) = (
  c ∷ l',
  rw e refl,
  record {
    laid = (le, r.laid);
    magic = λ g k. (g.0, r.magic g.1 k);
    cover = λ x. ground (arith, r.cover x);
    size = omega (arith, r.size);
  },
)

pub insert_block-Inserted :
    (m : Headers) (lo a : ℕ) (l : List ℕ) (hi : ℕ)
    → Laid m lo l hi
    → lo ≤ a
    → a + header_size + (m a).size ≤ hi
    → Outside m a l
    → Inserted m lo a l hi (insert_block a l)
unfolding insert_block
insert_block-Inserted m lo a [] hi h le end out = (
  a ∷ [],
  refl,
  record { laid = (le, end); magic = λ g k. (k, tt); cover = λ x. refl; size = refl },
)
insert_block-Inserted m lo a (c ∷ l) hi h le end out = elim (Bool-cases (ltb c a)) [
  | inl y ↦ rw y (
      insert_next m lo a c l hi _ h.0 (
        insert_block-Inserted m (c + header_size + (m c).size) a l hi h.1
          (ground (arith, out a (in_own m a))) end (λ x k. ground (arith, out x k))))
  | inr z ↦
      let ne : (c == a) ≡ false = ground (arith, out a (in_own m a)) in
      rw (z, ne)
        (
          a ∷ c ∷ l,
          refl,
          record {
            laid = (le, (ground (arith, out c), h.1));
            magic = λ g k. (k, g);
            cover = λ x. refl;
            size = refl;
          },
        )
]
