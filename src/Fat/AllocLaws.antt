-- ===== src/Fat/AllocLaws.antt =====
-- Allocating a cluster: the first free entry of the table from the last allocated one on.
use Prim.Native.Nat.{bit_and}
use taavi_os.Common.{
  ℕ, zero, suc, ◌+◌, ◌-◌, ◌*◌, ◌/◌, ◌%◌, ◌<◌, ◌≤◌, ◌≡◌, ◌⊎◌, inl, inr, refl, sym, subst, ap, ◌∙◌,
  Bool, true, false, not, ◌&&◌, Option, none, some, List, some_inj, length, get_or, set, ltb, leb,
  ◌==◌, Bool-cases, arith,
}
use taavi_os.Config.{u32}
use taavi_os.Ledger.Types.{Allocator}
use taavi_os.Fat.Volume.{Drive, IsReliable, Fs, cluster_mask, cluster_eoc, words, bytes, AreWords}
use taavi_os.Fat.Cluster.{
  Vol, cluster_size, find_free_entry, alloc_at, alloc_found, alloc_sector, alloc_from,
  alloc_cluster,
}
use taavi_os.Fat.Entry.{IsLaidOut, entry_of, entry_at, IsReadable, Updated, Stored-Updated}
use taavi_os.Fat.SetLaws.{with_buffer_lem, EntryFailed, write_both-Wrote}

-- Entry `k` of sector `i`, whose words are `entries`, can be allocated.
abbrev free_word : ℕ → ℕ → List ℕ → Bool
free_word i k entries = not (i == 0 && ltb k 2) && (bit_and (get_or entries k 0) cluster_mask == 0)

-- What the inner loop finds from entry `j` on in `n` rounds.
abbrev Found : ℕ → ℕ → ℕ → List ℕ → Option ℕ → Type 0
Found i n j l none = (k : ℕ) → j ≤ k → k < j + n → free_word i k l ≡ false
Found i n j l (some k) =
    (j ≤ k)
    × (k < j + n)
    × (free_word i k l ≡ true)
    × ((x : ℕ) → j ≤ x → x < k → free_word i x l ≡ false)

-- One more entry before the others, that is not free.
Found-later :
    (i n j : ℕ) (l : List ℕ) (o : Option ℕ)
    → free_word i j l ≡ false
    → Found i n (j + 1) l o
    → Found i (suc n) j l o
Found-later i n j l none e f = λ k a b. elim (Bool-cases (k == j)) [
  | inl y ↦ let q : k ≡ j = ground arith in ap (λ x. free_word i x l) q ∙ e
  | inr y ↦ f k (ground arith) (omega (arith, b))
]
Found-later i n j l (some k) e (a, b, c, f) = (
  omega (arith, a),
  omega (arith, b),
  c,
  λ x p q. elim (Bool-cases (x == j)) [
    | inl y ↦ let w : x ≡ j = ground arith in ap (λ x. free_word i x l) w ∙ e
    | inr y ↦ f x (ground arith) q
  ],
)

find_free_entry-Found : (i n j : ℕ) (l : List ℕ) → Found i n j l (find_free_entry i n j l)
unfolding find_free_entry
find_free_entry-Found i zero j l = λ k a b. absurd (omega (arith, a, b))
find_free_entry-Found i (suc n) j l =
    let rest = find_free_entry-Found i n (j + 1) l in
    elim (Bool-cases (i == 0 && ltb j 2)) [
      | inl e ↦ rw e (Found-later i n j l _ (rw e refl) rest)
      | inr e ↦ elim (Bool-cases (bit_and (get_or l j 0) cluster_mask == 0)) [
        | inl q ↦
            rw (e, q)
              (omega arith, omega arith, rw (e, q) refl, λ x a b. absurd (omega (arith, a, b)))
        | inr q ↦ rw (e, q) (Found-later i n j l _ (rw (e, q) refl) rest)
      ]
    ]

module _ (al : Allocator) (dr : Drive) where
  open al use {Heap, kmalloc, kfree}
  open dr use {Disk, read_sector, write_sector}

  -- Cluster `c` can be allocated: it is none of the two reserved ones, and its entry is 0.
  abbrev pub is_free : Fs → Disk → ℕ → Bool
  is_free fs d c = leb 2 c && (entry_at dr fs d c == 0)

  -- Cluster `c` has been allocated, searching from cluster `from` on.
  pub record Allocated (fs : Fs) (d : Disk) (from c : ℕ) (fs' : Fs) (d' : Disk) : Type 0 where
    pub entry : Updated dr fs d c cluster_eoc d'
    pub was_free : is_free fs d c ≡ true
    pub later : from ≤ c
    pub inside : c < fs.sectors_per_fat * 128
    pub first : (x : ℕ) → from ≤ x → x < c → is_free fs d x ≡ false
    pub recorded : fs' ≡ record fs { last_allocated_cluster = c }

  -- Why a free cluster is not given: there is no memory for a buffer, or the drive refuses the sector in
  -- which the entry of the first free cluster is set.
  abbrev pub AllocRefused : Fs → Disk → Heap → ℕ → Type 0
  AllocRefused fs d h from =
      ((kmalloc (cluster_size fs) h).0 ≡ none)
      ⊎ ((c : ℕ) × (from ≤ c)
          × (c < fs.sectors_per_fat * 128)
          × (is_free fs d c ≡ true)
          × ((x : ℕ) → from ≤ x → x < c → is_free fs d x ≡ false)
          × EntryFailed al dr fs d c cluster_eoc)

  -- INVALID_CLUSTER is given where the call is refused or no cluster is free.
  abbrev pub AllocResult : Fs → Disk → Heap → ℕ → ℕ → Fs → Disk → Type 0
  AllocResult fs d h from r fs' d' =
      ((r ≡ 0)
        × (fs' ≡ fs)
        × (AllocRefused fs d h from
            ⊎ ((d' ≡ d)
                × ((c : ℕ) → from ≤ c → c < fs.sectors_per_fat * 128 → is_free fs d c ≡ false))))
      ⊎ Allocated fs d from r fs' d'

  -- The test of the inner loop is that of the cluster.
  free_word-is_free :
      (fs : Fs) (d : Disk) (i k : ℕ) (b : List ℕ)
      → k < 128
      → read_sector (fs.fat_start + i) d ≡ some b
      → is_free fs d (i * 128 + k) ≡ free_word i k (words b)
  free_word-is_free fs d i k b lt at =
      let a : (i * 128 + k) / 128 ≡ i = omega (arith, lt) in
      let m : (i * 128 + k) % 128 ≡ k = omega (arith, lt) in
      let e : entry_at dr fs d (i * 128 + k) ≡ bit_and (get_or (words b) k 0) cluster_mask =
        ap (λ x. entry_of dr (i * 128 + k) (read_sector (fs.fat_start + x) d)) a
        ∙ ap (entry_of dr (i * 128 + k)) at
        ∙ ap (λ x. bit_and (get_or (words b) x 0) cluster_mask) m in
      let g : leb 2 (i * 128 + k) ≡ not (i == 0 && ltb k 2) = ground arith in rw (e, g) refl

  module _ (v : Vol al dr) (h : Heap) (rel : IsReliable dr) (fits : IsLaidOut v.fs)
      (ok : IsReadable dr v.fs v.disk) where
    -- Writing the entry that was found.
    alloc_at-AllocResult :
        (from i k : ℕ) (b : List ℕ)
        → i < v.fs.sectors_per_fat
        → k < 128
        → read_sector (v.fs.fat_start + i) v.disk ≡ some b
        → from ≤ i * 128 + k
        → free_word i k (words b) ≡ true
        → ((x : ℕ) → from ≤ x → x < i * 128 + k → is_free v.fs v.disk x ≡ false)
        → let (r, v') = alloc_at al dr i k b v in AllocResult v.fs v.disk h from r v'.fs v'.disk
    unfolding alloc_at
    alloc_at-AllocResult from i k b lt kb at le f first =
        let lba : u32 (v.fs.fat_start + i) ≡ v.fs.fat_start + i = omega (arith, fits.tables, lt) in
        let num : u32 (i * 128 + k) ≡ i * 128 + k = omega (arith, fits.bytes_fit, lt, kb) in
        let (b', at', len, ws) = ok i lt in
        let same : words b' ≡ words b = ap words (some_inj (sym at' ∙ at)) in
        let (fs_same, r) =
          write_both-Wrote al dr i (bytes (set (words b) k cluster_eoc)) v rel fits lt in
        elim r [
          | inl (s, w) ↦
              rw (lba, s)
                (inl (
                  refl,
                  fs_same,
                  inl (
                      inr (
                        i * 128 + k,
                        le,
                        omega (arith, lt, kb),
                        free_word-is_free v.fs v.disk i k b kb at ∙ f,
                        first,
                        (i, k, b, refl, kb, at, w),
                      )),
                ))
          | inr (s, st) ↦
              rw (lba, s, num)
                (inr (record {
                  entry =
                      Stored-Updated dr rel v.fs fits v.disk i lt ok b at
                        (ap length (sym same) ∙ len) (subst AreWords same ws) k cluster_eoc kb
                        (omega arith) st;
                  was_free = free_word-is_free v.fs v.disk i k b kb at ∙ f;
                  later = le;
                  inside = omega (arith, lt, kb);
                  first = first;
                  recorded =
                      ap (λ (f : Fs). record f { last_allocated_cluster = i * 128 + k }) fs_same;
                }))
        ]

    -- No cluster can be allocated from `from` on and before `m`.
    abbrev NoneFree : ℕ → ℕ → Type 0
    NoneFree from m = (x : ℕ) → from ≤ x → x < m → is_free v.fs v.disk x ≡ false

    NoneFree-later :
        {from a m : ℕ}
        → NoneFree from a
        → ((x : ℕ) → a ≤ x → x < m → is_free v.fs v.disk x ≡ false)
        → NoneFree from m
    NoneFree-later {a = a} f g x p q = elim (Bool-cases (ltb x a)) [
      | inl y ↦ f x p (ground arith)
      | inr y ↦ g x (ground arith) q
    ]

    is_free-free_word :
        (i x : ℕ) (b : List ℕ)
        → i * 128 ≤ x
        → x < i * 128 + 128
        → read_sector (v.fs.fat_start + i) v.disk ≡ some b
        → free_word i (x - i * 128) (words b) ≡ false
        → is_free v.fs v.disk x ≡ false
    is_free-free_word i x b p q at e =
        let k : x ≡ i * 128 + (x - i * 128) = omega (arith, p) in
        ap (is_free v.fs v.disk) k
        ∙ free_word-is_free v.fs v.disk i (x - i * 128) b (omega (arith, q, p)) at
        ∙ e

    -- One round of the outer loop, from what the inner loop finds.
    alloc_found-AllocResult :
        (from i j : ℕ) (b : List ℕ) (o : Option ℕ) (next : ℕ × Vol al dr)
        → i < v.fs.sectors_per_fat
        → j < 128
        → from ≤ i * 128 + j
        → NoneFree from (i * 128 + j)
        → read_sector (v.fs.fat_start + i) v.disk ≡ some b
        → Found i (128 - j) j (words b) o
        → (NoneFree from (i * 128 + 128)
            → AllocResult v.fs v.disk h from next.0 next.1.fs next.1.disk)
        → let (r, v') = alloc_found al dr i o b v next in
          AllocResult v.fs v.disk h from r v'.fs v'.disk
    unfolding alloc_found
    alloc_found-AllocResult from i j b none next lt jb le f at found after = after (
        NoneFree-later {a = i * 128 + j} f (λ x p q.
          is_free-free_word i x b (omega (arith, p)) q at
            (found (x - i * 128) (omega (arith, p)) (omega (arith, p, q, jb)))))
    alloc_found-AllocResult from i j b (some k) next lt jb le f at (lo, hi, fr, first) after =
        alloc_at-AllocResult from i k b lt (omega (arith, hi, jb)) at (omega (arith, le, lo)) fr (
          NoneFree-later {a = i * 128 + j} f (λ x p q.
            is_free-free_word i x b (omega (arith, p)) (omega (arith, q, hi, jb)) at
              (first (x - i * 128) (omega (arith, p)) (omega (arith, p, q)))))

    -- The search from entry `j` of sector `i` on, when nothing is free between `from` and there.
    alloc_from-AllocResult :
        (from n i j : ℕ)
        → n ≡ v.fs.sectors_per_fat - i
        → j < 128
        → from ≤ i * 128 + j
        → NoneFree from (i * 128 + j)
        → let (r, v') = alloc_from al dr n i j v in AllocResult v.fs v.disk h from r v'.fs v'.disk
    unfolding alloc_from
    alloc_from-AllocResult from zero i j e jb le f =
        inl (refl, refl, inr (refl, λ c a b. f c a (omega (arith, e, b))))
    alloc_from-AllocResult from (suc n) i j e jb le f =
        let lt : i < v.fs.sectors_per_fat = omega (arith, e) in
        let (b, at, _, _) = ok i lt in
        let lba : u32 (v.fs.fat_start + i) ≡ v.fs.fat_start + i = omega (arith, fits.tables, lt) in
        let next = alloc_from al dr n (i + 1) 0 v in
        let round : alloc_sector al dr i j (read_sector (u32 (v.fs.fat_start + i)) v.disk) v next
            ≡ alloc_found al dr i (find_free_entry i (128 - j) j (words b)) b v next =
          ap (λ l. alloc_sector al dr i j (read_sector l v.disk) v next) lba
          ∙ ap (λ o. alloc_sector al dr i j o v next) at in
        subst (λ (r : ℕ × Vol al dr). AllocResult v.fs v.disk h from r.0 r.1.fs r.1.disk)
          (sym round)
          (alloc_found-AllocResult from i j b _ next lt jb le f at
            (find_free_entry-Found i (128 - j) j (words b))
            (λ g.
              alloc_from-AllocResult from n (i + 1) 0 (omega (arith, e)) (omega arith)
                (omega (arith, le, jb)) (λ x p q. g x p (omega (arith, q)))))

  -- What `alloc_cluster` gives, on a drive that keeps what it accepts and a volume that is laid out
  -- and whose table can be read. Either INVALID_CLUSTER, because this call got no
  -- memory for its buffer, the drive refused the sector in which the first free cluster is taken, or no
  -- cluster from the last allocated one on is free; or the first free cluster from there
  -- on, which is not reserved: its entry is the end of a chain now in both copies of the table, no
  -- other entry has changed, and it is the last allocated one.
  pub alloc_cluster-AllocResult :
      (v : Vol al dr)
      → IsReliable dr
      → IsLaidOut v.fs
      → IsReadable dr v.fs v.disk
      → let (r, v') = alloc_cluster al dr v in
        AllocResult v.fs v.disk v.heap v.fs.last_allocated_cluster r v'.fs v'.disk
  unfolding alloc_cluster
  alloc_cluster-AllocResult v rel fits ok =
      let last = v.fs.last_allocated_cluster in
      with_buffer_lem al dr (AllocResult v.fs v.disk v.heap last) 0
        (λ v.
          alloc_from al dr (v.fs.sectors_per_fat - v.fs.last_allocated_cluster / 128)
            (v.fs.last_allocated_cluster / 128) (v.fs.last_allocated_cluster % 128) v)
        v (λ e. inl (refl, refl, inl (inl e)))
        (λ h.
          alloc_from-AllocResult (record v { heap = h }) v.heap rel fits ok last
            (v.fs.sectors_per_fat - last / 128) (last / 128) (last % 128) refl (omega arith)
            (omega arith) (λ x p q. absurd (omega (arith, p, q))))
