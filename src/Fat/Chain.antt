-- ===== src/Fat/Chain.antt =====
-- The clusters of a chain, and the data that they hold.
use taavi_os.Common.{
  ℕ, zero, suc, ◌+◌, ◌*◌, ◌<◌, ◌≤◌, ◌≡◌, inl, inr, refl, sym, ap, ◌∙◌, Option, none, some, some_inj,
  List, [], ◌∷◌, ◌++◌, length, length-append, ◌==◌, if◌then◌else◌, Bool-cases, arith,
}
use taavi_os.Config.{u32}
use taavi_os.Ledger.Types.{Allocator}
use taavi_os.Fat.Volume.{Drive, Fs, cluster_eoc_min}
use taavi_os.Fat.Cluster.{
  Vol, cluster_size, cluster_to_sector, append_read, read_sectors, read_cluster,
}
use taavi_os.Fat.Entry.{entry_at}

-- The two parts of what was read.
pub append_read-some :
    (x r : Option (List ℕ)) (b : List ℕ)
    → append_read x r ≡ some b
    → (b1 : List ℕ) × (b2 : List ℕ) × (x ≡ some b1) × (r ≡ some b2) × (b ≡ b1 ++ b2)
append_read-some none r b e = cc
append_read-some (some b1) none b e = cc
append_read-some (some b1) (some b2) b e = (b1, b2, refl, refl, sym (some_inj e))

module _ (al : Allocator) (dr : Drive) where
  open al use {Heap, kmalloc, kfree}
  open dr use {Disk, read_sector, write_sector}

  -- The data of the clusters of a list, one after the other.
  abbrev pub chain_data : Vol al dr → List ℕ → Option (List ℕ)
  chain_data v [] = some []
  chain_data v (c ∷ cs) = append_read (read_cluster al dr c v) (chain_data v cs)

  -- The entries of the table link the clusters of the list, and the last one is the end of a chain.
  abbrev pub IsChain : Fs → Disk → List ℕ → Type 0
  IsChain fs d [] = ⊥
  IsChain fs d (c ∷ []) = (c < fs.maximum_cluster_size) × (cluster_eoc_min ≤ entry_at dr fs d c)
  IsChain fs d (c ∷ c' ∷ cs) =
      (c < fs.maximum_cluster_size)
      × (entry_at dr fs d c ≡ c')
      × (c' < cluster_eoc_min)
      × IsChain fs d (c' ∷ cs)

  -- What `ata_read_sector` does where it succeeds: a sector has 512 bytes.
  abbrev pub HasSectors : Type 0
  HasSectors = (l : ℕ) (d : Disk) (b : List ℕ) → read_sector l d ≡ some b → length b ≡ 512

  -- From this heap on, `kmalloc` gives `size` bytes `n` times, each block given back before the next call.
  abbrev pub HasMemory : ℕ → ℕ → Heap → Type 0
  HasMemory size zero h = Unit
  HasMemory size (suc n) h =
      (a : ℕ) × ((kmalloc size h).0 ≡ some a) × HasMemory size n (kfree a (kmalloc size h).1)

  -- The same, while one more block of `size` bytes is held all the time.
  abbrev pub HasBuffers : ℕ → ℕ → Heap → Type 0
  HasBuffers size n h =
      (a : ℕ) × ((kmalloc size h).0 ≡ some a) × HasMemory size n (kmalloc size h).1

  -- Reading does not depend on the heap.
  read_sectors-same :
      (n s : ℕ) (v w : Vol al dr)
      → w.disk ≡ v.disk
      → read_sectors al dr n s w ≡ read_sectors al dr n s v
  unfolding read_sectors
  read_sectors-same zero s v w e = refl
  read_sectors-same (suc n) s v w e =
      let rest = read_sectors-same n (u32 (s + 1)) v w e in
      ap (λ d. append_read (read_sector s d) (read_sectors al dr n (u32 (s + 1)) w)) e
      ∙ ap (append_read (read_sector s v.disk)) rest

  pub read_cluster-same :
      (c : ℕ) (v w : Vol al dr)
      → w.fs ≡ v.fs
      → w.disk ≡ v.disk
      → read_cluster al dr c w ≡ read_cluster al dr c v
  unfolding read_cluster
  read_cluster-same c v w f e =
      ap
        (λ (x : Fs).
          if cluster_to_sector c x == 0
          then none
          else read_sectors al dr x.sectors_per_cluster (cluster_to_sector c x) w)
        f
      ∙ ap (λ r. if cluster_to_sector c v.fs == 0 then none else r)
          (read_sectors-same v.fs.sectors_per_cluster (cluster_to_sector c v.fs) v w e)

  pub chain_data-same :
      (cs : List ℕ) (v w : Vol al dr)
      → w.fs ≡ v.fs
      → w.disk ≡ v.disk
      → chain_data w cs ≡ chain_data v cs
  chain_data-same [] v w f e = refl
  chain_data-same (c ∷ cs) v w f e =
      rw (read_cluster-same c v w f e, chain_data-same cs v w f e) refl

  length-read_sectors :
      (n s : ℕ) (v : Vol al dr) (b : List ℕ)
      → HasSectors
      → read_sectors al dr n s v ≡ some b
      → length b ≡ n * 512
  unfolding read_sectors
  length-read_sectors zero s v b sized e = ap length (sym (some_inj e))
  length-read_sectors (suc n) s v b sized e =
      let (b1, b2, e1, e2, q) =
        append_read-some (read_sector s v.disk) (read_sectors al dr n (u32 (s + 1)) v) b e in
      let l1 = sized s v.disk b1 e1 in
      let l2 = length-read_sectors n (u32 (s + 1)) v b2 sized e2 in
      ap length q ∙ (let k = length-append b1 b2 in omega (arith, k, l1, l2))

  -- A cluster that is read has all its bytes.
  pub length-read_cluster :
      (c : ℕ) (v : Vol al dr) (b : List ℕ)
      → HasSectors
      → read_cluster al dr c v ≡ some b
      → length b ≡ cluster_size v.fs
  unfolding read_cluster
  length-read_cluster c v b sized e = elim (Bool-cases (cluster_to_sector c v.fs == 0)) [
    | inl y ↦ let e' : none ≡ some b = rw y at e in cc
    | inr y ↦
        length-read_sectors v.fs.sectors_per_cluster (cluster_to_sector c v.fs) v b sized
          (rw y at e)
  ]
