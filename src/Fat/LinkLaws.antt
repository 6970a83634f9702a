-- ===== src/Fat/LinkLaws.antt =====
-- Growing a chain: the entries of the old end and of the new cluster.
use Prim.Native.Nat.{bit_and}
use taavi_os.Common.{ℕ, ◌*◌, ◌<◌, ◌≤◌, ◌≡◌, ◌≢◌, ◌⊎◌, true, false, none}
use taavi_os.Ledger.Types.{Allocator}
use taavi_os.Fat.Volume.{Drive, Fs, cluster_mask, cluster_eoc, cluster_eoc_min}
use taavi_os.Fat.Cluster.{Vol, cluster_size, set_cluster, next_cluster, alloc_cluster}
use taavi_os.Fat.Entry.{IsLaidOut, entry_at, IsReadable}
use taavi_os.Fat.SetLaws.{SetRefused}
use taavi_os.Fat.AllocLaws.{is_free, AllocRefused}

module _ (al : Allocator) (dr : Drive) where
  open al use {Heap, kmalloc, kfree}
  open dr use {Disk, read_sector, write_sector}

  -- Why cluster `n` is not put behind `c`: one of the two entries cannot be set.
  abbrev pub NewRefused : ℕ → ℕ → Vol al dr → Type 0
  NewRefused c n v =
      let v1 = (set_cluster al dr c n v).1 in
      SetRefused al dr v.fs v.disk v.heap c n ⊎ SetRefused al dr v1.fs v1.disk v1.heap n cluster_eoc

  -- Why the chain that ends with `c` does not grow: a free cluster is not given, or not put behind `c`.
  abbrev pub EndRefused : ℕ → Vol al dr → Type 0
  EndRefused c v =
      let (n, v2) = alloc_cluster al dr v in
      AllocRefused al dr v.fs v.disk v.heap v.fs.last_allocated_cluster ⊎ NewRefused c n v2

  -- Why the call fails: there is no memory for the buffer in which the next cluster is looked up, or, from
  -- there on, the chain does not grow.
  abbrev pub LinkRefused : ℕ → Vol al dr → Type 0
  LinkRefused c v =
      ((kmalloc (cluster_size v.fs) v.heap).0 ≡ none) ⊎ EndRefused c (next_cluster al dr c v).1

  -- Cluster `n` stands behind `c`, and ends the chain; no other entry has changed.
  pub record Linked (fs : Fs) (d : Disk) (c n : ℕ) (d' : Disk) : Type 0 where
    pub next : entry_at dr fs d' c ≡ bit_and n cluster_mask
    pub last : entry_at dr fs d' n ≡ cluster_eoc
    pub others :
        (x : ℕ)
        → x < fs.sectors_per_fat * 128
        → x ≢ c
        → x ≢ n
        → entry_at dr fs d' x ≡ entry_at dr fs d x

  -- What `link_cluster_chain` gives for cluster `c`: no cluster, because the call is `refused` or no cluster
  -- is free; the next cluster of a chain that goes on; or a new one behind the end.
  abbrev pub LinkResult : Type 0 → Fs → Disk → ℕ → ℕ → Fs → Disk → Type 0
  LinkResult refused fs d c r fs' d' =
      ((r ≡ 0)
        × (refused
            ⊎ ((x : ℕ)
                → fs.last_allocated_cluster ≤ x
                → x < fs.sectors_per_fat * 128
                → is_free al dr fs d x ≡ false)))
      ⊎ (((entry_at dr fs d c < cluster_eoc_min) × (r ≡ entry_at dr fs d c) × (fs' ≡ fs) × (d' ≡ d))
          ⊎ ((cluster_eoc_min ≤ entry_at dr fs d c)
              × (is_free al dr fs d r ≡ true)
              × (fs' ≡ record fs { last_allocated_cluster = r })
              × Linked fs d c r d'))

  -- Cluster `c` ends a chain of a volume with as many clusters as the table has entries.
  record EndsChain (fs : Fs) (d : Disk) (c : ℕ) : Type 0 where
    fits : IsLaidOut fs
    exact : fs.sectors_per_fat * 128 ≤ fs.maximum_cluster_size
    ok : IsReadable dr fs d
    inside : c < fs.maximum_cluster_size
    ends : cluster_eoc_min ≤ entry_at dr fs d c
