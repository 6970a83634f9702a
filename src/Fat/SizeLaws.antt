-- ===== src/Fat/SizeLaws.antt =====
-- Writing changes no part of the file system's state but the last allocated cluster.
use taavi_os.Common.{
  ℕ, zero, suc, set, take, drop, ◌+◌, ◌-◌, ◌/◌, ◌%◌, ◌≡◌, refl, ap, ◌∙◌, inl, inr, Bool-cases,
  Option, none, some, List, leb, ◌==◌,
}
use taavi_os.Config.{status_ok, u32}
use taavi_os.Ledger.Types.{Allocator}
use taavi_os.Fat.Volume.{Drive, sector_size, cluster_eoc, cluster_eoc_min, words, bytes}
use taavi_os.Fat.Cluster.{
  Vol, cluster_to_sector, write_sectors, write_cluster, cluster_size, calculate_lba, write_both,
  set_in, set_cluster, next_cluster, alloc_at, alloc_found, alloc_sector, alloc_from, alloc_cluster,
  link_new, link_cluster_chain,
}
use taavi_os.Fat.SetLaws.{with_buffer_lem}
use taavi_os.Fat.FileLaws.{next_cluster-keeps}

module _ (al : Allocator) (dr : Drive) where
  open al use {Heap, kmalloc, kfree}
  open dr use {Disk, read_sector, write_sector}

  pub write_sectors-fs :
      (n s : ℕ) (buf : List ℕ) (v : Vol al dr) → (write_sectors al dr n s buf v).1.fs ≡ v.fs
  unfolding write_sectors
  write_sectors-fs zero s buf v = refl
  write_sectors-fs (suc n) s buf v =
      elim (Bool-cases (write_sector s (take sector_size buf) v.disk).0) [
        | inl y ↦ rw y (
            write_sectors-fs n (u32 (s + 1)) (drop sector_size buf)
              (record v { disk = (write_sector s (take sector_size buf) v.disk).1 }))
        | inr y ↦ rw y refl
      ]

  pub write_cluster-fs :
      (c : ℕ) (buf : List ℕ) (v : Vol al dr) → (write_cluster al dr c buf v).1.fs ≡ v.fs
  unfolding write_cluster
  write_cluster-fs c buf v = elim (Bool-cases (cluster_to_sector c v.fs == 0)) [
    | inl y ↦ rw y refl
    | inr y ↦ rw y (write_sectors-fs v.fs.sectors_per_cluster (cluster_to_sector c v.fs) buf v)
  ]

  write_both-fs : (lba : ℕ) (b : List ℕ) (v : Vol al dr) → (write_both al dr lba b v).1.fs ≡ v.fs
  unfolding write_both
  write_both-fs lba b v = elim (Bool-cases (write_sector lba b v.disk).0) [
    | inl y ↦ rw y refl
    | inr y ↦ rw y refl
  ]

  set_in-fs : (c w : ℕ) (o : Option (List ℕ)) (v : Vol al dr) → (set_in al dr c w o v).1.fs ≡ v.fs
  unfolding set_in
  set_in-fs c w none v = refl
  set_in-fs c w (some b) v = write_both-fs _ _ v

  set_cluster-fs : (c w : ℕ) (v : Vol al dr) → (set_cluster al dr c w v).1.fs ≡ v.fs
  unfolding set_cluster
  set_cluster-fs c w v =
      with_buffer_lem al dr (λ _ f _. f ≡ v.fs) _
        (λ v. set_in al dr c w (read_sector (calculate_lba c v.fs) v.disk) v) v (λ _. refl)
        (λ h. set_in-fs c w (read_sector (calculate_lba c v.fs) v.disk) (record v { heap = h }))

  -- The file system's state after an allocation has clusters of the same size.
  alloc_at-cluster_size :
      (i j : ℕ) (b : List ℕ) (v : Vol al dr)
      → cluster_size (alloc_at al dr i j b v).1.fs ≡ cluster_size v.fs
  unfolding alloc_at
  alloc_at-cluster_size i j b v =
      let r = write_both al dr (u32 (v.fs.fat_start + i)) (bytes (set (words b) j cluster_eoc)) v in
      elim (Bool-cases (r.0 == status_ok)) [
        | inl y ↦ rw y (ap cluster_size (write_both-fs _ _ v))
        | inr y ↦ rw y (ap cluster_size (write_both-fs _ _ v))
      ]

  alloc_found-cluster_size :
      (i : ℕ) (o : Option ℕ) (b : List ℕ) (v : Vol al dr) (next : ℕ × Vol al dr)
      → cluster_size next.1.fs ≡ cluster_size v.fs
      → cluster_size (alloc_found al dr i o b v next).1.fs ≡ cluster_size v.fs
  unfolding alloc_found
  alloc_found-cluster_size i none b v next e = e
  alloc_found-cluster_size i (some j) b v next e = alloc_at-cluster_size i j b v

  alloc_sector-cluster_size :
      (i j : ℕ) (o : Option (List ℕ)) (v : Vol al dr) (next : ℕ × Vol al dr)
      → cluster_size next.1.fs ≡ cluster_size v.fs
      → cluster_size (alloc_sector al dr i j o v next).1.fs ≡ cluster_size v.fs
  unfolding alloc_sector
  alloc_sector-cluster_size i j none v next e = refl
  alloc_sector-cluster_size i j (some b) v next e = alloc_found-cluster_size i _ b v next e

  alloc_from-cluster_size :
      (n i j : ℕ) (v : Vol al dr) → cluster_size (alloc_from al dr n i j v).1.fs ≡ cluster_size v.fs
  unfolding alloc_from
  alloc_from-cluster_size zero i j v = refl
  alloc_from-cluster_size (suc n) i j v =
      alloc_sector-cluster_size i j _ v (alloc_from al dr n (i + 1) 0 v)
        (alloc_from-cluster_size n (i + 1) 0 v)

  alloc_cluster-cluster_size :
      (v : Vol al dr) → cluster_size (alloc_cluster al dr v).1.fs ≡ cluster_size v.fs
  unfolding alloc_cluster
  alloc_cluster-cluster_size v =
      with_buffer_lem al dr (λ _ f _. cluster_size f ≡ cluster_size v.fs) 0
        (λ v.
          alloc_from al dr (v.fs.sectors_per_fat - v.fs.last_allocated_cluster / 128)
            (v.fs.last_allocated_cluster / 128) (v.fs.last_allocated_cluster % 128) v)
        v (λ _. refl) (λ h. alloc_from-cluster_size _ _ _ (record v { heap = h }))

  link_new-fs : (c n : ℕ) (v : Vol al dr) → (link_new al dr c n v).1.fs ≡ v.fs
  unfolding link_new
  link_new-fs c n v =
      let (s, v1) = set_cluster al dr c n v in
      let (s', v2) = set_cluster al dr n cluster_eoc v1 in
      let f1 : v1.fs ≡ v.fs = set_cluster-fs c n v in
      let f2 : v2.fs ≡ v.fs = set_cluster-fs n cluster_eoc v1 ∙ f1 in
      elim (Bool-cases (n == 0)) [
        | inl z ↦ rw z refl
        | inr z ↦ elim (Bool-cases (s == status_ok)) [
          | inr y ↦ rw (z, y) f1
          | inl y ↦ elim (Bool-cases (s' == status_ok)) [
            | inr y' ↦ rw (z, y, y') f2
            | inl y' ↦ rw (z, y, y') f2
          ]
        ]
      ]

  pub link_cluster_chain-cluster_size :
      (c : ℕ) (v : Vol al dr) → cluster_size (link_cluster_chain al dr c v).1.fs ≡ cluster_size v.fs
  unfolding link_cluster_chain
  link_cluster_chain-cluster_size c v =
      let (next, v1) = next_cluster al dr c v in
      let (n, v2) = alloc_cluster al dr v1 in
      let e1 : cluster_size v1.fs ≡ cluster_size v.fs =
        ap cluster_size (next_cluster-keeps al dr c v).0 in
      elim (Bool-cases (leb cluster_eoc_min next)) [
        | inl y ↦ rw y (ap cluster_size (link_new-fs c n v2) ∙ alloc_cluster-cluster_size v1 ∙ e1)
        | inr y ↦ rw y e1
      ]
