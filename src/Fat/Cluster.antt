-- ===== src/Fat/Cluster.antt =====
-- fat32helpers.c: clusters, and the entries of the allocation table.
use Prim.Native.Nat.{bit_and}
use taavi_os.Common.{
  ℕ, zero, suc, ◌+◌, ◌-◌, ◌*◌, ◌/◌, ◌%◌, not, ◌&&◌, Option, none, some, List, [], ◌++◌, take, drop,
  get_or, set, ltb, leb, ◌==◌, if◌then◌else◌,
}
use taavi_os.Config.{status_ok, status_error, u32}
use taavi_os.Ledger.Types.{Allocator}
use taavi_os.Fat.Volume.{
  Drive, Fs, Volume, sector_size, entries_per_sector, cluster_mask, cluster_eoc, cluster_eoc_min,
  words, bytes,
}

-- `__fat32_calculate_lba`; INVALID_LBA is 0. A volume with 0 bytes per sector is not considered here.
unfoldable pub calculate_lba : ℕ → Fs → ℕ
calculate_lba cluster fs =
    if leb fs.maximum_cluster_size cluster
    then 0
    else u32 (fs.fat_start + u32 (cluster * 4) / fs.bytes_per_sector)

-- `__fat32_cluster_to_sector`; INVALID_CLUSTER is 0.
unfoldable pub cluster_to_sector : ℕ → Fs → ℕ
cluster_to_sector cluster fs =
    if ltb cluster 2 then 0 else u32 (fs.data_start + (cluster - 2) * fs.sectors_per_cluster)

-- `__fat32_calculate_offset`
unfoldable pub calculate_offset : ℕ → Fs → ℕ
calculate_offset cluster fs =
    if leb fs.maximum_cluster_size cluster then 0 else u32 (cluster * 4) % fs.bytes_per_sector

-- `__fat32_calculate_max_dir_entries`
abbrev pub max_dir_entries : Fs → ℕ
max_dir_entries fs = fs.sectors_per_cluster * sector_size / 32

abbrev pub cluster_size : Fs → ℕ
cluster_size fs = fs.sectors_per_cluster * sector_size

-- The inner loop of `__fat32_alloc_cluster` in sector `i`, from entry `j` on, `n` rounds left.
unfoldable pub find_free_entry : ℕ → ℕ → ℕ → List ℕ → Option ℕ
find_free_entry i zero j entries = none
find_free_entry i (suc n) j entries =
    let rest = find_free_entry i n (j + 1) entries in
    if i == 0 && ltb j 2
    then rest
    else (if bit_and (get_or entries j 0) cluster_mask == 0 then some j else rest)

-- One sector before the rest; the first that cannot be read ends the loop.
abbrev pub append_read : Option (List ℕ) → Option (List ℕ) → Option (List ℕ)
append_read none rest = none
append_read (some b) none = none
append_read (some b) (some r) = some (b ++ r)

module _ (al : Allocator) (dr : Drive) where
  open al use {Heap, kmalloc, kfree}
  open dr use {Disk, read_sector, write_sector}

  abbrev pub Vol : Type 0
  Vol = Volume Disk Heap

  -- `__fat32_allocate_buffer`, what a function does with the buffer, and `kfree` on every way out.
  -- Without memory the function returns `fail`.
  unfoldable pub with_buffer : {A : Type 0} → A → (Vol → A × Vol) → Vol → A × Vol
  with_buffer fail body v =
      let (b, h) = kmalloc (cluster_size v.fs) v.heap in
      let (x, v') = body (record v { heap = h }) in
      elim b [
        | none ↦ (fail, record v { heap = h })
        | some a ↦ (x, record v' { heap = kfree a v'.heap })
      ]

  -- The entry of a cluster in its sector.
  unfoldable pub entry_in : ℕ → Fs → Option (List ℕ) → ℕ
  entry_in cluster fs none = 0
  entry_in cluster fs (some b) =
      bit_and (get_or (words b) (calculate_offset cluster fs / 4) 0) cluster_mask

  -- `__fat32_next_cluster`
  unfoldable pub next_cluster : ℕ → Vol → ℕ × Vol
  unfolding with_buffer entry_in calculate_lba calculate_offset
  next_cluster cluster =
      with_buffer 0
        (λ v. (entry_in cluster v.fs (read_sector (calculate_lba cluster v.fs) v.disk), v))

  -- The sectors from `s` on, `n` of them left.
  unfoldable pub read_sectors : ℕ → ℕ → Vol → Option (List ℕ)
  read_sectors zero s v = some []
  read_sectors (suc n) s v = append_read (read_sector s v.disk) (read_sectors n (u32 (s + 1)) v)

  -- `__fat32_read_cluster`: the data of the cluster, `none` for STATUS_ERROR.
  unfoldable pub read_cluster : ℕ → Vol → Option (List ℕ)
  unfolding cluster_to_sector read_sectors
  read_cluster cluster v =
      if cluster_to_sector cluster v.fs == 0
      then none
      else read_sectors v.fs.sectors_per_cluster (cluster_to_sector cluster v.fs) v

  unfoldable pub write_sectors : ℕ → ℕ → List ℕ → Vol → ℕ × Vol
  write_sectors zero s buf v = (status_ok, v)
  write_sectors (suc n) s buf v =
      let (ok, d) = write_sector s (take sector_size buf) v.disk in
      let rest = write_sectors n (u32 (s + 1)) (drop sector_size buf) (record v { disk = d }) in
      if not ok then (status_error, record v { disk = d }) else rest

  -- `__fat32_write_cluster`
  unfoldable pub write_cluster : ℕ → List ℕ → Vol → ℕ × Vol
  unfolding cluster_to_sector write_sectors
  write_cluster cluster buf v =
      if cluster_to_sector cluster v.fs == 0
      then (status_error, v)
      else write_sectors v.fs.sectors_per_cluster (cluster_to_sector cluster v.fs) buf v

  -- `ata_write_sector(…, lba, buf) == -1 || ata_write_sector(…, lba + sectors_per_fat, buf) == -1`
  unfoldable pub write_both : ℕ → List ℕ → Vol → ℕ × Vol
  write_both lba buf v =
      let (ok, d) = write_sector lba buf v.disk in
      let (ok', d') = write_sector (u32 (lba + v.fs.sectors_per_fat)) buf d in
      if not ok
      then (status_error, record v { disk = d })
      else ((if ok' then status_ok else status_error), record v { disk = d' })

  unfoldable pub set_in : ℕ → ℕ → Option (List ℕ) → Vol → ℕ × Vol
  unfolding write_both calculate_lba calculate_offset
  set_in cluster value none v = (status_error, v)
  set_in cluster value (some b) v =
      write_both (calculate_lba cluster v.fs)
        (bytes (set (words b) (calculate_offset cluster v.fs / 4) value)) v

  -- `__fat32_set_cluster`
  unfoldable pub set_cluster : ℕ → ℕ → Vol → ℕ × Vol
  unfolding with_buffer set_in
  set_cluster cluster value =
      with_buffer status_error
        (λ v. set_in cluster value (read_sector (calculate_lba cluster v.fs) v.disk) v)

  -- `__fat32_unalloc_cluster`; its error is INVALID_CLUSTER, which is the value of STATUS_OK.
  unfoldable pub unalloc_cluster : ℕ → Vol → ℕ × Vol
  unfolding set_cluster
  unalloc_cluster cluster v = (0, (set_cluster cluster 0 v).1)

  -- The free entry `j` of sector `i` becomes the end of a chain.
  unfoldable pub alloc_at : ℕ → ℕ → List ℕ → Vol → ℕ × Vol
  unfolding write_both
  alloc_at i j b v =
      let (status, v') =
        write_both (u32 (v.fs.fat_start + i)) (bytes (set (words b) j cluster_eoc)) v in
      if status == status_ok
      then (
        u32 (i * entries_per_sector + j),
        record v' {
          fs = record v'.fs { last_allocated_cluster = u32 (i * entries_per_sector + j) };
        },
      )
      else (0, v')

  unfoldable pub alloc_found : ℕ → Option ℕ → List ℕ → Vol → ℕ × Vol → ℕ × Vol
  unfolding alloc_at
  alloc_found i none b v next = next
  alloc_found i (some j) b v next = alloc_at i j b v

  -- One round in sector `i`, from entry `j` on; `next` is what the rounds after it do.
  unfoldable pub alloc_sector : ℕ → ℕ → Option (List ℕ) → Vol → ℕ × Vol → ℕ × Vol
  unfolding alloc_found find_free_entry
  alloc_sector i j none v next = (0, v)
  alloc_sector i j (some b) v next =
      alloc_found i (find_free_entry i (entries_per_sector - j) j (words b)) b v next

  -- The outer loop from sector `i` on, `n` sectors left; `j` is where the first of them starts.
  unfoldable pub alloc_from : ℕ → ℕ → ℕ → Vol → ℕ × Vol
  unfolding alloc_sector
  alloc_from zero i j v = (0, v)
  alloc_from (suc n) i j v =
      alloc_sector i j (read_sector (u32 (v.fs.fat_start + i)) v.disk) v (alloc_from n (i + 1) 0 v)

  -- `__fat32_alloc_cluster`
  unfoldable pub alloc_cluster : Vol → ℕ × Vol
  unfolding with_buffer alloc_from
  alloc_cluster = with_buffer 0 (λ v.
      alloc_from (v.fs.sectors_per_fat - v.fs.last_allocated_cluster / entries_per_sector)
        (v.fs.last_allocated_cluster / entries_per_sector)
        (v.fs.last_allocated_cluster % entries_per_sector) v)

  -- The new cluster `n` is put behind `cluster`; 0 is INVALID_CLUSTER.
  unfoldable pub link_new : ℕ → ℕ → Vol → ℕ × Vol
  unfolding set_cluster
  link_new cluster n v =
      let (s, v1) = set_cluster cluster n v in
      let (s', v2) = set_cluster n cluster_eoc v1 in
      if n == 0
      then (0, v)
      else (if not (s == status_ok)
          then (0, v1)
          else (if not (s' == status_ok) then (0, v2) else (n, v2)))

  -- `__fat32_link_cluster_chain`
  unfoldable pub link_cluster_chain : ℕ → Vol → ℕ × Vol
  unfolding next_cluster alloc_cluster link_new
  link_cluster_chain cluster v =
      let (next, v1) = next_cluster cluster v in
      let (n, v2) = alloc_cluster v1 in
      if leb cluster_eoc_min next then link_new cluster n v2 else (next, v1)
