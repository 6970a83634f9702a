-- ===== src/Fat/Tests.antt =====
-- Runs of the file system, and its theorems, on a small volume.
use Prim.Native.Nat.{bit_and}
use taavi_os.Common.{
  ltb, ℕ, zero, suc, ◌+◌, ◌<◌, ◌≤◌, ◌≡◌, inl, inr, refl, sym, ap, subst, ◌∙◌, ◌++◌, ◌^◌, some_inj,
  Bool, Bool-cases, arith, Option, none, some, List, [], ◌∷◌, length, length-replicate, replicate,
  set, take, ◌==◌, if◌then◌else◌,
}
use taavi_os.Config.{status_ok}
use taavi_os.Ledger.Types.{Allocator}
use taavi_os.Fat.Volume.{
  Drive, IsReliable, Fs, cluster_mask, cluster_eoc, words, bytes, AreWords, words-bytes,
}
use taavi_os.Fat.Cluster.{
  Vol, set_cluster, next_cluster, alloc_cluster, link_cluster_chain, write_cluster, read_cluster,
}
use taavi_os.Fat.Entry.{AreWords-set, IsLaidOut, entry_at, IsReadable}
use taavi_os.Fat.SetLaws.{next_cluster-set_cluster}
use taavi_os.Fat.LimitLaws.{set_cluster-beyond}
use taavi_os.Fat.AllocLaws.{AllocResult, alloc_cluster-AllocResult}
use taavi_os.Fat.DataLaws.{IsInside, read_cluster-write_cluster}
use taavi_os.Fat.Chain.{HasSectors, HasBuffers, IsChain, chain_data}
use taavi_os.Fat.File.{read_file}
use taavi_os.Fat.FileLaws.{read_file-chain_data}
use taavi_os.Fat.Name.{format_83}
use taavi_os.Strings.Text.{memcmp}
use taavi_os.Fat.Write.{overlay, write_file_at_offset}
use taavi_os.Fat.WriteEnds.{write_file_at_offset-ends}
use taavi_os.Fat.WriteLaws.{write_file_at_offset-overlay}
use taavi_os.Fat.Dir.{dirent_at, search_dir}
use taavi_os.Fat.DirLaws.{entry_found, scan_chain, search_dir-scan_chain}
use taavi_os.Fat.Init.{fat32_init}
use taavi_os.Fat.NameLaws.{field, stem, extension, format_83-field}

-- A disk gives a sector for each number; a write of anything but 512 bytes is refused.
abbrev stored : ℕ → (ℕ → List ℕ) → Option (List ℕ)
stored lba d = if length (d lba) == 512 then some (d lba) else none

abbrev store : ℕ → List ℕ → (ℕ → List ℕ) → Bool × (ℕ → List ℕ)
store lba b d = (length b == 512, λ l. if l == lba then b else d l)

abbrev drive : Drive
drive = record { Disk = ℕ → List ℕ; read_sector = stored; write_sector = store }

drive-IsReliable : IsReliable drive
drive-IsReliable = record {
  same = λ lba b d lt e. ground (arith, e);
  other = λ lba l b d lt lt' ne e. ground (arith, ne);
}

-- A heap that never ends.
abbrev bump : Allocator
bump = record { Heap = ℕ; kmalloc = λ n h. (some h, h + n); kfree = λ a h. h }

-- One table of a sector, and 126 clusters of a sector.
abbrev small_fs : Fs
small_fs = record {
  partition_lba = 0;
  fat_start = 1;
  data_start = 3;
  root_cluster = 2;
  sectors_per_cluster = 1;
  bytes_per_sector = 512;
  fat_count = 2;
  sectors_per_fat = 1;
  maximum_cluster_size = 128;
  last_allocated_cluster = 0;
}

small_fs-IsLaidOut : IsLaidOut small_fs
small_fs-IsLaidOut = record {
  sectors = refl;
  tables = omega arith;
  entries = omega arith;
  bytes_fit = omega arith;
}

-- Clusters 2 and 3 are a chain.
abbrev table : List ℕ
table = set (set (set (set (replicate 128 0) 0 cluster_eoc) 1 cluster_eoc) 2 3) 3 cluster_eoc

abbrev small_disk : ℕ → List ℕ
small_disk l = if l == 1 then bytes table else (if l == 2 then bytes table else replicate 512 l)

abbrev small : Vol bump drive
small = record { fs = small_fs; disk = small_disk; heap = 0 }

AreWords-replicate : (n w : ℕ) → w < 2 ^ 32 → AreWords (replicate n w)
AreWords-replicate zero w h = tt
AreWords-replicate (suc n) w h = (h, AreWords-replicate n w h)

table-AreWords : AreWords table
table-AreWords =
    AreWords-set (set (set (set (replicate 128 0) 0 cluster_eoc) 1 cluster_eoc) 2 3) 3 cluster_eoc
      (AreWords-set (set (set (replicate 128 0) 0 cluster_eoc) 1 cluster_eoc) 2 3
        (AreWords-set (set (replicate 128 0) 0 cluster_eoc) 1 cluster_eoc
          (AreWords-set (replicate 128 0) 0 cluster_eoc (AreWords-replicate 128 0 (omega arith))
            (omega arith))
          (omega arith))
        (omega arith))
      (omega arith)

small-IsReadable : IsReadable drive small_fs small_disk
unfolding bytes
small-IsReadable zero lt = (
  bytes table,
  refl,
  ap length (words-bytes table table-AreWords),
  subst AreWords (sym (words-bytes table table-AreWords)) table-AreWords,
)
small-IsReadable (suc i) lt = absurd (omega (arith, lt))

small-HasSectors : HasSectors bump drive
small-HasSectors l d b e = elim (Bool-cases (length (d l) == 512)) [
  | inl y ↦ let e' : some (d l) ≡ some b = rw y at e in ap length (sym (some_inj e')) ∙ ground arith
  | inr y ↦ let e' : none ≡ some b = rw y at e in cc
]

two_buffers : HasBuffers bump drive 512 2 small.heap
two_buffers = (_, refl, (_, refl, (_, refl, tt)))

-- Setting the entry of cluster 5 to 9.
set_ok : (set_cluster bump drive 5 9 small).0 ≡ status_ok
unfolding set_cluster bytes words
set_ok = refl

next_cluster-set_cluster_example :
    (next_cluster bump drive 2 (record (set_cluster bump drive 5 9 small).1 { heap = 7 })).0
    ≡ (if 2 == 5 then bit_and 9 cluster_mask else entry_at drive small_fs small_disk 2)
next_cluster-set_cluster_example =
    next_cluster-set_cluster bump drive 5 9 2 small 7 drive-IsReliable small_fs-IsLaidOut
      small-IsReadable (omega arith) (omega arith) (omega arith) (λ e. cc) set_ok

alloc_cluster-AllocResult_example :
    AllocResult bump drive small_fs small_disk 0 0
      (alloc_cluster bump drive small).0
      (alloc_cluster bump drive small).1.fs
      (alloc_cluster bump drive small).1.disk
alloc_cluster-AllocResult_example =
    alloc_cluster-AllocResult bump drive small drive-IsReliable small_fs-IsLaidOut small-IsReadable

-- The chain of clusters 2 and 3 goes on with cluster 4.
linked : (link_cluster_chain bump drive 3 small).0 ≡ 4
unfolding link_cluster_chain bytes words
linked = refl

small-IsInside : (c : ℕ) → 2 ≤ c → c < 128 → IsInside small_fs c
small-IsInside c lo hi = record { not_reserved = lo; start = omega arith; fits = omega (arith, hi) }

wrote : (write_cluster bump drive 2 (replicate 512 8) small).0 ≡ status_ok
unfolding write_cluster
wrote = refl

read_cluster-write_cluster_example :
    read_cluster bump drive 3 (write_cluster bump drive 2 (replicate 512 8) small).1
    ≡ (if 3 == 2 then some (replicate 512 8) else read_cluster bump drive 3 small)
read_cluster-write_cluster_example =
    read_cluster-write_cluster bump drive drive-IsReliable 2 3 (replicate 512 8) small
      (small-IsInside 2 (omega arith) (omega arith)) (small-IsInside 3 (omega arith) (omega arith))
      (length-replicate {A = ℕ} 512 8) wrote

small-IsChain : IsChain bump drive small_fs small_disk (2 ∷ 3 ∷ [])
unfolding bytes words
small-IsChain = (omega arith, refl, omega arith, (omega arith, omega arith))

chain_bytes : chain_data bump drive small (2 ∷ 3 ∷ []) ≡ some (replicate 512 3 ++ replicate 512 4)
unfolding read_cluster
chain_bytes = refl

read_file-chain_data_example :
    (read_file bump drive 2 600 small).0
    ≡ some (status_ok, take 600 (replicate 512 3 ++ replicate 512 4))
read_file-chain_data_example =
    read_file-chain_data bump drive 2 600 (3 ∷ []) small (replicate 512 3 ++ replicate 512 4)
      small-HasSectors two_buffers small_fs-IsLaidOut (omega arith) small-IsChain chain_bytes

-- "kernel.c" as `KERNEL  C  `.
name_bytes :
    format_83 (107 ∷ 101 ∷ 114 ∷ 110 ∷ 101 ∷ 108 ∷ 46 ∷ 99 ∷ [])
    ≡ some (75 ∷ 69 ∷ 82 ∷ 78 ∷ 69 ∷ 76 ∷ 32 ∷ 32 ∷ 67 ∷ 32 ∷ 32 ∷ [])
unfolding format_83
name_bytes = refl

format_83-field_example : format_83 (97 ∷ 46 ∷ 98 ∷ []) ≡ (
    if ltb (length (stem (97 ∷ 46 ∷ 98 ∷ []))) 256
    then some (field 8 (stem (97 ∷ 46 ∷ 98 ∷ [])) ++ field 3 (extension (97 ∷ 46 ∷ 98 ∷ [])))
    else none)
format_83-field_example = format_83-field (97 ∷ 46 ∷ 98 ∷ [])

-- Cluster 3 with two bytes written at offset 5.
written : (write_file_at_offset bump drive 3 5 (1 ∷ 2 ∷ []) small).0 ≡ some status_ok
unfolding write_file_at_offset read_cluster write_cluster
written = refl

cluster_3 : read_cluster bump drive 3 small ≡ some (replicate 512 4)
unfolding read_cluster
cluster_3 = refl

write_file_at_offset-overlay_example :
    read_cluster bump drive 3 (write_file_at_offset bump drive 3 5 (1 ∷ 2 ∷ []) small).1 ≡ (
      if 3 == 3
      then some (overlay (replicate 512 4) 5 (1 ∷ 2 ∷ []))
      else read_cluster bump drive 3 small)
write_file_at_offset-overlay_example =
    write_file_at_offset-overlay bump drive drive-IsReliable small-HasSectors 3 3 5
      (replicate 512 4) (1 ∷ 2 ∷ []) small (small-IsInside 3 (omega arith) (omega arith))
      (small-IsInside 3 (omega arith) (omega arith)) (omega arith) (omega arith) cluster_3 written

write_file_at_offset-ends_example :
    (status : ℕ) × ((write_file_at_offset bump drive 2 900 (1 ∷ 2 ∷ []) small).0 ≡ some status)
write_file_at_offset-ends_example =
    write_file_at_offset-ends bump drive 2 900 (1 ∷ 2 ∷ []) small (omega arith)

-- A directory of clusters 2 and 3 with a deleted entry, a file of 9 bytes at cluster 7, and no more.
abbrev file_entry : List ℕ
file_entry = replicate 11 65 ++ (0x20 ∷ replicate 14 0 ++ (7 ∷ 0 ∷ 9 ∷ 0 ∷ 0 ∷ 0 ∷ []))

abbrev directory : List ℕ
directory = (0xE5 ∷ replicate 31 65) ++ (file_entry ++ replicate 448 0)

abbrev dir_volume : Vol bump drive
dir_volume = record small { disk = λ l. if l == 3 then directory else small_disk l }

dir_bytes : chain_data bump drive dir_volume (2 ∷ 3 ∷ []) ≡ some (directory ++ replicate 512 4)
unfolding read_cluster
dir_bytes = refl

dir-IsChain : IsChain bump drive small_fs dir_volume.disk (2 ∷ 3 ∷ [])
unfolding bytes words
dir-IsChain = (omega arith, refl, omega arith, (omega arith, omega arith))

search_dir-scan_chain_example :
    (search_dir bump drive 2 2 (replicate 11 65) dir_volume).0
    ≡ some (
        entry_found
          (scan_chain bump drive small_fs 2 (directory ++ replicate 512 4) (replicate 11 65)))
search_dir-scan_chain_example =
    search_dir-scan_chain bump drive 2 2 (3 ∷ []) (replicate 11 65) dir_volume
      (directory ++ replicate 512 4) small-HasSectors two_buffers small_fs-IsLaidOut dir-IsChain
      dir_bytes (omega arith)

found_file :
    (search_dir bump drive 2 2 (replicate 11 65) dir_volume).0
    ≡ some (some (record { cluster = 7; size = 9; attributes = 0x20 }))
unfolding search_dir bytes words memcmp dirent_at read_cluster
found_file = refl

-- The boot sector of a partition of 300 sectors: 4 in a cluster, 1 reserved, two tables of 2.
abbrev boot_sector : List ℕ
boot_sector = set (set (set (set (set (set (replicate 512 0) 12 2) 13 4) 14 1) 16 2) 32 44) 33 1

abbrev boot : List ℕ
boot = set (set boot_sector 36 2) 44 2

abbrev boot_volume : Vol bump drive
boot_volume = record small { disk = λ l. if l == 9 then boot else small_disk l }

boot_clusters : (fat32_init bump drive [] 9 boot_volume).1.fs.maximum_cluster_size ≡ 75
unfolding fat32_init
boot_clusters = refl

-- The volume has the clusters below 128.
beyond_ok : (set_cluster bump drive 128 9 small).0 ≡ status_ok
unfolding set_cluster bytes words
beyond_ok = refl

set_cluster-beyond_example :
    stored 0 (set_cluster bump drive 128 9 small).1.disk
    ≡ some (bytes (set (words (replicate 512 0)) 0 9))
set_cluster-beyond_example =
    set_cluster-beyond bump drive drive-IsReliable 128 9 small (replicate 512 0) (omega arith)
      (omega arith) (omega arith) refl beyond_ok
