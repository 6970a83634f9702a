-- ===== src/Fat/File.antt =====
-- fat32read.c: the reading of a file.
use taavi_os.Common.{
  ℕ, zero, suc, ◌+◌, ◌-◌, ◌/◌, Option, none, some, List, [], ◌++◌, take, leb, if◌then◌else◌,
}
use taavi_os.Config.{status_ok, status_error}
use taavi_os.Ledger.Types.{Allocator}
use taavi_os.Fat.Volume.{Drive, cluster_eoc_min}
use taavi_os.Fat.Cluster.{Vol, cluster_size, with_buffer, read_cluster, next_cluster}

-- The status and the bytes that have been copied to the caller's buffer; `none` stands for a loop that
-- has not ended within its fuel.
abbrev pub ReadResult : Type 0
ReadResult = Option (ℕ × List ℕ)

-- The bytes that an earlier round has copied stand before the others.
abbrev pub copy_before : List ℕ → ReadResult → ReadResult
copy_before b none = none
copy_before b (some (status, rest)) = some (status, b ++ rest)

module _ (al : Allocator) (dr : Drive) where
  -- What a round does with the data of its cluster: `left` is `size - bytes_read`, `next` what
  -- `__fat32_next_cluster` gives in `v1`, and `rest` what the rounds after this one give.
  unfoldable pub read_round :
      Option (List ℕ)
      → ℕ
      → ℕ
      → Vol al dr
      → Vol al dr
      → ReadResult × Vol al dr
      → ReadResult × Vol al dr
  read_round none left next v v1 rest = (some (status_error, []), v)
  read_round (some b) left next v v1 rest =
      if leb left (cluster_size v.fs)
      then (some (status_ok, take left b), v)
      else (if leb cluster_eoc_min next
          then (some (status_ok, take (cluster_size v.fs) b), v1)
          else (copy_before (take (cluster_size v.fs) b) rest.0, rest.1))

  -- The loop, with `left` bytes to read and fuel for `n` rounds.
  unfoldable pub read_loop : ℕ → ℕ → ℕ → Vol al dr → ReadResult × Vol al dr
  unfolding read_round
  read_loop zero cluster left v = (none, v)
  read_loop (suc n) cluster left v =
      let (next, v1) = next_cluster al dr cluster v in
      read_round (read_cluster al dr cluster v) left next v v1
        (read_loop n next (left - cluster_size v.fs) v1)

  -- `fat32_read_file`, with fuel for one round for each cluster's worth of bytes, and one more.
  unfoldable pub read_file : ℕ → ℕ → Vol al dr → ReadResult × Vol al dr
  unfolding with_buffer read_loop
  read_file start_cluster size v =
      with_buffer al dr (some (status_error, []))
        (read_loop (size / cluster_size v.fs + 1) start_cluster size) v
