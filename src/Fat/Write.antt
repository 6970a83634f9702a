-- ===== src/Fat/Write.antt =====
-- fat32write.c: writing into a file that is there.
use taavi_os.Common.{
  ℕ, zero, suc, ◌+◌, ◌-◌, ◌/◌, ◌%◌, Bool, true, false, ◌||◌, Option, none, some, List, ◌++◌, length,
  take, drop, leb, ◌==◌, if◌then◌else◌,
}
use taavi_os.Config.{status_ok, status_error}
use taavi_os.Ledger.Types.{Allocator}
use taavi_os.Fat.Volume.{Drive, cluster_eoc_min}
use taavi_os.Fat.Cluster.{
  Vol, cluster_size, read_cluster, write_cluster, next_cluster, link_cluster_chain,
}

-- `memcpy(tmp_buf + offset, bytes, …)`
abbrev pub overlay : List ℕ → ℕ → List ℕ → List ℕ
overlay b offset now = take offset b ++ (now ++ drop (offset + length now) b)

-- The status, and whether `tmp_buf` has been freed; `none` for a loop that has not ended within its
-- fuel.
abbrev pub WriteResult : Type 0
WriteResult = Option (ℕ × Bool)

module _ (al : Allocator) (dr : Drive) where
  open al use {Heap, kmalloc, kfree}

  -- `n` steps along a chain; `none` where it ends before, or an entry cannot be read.
  unfoldable pub walk_chain : ℕ → ℕ → Vol al dr → Option ℕ × Vol al dr
  walk_chain zero target v = (some target, v)
  walk_chain (suc n) target v =
      let (next, v1) = next_cluster al dr target v in
      let rest = walk_chain n next v1 in
      if next == 0 || leb cluster_eoc_min next then (none, v1) else rest

  -- The end of a round: all bytes are written, or the next cluster is taken, from which the rest goes on.
  unfoldable pub write_on :
      ℕ → ℕ → ℕ → Vol al dr → (ℕ → Vol al dr → WriteResult × Vol al dr) → WriteResult × Vol al dr
  write_on left space target v rest =
      let (next, v') = link_cluster_chain al dr target v in
      if leb left space
      then (some (status_ok, true), v)
      else (if next == 0 then (some (status_error, false), v') else rest next v')

  -- One round, with what `read_cluster` gives; `space` bytes are left in the cluster.
  unfoldable pub write_round :
      Option (List ℕ)
      → ℕ
      → ℕ
      → List ℕ
      → Vol al dr
      → (ℕ → Vol al dr → WriteResult × Vol al dr)
      → WriteResult × Vol al dr
  unfolding write_on
  write_round none target offset buf v rest = (some (status_error, true), v)
  write_round (some b) target offset buf v rest =
      let space = cluster_size v.fs - offset in
      let (status, v') = write_cluster al dr target (overlay b offset (take space buf)) v in
      if status == status_ok
      then write_on (length buf) space target v' rest
      else (some (status_error, true), v')

  -- The loop over the clusters; `buf` is what is still to be written.
  unfoldable pub write_loop : ℕ → ℕ → ℕ → List ℕ → Vol al dr → WriteResult × Vol al dr
  unfolding write_round
  write_loop zero target offset buf v = (none, v)
  write_loop (suc n) target offset buf v =
      write_round (read_cluster al dr target v) target offset buf v
        (λ next w. write_loop n next 0 (drop (cluster_size v.fs - offset) buf) w)

  abbrev pub release_tmp : ℕ → WriteResult × Vol al dr → Option ℕ × Vol al dr
  release_tmp a (none, v) = (none, v)
  release_tmp a (some (status, freed), v) =
      (some status, if freed then record v { heap = kfree a v.heap } else v)

  -- What is done in the cluster where the writing starts, with the result of `__fat32_allocate_buffer`.
  unfoldable pub write_from : Option ℕ → ℕ → ℕ → List ℕ → Vol al dr → Option ℕ × Vol al dr
  unfolding write_loop
  write_from none target offset buf v = (some status_error, v)
  write_from (some a) target offset buf v =
      release_tmp a (write_loop ((offset + length buf) / cluster_size v.fs + 1) target offset buf v)

  unfoldable pub write_at : Option ℕ → ℕ → List ℕ → Vol al dr → Option ℕ × Vol al dr
  unfolding write_from
  write_at none offset buf v = (some status_error, v)
  write_at (some target) offset buf v =
      let (b, h) = kmalloc (cluster_size v.fs) v.heap in
      write_from b target offset buf (record v { heap = h })

  -- `fat32_write_file_at_offset` of the bytes `buf`, with fuel for a round for each cluster's worth of
  -- bytes, counted from the start of the first cluster, and one more.
  unfoldable pub write_file_at_offset : ℕ → ℕ → List ℕ → Vol al dr → Option ℕ × Vol al dr
  unfolding write_at walk_chain
  write_file_at_offset first_cluster offset buf v =
      let (target, v1) = walk_chain (offset / cluster_size v.fs) first_cluster v in
      write_at target (offset % cluster_size v.fs) buf v1
