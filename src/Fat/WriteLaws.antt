-- ===== src/Fat/WriteLaws.antt =====
-- What writing into a file leaves in a cluster.
use native.Mathlib.Nat.{mod-eq_of_lt, div-eq_of_lt}
use taavi_os.Common.{
  ℕ, suc, ◌+◌, ◌-◌, ◌/◌, ◌%◌, ◌<◌, ◌≤◌, ◌≡◌, refl, sym, ap, ◌∙◌, inl, inr, true, Bool-cases, arith,
  Option, none, some, some_inj, List, min, ◌++◌, length, length-append, length-take, length-drop,
  take, take-all, drop, leb, ◌==◌, if◌then◌else◌,
}
use taavi_os.Config.{status_ok, ok_ne_error}
use taavi_os.Ledger.Types.{Allocator}
use taavi_os.Fat.Volume.{Drive, IsReliable}
use taavi_os.Fat.Cluster.{Vol, cluster_size, read_cluster, write_cluster}
use taavi_os.Fat.DataLaws.{IsInside, read_cluster-write_cluster}
use taavi_os.Fat.Chain.{HasSectors, read_cluster-same, length-read_cluster}
use taavi_os.Fat.Write.{
  WriteResult, overlay, walk_chain, write_on, write_round, write_loop, release_tmp, write_from,
  write_at, write_file_at_offset,
}

length-overlay :
    (b now : List ℕ) (offset : ℕ)
    → offset + length now ≤ length b
    → length (overlay b offset now) ≡ length b
length-overlay b now offset le =
    let t : length (take offset b) ≡ min offset (length b) = length-take offset b in
    let d : length (drop (offset + length now) b) ≡ length b - (offset + length now) =
      length-drop (offset + length now) b in
    let i = length-append now (drop (offset + length now) b) in
    let o = length-append (take offset b) (now ++ drop (offset + length now) b) in
    omega (arith, t, d, i, o, le)

module _ (al : Allocator) (dr : Drive) where
  -- The last round, which has ended with success.
  last_round :
      (a c x offset : ℕ) (b buf : List ℕ) (v : Vol al dr)
      (rest : ℕ → Vol al dr → WriteResult × Vol al dr)
      → length buf ≤ cluster_size v.fs - offset
      → (release_tmp al dr a (write_round al dr (some b) c offset buf v rest)).0 ≡ some status_ok
      → let (status, w) = write_cluster al dr c (overlay b offset buf) v in
        (status ≡ status_ok)
        × (read_cluster al dr x
              (release_tmp al dr a (write_round al dr (some b) c offset buf v rest)).1
            ≡ read_cluster al dr x w)
  unfolding write_round write_on
  last_round a c x offset b buf v rest le e =
      let space = cluster_size v.fs - offset in
      let (status, w) = write_cluster al dr c (overlay b offset buf) v in
      let all : take space buf ≡ buf = take-all space buf le in
      let fits : leb (length buf) space ≡ true = ground arith in
      elim (Bool-cases (status == status_ok)) [
        | inl y ↦ (
          ground arith,
          rw (all, y, fits)
              (read_cluster-same al dr x w (record w { heap = al.kfree a w.heap }) refl refl),
        )
        | inr y ↦ absurd (ok_ne_error (some_inj (sym e ∙ rw (all, y) refl)))
      ]

  module _ (rel : IsReliable dr) (sized : HasSectors al dr) where
    write_from-read_cluster :
        (o : Option ℕ) (c x offset : ℕ) (b buf : List ℕ) (v : Vol al dr)
        → IsInside v.fs c
        → IsInside v.fs x
        → offset + length buf ≤ cluster_size v.fs
        → read_cluster al dr c v ≡ some b
        → (write_from al dr o c offset buf v).0 ≡ some status_ok
        → read_cluster al dr x (write_from al dr o c offset buf v).1
          ≡ (if x == c then some (overlay b offset buf) else read_cluster al dr x v)
    unfolding write_from write_loop
    write_from-read_cluster none c x offset b buf v ic ix le at e =
        absurd (ok_ne_error (some_inj (sym e)))
    write_from-read_cluster (some a) c x offset b buf v ic ix le at e =
        let n = (offset + length buf) / cluster_size v.fs in
        let go : ℕ → Vol al dr → WriteResult × Vol al dr =
          λ next w. write_loop al dr n next 0 (drop (cluster_size v.fs - offset) buf) w in
        let round : write_loop al dr (n + 1) c offset buf v
            ≡ write_round al dr (some b) c offset buf v go =
          (let q : n + 1 ≡ suc n = omega arith in
            ap (λ m. write_loop al dr m c offset buf v) q
            ∙ ap (λ o. write_round al dr o c offset buf v go) at) in
        let (ok, same) =
          last_round a c x offset b buf v go (omega (arith, le))
            (sym (ap (λ r. (release_tmp al dr a r).0) round) ∙ e) in
        ap (λ r. read_cluster al dr x (release_tmp al dr a r).1) round
        ∙ same
        ∙ read_cluster-write_cluster al dr rel c x (overlay b offset buf) v ic ix
            (let l = length-read_cluster al dr c v b sized at in
              length-overlay b buf offset (omega (arith, l, le)) ∙ l)
            ok

    -- Writing bytes that fit into the first cluster, one that can be read, on a drive that keeps what
    -- it accepts and gives sectors of 512 bytes: where `fat32_write_file_at_offset` returns success,
    -- the cluster reads as before with the bytes at their offset, and every other cluster of the data
    -- region reads as before.
    pub write_file_at_offset-overlay :
        (c x offset : ℕ) (b buf : List ℕ) (v : Vol al dr)
        → IsInside v.fs c
        → IsInside v.fs x
        → offset < cluster_size v.fs
        → offset + length buf ≤ cluster_size v.fs
        → read_cluster al dr c v ≡ some b
        → (write_file_at_offset al dr c offset buf v).0 ≡ some status_ok
        → read_cluster al dr x (write_file_at_offset al dr c offset buf v).1
          ≡ (if x == c then some (overlay b offset buf) else read_cluster al dr x v)
    unfolding write_file_at_offset walk_chain write_at
    write_file_at_offset-overlay c x offset b buf v ic ix lt le at e =
        let k = cluster_size v.fs in
        let (o, h) = al.kmalloc k v.heap in
        let v' : Vol al dr = record v { heap = h } in
        let whole : offset % k ≡ offset = mod-eq_of_lt lt in
        let none_before : offset / k ≡ 0 = div-eq_of_lt lt in
        let start : write_file_at_offset al dr c offset buf v ≡ write_from al dr o c offset buf v' =
          rw (none_before, whole) refl in
        ap (λ (r : Option ℕ × Vol al dr). read_cluster al dr x r.1) start
        ∙ write_from-read_cluster o c x offset b buf v' ic ix le
            (read_cluster-same al dr c v v' refl refl ∙ at)
            (sym (ap (λ (r : Option ℕ × Vol al dr). r.0) start) ∙ e)
        ∙ ap (λ r. if x == c then some (overlay b offset buf) else r)
            (read_cluster-same al dr x v v' refl refl)
