-- ===== src/Fat/WriteEnds.antt =====
-- Writing into a file ends.
use native.Mathlib.Nat.{mod-lt}
use taavi_os.Common.{
  ℕ, zero, suc, ◌+◌, ◌-◌, ◌*◌, ◌/◌, ◌%◌, ◌<◌, ◌≡◌, refl, ap, ◌∙◌, inl, inr, Bool, false, ◌||◌,
  Bool-cases, arith, Option, none, some, List, length, length-drop, take, drop, leb, ◌==◌,
}
use taavi_os.Config.{status_ok}
use taavi_os.Ledger.Types.{Allocator}
use taavi_os.Fat.Volume.{Drive, cluster_eoc_min}
use taavi_os.Fat.Cluster.{
  Vol, cluster_size, read_cluster, write_cluster, next_cluster, link_cluster_chain,
}
use taavi_os.Fat.FileLaws.{next_cluster-keeps, lt_div_suc, left_after}
use taavi_os.Fat.SizeLaws.{write_cluster-fs, link_cluster_chain-cluster_size}
use taavi_os.Fat.Write.{
  WriteResult, overlay, walk_chain, write_on, write_round, write_loop, release_tmp, write_from,
  write_at, write_file_at_offset,
}

module _ (al : Allocator) (dr : Drive) where
  abbrev Ends : WriteResult × Vol al dr → Type 0
  Ends r = (x : ℕ × Bool) × (r.0 ≡ some x)

  write_on-Ends :
      (left space target : ℕ) (v : Vol al dr) (rest : ℕ → Vol al dr → WriteResult × Vol al dr)
      → (leb left space ≡ false
          → let (next, v') = link_cluster_chain al dr target v in Ends (rest next v'))
      → Ends (write_on al dr left space target v rest)
  unfolding write_on
  write_on-Ends left space target v rest h = elim (Bool-cases (leb left space)) [
    | inl y ↦ rw y (_, refl)
    | inr y ↦ elim (Bool-cases ((link_cluster_chain al dr target v).0 == 0)) [
      | inl z ↦ rw (y, z) (_, refl)
      | inr z ↦ rw (y, z) (h y)
    ]
  ]

  write_round-Ends :
      (o : Option (List ℕ)) (target offset : ℕ) (buf : List ℕ) (v : Vol al dr)
      (rest : ℕ → Vol al dr → WriteResult × Vol al dr)
      → ((next : ℕ) (w : Vol al dr)
          → leb (length buf) (cluster_size v.fs - offset) ≡ false
          → cluster_size w.fs ≡ cluster_size v.fs
          → Ends (rest next w))
      → Ends (write_round al dr o target offset buf v rest)
  unfolding write_round
  write_round-Ends none target offset buf v rest h = (_, refl)
  write_round-Ends (some b) target offset buf v rest h =
      let space = cluster_size v.fs - offset in
      let (status, v') = write_cluster al dr target (overlay b offset (take space buf)) v in
      elim (Bool-cases (status == status_ok)) [
        | inr y ↦ rw y (_, refl)
        | inl y ↦ rw y (
            write_on-Ends (length buf) space target v' rest (λ g.
              let (next, w) = link_cluster_chain al dr target v' in
              h next w g (
                link_cluster_chain-cluster_size al dr target v'
                ∙ ap cluster_size
                    (write_cluster-fs al dr target (overlay b offset (take space buf)) v))))
      ]

  -- Fuel for more bytes than there are from the start of the first cluster is enough.
  write_loop-Ends :
      (n target offset k : ℕ) (buf : List ℕ) (v : Vol al dr)
      → cluster_size v.fs ≡ k
      → offset < k
      → offset + length buf < n * k
      → Ends (write_loop al dr n target offset buf v)
  unfolding write_loop
  write_loop-Ends zero target offset k buf v e small lt = absurd (omega (arith, lt))
  write_loop-Ends (suc n) target offset k buf v e small lt =
      let rest = drop (cluster_size v.fs - offset) buf in
      write_round-Ends (read_cluster al dr target v) target offset buf v
        (λ next w. write_loop al dr n next 0 rest w)
        (λ next w g s.
          let more : cluster_size v.fs - offset < length buf = ground arith in
          let len : length rest ≡ length buf - (cluster_size v.fs - offset) =
            length-drop (cluster_size v.fs - offset) buf in
          let over : k < offset + length buf = omega (arith, more, e, small) in
          let fuel : offset + length buf - k < n * k =
            left_after n k (offset + length buf) k lt over refl in
          write_loop-Ends n next 0 k rest w (s ∙ e) (omega (arith, small))
            (omega (arith, fuel, len, e, more, small)))

  release_tmp-status :
      (a : ℕ) (r : WriteResult × Vol al dr)
      → Ends r
      → (status : ℕ) × ((release_tmp al dr a r).0 ≡ some status)
  release_tmp-status a (none, v) (x, e) = cc
  release_tmp-status a (some (status, freed), v) e = (status, refl)

  write_at-status :
      (o : Option ℕ) (offset : ℕ) (buf : List ℕ) (v : Vol al dr)
      → offset < cluster_size v.fs
      → (status : ℕ) × ((write_at al dr o offset buf v).0 ≡ some status)
  unfolding write_at write_from
  write_at-status none offset buf v small = (_, refl)
  write_at-status (some target) offset buf v small =
      let (b, h) = al.kmalloc (cluster_size v.fs) v.heap in
      let k = cluster_size v.fs in
      elim b
        as (λ b.
          (status : ℕ) × ((write_from al dr b target offset buf (record v { heap = h })).0
            ≡ some status)) [
              | none ↦ (_, refl)
              | some a ↦ release_tmp-status a _ (
                  write_loop-Ends ((offset + length buf) / k + 1) target offset k buf
                    (record v { heap = h }) refl small
                    (lt_div_suc (offset + length buf) k (omega (arith, small))))
            ]

  walk_chain-cluster_size :
      (n target : ℕ) (v : Vol al dr)
      → cluster_size (walk_chain al dr n target v).1.fs ≡ cluster_size v.fs
  unfolding walk_chain
  walk_chain-cluster_size zero target v = refl
  walk_chain-cluster_size (suc n) target v =
      let (next, v1) = next_cluster al dr target v in
      let e1 : cluster_size v1.fs ≡ cluster_size v.fs =
        ap cluster_size (next_cluster-keeps al dr target v).0 in
      let rest = walk_chain-cluster_size n next v1 in
      elim (Bool-cases (next == 0 || leb cluster_eoc_min next)) [
        | inl y ↦ rw y e1
        | inr y ↦ rw y (rest ∙ e1)
      ]

  -- Where clusters have sectors, `fat32_write_file_at_offset` ends with a status, on every chain.
  pub write_file_at_offset-ends :
      (c offset : ℕ) (buf : List ℕ) (v : Vol al dr)
      → 0 < v.fs.sectors_per_cluster
      → (status : ℕ) × ((write_file_at_offset al dr c offset buf v).0 ≡ some status)
  unfolding write_file_at_offset
  write_file_at_offset-ends c offset buf v pos =
      let k = cluster_size v.fs in
      let (target, v1) = walk_chain al dr (offset / k) c v in
      write_at-status target (offset % k) buf v1 (
        let l : offset % k < k = mod-lt offset (omega (arith, pos)) in
        omega (arith, l, walk_chain-cluster_size (offset / k) c v))
