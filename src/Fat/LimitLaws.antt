-- ===== src/Fat/LimitLaws.antt =====
-- The clusters that the volume does not have.
use taavi_os.Common.{
  ℕ, ◌+◌, ◌/◌, ◌^◌, ◌<◌, ◌≤◌, ◌≡◌, inl, inr, refl, sym, ap, ◌∙◌, subst, true, Bool-cases, arith,
  some, List, set, leb,
}
use taavi_os.Config.{status_ok, status_error, ok_ne_error, u32}
use taavi_os.Ledger.Types.{Allocator}
use taavi_os.Fat.Volume.{Drive, IsReliable, words, bytes}
use taavi_os.Fat.Cluster.{Vol, calculate_lba, calculate_offset, write_both, set_in, set_cluster}
use taavi_os.Fat.SetLaws.{with_buffer_lem}

module _ (al : Allocator) (dr : Drive) (rel : IsReliable dr) where
  open dr use {Disk, read_sector, write_sector}

  -- A write into both copies, from sector 0 on, that succeeds.
  write_both-zero :
      (buf : List ℕ) (v : Vol al dr)
      → 0 < v.fs.sectors_per_fat
      → v.fs.sectors_per_fat < 2 ^ 28
      → let (status, v') = write_both al dr 0 buf v in
        status ≡ status_ok → read_sector 0 v'.disk ≡ some buf
  unfolding write_both
  write_both-zero buf v pos fits s =
      let (ok, d) = write_sector 0 buf v.disk in
      let lba : u32 (0 + v.fs.sectors_per_fat) ≡ v.fs.sectors_per_fat = omega (arith, fits) in
      elim (Bool-cases ok) [
        | inr y ↦ absurd (ok_ne_error (sym s ∙ rw y refl))
        | inl y ↦ elim (Bool-cases (write_sector v.fs.sectors_per_fat buf d).0) [
          | inr z ↦ absurd (ok_ne_error (sym s ∙ rw (y, lba, z) refl))
          | inl z ↦
              rw (y, lba)
                (rel.other v.fs.sectors_per_fat 0 buf d fits (omega arith)
                    (λ q. omega (arith, q, pos)) z
                  ∙ rel.same 0 buf v.disk (omega arith) y)
        ]
      ]

  -- Its sector is taken to be sector 0, and its entry the first word.
  beyond-write :
      (c w : ℕ) (v : Vol al dr) (b : List ℕ)
      → v.fs.maximum_cluster_size ≤ c
      → read_sector 0 v.disk ≡ some b
      → set_in al dr c w (read_sector (calculate_lba c v.fs) v.disk) v
        ≡ write_both al dr 0 (bytes (set (words b) 0 w)) v
  unfolding set_in calculate_lba calculate_offset
  beyond-write c w v b beyond at =
      let y : leb v.fs.maximum_cluster_size c ≡ true = ground arith in
      let lba : calculate_lba c v.fs ≡ 0 = rw y refl in
      let word : calculate_offset c v.fs / 4 ≡ 0 = rw y (omega arith) in
      ap (λ l. set_in al dr c w (read_sector l v.disk) v) lba
      ∙ ap (λ o. set_in al dr c w o v) at
      ∙ ap (λ l. write_both al dr l (bytes (set (words b) (calculate_offset c v.fs / 4) w)) v) lba
      ∙ ap (λ k. write_both al dr 0 (bytes (set (words b) k w)) v) word

  -- For a cluster that the volume does not have, on a drive that keeps what it accepts and whose sector 0
  -- can be read, with tables of at least one sector and fewer than 2^28, a `__fat32_set_cluster` that succeeds has replaced
  -- the first word of sector 0.
  pub set_cluster-beyond :
      (c w : ℕ) (v : Vol al dr) (b : List ℕ)
      → v.fs.maximum_cluster_size ≤ c
      → 0 < v.fs.sectors_per_fat
      → v.fs.sectors_per_fat < 2 ^ 28
      → read_sector 0 v.disk ≡ some b
      → (set_cluster al dr c w v).0 ≡ status_ok
      → read_sector 0 (set_cluster al dr c w v).1.disk ≡ some (bytes (set (words b) 0 w))
  unfolding set_cluster
  set_cluster-beyond c w v b beyond pos fits at =
      with_buffer_lem al dr
        (λ r _ d. r ≡ status_ok → read_sector 0 d ≡ some (bytes (set (words b) 0 w))) status_error
        (λ v. set_in al dr c w (read_sector (calculate_lba c v.fs) v.disk) v) v
        (λ _ e. absurd (ok_ne_error (sym e)))
        (λ h.
          let v' : Vol al dr = record v { heap = h } in
          subst
            (λ (r : ℕ × Vol al dr).
              r.0 ≡ status_ok → read_sector 0 r.1.disk ≡ some (bytes (set (words b) 0 w)))
            (sym (beyond-write c w v' b beyond at))
            (write_both-zero (bytes (set (words b) 0 w)) v' pos fits))
