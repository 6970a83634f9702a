-- ===== src/Fat/DataLaws.antt =====
-- The data of a cluster: what is written is read back.
use taavi_os.Common.{
  ℕ, zero, suc, ◌+◌, ◌-◌, ◌*◌, ◌^◌, ◌<◌, ◌≤◌, ◌≡◌, ◌≢◌, ◌⊎◌, inl, inr, refl, sym, ap, ◌∙◌, true,
  false, some, List, [], ◌∷◌, length, length-drop, take, drop, take-append-drop, ltb, ◌==◌,
  if◌then◌else◌, Bool-cases, arith,
}
use taavi_os.Config.{status_ok, ok_ne_error, u32}
use taavi_os.Ledger.Types.{Allocator}
use taavi_os.Fat.Volume.{Drive, IsReliable, Fs, sector_size}
use taavi_os.Fat.SizeLaws.{write_sectors-fs}
use taavi_os.Fat.Cluster.{
  Vol, cluster_size, cluster_to_sector, read_sectors, read_cluster, write_sectors, write_cluster,
}

pub times_lt : (a b n : ℕ) → a < b → a * n + n ≤ b * n
times_lt a b n h = grind arith

-- Two clusters of `n` sectors share none.
clusters_apart :
    (s a b n l : ℕ)
    → a ≢ b
    → s + a * n ≤ l
    → l < s + a * n + n
    → (l < s + b * n) ⊎ (s + b * n + n ≤ l)
clusters_apart s a b n l ne lo hi = elim (Bool-cases (ltb a b)) [
  | inl y ↦ inl (let h = times_lt a b n (ground arith) in omega (arith, h, hi))
  | inr y ↦ inr (let h = times_lt b a n (ground arith) in omega (arith, h, lo))
]

-- A cluster of the data region, whose sectors have numbers of 28 bits.
pub record IsInside (fs : Fs) (c : ℕ) : Type 0 where
  pub not_reserved : 2 ≤ c
  pub start : 0 < fs.data_start
  pub fits : fs.data_start + (c - 2) * fs.sectors_per_cluster + fs.sectors_per_cluster < 2 ^ 28

cluster_to_sector_lem :
    (c : ℕ) (fs : Fs)
    → IsInside fs c
    → cluster_to_sector c fs ≡ fs.data_start + (c - 2) * fs.sectors_per_cluster
unfolding cluster_to_sector
cluster_to_sector_lem c fs i =
    let b : ltb c 2 ≡ false = (let h = i.not_reserved in ground arith) in
    rw b (let h = i.fits in omega (arith, h))

module _ (al : Allocator) (dr : Drive) (rel : IsReliable dr) where
  open dr use {Disk, read_sector, write_sector}

  -- The volume after the first of the sectors.
  abbrev one_written : ℕ → List ℕ → Vol al dr → Vol al dr
  one_written s buf v = record v { disk = (write_sector s (take sector_size buf) v.disk).1 }

  -- Where all of it succeeds, the first write does, and the rest is written after it.
  write_sectors-suc :
      (n s : ℕ) (buf : List ℕ) (v : Vol al dr)
      → s + suc n < 2 ^ 28
      → (write_sectors al dr (suc n) s buf v).0 ≡ status_ok
      → ((write_sector s (take sector_size buf) v.disk).0 ≡ true)
        × (write_sectors al dr (suc n) s buf v
            ≡ write_sectors al dr n (s + 1) (drop sector_size buf) (one_written s buf v))
  unfolding write_sectors
  write_sectors-suc n s buf v fits e =
      let w : u32 (s + 1) ≡ s + 1 = omega (arith, fits) in
      elim (Bool-cases (write_sector s (take sector_size buf) v.disk).0) [
        | inl y ↦ (y, rw (y, w) refl)
        | inr y ↦ absurd (ok_ne_error (sym e ∙ rw y refl))
      ]

  -- A write of `n` sectors that succeeds changes no sector outside of them.
  write_sectors-read_sector :
      (n s l : ℕ) (buf : List ℕ) (v : Vol al dr)
      → s + n < 2 ^ 28
      → l < 2 ^ 28
      → (l < s) ⊎ (s + n ≤ l)
      → (write_sectors al dr n s buf v).0 ≡ status_ok
      → read_sector l (write_sectors al dr n s buf v).1.disk ≡ read_sector l v.disk
  unfolding write_sectors
  write_sectors-read_sector zero s l buf v fits lb out e = refl
  write_sectors-read_sector (suc n) s l buf v fits lb out e =
      let (y, q) = write_sectors-suc n s buf v fits e in
      ap (λ (r : ℕ × Vol al dr). read_sector l r.1.disk) q
      ∙ write_sectors-read_sector n (s + 1) l (drop sector_size buf) (one_written s buf v)
          (omega (arith, fits)) lb
          (elim out [ inl h ↦ inl (omega (arith, h)) | inr h ↦ inr (omega (arith, h)) ])
          (sym (ap (λ (r : ℕ × Vol al dr). r.0) q) ∙ e)
      ∙ rel.other s l (take sector_size buf) v.disk (omega (arith, fits)) lb
          (λ k. elim out [ inl h ↦ omega (arith, h, k) | inr h ↦ omega (arith, h, k) ]) y

  -- And the sectors read as what was written.
  write_sectors-read_sectors :
      (n s : ℕ) (buf : List ℕ) (v w : Vol al dr)
      → s + n < 2 ^ 28
      → length buf ≡ n * 512
      → (write_sectors al dr n s buf v).0 ≡ status_ok
      → w.disk ≡ (write_sectors al dr n s buf v).1.disk
      → read_sectors al dr n s w ≡ some buf
  unfolding write_sectors read_sectors
  write_sectors-read_sectors zero s [] v w fits len e same = refl
  write_sectors-read_sectors zero s (x ∷ buf) v w fits len e same = absurd (omega (arith, len))
  write_sectors-read_sectors (suc n) s buf v w fits len e same =
      let (y, q) = write_sectors-suc n s buf v fits e in
      let e' : (write_sectors al dr n (s + 1) (drop sector_size buf) (one_written s buf v)).0
          ≡ status_ok =
        sym (ap (λ (r : ℕ × Vol al dr). r.0) q) ∙ e in
      let same' = same ∙ ap (λ (r : ℕ × Vol al dr). r.1.disk) q in
      let u : u32 (s + 1) ≡ s + 1 = omega (arith, fits) in
      let first : read_sector s w.disk ≡ some (take sector_size buf) =
        ap (read_sector s) same'
        ∙ write_sectors-read_sector n (s + 1) s (drop sector_size buf) (one_written s buf v)
            (omega (arith, fits)) (omega (arith, fits)) (inl (omega arith)) e'
        ∙ rel.same s (take sector_size buf) v.disk (omega (arith, fits)) y in
      let rest =
        write_sectors-read_sectors n (s + 1) (drop sector_size buf) (one_written s buf v) w
          (omega (arith, fits)) (omega (arith, len, length-drop sector_size buf)) e' same' in
      rw (u, first, rest) (ap some (take-append-drop sector_size buf))

  -- Sectors that read the same, one by one.
  read_sectors-same :
      (n s : ℕ) (v w : Vol al dr)
      → s + n < 2 ^ 28
      → ((l : ℕ) → s ≤ l → l < s + n → read_sector l w.disk ≡ read_sector l v.disk)
      → read_sectors al dr n s w ≡ read_sectors al dr n s v
  unfolding read_sectors
  read_sectors-same zero s v w fits same = refl
  read_sectors-same (suc n) s v w fits same =
      let u : u32 (s + 1) ≡ s + 1 = omega (arith, fits) in
      let rest =
        read_sectors-same n (s + 1) v w (omega (arith, fits))
          (λ l a b. same l (omega (arith, a)) (omega (arith, b))) in
      rw (u, same s (omega arith) (omega arith), rest) refl

  -- On a drive that keeps what it accepts, for two clusters inside the data region and a buffer of a
  -- cluster's size: what `write_cluster` writes, with a status of success, is what `read_cluster`
  -- gives for that cluster; every other cluster reads as before.
  pub read_cluster-write_cluster :
      (c x : ℕ) (buf : List ℕ) (v : Vol al dr)
      → IsInside v.fs c
      → IsInside v.fs x
      → length buf ≡ cluster_size v.fs
      → (write_cluster al dr c buf v).0 ≡ status_ok
      → read_cluster al dr x (write_cluster al dr c buf v).1
        ≡ (if x == c then some buf else read_cluster al dr x v)
  unfolding read_cluster write_cluster
  read_cluster-write_cluster c x buf v ic ix len e =
      let fs = v.fs in
      let n = v.fs.sectors_per_cluster in
      let at : ℕ → ℕ = λ k. fs.data_start + (k - 2) * n in
      let sc : cluster_to_sector c fs ≡ at c = cluster_to_sector_lem c fs ic in
      let sx : cluster_to_sector x fs ≡ at x = cluster_to_sector_lem x fs ix in
      let zc : (at c == 0) ≡ false = (let h = ic.start in ground arith) in
      let zx : (at x == 0) ≡ false = (let h = ix.start in ground arith) in
      let wrote : write_cluster al dr c buf v ≡ write_sectors al dr n (at c) buf v =
        rw (sc, zc) refl in
      let e' : (write_sectors al dr n (at c) buf v).0 ≡ status_ok =
        sym (ap (λ (r : ℕ × Vol al dr). r.0) wrote) ∙ e in
      let w = (write_sectors al dr n (at c) buf v).1 in
      let reads : (u : Vol al dr)
          → u.fs ≡ fs
          → read_cluster al dr x u ≡ read_sectors al dr n (at x) u =
        λ u q. rw (q, sx, zx) refl in
      let begin =
        ap (λ (r : ℕ × Vol al dr). read_cluster al dr x r.1) wrote
        ∙ reads w (write_sectors-fs al dr n (at c) buf v) in
      elim (Bool-cases (x == c)) [
        | inl y ↦
            let q : x ≡ c = ground arith in
            rw y (
              begin
              ∙ ap (λ k. read_sectors al dr n (at k) w) q
              ∙ write_sectors-read_sectors n (at c) buf v w ic.fits len e' refl)
        | inr y ↦
            let ne : x ≢ c = λ q. ground arith in
            rw y (
              begin
              ∙ read_sectors-same n (at x) v w ix.fits (λ l a b.
                write_sectors-read_sector n (at c) l buf v ic.fits (omega (arith, b, ix.fits))
                  (clusters_apart fs.data_start (x - 2) (c - 2) n l
                    (λ q. ne (omega (arith, q, ix.not_reserved, ic.not_reserved))) a b)
                  e')
              ∙ sym (reads v refl))
      ]
