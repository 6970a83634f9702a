-- ===== src/Fat/FileLaws.antt =====
-- Reading a file ends, and gives the data of its chain of clusters.
use native.Mathlib.Nat.{mod-add-div, mod-lt}
use taavi_os.Common.{
  ℕ, zero, suc, ◌+◌, ◌-◌, ◌*◌, ◌/◌, ◌%◌, ◌<◌, ◌≤◌, ◌≡◌, inl, inr, refl, sym, subst, ap, ◌∙◌, true,
  false, Option, none, some, some_inj, List, [], ◌∷◌, ◌++◌, length, append-nil, take, take-all,
  take-append_left, take-append_right, leb, if◌then◌else◌, Bool-cases, arith,
}
use taavi_os.Config.{status_ok, status_error}
use taavi_os.Ledger.Types.{Allocator}
use taavi_os.Fat.Volume.{Drive, Fs, cluster_eoc_min}
use taavi_os.Fat.Cluster.{
  Vol, calculate_lba, entry_in, cluster_size, read_cluster, next_cluster, with_buffer,
}
use taavi_os.Fat.Entry.{IsLaidOut, entry_at}
use taavi_os.Fat.SetLaws.{with_buffer_lem, with_buffer-some, next_cluster-NextResult}
use taavi_os.Fat.Chain.{
  append_read-some, chain_data, IsChain, HasSectors, HasMemory, HasBuffers, chain_data-same,
  length-read_cluster,
}
use taavi_os.Fat.File.{ReadResult, copy_before, read_round, read_loop, read_file}

pub lt_div_suc : (n k : ℕ) → 0 < k → n < (n / k + 1) * k
lt_div_suc n k pos =
    let e : n % k + k * (n / k) ≡ n = mod-add-div n k in
    let l : n % k < k = mod-lt n pos in grind (arith, e, l)

-- One round less is enough for what is left.
pub left_after : (n k left k' : ℕ) → left < suc n * k → k < left → k' ≡ k → left - k < n * k'
left_after n k left k' lt g e = rw e (grind (arith, lt, g))

module _ (al : Allocator) (dr : Drive) where
  open al use {Heap, kmalloc, kfree}
  open dr use {Disk, read_sector, write_sector}

  -- `next_cluster` changes neither the file system's state nor the disk, whatever it is asked for.
  pub next_cluster-keeps :
      (c : ℕ) (v : Vol al dr)
      → let (_, v') = next_cluster al dr c v in (v'.fs ≡ v.fs) × (v'.disk ≡ v.disk)
  unfolding next_cluster
  next_cluster-keeps c v =
      with_buffer_lem al dr (λ _ f d. (f ≡ v.fs) × (d ≡ v.disk)) 0
        (λ v. (entry_in al dr c v.fs (read_sector (calculate_lba c v.fs) v.disk), v)) v
        (λ _. (refl, refl)) (λ h. (refl, refl))

  -- The loop has ended, with a status and some bytes.
  abbrev Ends : ReadResult × Vol al dr → Type 0
  Ends r = (x : ℕ × List ℕ) × (r.0 ≡ some x)

  copy_before-ends :
      (b : List ℕ) (r : ReadResult)
      → (x : ℕ × List ℕ) × (r ≡ some x)
      → (x : ℕ × List ℕ) × (copy_before b r ≡ some x)
  copy_before-ends b r (x, e) = ((x.0, b ++ x.1), ap (copy_before b) e)

  -- A round ends, when the ones after it do.
  read_round-Ends :
      (o : Option (List ℕ)) (left next : ℕ) (v v1 : Vol al dr) (rest : ReadResult × Vol al dr)
      → (leb left (cluster_size v.fs) ≡ false → Ends rest)
      → Ends (read_round al dr o left next v v1 rest)
  unfolding read_round
  read_round-Ends none left next v v1 rest h = (_, refl)
  read_round-Ends (some b) left next v v1 rest h =
      elim (Bool-cases (leb left (cluster_size v.fs))) [
        | inl y ↦ rw y (_, refl)
        | inr y ↦ elim (Bool-cases (leb cluster_eoc_min next)) [
          | inl g ↦ rw (y, g) (_, refl)
          | inr g ↦ rw (y, g) (copy_before-ends (take (cluster_size v.fs) b) rest.0 (h y))
        ]
      ]

  -- Fuel for more bytes than there are to read is enough.
  read_loop-Ends :
      (n c left k : ℕ) (v : Vol al dr)
      → 0 < k
      → cluster_size v.fs ≡ k
      → left < n * k
      → Ends (read_loop al dr n c left v)
  unfolding read_loop
  read_loop-Ends zero c left k v pos e lt = absurd (omega (arith, lt))
  read_loop-Ends (suc n) c left k v pos e lt =
      let (next, v1) = next_cluster al dr c v in
      let e1 : cluster_size v1.fs ≡ k = ap cluster_size (next_cluster-keeps c v).0 ∙ e in
      read_round-Ends (read_cluster al dr c v) left next v v1
        (read_loop al dr n next (left - cluster_size v.fs) v1)
        (λ y.
          read_loop-Ends n next (left - cluster_size v.fs) k v1 pos e1
            (let g : cluster_size v.fs < left = ground arith in grind (arith, e, lt, g)))

  -- On a volume whose clusters have sectors, `fat32_read_file` ends with a status and some bytes, on
  -- every chain, also one that comes back to itself.
  pub read_file-ends :
      (c size : ℕ) (v : Vol al dr)
      → 0 < v.fs.sectors_per_cluster
      → (x : ℕ × List ℕ) × ((read_file al dr c size v).0 ≡ some x)
  unfolding read_file
  read_file-ends c size v pos =
      let k = cluster_size v.fs in
      with_buffer_lem al dr (λ r _ _. (x : ℕ × List ℕ) × (r ≡ some x)) (some (status_error, []))
        (read_loop al dr (size / k + 1) c size) v (λ _. (_, refl))
        (λ h.
          read_loop-Ends (size / k + 1) c size k (record v { heap = h }) (omega (arith, pos)) refl
            (lt_div_suc size k (omega (arith, pos))))

  -- A round whose cluster could be read.
  read_round-some :
      (left next : ℕ) (v v1 : Vol al dr) (b1 : List ℕ) (rest : ReadResult × Vol al dr)
      → length b1 ≡ cluster_size v.fs
      → (read_round al dr (some b1) left next v v1 rest).0 ≡ (
          if leb left (cluster_size v.fs)
          then some (status_ok, take left b1)
          else (if leb cluster_eoc_min next then some (status_ok, b1) else copy_before b1 rest.0))
  unfolding read_round
  read_round-some left next v v1 b1 rest len = elim (Bool-cases (leb left (cluster_size v.fs))) [
    | inl y ↦ rw y refl
    | inr y ↦
        let all : take (cluster_size v.fs) b1 ≡ b1 =
          take-all (cluster_size v.fs) b1 (omega (arith, len)) in
        elim (Bool-cases (leb cluster_eoc_min next)) [
          | inl g ↦ rw (y, g, all) refl
          | inr g ↦ rw (y, g, all) refl
        ]
  ]

  -- What lies in the first cluster.
  read_short :
      (left : ℕ) (b1 b2 b : List ℕ) → left ≤ length b1 → b ≡ b1 ++ b2 → take left b1 ≡ take left b
  read_short left b1 b2 b h q = sym (ap (take left) q ∙ take-append_left left b1 b2 h)

  pub next_cluster-entry :
      (c : ℕ) (v : Vol al dr) {a : ℕ}
      → (kmalloc (cluster_size v.fs) v.heap).0 ≡ some a
      → IsLaidOut v.fs
      → c < v.fs.maximum_cluster_size
      → (next_cluster al dr c v).0 ≡ entry_at dr v.fs v.disk c
  next_cluster-entry c v some_a fits lt =
      let (_, _, found) = next_cluster-NextResult al dr c v fits lt in
      elim found [ inl (_, e) ↦ let f : none ≡ some _ = sym e ∙ some_a in cc | inr e ↦ e ]

  -- The heap after the buffer has been taken and given back.
  pub next_cluster-heap :
      (c n : ℕ) (v : Vol al dr) {a : ℕ}
      → (kmalloc (cluster_size v.fs) v.heap).0 ≡ some a
      → HasMemory al dr (cluster_size v.fs) n (kfree a (kmalloc (cluster_size v.fs) v.heap).1)
      → let v1 = (next_cluster al dr c v).1 in HasMemory al dr (cluster_size v1.fs) n v1.heap
  unfolding next_cluster with_buffer
  next_cluster-heap c n v e mem =
      let (b, h) = kmalloc (cluster_size v.fs) v.heap in
      subst
        (λ (o : Option ℕ).
          let r : ℕ × Vol al dr = elim o as (λ _. ℕ × Vol al dr) [
            | none ↦ (0, record v { heap = h })
            | some a ↦ (
              entry_in al dr c v.fs (read_sector (calculate_lba c v.fs) v.disk),
              record v { heap = kfree a h },
            )
          ] in
          HasMemory al dr (cluster_size r.1.fs) n r.1.heap)
        (sym e) mem

  -- With enough fuel, the loop copies the data of the chain, as far as `left` reaches.
  read_loop-chain_data :
      (n c left : ℕ) (cs : List ℕ) (v : Vol al dr) (b : List ℕ)
      → HasSectors al dr
      → HasMemory al dr (cluster_size v.fs) (length (c ∷ cs)) v.heap
      → IsLaidOut v.fs
      → IsChain al dr v.fs v.disk (c ∷ cs)
      → chain_data al dr v (c ∷ cs) ≡ some b
      → left < n * cluster_size v.fs
      → (read_loop al dr n c left v).0 ≡ some (status_ok, take left b)
  unfolding read_loop
  read_loop-chain_data zero c left cs v b sized mem fits chain e lt = absurd (omega (arith, lt))
  read_loop-chain_data (suc n) c left [] v b sized (_, some_a, mem) fits (inside, eoc) e lt =
      let (next, v1) = next_cluster al dr c v in
      let rest = read_loop al dr n next (left - cluster_size v.fs) v1 in
      let (b1, b2, e1, e2, q) = append_read-some (read_cluster al dr c v) (some []) b e in
      let len = length-read_cluster al dr c v b1 sized e1 in
      let last : leb cluster_eoc_min next ≡ true =
        (let h = next_cluster-entry c v some_a fits inside in ground (arith, h, eoc)) in
      ap (λ o. (read_round al dr o left next v v1 rest).0) e1
      ∙ read_round-some left next v v1 b1 rest len
      ∙ elim (Bool-cases (leb left (cluster_size v.fs))) [
        | inl y ↦ rw y (
            ap (λ x. some (status_ok, x))
              (read_short left b1 b2 b
                (let g : left ≤ cluster_size v.fs = ground arith in omega (arith, g, len)) q))
        | inr y ↦
            rw (y, last)
              (ap (λ x. some (status_ok, x))
                (let g : cluster_size v.fs < left = ground arith in
                  sym (take-all left b1 (omega (arith, g, len)))
                  ∙ ap (take left) (sym (append-nil b1) ∙ ap (λ x. b1 ++ x) (some_inj e2) ∙ sym q)))
      ]
  read_loop-chain_data (suc n) c left (c' ∷ cs) v b sized (_, some_a, mem) fits
        (inside, link, more, chain) e lt =
      let (next, v1) = next_cluster al dr c v in
      let (f1, d1) = next_cluster-keeps c v in
      let rest = read_loop al dr n next (left - cluster_size v.fs) v1 in
      let (b1, b2, e1, e2, q) =
        append_read-some (read_cluster al dr c v) (chain_data al dr v (c' ∷ cs)) b e in
      let len = length-read_cluster al dr c v b1 sized e1 in
      let to : next ≡ c' = next_cluster-entry c v some_a fits inside ∙ link in
      let goes_on : leb cluster_eoc_min next ≡ false = ground (arith, to, more) in
      let rec : cluster_size v.fs < left
          → rest.0 ≡ some (status_ok, take (left - cluster_size v.fs) b2) =
        λ g.
          ap (λ x. (read_loop al dr n x (left - cluster_size v.fs) v1).0) to
          ∙ read_loop-chain_data n c' (left - cluster_size v.fs) cs v1 b2 sized
              (next_cluster-heap c (length (c' ∷ cs)) v some_a mem) (subst IsLaidOut (sym f1) fits)
              (subst (λ d. IsChain al dr v1.fs d (c' ∷ cs)) (sym d1)
                (subst (λ (f : Fs). IsChain al dr f v.disk (c' ∷ cs)) (sym f1) chain))
              (chain_data-same al dr (c' ∷ cs) v v1 f1 d1 ∙ e2)
              (left_after n _ left _ lt g (ap cluster_size f1)) in
      ap (λ o. (read_round al dr o left next v v1 rest).0) e1
      ∙ read_round-some left next v v1 b1 rest len
      ∙ elim (Bool-cases (leb left (cluster_size v.fs))) [
        | inl y ↦ rw y (
            ap (λ x. some (status_ok, x))
              (read_short left b1 b2 b
                (let g : left ≤ cluster_size v.fs = ground arith in omega (arith, g, len)) q))
        | inr y ↦
            let g : cluster_size v.fs < left = ground arith in
            rw (y, goes_on)
              (ap (copy_before b1) (rec g)
                ∙ ap (λ x. some (status_ok, x))
                    (ap (λ x. b1 ++ take (left - x) b2) (sym len)
                      ∙ sym (take-append_right left b1 b2 (omega (arith, g, len)))
                      ∙ ap (take left) (sym q)))
      ]

  -- On a volume that is laid out, whose clusters have sectors, where the clusters of a chain can be
  -- read, sectors have 512 bytes, and `kmalloc` gives the buffers that this call asks for (one, and while it is
  -- held one more for each cluster, given back in between), `fat32_read_file` returns success with the first
  -- `size` bytes of the chain's data, or with all of it where the chain is shorter.
  pub read_file-chain_data :
      (c size : ℕ) (cs : List ℕ) (v : Vol al dr) (b : List ℕ)
      → HasSectors al dr
      → HasBuffers al dr (cluster_size v.fs) (length (c ∷ cs)) v.heap
      → IsLaidOut v.fs
      → 0 < v.fs.sectors_per_cluster
      → IsChain al dr v.fs v.disk (c ∷ cs)
      → chain_data al dr v (c ∷ cs) ≡ some b
      → (read_file al dr c size v).0 ≡ some (status_ok, take size b)
  unfolding read_file
  read_file-chain_data c size cs v b sized (a, some_a, mem) fits pos chain e =
      let k = cluster_size v.fs in
      let v1 : Vol al dr = record v { heap = (kmalloc k v.heap).1 } in
      with_buffer-some al dr (some (status_error, [])) (read_loop al dr (size / k + 1) c size) v a
        some_a
      ∙ read_loop-chain_data (size / k + 1) c size cs v1 b sized mem fits chain
          (chain_data-same al dr (c ∷ cs) v v1 refl refl ∙ e)
          (lt_div_suc size k (omega (arith, pos)))
