-- ===== src/Fat/SetLaws.antt =====
-- Setting an entry of the allocation table, and reading it.
use Prim.Native.Nat.{bit_and}
use taavi_os.Common.{
  ℕ, ◌+◌, ◌*◌, ◌/◌, ◌%◌, ◌^◌, ◌<◌, ◌≡◌, ◌≢◌, ◌⊎◌, inl, inr, refl, subst, sym, ap, ◌∙◌, false,
  Option, none, some, List, get_or, set, ◌==◌, if◌then◌else◌, Bool-cases, arith,
}
use taavi_os.Config.{status_ok, status_error, ok_ne_error, u32}
use taavi_os.Ledger.Types.{Allocator}
use taavi_os.Fat.Volume.{Drive, IsReliable, Fs, cluster_mask, words, bytes}
use taavi_os.Fat.Cluster.{
  Vol, cluster_size, calculate_lba, calculate_offset, with_buffer, write_both, set_in, set_cluster,
  entry_in, next_cluster,
}
use taavi_os.Fat.Entry.{
  IsLaidOut, calculate_lba_lem, calculate_offset_lem, entry_of, entry_at, IsReadable, Updated,
  Stored, both-Stored, Stored-Updated,
}

module _ (al : Allocator) (dr : Drive) where
  open al use {Heap, kmalloc, kfree}
  open dr use {Disk, read_sector, write_sector}

  -- What a function says that works on a buffer: either there is no memory, or the body's result.
  pub with_buffer_lem :
      {A : Type 0} (P : A → Fs → Disk → Type 0) (fail : A) (body : Vol al dr → A × Vol al dr)
      (v : Vol al dr)
      → ((kmalloc (cluster_size v.fs) v.heap).0 ≡ none → P fail v.fs v.disk)
      → ((h : Heap) → let (x, v') = body (record v { heap = h }) in P x v'.fs v'.disk)
      → let (x, v') = with_buffer al dr fail body v in P x v'.fs v'.disk
  unfolding with_buffer
  with_buffer_lem {A = A} P fail body v p q =
      let (b, h) = kmalloc (cluster_size v.fs) v.heap in
      let (x, v') = body (record v { heap = h }) in
      let result = (λ (o : Option ℕ). elim o as (λ _. A × Vol al dr) [
        | none ↦ (fail, record v { heap = h })
        | some a ↦ (x, record v' { heap = kfree a v'.heap })
      ]) in
      (elim b as (λ o. (b ≡ o → P (result o).0 (result o).1.fs (result o).1.disk)) [
        | none ↦ p
        | some a ↦ λ _. q h
      ])
        refl

  -- With memory for the buffer, the result is that of the body.
  pub with_buffer-some :
      {A : Type 0} (fail : A) (body : Vol al dr → A × Vol al dr) (v : Vol al dr) (a : ℕ)
      → (kmalloc (cluster_size v.fs) v.heap).0 ≡ some a
      → (with_buffer al dr fail body v).0
        ≡ (body (record v { heap = (kmalloc (cluster_size v.fs) v.heap).1 })).0
  unfolding with_buffer
  with_buffer-some {A = A} fail body v a e =
      let (b, h) = kmalloc (cluster_size v.fs) v.heap in
      let (x, v') = body (record v { heap = h }) in
      ap
        (λ (o : Option ℕ).
          (elim o as (λ _. A × Vol al dr) [
            | none ↦ (fail, record v { heap = h })
            | some a ↦ (x, record v' { heap = kfree a v'.heap })
          ]).0)
        e

  -- The drive refuses to write `buf` to sector `i` of the first table, or then to that of the second one.
  abbrev pub WriteFailed : Fs → Disk → ℕ → List ℕ → Type 0
  WriteFailed fs d i buf =
      let first = write_sector (fs.fat_start + i) buf d in
      (first.0 ≡ false)
      ⊎ ((write_sector (fs.fat_start + fs.sectors_per_fat + i) buf first.1).0 ≡ false)

  -- The drive refuses the sector in which the entry of cluster `c` is set to `w`.
  abbrev pub EntryFailed : Fs → Disk → ℕ → ℕ → Type 0
  EntryFailed fs d c w =
      (i : ℕ) × (k : ℕ) × (b : List ℕ) × (c ≡ i * 128 + k)
      × (k < 128)
      × (read_sector (fs.fat_start + i) d ≡ some b)
      × WriteFailed fs d i (bytes (set (words b) k w))

  -- Why an entry is not set: there is no memory for a buffer, or a write of this call is refused.
  abbrev pub SetRefused : Fs → Disk → Heap → ℕ → ℕ → Type 0
  SetRefused fs d h c w = ((kmalloc (cluster_size fs) h).0 ≡ none) ⊎ EntryFailed fs d c w

  -- What writing a sector of the table into both copies gives: the file system's state stays, and either
  -- the drive has failed or both copies hold `buf`.
  abbrev pub Wrote : Fs → Disk → ℕ → List ℕ → ℕ → Fs → Disk → Type 0
  Wrote fs d i buf status fs' d' =
      (fs' ≡ fs)
      × (((status ≡ status_error) × WriteFailed fs d i buf)
          ⊎ ((status ≡ status_ok) × Stored dr fs d i buf d'))

  pub write_both-Wrote :
      (i : ℕ) (buf : List ℕ) (v : Vol al dr)
      → IsReliable dr
      → IsLaidOut v.fs
      → i < v.fs.sectors_per_fat
      → let (status, v') = write_both al dr (v.fs.fat_start + i) buf v in
        Wrote v.fs v.disk i buf status v'.fs v'.disk
  unfolding write_both
  write_both-Wrote i buf v rel fits lt =
      let (ok, d) = write_sector (v.fs.fat_start + i) buf v.disk in
      let lba : u32 (v.fs.fat_start + i + v.fs.sectors_per_fat)
          ≡ v.fs.fat_start + v.fs.sectors_per_fat + i =
        omega (arith, fits.tables, lt) in
      elim (Bool-cases ok) [
        | inr e ↦ rw e (refl, inl (refl, inl refl))
        | inl e ↦
            elim (Bool-cases (write_sector (v.fs.fat_start + v.fs.sectors_per_fat + i) buf d).0) [
              | inr e' ↦ rw (lba, e, e') (refl, inl (refl, inr refl))
              | inl e' ↦
                  rw (lba, e, e')
                    (refl, inr (refl, both-Stored dr rel v.fs fits v.disk i lt buf e e'))
            ]
      ]

  -- What setting the entry of a cluster of the table gives.
  abbrev pub SetResult : Fs → Disk → Heap → ℕ → ℕ → ℕ → Fs → Disk → Type 0
  SetResult fs d h c w status fs' d' =
      (fs' ≡ fs)
      × (((status ≡ status_error) × SetRefused fs d h c w)
          ⊎ ((status ≡ status_ok) × Updated dr fs d c w d'))

  -- The body of `set_cluster` writes the sector of the entry, with the entry changed.
  set_in_lem :
      (c w : ℕ) (v : Vol al dr) (b : List ℕ)
      → IsLaidOut v.fs
      → c < v.fs.maximum_cluster_size
      → read_sector (v.fs.fat_start + c / 128) v.disk ≡ some b
      → set_in al dr c w (read_sector (calculate_lba c v.fs) v.disk) v
        ≡ write_both al dr (v.fs.fat_start + c / 128) (bytes (set (words b) (c % 128) w)) v
  unfolding set_in
  set_in_lem c w v b fits lt at =
      let lba : calculate_lba c v.fs ≡ v.fs.fat_start + c / 128 =
        calculate_lba_lem c v.fs fits lt in
      ap (λ l. set_in al dr c w (read_sector l v.disk) v) lba
      ∙ ap (λ o. set_in al dr c w o v) at
      ∙ ap (λ l. write_both al dr l (bytes (set (words b) (calculate_offset c v.fs / 4) w)) v) lba
      ∙ ap (λ k. write_both al dr (v.fs.fat_start + c / 128) (bytes (set (words b) k w)) v)
          (calculate_offset_lem c v.fs fits lt)

  set_in-SetResult :
      (c w : ℕ) (v : Vol al dr) (h : Heap)
      → IsReliable dr
      → IsLaidOut v.fs
      → IsReadable dr v.fs v.disk
      → c < v.fs.maximum_cluster_size
      → w < 2 ^ 32
      → let (status, v') = set_in al dr c w (read_sector (calculate_lba c v.fs) v.disk) v in
        SetResult v.fs v.disk h c w status v'.fs v'.disk
  set_in-SetResult c w v h rel fits ok lt wb =
      let i : c / 128 < v.fs.sectors_per_fat = omega (arith, fits.entries, lt) in
      let (b, at, len, ws) = ok (c / 128) i in
      let e : c / 128 * 128 + c % 128 ≡ c = omega arith in
      let after =
        write_both al dr (v.fs.fat_start + c / 128) (bytes (set (words b) (c % 128) w)) v in
      let (same, r) = write_both-Wrote (c / 128) (bytes (set (words b) (c % 128) w)) v rel fits i in
      subst (λ (r : ℕ × Vol al dr). SetResult v.fs v.disk h c w r.0 r.1.fs r.1.disk)
        (sym (set_in_lem c w v b fits lt at))
        (
          same,
          elim r [
            | inl (s, f) ↦ inl (s, inr (c / 128, c % 128, b, omega arith, omega arith, at, f))
            | inr (s, st) ↦ inr (
              s,
              subst (λ x. Updated dr v.fs v.disk x w after.1.disk) e
                  (Stored-Updated dr rel v.fs fits v.disk (c / 128) i ok b at len ws (c % 128) w
                    (omega arith) wb st),
            )
          ],
        )

  pub set_cluster-SetResult :
      (c w : ℕ) (v : Vol al dr)
      → IsReliable dr
      → IsLaidOut v.fs
      → IsReadable dr v.fs v.disk
      → c < v.fs.maximum_cluster_size
      → w < 2 ^ 32
      → let (status, v') = set_cluster al dr c w v in
        SetResult v.fs v.disk v.heap c w status v'.fs v'.disk
  unfolding set_cluster
  set_cluster-SetResult c w v rel fits ok lt wb =
      with_buffer_lem (SetResult v.fs v.disk v.heap c w) status_error
        (λ v. set_in al dr c w (read_sector (calculate_lba c v.fs) v.disk) v) v
        (λ e. (refl, inl (refl, inl e)))
        (λ h. set_in-SetResult c w (record v { heap = h }) v.heap rel fits ok lt wb)

  -- The entry that `next_cluster` finds.
  abbrev NextResult : Fs → Disk → Heap → ℕ → ℕ → Fs → Disk → Type 0
  NextResult fs d h c n fs' d' =
      (fs' ≡ fs)
      × (d' ≡ d)
      × (((n ≡ 0) × ((kmalloc (cluster_size fs) h).0 ≡ none)) ⊎ (n ≡ entry_at dr fs d c))

  entry_in_lem :
      (c : ℕ) (fs : Fs) (o : Option (List ℕ))
      → IsLaidOut fs
      → c < fs.maximum_cluster_size
      → entry_in al dr c fs o ≡ entry_of dr c o
  unfolding entry_in
  entry_in_lem c fs none fits lt = refl
  entry_in_lem c fs (some b) fits lt =
      ap (λ k. bit_and (get_or (words b) k 0) cluster_mask) (calculate_offset_lem c fs fits lt)

  pub next_cluster-NextResult :
      (c : ℕ) (v : Vol al dr)
      → IsLaidOut v.fs
      → c < v.fs.maximum_cluster_size
      → let (n, v') = next_cluster al dr c v in NextResult v.fs v.disk v.heap c n v'.fs v'.disk
  unfolding next_cluster
  next_cluster-NextResult c v fits lt =
      with_buffer_lem (NextResult v.fs v.disk v.heap c) 0
        (λ v. (entry_in al dr c v.fs (read_sector (calculate_lba c v.fs) v.disk), v)) v
        (λ e. (refl, refl, inl (refl, e)))
        (λ h. (
          refl,
          refl,
          inr (
              ap (λ l. entry_in al dr c v.fs (read_sector l v.disk))
                (calculate_lba_lem c v.fs fits lt)
              ∙ entry_in_lem c v.fs (read_sector (v.fs.fat_start + c / 128) v.disk) fits lt),
        ))

  Updated-entry_at :
      {fs : Fs} {d d' : Disk} {c w : ℕ} (x : ℕ)
      → Updated dr fs d c w d'
      → x < fs.sectors_per_fat * 128
      → entry_at dr fs d' x ≡ (if x == c then bit_and w cluster_mask else entry_at dr fs d x)
  Updated-entry_at {fs = fs} {d = d} {d' = d'} {c = c} {w = w} x u lt = elim (Bool-cases (x == c)) [
    | inl e ↦ let q : x ≡ c = ground arith in rw e (ap (entry_at dr fs d') q ∙ u.here)
    | inr e ↦ rw e (u.others x lt (λ q. ground arith))
  ]

  -- On a drive that keeps what it accepts and a volume that is laid out and whose table can be read:
  -- after `set_cluster` has set the entry of cluster `c` to `w` with success, `next_cluster`, with any
  -- heap that gives it a buffer, gives `w` without its four upper bits for `c`, and for every other
  -- cluster of the volume what stood in the table before.
  pub next_cluster-set_cluster :
      (c w x : ℕ) (v : Vol al dr) (h : Heap)
      → IsReliable dr
      → IsLaidOut v.fs
      → IsReadable dr v.fs v.disk
      → c < v.fs.maximum_cluster_size
      → x < v.fs.maximum_cluster_size
      → w < 2 ^ 32
      → (kmalloc (cluster_size v.fs) h).0 ≢ none
      → (set_cluster al dr c w v).0 ≡ status_ok
      → (next_cluster al dr x (record (set_cluster al dr c w v).1 { heap = h })).0
        ≡ (if x == c then bit_and w cluster_mask else entry_at dr v.fs v.disk x)
  next_cluster-set_cluster c w x v h rel fits ok lt xb wb some_buf s =
      let (same, r) = set_cluster-SetResult c w v rel fits ok lt wb in
      let v' : Vol al dr = record (set_cluster al dr c w v).1 { heap = h } in
      let (_, _, found) =
        next_cluster-NextResult x v' (subst IsLaidOut (sym same) fits)
          (subst (λ (f : Fs). x < f.maximum_cluster_size) (sym same) xb) in
      elim r [
        | inl (e, _) ↦ absurd (ok_ne_error (sym s ∙ e))
        | inr (_, u) ↦ elim found [
          | inl (_, e) ↦
              absurd (some_buf (ap (λ (f : Fs). (kmalloc (cluster_size f) h).0) (sym same) ∙ e))
          | inr e ↦
              e
              ∙ ap (λ (f : Fs). entry_at dr f v'.disk x) same
              ∙ Updated-entry_at x u (omega (arith, fits.entries, xb))
        ]
      ]
