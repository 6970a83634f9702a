-- ===== src/Fat/Entry.antt =====
-- The allocation table as a map from clusters to entries, and what a write to both copies does to it.
use Prim.Native.Nat.{bit_and}
use taavi_os.Common.{
  ℕ, zero, suc, ◌+◌, ◌*◌, ◌/◌, ◌%◌, ◌^◌, ◌<◌, ◌≤◌, ◌≡◌, ◌≢◌, inl, inr, sym, ap, ◌∙◌, Bool, true,
  Option, none, some, List, [], ◌∷◌, length, length-set, get_or, get_or-set, set, ◌==◌,
  if◌then◌else◌, Bool-cases, arith,
}
use taavi_os.Config.{u32}
use taavi_os.Fat.Volume.{Drive, IsReliable, Fs, cluster_mask, words, bytes, AreWords, words-bytes}
use taavi_os.Fat.Cluster.{calculate_lba, calculate_offset}

pub AreWords-set : (l : List ℕ) (i w : ℕ) → AreWords l → w < 2 ^ 32 → AreWords (set l i w)
AreWords-set [] i w h k = tt
AreWords-set (x ∷ l) zero w h k = (k, h.1)
AreWords-set (x ∷ l) (suc i) w h k = (h.0, AreWords-set l i w h.1 k)

-- The numbers of a volume fit together: sectors of 512 bytes, two tables of `sectors_per_fat` sectors,
-- and no more clusters than the table has entries.
pub record IsLaidOut (fs : Fs) : Type 0 where
  pub sectors : fs.bytes_per_sector ≡ 512
  pub tables : fs.fat_start + 2 * fs.sectors_per_fat < 2 ^ 28
  pub entries : fs.maximum_cluster_size ≤ fs.sectors_per_fat * 128
  pub bytes_fit : fs.sectors_per_fat * 512 < 2 ^ 32

-- The entry of a cluster stands in this sector at this word.
pub calculate_lba_lem :
    (c : ℕ) (fs : Fs)
    → IsLaidOut fs
    → c < fs.maximum_cluster_size
    → calculate_lba c fs ≡ fs.fat_start + c / 128
unfolding calculate_lba
calculate_lba_lem c fs v h =
    let a : (u32 (c * 4) / 512) ≡ c / 128 = omega (arith, v.entries, v.bytes_fit) in
    let b : u32 (fs.fat_start + c / 128) ≡ fs.fat_start + c / 128 =
      omega (arith, v.tables, v.entries) in
    ground (arith, v.sectors, a, b)

pub calculate_offset_lem :
    (c : ℕ) (fs : Fs)
    → IsLaidOut fs
    → c < fs.maximum_cluster_size
    → calculate_offset c fs / 4 ≡ c % 128
unfolding calculate_offset
calculate_offset_lem c fs v h =
    let a : (u32 (c * 4) % 512) / 4 ≡ c % 128 = omega (arith, v.entries, v.bytes_fit) in
    ground (arith, v.sectors, a)

module _ (dr : Drive) where
  open dr use {Disk, read_sector, write_sector}

  -- The entry of cluster `c`, 0 where its sector cannot be read.
  abbrev pub entry_of : ℕ → Option (List ℕ) → ℕ
  entry_of c none = 0
  entry_of c (some b) = bit_and (get_or (words b) (c % 128) 0) cluster_mask

  abbrev pub entry_at : Fs → Disk → ℕ → ℕ
  entry_at fs d c = entry_of c (read_sector (fs.fat_start + c / 128) d)

  -- Every sector of the table can be read and holds 128 words.
  abbrev pub IsReadable : Fs → Disk → Type 0
  IsReadable fs d =
      (i : ℕ)
      → i < fs.sectors_per_fat
      → (b : List ℕ) × (read_sector (fs.fat_start + i) d ≡ some b)
        × (length (words b) ≡ 128)
        × AreWords (words b)

  -- The entry of cluster `c` is `w` now, in both copies of the table, and no other entry of the table has
  -- changed.
  pub record Updated (fs : Fs) (d : Disk) (c w : ℕ) (d' : Disk) : Type 0 where
    pub here : entry_at fs d' c ≡ bit_and w cluster_mask
    pub others : (x : ℕ) → x < fs.sectors_per_fat * 128 → x ≢ c → entry_at fs d' x ≡ entry_at fs d x
    pub copy :
        read_sector (fs.fat_start + fs.sectors_per_fat + c / 128) d'
        ≡ read_sector (fs.fat_start + c / 128) d'
    pub readable : IsReadable fs d'

  -- What a sector of the table holds after both writes of `buf` to sector `i`.
  pub record Stored (fs : Fs) (d : Disk) (i : ℕ) (buf : List ℕ) (d' : Disk) : Type 0 where
    pub here : read_sector (fs.fat_start + i) d' ≡ some buf
    pub copy : read_sector (fs.fat_start + fs.sectors_per_fat + i) d' ≡ some buf
    pub others :
        (j : ℕ)
        → j < fs.sectors_per_fat
        → j ≢ i
        → read_sector (fs.fat_start + j) d' ≡ read_sector (fs.fat_start + j) d

  module _ (rel : IsReliable dr) (fs : Fs) (v : IsLaidOut fs) (d : Disk) (i : ℕ)
      (lt : i < fs.sectors_per_fat) where
    abbrev first : List ℕ → Bool × Disk
    first buf = write_sector (fs.fat_start + i) buf d

    abbrev second : List ℕ → Bool × Disk
    second buf = write_sector (fs.fat_start + fs.sectors_per_fat + i) buf (first buf).1

    pub both-Stored :
        (buf : List ℕ)
        → (first buf).0 ≡ true
        → (second buf).0 ≡ true
        → Stored fs d i buf (second buf).1
    both-Stored buf e e' = record {
      here =
          rel.other (fs.fat_start + fs.sectors_per_fat + i) (fs.fat_start + i) buf (first buf).1
            (omega (arith, v.tables, lt)) (omega (arith, v.tables, lt)) (λ k. omega (arith, lt)) e'
          ∙ rel.same (fs.fat_start + i) buf d (omega (arith, v.tables, lt)) e;
      copy =
          rel.same (fs.fat_start + fs.sectors_per_fat + i) buf (first buf).1
            (omega (arith, v.tables, lt)) e';
      others = λ j l ne.
          rel.other (fs.fat_start + fs.sectors_per_fat + i) (fs.fat_start + j) buf (first buf).1
            (omega (arith, v.tables, lt)) (omega (arith, v.tables, l)) (λ k. omega (arith, l)) e'
          ∙ rel.other (fs.fat_start + i) (fs.fat_start + j) buf d (omega (arith, v.tables, lt))
              (omega (arith, v.tables, l)) (λ k. ne (omega arith)) e;
    }

    module _ (ok : IsReadable fs d) (b : List ℕ) (at : read_sector (fs.fat_start + i) d ≡ some b)
        (len : length (words b) ≡ 128) (ws : AreWords (words b)) (k w : ℕ) (kb : k < 128)
        (wb : w < 2 ^ 32) {d' : Disk} (s : Stored fs d i (bytes (set (words b) k w)) d') where
      fresh : words (bytes (set (words b) k w)) ≡ set (words b) k w
      fresh = words-bytes (set (words b) k w) (AreWords-set (words b) k w ws wb)

      -- An entry of the sector that was written.
      entry_here :
          (j : ℕ)
          → j < 128
          → get_or (words (bytes (set (words b) k w))) j 0
            ≡ (if k == j then w else get_or (words b) j 0)
      entry_here j h = rw fresh (get_or-set (words b) k j w 0 (omega arith))

      -- The entry of a cluster of that sector, read from the disk.
      entry_now :
          (c : ℕ)
          → c / 128 ≡ i
          → entry_at fs d' c
            ≡ bit_and (if k == c % 128 then w else get_or (words b) (c % 128) 0) cluster_mask
      entry_now c e =
          ap (λ x. entry_of c (read_sector (fs.fat_start + x) d')) e
          ∙ ap (entry_of c) s.here
          ∙ ap (λ x. bit_and x cluster_mask) (entry_here (c % 128) (omega arith))

      entry_before :
          (c : ℕ)
          → c / 128 ≡ i
          → entry_at fs d c ≡ bit_and (get_or (words b) (c % 128) 0) cluster_mask
      entry_before c e =
          ap (λ x. entry_of c (read_sector (fs.fat_start + x) d)) e ∙ ap (entry_of c) at

      entry_written : entry_at fs d' (i * 128 + k) ≡ bit_and w cluster_mask
      entry_written =
          entry_now (i * 128 + k) (omega (arith, kb))
          ∙ ap (λ x. bit_and x cluster_mask)
              (let e : (i * 128 + k) % 128 ≡ k = omega (arith, kb) in ground (arith, e))

      entry_kept :
          (c : ℕ)
          → c < fs.sectors_per_fat * 128
          → c ≢ i * 128 + k
          → entry_at fs d' c ≡ entry_at fs d c
      entry_kept c h ne = elim (Bool-cases (c / 128 == i)) [
        | inl y ↦
            let e : c / 128 ≡ i = ground arith in
            let n : k ≢ c % 128 = λ q. ne (omega arith) in
            entry_now c e
            ∙ ap (λ x. bit_and x cluster_mask) (ground (arith, n))
            ∙ sym (entry_before c e)
        | inr z ↦ ap (entry_of c) (s.others (c / 128) (omega arith) (λ q. ground arith))
      ]

      Stored-IsReadable : IsReadable fs d'
      Stored-IsReadable j h = elim (Bool-cases (j == i)) [
        | inl y ↦
            let e : j ≡ i = ground arith in
            (
              bytes (set (words b) k w),
              ap (λ x. read_sector (fs.fat_start + x) d') e ∙ s.here,
              rw fresh (length-set (words b) k w ∙ len),
              rw fresh (AreWords-set (words b) k w ws wb),
            )
        | inr z ↦ let (c, e, l, g) = ok j h in (c, s.others j h (λ q. ground arith) ∙ e, l, g)
      ]

      pub Stored-Updated : Updated fs d (i * 128 + k) w d'
      Stored-Updated = record {
        here = entry_written;
        others = entry_kept;
        copy =
            let e : (i * 128 + k) / 128 ≡ i = omega (arith, kb) in
            ap (λ x. read_sector (fs.fat_start + fs.sectors_per_fat + x) d') e
            ∙ s.copy
            ∙ sym s.here
            ∙ sym (ap (λ x. read_sector (fs.fat_start + x) d') e);
        readable = Stored-IsReadable;
      }
