-- ===== src/Fat/Volume.antt =====
-- The state of the file system: kernel/include/fs/fat32.h, and the disk under it. A sector is read as
-- bytes; the code looks at one as little-endian words of 32 bits.
use taavi_os.Common.{
  ℕ, ◌+◌, ◌*◌, ◌/◌, ◌%◌, ◌^◌, ◌≡◌, ◌≢◌, ◌<◌, refl, arith, Bool, true, Option, some, List, [], ◌∷◌,
  get_or,
}

-- A drive, by what ata_read_sector and ata_write_sector do with it: a read gives the 512 bytes of a
-- sector or fails; a write says whether it succeeded.
pub record Drive : Type 1 where
  pub Disk : Type 0
  pub read_sector : ℕ → Disk → Option (List ℕ)
  pub write_sector : ℕ → List ℕ → Disk → Bool × Disk

-- What the file system relies on, for the sector numbers of 28 bits that ata.c gives to the drive: a write
-- that succeeds is read back, and changes no other sector.
pub record IsReliable (dr : Drive) : Type 0 where
  pub same :
      (lba : ℕ) (b : List ℕ) (d : dr.Disk)
      → lba < 2 ^ 28
      → (dr.write_sector lba b d).0 ≡ true
      → dr.read_sector lba (dr.write_sector lba b d).1 ≡ some b
  pub other :
      (lba l : ℕ) (b : List ℕ) (d : dr.Disk)
      → lba < 2 ^ 28
      → l < 2 ^ 28
      → l ≢ lba
      → (dr.write_sector lba b d).0 ≡ true
      → dr.read_sector l (dr.write_sector lba b d).1 ≡ dr.read_sector l d

-- `fat32_fs_t`, without the drive
pub record Fs : Type 0 where
  pub partition_lba : ℕ
  pub fat_start : ℕ
  pub data_start : ℕ
  pub root_cluster : ℕ
  pub sectors_per_cluster : ℕ
  pub bytes_per_sector : ℕ
  pub fat_count : ℕ
  pub sectors_per_fat : ℕ
  pub maximum_cluster_size : ℕ
  pub last_allocated_cluster : ℕ

-- `f32_fs`, the disk and the kernel heap
pub record Volume (D H : Type 0) : Type 0 where
  pub fs : Fs
  pub disk : D
  pub heap : H

abbrev pub sector_size : ℕ
sector_size = 512

abbrev pub entries_per_sector : ℕ
entries_per_sector = 128

abbrev pub cluster_mask : ℕ
cluster_mask = 0x0FFF_FFFF

abbrev pub cluster_eoc : ℕ
cluster_eoc = 0x0FFF_FFFF

abbrev pub cluster_eoc_min : ℕ
cluster_eoc_min = 0x0FFF_FFF8

-- The numbers of a packed structure, from its bytes.
abbrev pub get_u16 : List ℕ → ℕ → ℕ
get_u16 b i = get_or b i 0 + 256 * get_or b (i + 1) 0

abbrev pub get_u32 : List ℕ → ℕ → ℕ
get_u32 b i = get_u16 b i + 65536 * get_u16 b (i + 2)

-- A buffer as an array of `uint32_t`, and back.
unfoldable pub words : List ℕ → List ℕ
words (a ∷ b ∷ c ∷ d ∷ r) = (a + 256 * b + 65536 * c + 16777216 * d) ∷ words r
words _ = []

unfoldable pub bytes : List ℕ → List ℕ
bytes [] = []
bytes (w ∷ r) = (w % 256) ∷ (w / 256 % 256) ∷ (w / 65536 % 256) ∷ (w / 16777216 % 256) ∷ bytes r

-- Every number of the list is a `uint32_t`.
abbrev pub AreWords : List ℕ → Type 0
AreWords [] = Unit
AreWords (w ∷ r) = (w < 2 ^ 32) × AreWords r

-- Storing words and looking at them again.
pub words-bytes : (l : List ℕ) → AreWords l → words (bytes l) ≡ l
unfolding words bytes
words-bytes [] h = refl
words-bytes (w ∷ r) h =
    let e : w % 256
          + 256 * (w / 256 % 256)
          + 65536 * (w / 65536 % 256)
          + 16777216 * (w / 16777216 % 256)
        ≡ w =
      omega (arith, h.0) in
    rw (e, words-bytes r h.1) refl
