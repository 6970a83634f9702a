-- ===== src/Fat/InitLaws.antt =====
-- The state that is made from the boot sector of a formatted partition.
use taavi_os.Common.{ℕ, ◌+◌, ◌-◌, ◌*◌, ◌/◌, ◌^◌, ◌<◌, ◌≤◌, ◌≡◌}
use taavi_os.Fat.Init.{Bpb}

-- A partition at `lba` that is formatted as FAT32 says: sectors of 512 bytes, two tables that have an
-- entry for each cluster, and a size that a sector number of 28 bits reaches, as ata.c gives one to the drive.
pub record IsFormatted (lba : ℕ) (b : Bpb) : Type 0 where
  pub sectors : b.bytes_per_sector ≡ 512
  pub tables : b.fat_count ≡ 2
  pub clusters : 0 < b.sectors_per_cluster
  pub reserved : 0 < b.reserved_sectors
  pub table_size : b.sectors_per_fat * 512 < 2 ^ 32
  pub room : b.reserved_sectors + 2 * b.sectors_per_fat ≤ b.total_sectors_32
  pub total : lba + b.total_sectors_32 < 2 ^ 28
  pub entries :
      (b.total_sectors_32 - b.reserved_sectors - 2 * b.sectors_per_fat) / b.sectors_per_cluster + 2
      ≤ b.sectors_per_fat * 128
