-- ===== src/Fat/Init.antt =====
-- fat32main.c: the state of the file system, from the boot sector of a partition.
use taavi_os.Common.{ℕ, ◌+◌, ◌-◌, ◌*◌, ◌/◌, ◌^◌, Option, none, some, List, get_or}
use taavi_os.Config.{status_ok, u32}
use taavi_os.Ledger.Types.{Allocator}
use taavi_os.Fat.Volume.{Drive, Fs, get_u16, get_u32}
use taavi_os.Fat.Cluster.{Vol}

-- `fat32_bpb_t`, the fields that the code reads
pub record Bpb : Type 0 where
  pub bytes_per_sector : ℕ
  pub sectors_per_cluster : ℕ
  pub reserved_sectors : ℕ
  pub fat_count : ℕ
  pub total_sectors_32 : ℕ
  pub sectors_per_fat : ℕ
  pub root_cluster : ℕ

abbrev pub bpb_of : List ℕ → Bpb
bpb_of buf = record {
  bytes_per_sector = get_u16 buf 11;
  sectors_per_cluster = get_or buf 13 0;
  reserved_sectors = get_u16 buf 14;
  fat_count = get_or buf 16 0;
  total_sectors_32 = get_u32 buf 32;
  sectors_per_fat = get_u32 buf 36;
  root_cluster = get_u32 buf 44;
}

-- `data_sectors`, in arithmetic of 32 bits
unfoldable pub data_sectors : Bpb → ℕ
data_sectors bpb = u32 (
    bpb.total_sectors_32
    + (2 ^ 32 - bpb.reserved_sectors)
    + (2 ^ 32 - u32 (bpb.fat_count * bpb.sectors_per_fat)))

-- The state that `fat32_init` makes. A boot sector with 0 sectors per cluster makes it divide by 0,
-- which is not considered here.
unfoldable pub fs_of : ℕ → Bpb → Fs
unfolding data_sectors
fs_of partition_lba bpb = record {
  partition_lba = partition_lba;
  fat_start = u32 (partition_lba + bpb.reserved_sectors);
  data_start =
      u32 (u32 (partition_lba + bpb.reserved_sectors) + bpb.fat_count * bpb.sectors_per_fat);
  root_cluster = bpb.root_cluster;
  sectors_per_cluster = bpb.sectors_per_cluster;
  bytes_per_sector = bpb.bytes_per_sector;
  fat_count = bpb.fat_count;
  sectors_per_fat = bpb.sectors_per_fat;
  maximum_cluster_size = u32 (data_sectors bpb / bpb.sectors_per_cluster + 2);
  last_allocated_cluster = 0;
}

-- The buffer after the read; one that fails leaves what was on the stack.
abbrev pub or_stack : List ℕ → Option (List ℕ) → List ℕ
or_stack stack none = stack
or_stack stack (some b) = b

module _ (al : Allocator) (dr : Drive) where
  -- `fat32_init`, with `stack` the bytes of `buf` before it is filled. The result of the read is not
  -- looked at.
  unfoldable pub fat32_init : List ℕ → ℕ → Vol al dr → ℕ × Vol al dr
  unfolding fs_of
  fat32_init stack partition_lba v = (
    status_ok,
    record v {
      fs = fs_of partition_lba (bpb_of (or_stack stack (dr.read_sector partition_lba v.disk)));
    },
  )
