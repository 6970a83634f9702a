-- ===== src/Fat/Dir.antt =====
-- fat32helpers.c: the search of a directory.
use Prim.Native.Nat.{bit_and}
use taavi_os.Common.{
  ℕ, zero, suc, ◌+◌, ◌*◌, Bool, false, Option, none, some, List, drop, take, get_or, leb, ◌==◌,
  if◌then◌else◌,
}
use taavi_os.Ledger.Types.{Allocator}
use taavi_os.Strings.Text.{memcmp}
use taavi_os.Fat.Volume.{Drive, get_u16, get_u32, cluster_eoc_min}
use taavi_os.Fat.Cluster.{Vol, max_dir_entries, with_buffer, read_cluster, next_cluster}

-- What a search gives of an entry, `fat32_dirent_t`
pub record Dirent : Type 0 where
  pub cluster : ℕ
  pub size : ℕ
  pub attributes : ℕ

abbrev pub dirent_size : ℕ
dirent_size = 32

abbrev pub dirent_free : ℕ
dirent_free = 0

abbrev pub dirent_deleted : ℕ
dirent_deleted = 0xE5

abbrev pub long_file_name : ℕ
long_file_name = 0x0F

-- The fields of an entry.
unfoldable pub dirent_at : List ℕ → Dirent
dirent_at b = record {
  cluster = 65536 * get_u16 b 20 + get_u16 b 26;
  size = get_u32 b 28;
  attributes = get_or b 11 0;
}

-- What the inner loop has come to: the end of the active entries, the entry, or the end of the cluster.
pub data DirScan : Type 0 where
  ended : DirScan
  found : Dirent → DirScan
  not_here : DirScan

abbrev pub is_same : Option ℕ → Bool
is_same none = false
is_same (some difference) = difference == 0

-- The inner loop, over `n` entries of the bytes `b`.
unfoldable pub scan_entries : ℕ → List ℕ → List ℕ → DirScan
scan_entries zero b name83 = not_here
scan_entries (suc n) b name83 =
    let rest = scan_entries n (drop dirent_size b) name83 in
    if get_or b 0 0 == dirent_free
    then ended
    else (if get_or b 0 0 == dirent_deleted
        then rest
        else (if bit_and (get_or b 11 0) long_file_name == long_file_name
            then rest
            else (if is_same (memcmp 11 (take 11 b) name83) then found (dirent_at b) else rest)))

-- The entry that was found, or `none` for STATUS_ERROR; the outer `none` is a loop that has not ended
-- within its fuel.
abbrev pub SearchResult : Type 0
SearchResult = Option (Option Dirent)

module _ (al : Allocator) (dr : Drive) where
  -- What a round does when its cluster has been searched.
  unfoldable pub search_on :
      DirScan → ℕ → Vol al dr → Vol al dr → SearchResult × Vol al dr → SearchResult × Vol al dr
  search_on ended next v v1 rest = (some none, v)
  search_on (found e) next v v1 rest = (some (some e), v)
  search_on not_here next v v1 rest = if leb cluster_eoc_min next then (some none, v1) else rest

  unfoldable pub search_round :
      Option (List ℕ)
      → List ℕ
      → ℕ
      → Vol al dr
      → Vol al dr
      → SearchResult × Vol al dr
      → SearchResult × Vol al dr
  unfolding search_on scan_entries
  search_round none name83 next v v1 rest = (some none, v)
  search_round (some b) name83 next v v1 rest =
      search_on (scan_entries (max_dir_entries v.fs) b name83) next v v1 rest

  -- The outer loop, with fuel for `n` clusters.
  unfoldable pub search_loop : ℕ → ℕ → List ℕ → Vol al dr → SearchResult × Vol al dr
  unfolding search_round
  search_loop zero cluster name83 v = (none, v)
  search_loop (suc n) cluster name83 v =
      let (next, v1) = next_cluster al dr cluster v in
      search_round (read_cluster al dr cluster v) name83 next v v1 (search_loop n next name83 v1)

  -- `__fat32_search_dir`, with fuel for `n` clusters: the source has no bound, and does not end on a
  -- chain that comes back to itself.
  unfoldable pub search_dir : ℕ → ℕ → List ℕ → Vol al dr → SearchResult × Vol al dr
  unfolding with_buffer search_loop
  search_dir n start_cluster name83 v =
      with_buffer al dr (some none) (search_loop n start_cluster name83) v
