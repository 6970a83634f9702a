-- ===== src/Pmm/Boot.antt =====
-- pmm.c: `pmm_init` and `pmm_reclaim_bootloader`, over the memory map of
-- kernel/include/boot/boot_info.h.
use taavi_os.Common.{
  ℕ, zero, suc, ◌+◌, ◌-◌, ◌*◌, ◌/◌, ◌%◌, ◌^◌, Bool, true, false, not, ◌&&◌, ◌||◌, Option, none,
  some, List, [], ◌∷◌, replicate, ltb, leb, ◌==◌, if◌then◌else◌,
}
use taavi_os.Config.{status_ok, status_error, u32}
use taavi_os.Pmm.Pages.{Pmm, page_size, u64_max, set_bit, clear_bit, test_bit}
use taavi_os.Pmm.Alloc.{inc32, dec32, pmm_free}

-- `enum boot_region_type`
pub data RegionType : Type 0 where
  usable reserved reclaimable kernel framebuffer acpi_reclaimable acpi_nvs bad_memory : RegionType

-- `struct boot_mem_region`; the type is called `kind`.
pub record Region : Type 0 where
  pub base : ℕ
  pub length : ℕ
  pub kind : RegionType

abbrev pub is_usable : RegionType → Bool
is_usable usable = true
is_usable _ = false

abbrev pub is_reclaimable : RegionType → Bool
is_reclaimable reclaimable = true
is_reclaimable _ = false

abbrev pub mib : ℕ
mib = 1048576

abbrev pub u64 : ℕ → ℕ
u64 n = n % 2 ^ 64

-- `curr_region.base + curr_region.length`
abbrev pub region_end : Region → ℕ
region_end r = u64 (r.base + r.length)

-- `(base + PAGE_SIZE - 1) & ~(PAGE_SIZE - 1)` and `top & ~(PAGE_SIZE - 1)`
abbrev pub round_up : ℕ → ℕ
round_up base = u64 (base + page_size - 1) / page_size * page_size

abbrev pub round_down : ℕ → ℕ
round_down top = top / page_size * page_size

-- The rounds of `for (addr = base; addr < top; addr += PAGE_SIZE)` with both ends aligned.
abbrev pub pages_between : ℕ → ℕ → ℕ
pages_between base top = (top - base) / page_size

-- The loop over the regions for the end of the highest usable or reclaimable one; 0 is none.
unfoldable pub highest_end : ℕ → List Region → ℕ
highest_end top [] = top
highest_end top (r ∷ rs) =
    highest_end
      (if (is_usable r.kind || is_reclaimable r.kind) && ltb top (region_end r)
        then region_end r
        else top)
      rs

-- The base of the first usable region above 1 MiB that the bitmap fits in.
unfoldable pub bitmap_base : ℕ → List Region → Option ℕ
bitmap_base bytes [] = none
bitmap_base bytes (r ∷ rs) =
    if is_usable r.kind && leb mib r.base && leb bytes r.length
    then some r.base
    else bitmap_base bytes rs

-- `__pmm_clear_bit(addr / PAGE_SIZE); free_pages++;` for `n` pages from `page` on.
unfoldable pub free_range : ℕ → ℕ → Pmm → Pmm
free_range zero page s = s
free_range (suc n) page s =
    free_range n (page + 1) (record (clear_bit page s) { free_pages = inc32 s.free_pages })

-- The loop that frees the whole pages of each usable region.
unfoldable pub free_regions : List Region → Pmm → Pmm
unfolding free_range
free_regions [] s = s
free_regions (r ∷ rs) s =
    let base = round_up r.base in
    let top = round_down (region_end r) in
    free_regions rs
      (if is_usable r.kind then free_range (pages_between base top) (base / page_size) s else s)

-- A page taken: `__pmm_set_bit(page); used_pages++; free_pages--;`
abbrev reserve : ℕ → Pmm → Pmm
reserve page s = record (set_bit page s) {
  used_pages = inc32 s.used_pages;
  free_pages = dec32 s.free_pages;
}

unfoldable pub reserve_range : ℕ → ℕ → Pmm → Pmm
reserve_range zero page s = s
reserve_range (suc n) page s = reserve_range n (page + 1) (reserve page s)

-- The words that hold a bit for each page below `max_pages`, as `memset(bitmap, 0xFF, …)` leaves them.
abbrev full_bitmap : ℕ → List ℕ
full_bitmap max_pages = replicate ((max_pages + 63) / 64) u64_max

-- The end of `pmm_init`: page 0 is reserved, and the used pages are counted.
unfoldable pub finish_init : Pmm → Pmm
unfolding test_bit
finish_init s =
    let t = if not (test_bit 0 s) then reserve 0 s else s in
    record t { used_pages = u32 (t.max_pages + 2 ^ 32 - t.free_pages) }

-- `pmm_init` once the bitmap's place is known.
unfoldable pub init_at : List Region → ℕ → Option ℕ → Pmm → ℕ × Pmm
unfolding free_regions reserve_range finish_init
init_at regions max_pages none s = (status_error, record s { max_pages = max_pages })
init_at regions max_pages (some phys) s =
    let bytes = (max_pages + 7) / 8 in
    let t =
      free_regions regions (record s { max_pages = max_pages; bitmap = full_bitmap max_pages }) in
    (
      status_ok,
      finish_init (reserve_range ((bytes + page_size - 1) / page_size) (phys / page_size) t),
    )

unfoldable pub pmm_init : List Region → Pmm → ℕ × Pmm
unfolding highest_end bitmap_base init_at
pmm_init regions s =
    let top = highest_end 0 regions in
    let max_pages = top / page_size in
    if top == 0
    then (status_error, s)
    else init_at regions max_pages (bitmap_base ((max_pages + 7) / 8) regions) s

-- The inner loop of `pmm_reclaim_bootloader`: `n` pages from `addr` on, those below 1 MiB skipped.
unfoldable pub reclaim_range : ℕ → ℕ → Pmm → Pmm
unfolding pmm_free
reclaim_range zero addr s = s
reclaim_range (suc n) addr s =
    reclaim_range n (addr + page_size) (if ltb addr mib then s else (pmm_free addr s).1)

-- One round of the loop over the regions.
unfoldable pub reclaim_region : Region → Pmm → Pmm
unfolding reclaim_range
reclaim_region r s =
    let base = round_up r.base in
    let top = round_down (region_end r) in
    if is_reclaimable r.kind && not (r.length == 0)
    then reclaim_range (pages_between base top) base s
    else s

unfoldable pub pmm_reclaim_bootloader : List Region → Pmm → Pmm
unfolding reclaim_region
pmm_reclaim_bootloader [] s = s
pmm_reclaim_bootloader (r ∷ rs) s = pmm_reclaim_bootloader rs (reclaim_region r s)
