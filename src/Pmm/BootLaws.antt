-- ===== src/Pmm/BootLaws.antt =====
-- What `pmm_reclaim_bootloader` keeps.
use taavi_os.Common.{
  ℕ, zero, suc, ◌+◌, not, ◌&&◌, List, [], ◌∷◌, ltb, ◌==◌, if◌then◌else◌, if_either, Bool-cases, inl,
  inr, arith,
}
use taavi_os.Pmm.Pages.{Pmm, page_size}
use taavi_os.Pmm.Alloc.{pmm_free}
use taavi_os.Pmm.Boot.{
  Region, region_end, round_up, round_down, pages_between, is_reclaimable, mib, reclaim_range,
  reclaim_region, pmm_reclaim_bootloader,
}
use taavi_os.Pmm.Valid.{IsValid}
use taavi_os.Pmm.AllocLaws.{free-IsValid}

reclaim_page-IsValid :
    (addr : ℕ) (s : Pmm) → IsValid s → IsValid (if ltb addr mib then s else (pmm_free addr s).1)
reclaim_page-IsValid addr s v = elim (Bool-cases (ltb addr mib)) [
  | inl low ↦ rw low v
  | inr high ↦ rw high (free-IsValid s addr v (ground arith))
]

reclaim_range-IsValid : (n addr : ℕ) (s : Pmm) → IsValid s → IsValid (reclaim_range n addr s)
unfolding reclaim_range
reclaim_range-IsValid zero addr s v = v
reclaim_range-IsValid (suc n) addr s v =
    reclaim_range-IsValid n (addr + page_size) _ (reclaim_page-IsValid addr s v)

reclaim_region-IsValid : (r : Region) (s : Pmm) → IsValid s → IsValid (reclaim_region r s)
unfolding reclaim_region
reclaim_region-IsValid r s v =
    if_either IsValid (is_reclaimable r.kind && not (r.length == 0)) _ s
      (reclaim_range-IsValid (pages_between (round_up r.base) (round_down (region_end r)))
        (round_up r.base) s v)
      v

-- Whatever memory map the boot loader gives, also one with regions that overlap, lie below 1 MiB or
-- beyond the bitmap, `pmm_reclaim_bootloader` keeps a valid manager valid.
pub reclaim_bootloader-IsValid :
    (regions : List Region) (s : Pmm) → IsValid s → IsValid (pmm_reclaim_bootloader regions s)
unfolding pmm_reclaim_bootloader
reclaim_bootloader-IsValid [] s v = v
reclaim_bootloader-IsValid (r ∷ rs) s v =
    reclaim_bootloader-IsValid rs (reclaim_region r s) (reclaim_region-IsValid r s v)
