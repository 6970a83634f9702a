-- ===== src/Pmm/Tests.antt =====
-- The theorems of the physical memory manager at a memory of four pages.
use taavi_os.Common.{◌≡◌, refl, [], ◌∷◌, arith}
use taavi_os.Pmm.Pages.{Pmm, test_bit}
use taavi_os.Pmm.Alloc.{pmm_alloc, pmm_free}
use taavi_os.Pmm.Valid.{IsValid, AllocResult}
use taavi_os.Pmm.AllocLaws.{alloc-AllocResult, FreeResult, free-FreeResult}

-- Pages 0 and 1 are in use, pages 2 and 3 are free.
abbrev half : Pmm
half = record { bitmap = 3 ∷ []; max_pages = 4; used_pages = 2; free_pages = 2; last_found = 1 }

half-IsValid : IsValid half
unfolding test_bit
half-IsValid = record {
  covered = omega arith;
  small = omega arith;
  last = omega arith;
  zero_used = refl;
  free_eq = refl;
  used_eq = refl;
}

alloc-AllocResult_example : AllocResult half (pmm_alloc half)
alloc-AllocResult_example = alloc-AllocResult half half-IsValid

half_alloc : (pmm_alloc half).0 ≡ 8192
unfolding pmm_alloc test_bit
half_alloc = refl

free-FreeResult_example : FreeResult half 4096 (pmm_free 4096 half)
free-FreeResult_example = free-FreeResult half 4096 half-IsValid (omega arith)
