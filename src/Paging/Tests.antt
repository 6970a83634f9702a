-- ===== src/Paging/Tests.antt =====
-- The theorems of paging at a directory without entries.
use taavi_os.Common.{◌≡◌, refl}
use taavi_os.Config.{status_ok}
use taavi_os.Pmm.Alloc.{pmm_alloc}
use taavi_os.Paging.Space.{paging_map, paging_unmap, paging_get_phys, paging_create_directory}
use taavi_os.Paging.WalkLaws.{translate, or_zero, paging_get_phys-translate}
use taavi_os.Paging.MapLaws.{MapResult, paging_map-MapResult}
use taavi_os.Paging.UnmapLaws.{UnmapResult, paging_unmap-UnmapResult, paging_unmap-paging_map}
use taavi_os.Paging.CreateLaws.{CreateResult, paging_create_directory-CreateResult}
use taavi_os.Paging.Kept.{Kept}
use taavi_os.Paging.Sample.{small_space, root, small-IsTree}

paging_map-MapResult_example :
    MapResult root 0x40_3000 0x9000 small_space (paging_map root 0x40_3000 0x9000 7 small_space)
paging_map-MapResult_example =
    paging_map-MapResult root 0x40_3000 0x9000 7 small_space small-IsTree refl refl

mapped_ok : (paging_map root 0x40_3000 0x9000 7 small_space).0 ≡ status_ok
unfolding paging_map pmm_alloc
mapped_ok = refl

paging_unmap-UnmapResult_example :
    UnmapResult root 0x40_3000 small_space (paging_unmap root 0x40_3000 small_space)
paging_unmap-UnmapResult_example = paging_unmap-UnmapResult root 0x40_3000 small_space small-IsTree

paging_unmap-paging_map_example :
    ((paging_unmap root 0x40_3000 (paging_map root 0x40_3000 0x9000 7 small_space).1).0 ≡ status_ok)
    × Kept root small_space
        (paging_unmap root 0x40_3000 (paging_map root 0x40_3000 0x9000 7 small_space).1).1
paging_unmap-paging_map_example =
    paging_unmap-paging_map root 0x40_3000 0x9000 7 small_space small-IsTree refl refl mapped_ok

paging_create_directory-CreateResult_example :
    CreateResult root small_space (paging_create_directory root small_space)
paging_create_directory-CreateResult_example =
    paging_create_directory-CreateResult root small_space small-IsTree

paging_get_phys-translate_example :
    paging_get_phys root 0x40_3123 small_space ≡ or_zero (translate root 0x40_3123 small_space.mem)
paging_get_phys-translate_example =
    paging_get_phys-translate root 0x40_3123 small_space small-IsTree
