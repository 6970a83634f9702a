-- ===== src/Paging/HugeLaws.antt =====
-- What `paging_map_huge` does to every address.
use taavi_os.Common.{ℕ, ◌+◌, ◌%◌, ◌<◌, ◌≡◌, ◌⊎◌, true, false, none, some, if◌then◌else◌}
use taavi_os.Config.{status_ok, status_error}
use taavi_os.Paging.Entry.{page_present, has, pd_index, huge_page_size}
use taavi_os.Paging.Space.{Space}
use taavi_os.Paging.Walk.{table_at}
use taavi_os.Paging.WalkLaws.{directory_path, translate}
use taavi_os.Paging.Kept.{Grown, Kept}
use taavi_os.Paging.MapLaws.{is_mappable}
use taavi_os.Paging.HugeLeaf.{same_huge_page}

-- The page of 2 MiB at `virt`, which had no entry, leads to the one at `phys`, and every other address
-- where it did.
pub record MappedHuge (dir virt phys : ℕ) (s s' : Space) : Type 0 where
  pub grown : Grown dir s s'
  pub before : translate dir virt s.mem ≡ none
  pub mapped :
      (w : ℕ)
      → translate dir w s'.mem ≡ (
          if same_huge_page virt w then some (phys + w % huge_page_size) else translate dir w s.mem)

-- The page directory of the address has an entry for it.
abbrev pub Occupied : ℕ → ℕ → Space → Type 0
Occupied dir virt s =
    (pd : ℕ) × (table_at s.mem dir (directory_path virt) ≡ some pd)
    × (has page_present (s.mem pd (pd_index virt)) ≡ true)

abbrev pub HugeResult : ℕ → ℕ → ℕ → Space → ℕ × Space → Type 0
HugeResult dir virt phys s res =
    ((res.0 ≡ status_error)
      × Kept dir s res.1
      × ((is_mappable virt phys ≡ false) ⊎ ((s.pmm.free_pages < 2) ⊎ Occupied dir virt res.1)))
    ⊎ ((res.0 ≡ status_ok) × MappedHuge dir virt phys s res.1)
