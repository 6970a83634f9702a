-- ===== src/Vmm/Pages.antt =====
-- vmm.c: allocating and freeing the pages of a range of addresses.
use taavi_os.Common.{
  ℕ, zero, suc, ◌+◌, ◌-◌, ◌/◌, ◌%◌, not, ◌||◌, Option, none, some, ltb, ◌==◌, if◌then◌else◌,
}
use taavi_os.Config.{status_ok, status_error}
use taavi_os.Pmm.Pages.{page_size}
use taavi_os.Pmm.Boot.{u64}
use taavi_os.Pmm.Alloc.{pmm_alloc, pmm_free}
use taavi_os.Paging.Space.{Space, zero_page, paging_map, paging_unmap, paging_get_phys}

-- INVALID_PHYSICAL_PAGE
abbrev pub invalid_physical_page : ℕ
invalid_physical_page = 0xFFFF_FFFF

-- `(size + PAGE_SIZE - 1) / PAGE_SIZE`
abbrev pub pages_of : ℕ → ℕ
pages_of size = u64 (size + 4095) / 4096

-- The body of the rollback loop: the page is given back, and unmapped.
unfoldable pub undo_page : ℕ → ℕ → Space → Space
undo_page dir virt s =
    let phys = paging_get_phys dir virt s in
    let freed = record s { pmm = (pmm_free phys s.pmm).1 } in
    if phys == invalid_physical_page
    then (paging_unmap dir virt s).1
    else (paging_unmap dir virt freed).1

-- `while (virt > virt_start)`, on fuel; as many steps as there are pages are enough.
unfoldable pub rollback : ℕ → ℕ → ℕ → ℕ → Space → Space
unfolding undo_page
rollback zero dir start virt s = s
rollback (suc fuel) dir start virt s =
    let rest = rollback fuel dir start (virt - page_size) (undo_page dir (virt - page_size) s) in
    if ltb start virt then rest else s

-- The loop of `vmm_alloc` after `done` pages, with `n` pages to come.
unfoldable pub alloc_pages : ℕ → ℕ → ℕ → ℕ → ℕ → ℕ → Space → ℕ × Space
unfolding rollback
alloc_pages zero done dir start virt flags s = (status_ok, s)
alloc_pages (suc n) done dir start virt flags s =
    let (addr, pmm) = pmm_alloc s.pmm in
    let (status, mapped) =
      paging_map dir virt addr flags (record { mem = zero_page addr s.mem; pmm = pmm }) in
    let rest = alloc_pages n (suc done) dir start (u64 (virt + page_size)) flags mapped in
    if addr == 0
    then (status_error, rollback done dir start virt (record s { pmm = pmm }))
    else (if status == status_ok then rest else (status_error, rollback done dir start virt mapped))

-- `vmm_alloc`; `none` stands for a NULL directory.
unfoldable pub vmm_alloc : Option ℕ → ℕ → ℕ → ℕ → Space → ℕ × Space
unfolding alloc_pages
vmm_alloc none virt size flags s = (status_error, s)
vmm_alloc (some dir) virt size flags s =
    if size == 0 || not (virt % page_size == 0)
    then (status_error, s)
    else alloc_pages (pages_of size) 0 dir virt virt flags s

-- The body of the loop of `vmm_free`
unfoldable pub free_page : ℕ → ℕ → Space → Space
free_page dir virt s =
    let phys = paging_get_phys dir virt s in
    let unmapped = (paging_unmap dir virt s).1 in
    if phys == invalid_physical_page
    then s
    else record unmapped { pmm = (pmm_free phys unmapped.pmm).1 }

unfoldable pub free_pages : ℕ → ℕ → ℕ → Space → Space
unfolding free_page
free_pages zero dir virt s = s
free_pages (suc n) dir virt s = free_pages n dir (u64 (virt + page_size)) (free_page dir virt s)

unfoldable pub vmm_free : Option ℕ → ℕ → ℕ → Space → ℕ × Space
unfolding free_pages
vmm_free none virt size s = (status_error, s)
vmm_free (some dir) virt size s = (status_ok, free_pages (pages_of size) dir virt s)
