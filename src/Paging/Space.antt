-- ===== src/Paging/Space.antt =====
-- paging.c: the tables in memory, and the operations on them.
use Prim.Native.Nat.{bit_or}
use taavi_os.Common.{
  ℕ, ◌+◌, ◌%◌, Bool, true, false, not, ◌&&◌, ◌||◌, Option, none, some, List, [], ◌∷◌, leb, ◌==◌,
  if◌then◌else◌,
}
use taavi_os.Config.{status_ok, status_error}
use taavi_os.Pmm.Pages.{Pmm}
use taavi_os.Pmm.Alloc.{pmm_alloc}
use taavi_os.Paging.Entry.{
  page_present, page_rw, page_user, page_huge, page_user_rw, huge_page_size, has, frame, pml4_index,
  pdp_index, pd_index, pt_index, is_address_viable, is_canonical,
}

-- Physical memory, as the words of 64 bits of each page, and the manager of its pages. A pointer to a
-- table stands for the physical address of its page: `phys_to_virt` adds a constant.
pub record Space : Type 0 where
  pub mem : ℕ → ℕ → ℕ
  pub pmm : Pmm

-- `table[index] = entry`
abbrev pub write_entry : ℕ → ℕ → ℕ → (ℕ → ℕ → ℕ) → ℕ → ℕ → ℕ
write_entry table index entry mem b j = if b == table && j == index then entry else mem b j

-- `memset(phys_to_virt(page), 0, PAGE_SIZE)`
abbrev pub zero_page : ℕ → (ℕ → ℕ → ℕ) → ℕ → ℕ → ℕ
zero_page page mem b j = if b == page then 0 else mem b j

-- `flags & PAGE_USER ? PAGE_USER_RW : PAGE_PRESENT | PAGE_RW`
abbrev pub table_flags : ℕ → ℕ
table_flags flags = if has page_user flags then page_user_rw else bit_or page_present page_rw

-- The part of `__search_or_create_table` after pmm_alloc has given `page`.
unfoldable pub new_table : ℕ → ℕ → ℕ → ℕ → Space → Option ℕ × Space
new_table table index flags page s =
    let entry = bit_or page (table_flags flags) in
    if page == 0 then (none, s) else (
      some (frame entry),
      record s { mem = write_entry table index entry (zero_page page s.mem) },
    )

-- The entry after PAGE_USER has been set where the flags want it.
abbrev pub user_entry : ℕ → ℕ → ℕ
user_entry flags entry =
    if has page_user flags && not (has page_user entry) then bit_or entry page_user else entry

-- `__search_or_create_table`; writing the entry back unchanged changes nothing.
unfoldable pub search_or_create_table : ℕ → ℕ → Bool → ℕ → Space → Option ℕ × Space
unfolding new_table
search_or_create_table table index create flags s =
    let entry = user_entry flags (s.mem table index) in
    let (page, pmm) = pmm_alloc s.pmm in
    if has page_present (s.mem table index)
    then (if has page_huge (s.mem table index)
        then (none, s)
        else (some (frame entry), record s { mem = write_entry table index entry s.mem }))
    else (if create then new_table table index flags page (record s { pmm = pmm }) else (none, s))

-- One step of a descent, and the steps after it; a NULL ends it.
unfoldable pub descend_on : Option ℕ × Space → (ℕ → Space → Option ℕ × Space) → Option ℕ × Space
descend_on (none, s) rest = (none, s)
descend_on (some table, s) rest = rest table s

-- The descent along the indices, the first one first.
unfoldable pub descend : List ℕ → Bool → ℕ → ℕ → Space → Option ℕ × Space
unfolding search_or_create_table descend_on
descend [] create flags table s = (some table, s)
descend (i ∷ is) create flags table s =
    descend_on (search_or_create_table table i create flags s) (descend is create flags)

-- The end of `paging_map`, at the page table.
unfoldable pub map_entry : ℕ → ℕ → Option ℕ × Space → ℕ × Space
map_entry index entry (none, s) = (status_error, s)
map_entry index entry (some table, s) =
    if has page_present (s.mem table index)
    then (status_error, s)
    else (status_ok, record s { mem = write_entry table index entry s.mem })

unfoldable pub paging_map : ℕ → ℕ → ℕ → ℕ → Space → ℕ × Space
unfolding descend map_entry
paging_map dir virt phys flags s =
    let entry = bit_or (bit_or phys flags) page_present in
    if not (is_address_viable virt) || not (is_address_viable phys) || not (is_canonical virt)
    then (status_error, s)
    else map_entry (pt_index virt) entry
        (descend (pml4_index virt ∷ pdp_index virt ∷ pd_index virt ∷ []) true flags dir s)

unfoldable pub paging_map_huge : ℕ → ℕ → ℕ → ℕ → Space → ℕ × Space
unfolding descend map_entry
paging_map_huge dir virt phys flags s =
    let entry = bit_or (bit_or (bit_or phys flags) page_present) page_huge in
    if not (is_address_viable virt) || not (is_address_viable phys) || not (is_canonical virt)
    then (status_error, s)
    else map_entry (pd_index virt) entry
        (descend (pml4_index virt ∷ pdp_index virt ∷ []) true flags dir s)

-- The end of `paging_unmap`, at the page table.
unfoldable pub unmap_entry : ℕ → Option ℕ × Space → ℕ × Space
unmap_entry index (none, s) = (status_error, s)
unmap_entry index (some table, s) =
    if has page_present (s.mem table index)
    then (status_ok, record s { mem = write_entry table index 0 s.mem })
    else (status_error, s)

unfoldable pub paging_unmap : ℕ → ℕ → Space → ℕ × Space
unfolding descend unmap_entry
paging_unmap dir virt s =
    if not (is_address_viable virt)
    then (status_error, s)
    else unmap_entry (pt_index virt)
        (descend (pml4_index virt ∷ pdp_index virt ∷ pd_index virt ∷ []) false 0 dir s)

-- The last step of `paging_get_phys`, in the page table.
abbrev pub phys_in_table : ℕ → ℕ → Space → ℕ
phys_in_table virt table s =
    let entry = s.mem table (pt_index virt) in
    if has page_present entry then frame entry + virt % 4096 else 0

-- The step before, in the page directory, where an entry may be a page of 2 MiB.
abbrev pub phys_in_directory : ℕ → ℕ → Space → ℕ
phys_in_directory virt table s =
    let entry = s.mem table (pd_index virt) in
    if has page_present entry
    then (if has page_huge entry
        then frame entry + virt % huge_page_size
        else phys_in_table virt (frame entry) s)
    else 0

-- A step above that follows an entry.
abbrev pub phys_below : ℕ → (ℕ → ℕ) → ℕ
phys_below entry rest = if has page_present entry then rest (frame entry) else 0

unfoldable pub paging_get_phys : ℕ → ℕ → Space → ℕ
paging_get_phys dir virt s =
    phys_below (s.mem dir (pml4_index virt))
      (λ pdp. phys_below (s.mem pdp (pdp_index virt)) (λ pd. phys_in_directory virt pd s))

-- `paging_create_directory`: a new directory with the upper half of `kernel_page_dir`, `none` for NULL.
unfoldable pub paging_create_directory : ℕ → Space → Option ℕ × Space
paging_create_directory kernel_page_dir s =
    let (page, pmm) = pmm_alloc s.pmm in
    if page == 0 then (none, record s { pmm = pmm }) else (
      some page,
      record {
        mem = λ b j.
            if b == page && leb 256 j
            then zero_page page s.mem kernel_page_dir j
            else zero_page page s.mem b j;
        pmm = pmm;
      },
    )
