-- ===== src/Vmm/UserSpace.antt =====
-- vmm.c: `vmm_free_user_space`, its four loops from the inside.
use taavi_os.Common.{ℕ, zero, suc, Option, none, some, if◌then◌else◌}
use taavi_os.Config.{status_ok, status_error}
use taavi_os.Pmm.Alloc.{pmm_free}
use taavi_os.Paging.Entry.{page_present, has, frame}
use taavi_os.Paging.Space.{Space, write_entry}

-- `pmm_free(table[index] & PAGE_FRAME_MASK); table[index] = 0;`
unfoldable pub drop_entry : ℕ → ℕ → Space → Space
drop_entry table index s = record {
  mem = write_entry table index 0 s.mem;
  pmm = (pmm_free (frame (s.mem table index)) s.pmm).1;
}

-- The body of a loop; `inner` is the loop inside, on the table of the entry.
unfoldable pub free_entry : ℕ → (ℕ → Space → Space) → ℕ → Space → Space
unfolding drop_entry
free_entry index inner table s =
    if has page_present (s.mem table index)
    then drop_entry table index (inner (frame (s.mem table index)) s)
    else s

-- A loop over the `n` entries from `index` on
unfoldable pub free_entries : ℕ → ℕ → (ℕ → Space → Space) → ℕ → Space → Space
unfolding free_entry
free_entries zero index inner table s = s
free_entries (suc n) index inner table s =
    free_entries n (suc index) inner table (free_entry index inner table s)

unfoldable pub free_table : ℕ → Space → Space
unfolding free_entries
free_table = free_entries 512 0 (λ page s. s)

unfoldable pub free_directory : ℕ → Space → Space
unfolding free_table
free_directory = free_entries 512 0 free_table

unfoldable pub free_pointers : ℕ → Space → Space
unfolding free_directory
free_pointers = free_entries 512 0 free_directory

-- `vmm_free_user_space`; `none` stands for a NULL directory.
unfoldable pub vmm_free_user_space : Option ℕ → Space → ℕ × Space
unfolding free_pointers
vmm_free_user_space none s = (status_error, s)
vmm_free_user_space (some dir) s = (status_ok, free_entries 256 0 free_pointers dir s)
