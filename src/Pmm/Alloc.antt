-- ===== src/Pmm/Alloc.antt =====
-- pmm.c: `pmm_alloc` and `pmm_free`.
use taavi_os.Common.{
  ℕ, zero, suc, ◌+◌, ◌-◌, ◌*◌, ◌/◌, ◌%◌, ◌^◌, not, Option, none, some, ltb, leb, ◌==◌,
  if◌then◌else◌,
}
use taavi_os.Config.{status_ok, status_error, u32}
use taavi_os.Pmm.Pages.{Pmm, page_size, set_bit, clear_bit, test_bit}

-- `x++` and `x--` on a `uint32_t`
abbrev pub inc32 : ℕ → ℕ
inc32 n = u32 (n + 1)

abbrev pub dec32 : ℕ → ℕ
dec32 n = u32 (n + 2 ^ 32 - 1)

-- The search of both loops: the first free page from `page` on, `n` pages left.
unfoldable pub find_free : ℕ → ℕ → Pmm → Option ℕ
unfolding test_bit
find_free zero page s = none
find_free (suc n) page s =
    let rest = find_free n (page + 1) s in if test_bit page s then rest else some page

-- The body at a free page: its address, and the page taken.
unfoldable pub grant : ℕ → Pmm → ℕ × Pmm
grant page s = (
  page * page_size % 2 ^ 64,
  record (set_bit page s) {
    used_pages = inc32 s.used_pages;
    free_pages = dec32 s.free_pages;
    last_found = u32 (page + 1);
  },
)

-- What the second loop found.
unfoldable pub grant_second : Option ℕ → Pmm → ℕ × Pmm
unfolding grant
grant_second none s = (0, s)
grant_second (some page) s = grant page s

-- What the first loop found.
unfoldable pub grant_first : Option ℕ → Pmm → ℕ × Pmm
unfolding grant find_free grant_second
grant_first none s = grant_second (find_free s.last_found 0 s) s
grant_first (some page) s = grant page s

unfoldable pub pmm_alloc : Pmm → ℕ × Pmm
unfolding find_free grant_first
pmm_alloc s = grant_first (find_free (s.max_pages - s.last_found) s.last_found s) s

-- The end of `pmm_free`, at a page that is in use.
unfoldable pub release : ℕ → Pmm → Pmm
release page s = record (clear_bit page s) {
  used_pages = dec32 s.used_pages;
  free_pages = inc32 s.free_pages;
  last_found = if ltb page s.last_found then u32 page else s.last_found;
}

unfoldable pub pmm_free : ℕ → Pmm → ℕ × Pmm
unfolding test_bit release
pmm_free phys s =
    if not (phys % page_size == 0)
    then (status_error, s)
    else (if leb s.max_pages (phys / page_size)
        then (status_error, s)
        else (if not (test_bit (phys / page_size) s)
            then (status_ok, s)
            else (status_ok, release (phys / page_size) s)))
