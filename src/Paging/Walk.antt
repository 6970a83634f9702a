-- ===== src/Paging/Walk.antt =====
-- The tables of a directory, by the indices that lead to them.
use taavi_os.Common.{
  ℕ, ◌*◌, ◌^◌, ◌<◌, ◌≤◌, ◌≡◌, true, false, not, ◌&&◌, Option, none, some, List, [], ◌∷◌, length,
  if◌then◌else◌,
}
use taavi_os.Pmm.Pages.{page_size, test_bit}
use taavi_os.Pmm.Valid as PmmValid
use taavi_os.Paging.Entry.{is_aligned, page_present, page_huge, has, frame}
use taavi_os.Paging.Space.{Space}

-- The table that an entry leads to.
abbrev pub entry_table : ℕ → Option ℕ
entry_table entry =
    if has page_present entry && not (has page_huge entry) then some (frame entry) else none

abbrev pub next_table : (ℕ → ℕ → ℕ) → ℕ → Option ℕ → Option ℕ
next_table mem i none = none
next_table mem i (some table) = entry_table (mem table i)

-- The table at the end of a path, whose last index stands first.
abbrev pub table_at : (ℕ → ℕ → ℕ) → ℕ → List ℕ → Option ℕ
table_at mem dir [] = some dir
table_at mem dir (i ∷ path) = next_table mem i (table_at mem dir path)

-- The tables of a directory down to the page tables are pages that are in use, each one at one place
-- only, the two upper levels have no huge entries, and those of a page directory are aligned to 2 MiB.
pub record IsTree (dir : ℕ) (s : Space) : Type 0 where
  pub manager : PmmValid.IsValid s.pmm
  pub one_place :
      (p q : List ℕ) (a : ℕ)
      → length p ≤ 3
      → length q ≤ 3
      → table_at s.mem dir p ≡ some a
      → table_at s.mem dir q ≡ some a
      → p ≡ q
  pub in_use :
      (p : List ℕ) (a : ℕ)
      → length p ≤ 3
      → table_at s.mem dir p ≡ some a
      → (n : ℕ) × (a ≡ n * page_size) × (n < 2 ^ 32) × (test_bit n s.pmm ≡ true)
  pub no_huge :
      (p : List ℕ) (a i : ℕ)
      → length p ≤ 1
      → table_at s.mem dir p ≡ some a
      → has page_present (s.mem a i) ≡ true
      → has page_huge (s.mem a i) ≡ false
  pub aligned :
      (p : List ℕ) (a i : ℕ)
      → length p ≤ 2
      → table_at s.mem dir p ≡ some a
      → has page_present (s.mem a i) ≡ true
      → is_aligned (s.mem a i) ≡ true
