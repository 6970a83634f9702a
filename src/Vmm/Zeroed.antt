-- ===== src/Vmm/Zeroed.antt =====
-- A page that `pmm_alloc` gave, filled with zeros.
use taavi_os.Common.{ℕ, ◌*◌, ◌≤◌, ◌≡◌, ◌≢◌, refl, sym, ap, ◌∙◌, arith, some, List, length}
use taavi_os.Pmm.Pages.{Pmm, page_size, test_bit}
use taavi_os.Pmm.Valid.{Granted}
use taavi_os.Paging.Space.{Space, zero_page}
use taavi_os.Paging.Walk.{table_at, IsTree}
use taavi_os.Paging.Kept.{Kept}
use taavi_os.Paging.Agree.{agree-table_at, agree-Kept}

module _ (dir : ℕ) (s : Space) (p : ℕ) (manager : Pmm) (tree : IsTree dir s)
    (granted : Granted s.pmm p manager) where
  abbrev pub zeroed : Space
  zeroed = record { mem = zero_page (p * page_size) s.mem; pmm = manager }

  no_table_before :
      (path : List ℕ) (a : ℕ)
      → length path ≤ 3
      → table_at s.mem dir path ≡ some a
      → a ≢ p * page_size
  no_table_before path a l e f =
      let (n, g, lt, t) = tree.in_use path a l e in
      let same : n ≡ p = omega (arith, g, f) in
      ground (arith, t, granted.was_free, ap (λ x. test_bit x s.pmm) same)

  agree :
      (path : List ℕ) (a j : ℕ)
      → length path ≤ 3
      → table_at s.mem dir path ≡ some a
      → zeroed.mem a j ≡ s.mem a j
  agree path a j l e = ground (arith, no_table_before path a l e)

  pub zeroed-Kept : Kept dir s zeroed
  zeroed-Kept =
      agree-Kept dir s zeroed agree tree granted.valid
        (λ n lt t. ground (arith, granted.taken n lt, t))
        (λ n j lt t.
          let apart : n * page_size ≢ p * page_size = λ e.
            let f : n ≡ p = omega (arith, e) in
            ground (arith, t, granted.was_free, ap (λ x. test_bit x s.pmm) f) in
          ground (arith, apart))

  pub zeroed-no_table :
      (path : List ℕ) → length path ≤ 3 → table_at zeroed.mem dir path ≢ some (p * page_size)
  zeroed-no_table path l e =
      no_table_before path (p * page_size) l (sym (agree-table_at dir s zeroed agree path l) ∙ e)
        refl
