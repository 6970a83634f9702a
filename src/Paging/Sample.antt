-- ===== src/Paging/Sample.antt =====
-- A manager of 64 pages, and a directory in page 1 without entries.
use taavi_os.Common.{
  ℕ, ◌*◌, ◌^◌, ◌<◌, ◌≤◌, ◌≡◌, refl, sym, ap, true, arith, none, some, some_inj, List, [], ◌∷◌,
  length,
}
use taavi_os.Pmm.Pages.{page_size, test_bit}
use taavi_os.Pmm.Valid as PmmValid
use taavi_os.Paging.Space.{Space}
use taavi_os.Paging.Walk.{table_at, next_table, IsTree}

abbrev pub small_space : Space
small_space = record {
  mem = λ b j. 0;
  pmm = record { bitmap = 3 ∷ []; max_pages = 64; used_pages = 2; free_pages = 62; last_found = 2 };
}

abbrev pub root : ℕ
root = 0x1000

small-IsValid : PmmValid.IsValid small_space.pmm
unfolding test_bit
small-IsValid = record {
  covered = omega arith;
  small = omega arith;
  last = omega arith;
  zero_used = refl;
  free_eq = refl;
  used_eq = refl;
}

no_tables : (i : ℕ) (p : List ℕ) → table_at small_space.mem root (i ∷ p) ≡ none
no_tables i [] = refl
no_tables i (j ∷ p) = ap (next_table small_space.mem i) (no_tables j p)

pub small-IsTree : IsTree root small_space
unfolding test_bit
small-IsTree = record {
  manager = small-IsValid;
  one_place = one_place;
  in_use = in_use;
  no_huge = λ p a i l e f. absurd (cc f);
  aligned = λ p a i l e f. absurd (cc f);
}
  where
    one_place :
        (p q : List ℕ) (a : ℕ)
        → length p ≤ 3
        → length q ≤ 3
        → table_at small_space.mem root p ≡ some a
        → table_at small_space.mem root q ≡ some a
        → p ≡ q
    one_place [] [] a lp lq ep eq = refl
    one_place [] (j ∷ q) a lp lq ep eq = let n = no_tables j q in absurd (cc (n, eq))
    one_place (i ∷ p) q a lp lq ep eq = let n = no_tables i p in absurd (cc (n, ep))

    in_use :
        (p : List ℕ) (a : ℕ)
        → length p ≤ 3
        → table_at small_space.mem root p ≡ some a
        → (n : ℕ) × (a ≡ n * page_size) × (n < 2 ^ 32) × (test_bit n small_space.pmm ≡ true)
    in_use [] a l e = (1, sym (some_inj e), omega arith, refl)
    in_use (i ∷ p) a l e = let n = no_tables i p in absurd (cc (n, e))
