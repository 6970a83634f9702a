-- ===== src/Vmm/Rollback.antt =====
-- The pages of a range, and the rollback of `vmm_alloc`, which takes all of them away.
use taavi_os.Common.{
  ℕ, zero, suc, ◌+◌, ◌-◌, ◌/◌, ◌%◌, ◌^◌, ◌<◌, ◌≡◌, ◌≢◌, refl, Bool, true, false, ◌&&◌, arith, leb,
  ltb,
}
use taavi_os.Pmm.Pages.{page_size}
use taavi_os.Paging.Space.{Space}
use taavi_os.Paging.Walk.{IsTree}
use taavi_os.Paging.Kept.{refl-Grown, Kept}
use taavi_os.Paging.Leaf.{same_page}
use taavi_os.Vmm.Pages.{undo_page, rollback}
use taavi_os.Vmm.Held.{nth_page, Laid}
use taavi_os.Vmm.Drop.{undo_page-Dropped, drop-Laid}

-- The numbers from `low` on, below `high`
abbrev pub between : ℕ → ℕ → ℕ → Bool
between low high k = leb low k && ltb k high

pub pages-apart :
    (start j k : ℕ)
    → start % 4096 ≡ 0
    → j < 2 ^ 36
    → k < 2 ^ 36
    → j ≢ k
    → same_page (nth_page start j) (nth_page start k) ≡ false
pages-apart start j k a lj lk ne =
    let f : nth_page start j / 4096 ≡ start / 4096 + j = omega (arith, a) in
    let g : nth_page start k / 4096 ≡ start / 4096 + k = omega (arith, a) in
    rw (f, g) (ground (arith, lj, lk, ne))

pub none-Laid : (dir start n : ℕ) (s₀ : Space) → IsTree dir s₀ → Laid dir start (between n n) s₀ s₀
none-Laid dir start n s₀ tree = record {
  grown = refl-Grown dir s₀ tree;
  page = λ k. 0;
  holds = λ k e. absurd (ground (arith, e));
  distinct = λ j k e f g. absurd (ground (arith, e));
  outside = λ w h. refl;
}

pub none_left-Kept :
    (dir start n : ℕ) (s₀ s : Space) → Laid dir start (between n n) s₀ s → Kept dir s₀ s
none_left-Kept dir start n s₀ s laid = record {
  grown = laid.grown;
  same = λ w. laid.outside w (λ k e. absurd (ground (arith, e)));
}

-- The rollback takes all pages away.
pub rollback-Kept :
    (n dir start : ℕ) (s₀ s : Space)
    → start % 4096 ≡ 0
    → n < 2 ^ 36
    → Laid dir start (between 0 n) s₀ s
    → Kept dir s₀ (rollback n dir start (nth_page start n) s)
unfolding rollback
rollback-Kept zero dir start s₀ s aligned lt laid = none_left-Kept dir start 0 s₀ s laid
rollback-Kept (suc n) dir start s₀ s aligned lt laid =
    let below : ltb start (nth_page start (suc n)) ≡ true = ground arith in
    let back : nth_page start (suc n) - page_size ≡ nth_page start n = omega arith in
    let here : between 0 (suc n) n ≡ true = ground arith in
    rw (below, back)
      (rollback-Kept n dir start s₀ (undo_page dir (nth_page start n) s) aligned (omega (arith, lt))
        (drop-Laid dir start (between 0 (suc n)) (between 0 n) n s₀ s
          (undo_page dir (nth_page start n) s) laid here
          (undo_page-Dropped dir (nth_page start n) (laid.page n) s₀ s laid.grown.tree
            (laid.holds n here) (omega (arith, aligned)))
          (λ k e ne. pages-apart start k n aligned (ground (arith, e, lt)) (omega (arith, lt)) ne)
          (λ k. ground arith)))
