-- ===== src/Vmm/FreeLaws.antt =====
-- `vmm_free` takes away the pages that `vmm_alloc` laid.
use taavi_os.Common.{
  ℕ, zero, suc, ◌+◌, ◌%◌, ◌^◌, ◌<◌, ◌≤◌, ◌≡◌, ◌≢◌, inl, inr, refl, subst, true, arith, some,
}
use taavi_os.Config.{status_ok}
use taavi_os.Pmm.Pages.{page_size}
use taavi_os.Pmm.Boot.{u64}
use taavi_os.Paging.Entry.{frame}
use taavi_os.Paging.Space.{Space}
use taavi_os.Paging.Walk.{IsTree}
use taavi_os.Paging.Kept.{Kept}
use taavi_os.Vmm.Pages.{pages_of, free_page, free_pages, vmm_alloc, vmm_free}
use taavi_os.Vmm.Held.{nth_page, Laid}
use taavi_os.Vmm.Drop.{free_page-Dropped, drop-Laid}
use taavi_os.Vmm.Rollback.{between, pages-apart, none_left-Kept}
use taavi_os.Vmm.AllocLaws.{vmm_alloc-AllocOutcome}

free_pages-Kept :
    (n low high dir start : ℕ) (s₀ s : Space)
    → start % 4096 ≡ 0
    → low + n ≡ high
    → nth_page start high < 2 ^ 64
    → high < 2 ^ 36
    → Laid dir start (between low high) s₀ s
    → Kept dir s₀ (free_pages n dir (nth_page start low) s)
unfolding free_pages
free_pages-Kept zero low high dir start s₀ s aligned e top few laid =
    let same : high ≡ low = omega (arith, e) in
    none_left-Kept dir start low s₀ s (subst (λ x. Laid dir start (between low x) s₀ s) same laid)
free_pages-Kept (suc n) low high dir start s₀ s aligned e top few laid =
    let next : u64 (nth_page start low + page_size) ≡ nth_page start (suc low) =
      omega (arith, e, top) in
    let here : between low high low ≡ true = ground (arith, e) in
    rw next (
      free_pages-Kept n (suc low) high dir start s₀ (free_page dir (nth_page start low) s) aligned
        (omega (arith, e)) top few
        (drop-Laid dir start (between low high) (between (suc low) high) low s₀ s
          (free_page dir (nth_page start low) s) laid here
          (free_page-Dropped dir (nth_page start low) (laid.page low) s₀ s laid.grown.tree
            (laid.holds low here) (omega (arith, aligned)))
          (λ k f ne.
            pages-apart start k low aligned (ground (arith, f, few)) (omega (arith, e, few)) ne)
          (λ k. ground arith)))

-- `vmm_free` of a range that is laid
pub vmm_free-Laid :
    (dir virt size : ℕ) (s₀ s : Space)
    → size ≤ 2 ^ 44
    → virt % 4096 ≡ 0
    → virt + size + 4096 ≤ 2 ^ 64
    → Laid dir virt (between 0 (pages_of size)) s₀ s
    → ((vmm_free (some dir) virt size s).0 ≡ status_ok)
      × Kept dir s₀ (vmm_free (some dir) virt size s).1
unfolding vmm_free
vmm_free-Laid dir virt size s₀ s small aligned high laid =
    let start : nth_page virt 0 ≡ virt = omega arith in
    (
      refl,
      subst (λ x. Kept dir s₀ (free_pages (pages_of size) dir x s)) start
          (free_pages-Kept (pages_of size) 0 (pages_of size) dir virt s₀ s aligned (omega arith)
            (omega (arith, high, small)) (omega (arith, small)) laid),
    )

-- `vmm_free` after a `vmm_alloc` that returned STATUS_OK, for the same aligned range of at most 2 ^ 44
-- bytes that ends a page or more below 2 ^ 64, in a tree of tables, with flags outside of the frame: it
-- returns STATUS_OK, every address leads where it led before both, the tables are a tree, and
-- a page that was in use and is no table has its old content.
pub vmm_free-vmm_alloc :
    (dir virt size flags : ℕ) (s : Space)
    → IsTree dir s
    → frame flags ≡ 0
    → size ≢ 0
    → size ≤ 2 ^ 44
    → virt % 4096 ≡ 0
    → virt + size + 4096 ≤ 2 ^ 64
    → (vmm_alloc (some dir) virt size flags s).0 ≡ status_ok
    → ((vmm_free (some dir) virt size (vmm_alloc (some dir) virt size flags s).1).0 ≡ status_ok)
      × Kept dir s (vmm_free (some dir) virt size (vmm_alloc (some dir) virt size flags s).1).1
vmm_free-vmm_alloc dir virt size flags s tree f some_size small aligned high ok =
    elim (vmm_alloc-AllocOutcome dir virt size flags s tree f some_size small aligned high) [
      | inl (e, laid) ↦
          vmm_free-Laid dir virt size s (vmm_alloc (some dir) virt size flags s).1 small aligned
            high laid
      | inr (e, kept, why) ↦ absurd (omega (arith, e, ok))
    ]
