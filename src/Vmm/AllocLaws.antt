-- ===== src/Vmm/AllocLaws.antt =====
-- `vmm_alloc`: all pages of a range, or none.
use taavi_os.Common.{
  ℕ, zero, suc, ◌+◌, ◌*◌, ◌%◌, ◌^◌, ◌<◌, ◌≤◌, ◌≡◌, ◌≢◌, ◌⊎◌, inl, inr, refl, sym, ap, ◌∙◌, subst,
  true, false, not, ◌||◌, Bool-cases, arith, some, ◌==◌,
}
use taavi_os.Config.{status_ok, status_error}
use taavi_os.Pmm.Pages.{Pmm, page_size, test_bit}
use taavi_os.Pmm.Alloc.{pmm_alloc}
use taavi_os.Pmm.Valid.{Granted, count_all, used}
use taavi_os.Pmm.Boot.{u64}
use taavi_os.Pmm.AllocLaws.{alloc-AllocResult}
use taavi_os.Paging.Entry.{frame, is_address_viable, is_canonical}
use taavi_os.Paging.EntryLaws.{frame-page}
use taavi_os.Paging.Space.{Space, zero_page, paging_map}
use taavi_os.Paging.Walk.{IsTree}
use taavi_os.Paging.WalkLaws.{translate}
use taavi_os.Paging.Kept.{Kept}
use taavi_os.Paging.Leaf.{same_page}
use taavi_os.Paging.MapLaws.{Finds, is_mappable, Mapped, paging_map-MapResult}
use taavi_os.Vmm.Pages.{pages_of, alloc_pages, vmm_alloc}
use taavi_os.Vmm.Held.{grown-HoldsPage, one-HoldsPage, nth_page, Laid, Kept-Laid, add-Laid}
use taavi_os.Vmm.Rollback.{between, pages-apart, none-Laid, rollback-Kept}
use taavi_os.Vmm.Zeroed.{zeroed, zeroed-Kept, zeroed-no_table}

-- Why a range of `n` pages cannot be allocated: too few pages are free, for the pages and up to three
-- tables for each, or one of its addresses is not canonical or leads somewhere already.
abbrev pub Refused : ℕ → ℕ → ℕ → Space → Type 0
Refused dir start n s =
    (s.pmm.free_pages < 4 * n)
    ⊎ ((k : ℕ) × (k < n)
        × ((is_canonical (nth_page start k) ≡ false) ⊎ Finds dir (nth_page start k) s))

abbrev pub AllocOutcome : ℕ → ℕ → ℕ → Space → ℕ × Space → Type 0
AllocOutcome dir start n s₀ res =
    ((res.0 ≡ status_ok) × Laid dir start (between 0 n) s₀ res.1)
    ⊎ ((res.0 ≡ status_error) × Kept dir s₀ res.1 × Refused dir start n s₀)

-- What is known after `done` pages.
record Progress (dir start done n : ℕ) (s₀ s : Space) : Type 0 where
  pub laid : Laid dir start (between 0 done) s₀ s
  pub spent : s₀.pmm.free_pages ≤ s.pmm.free_pages + 4 * done
  pub aligned : start % 4096 ≡ 0
  pub high : nth_page start (done + n) < 2 ^ 64
  pub few : done + n < 2 ^ 36

module _ (n done dir start flags p : ℕ) (s₀ s : Space) (manager : Pmm)
    (known : Progress dir start done (suc n) s₀ s) (nonzero : p ≢ 0)
    (granted : Granted s.pmm p manager) where
  abbrev s' : Space
  s' = zeroed dir s p manager known.laid.grown.tree granted

  small : p < 2 ^ 32
  small = omega (arith, granted.inside, known.laid.grown.tree.manager.small)

  kept : Kept dir s s'
  kept = zeroed-Kept dir s p manager known.laid.grown.tree granted

  laid' : Laid dir start (between 0 done) s₀ s'
  laid' = Kept-Laid dir start (between 0 done) s₀ s known.laid s' kept

  apart :
      (k : ℕ) → between 0 done k ≡ true → same_page (nth_page start k) (nth_page start done) ≡ false
  apart k e =
      pages-apart start k done known.aligned (ground (arith, e, known.few))
        (omega (arith, known.few)) (ground (arith, e))

  -- Before the next page is mapped, its address leads where it led at the start.
  next_before :
      translate dir (nth_page start done) s'.mem ≡ translate dir (nth_page start done) s₀.mem
  next_before = laid'.outside (nth_page start done) apart

  next_Progress :
      (s'' : Space)
      → Mapped dir (nth_page start done) (p * page_size) s' s''
      → Progress dir start (suc done) n s₀ s''
  next_Progress s'' m = record {
    laid =
        add-Laid dir start (between 0 done) s₀ s' laid' (between 0 (suc done)) done p s'' m small
          nonzero was_free (ground (arith, granted.taken p small))
          (zeroed-no_table dir s p manager known.laid.grown.tree granted) (λ j. ground arith) other
          apart (λ k. ground arith);
    spent = omega (arith, known.spent, m.spent, granted.free_one_less);
    aligned = known.aligned;
    high = omega (arith, known.high);
    few = omega (arith, known.few);
  }
    where
      was_free : test_bit p s₀.pmm ≡ false
      was_free = elim (Bool-cases (test_bit p s₀.pmm)) [
        | inr e ↦ e
        | inl e ↦
            let t = known.laid.grown.uses p small e in
            let g = granted.was_free in absurd (cc (t, g))
      ]

      other : (k : ℕ) → between 0 done k ≡ true → laid'.page k ≢ p
      other k e f =
          let old = known.laid.holds k e in
          let moved =
            grown-HoldsPage dir s₀ s s' (nth_page start k) (known.laid.page k) old kept.grown
              (λ w y. kept.same w) in
          let q : known.laid.page k ≡ p =
            one-HoldsPage dir s₀ s' (nth_page start k) (known.laid.page k) (laid'.page k) moved
              (laid'.holds k e)
            ∙ f in
          let t = old.used in
          let g = granted.was_free in absurd (cc (t, ap (λ x. test_bit x s.pmm) q, g))

  map-Refused :
      ((is_mappable (nth_page start done) (p * page_size) ≡ false)
        ⊎ ((s'.pmm.free_pages < 3) ⊎ Finds dir (nth_page start done) s'))
      → Refused dir start (done + suc n) s₀
  map-Refused (inl e) =
      let v : is_address_viable (nth_page start done) ≡ true = ground (arith, known.aligned) in
      let w : is_address_viable (p * page_size) ≡ true = ground arith in
      inr (done, omega arith, inl (rw (v, w) at e))
  map-Refused (inr (inl e)) = inl (omega (arith, e, known.spent, granted.free_one_less))
  map-Refused (inr (inr (phys, e))) = inr (done, omega arith, inr (phys, sym next_before ∙ e))

alloc_pages-AllocOutcome :
    (n done dir start flags : ℕ) (s₀ s : Space)
    → frame flags ≡ 0
    → Progress dir start done n s₀ s
    → AllocOutcome dir start
        (done + n)
        s₀
        (alloc_pages n done dir start (nth_page start done) flags s)
unfolding alloc_pages
alloc_pages-AllocOutcome zero done dir start flags s₀ s f known =
    let e : done ≡ done + 0 = omega arith in
    inl (refl, subst (λ x. Laid dir start (between 0 x) s₀ s) e known.laid)
alloc_pages-AllocOutcome (suc n) done dir start flags s₀ s f known =
    elim (alloc-AllocResult s.pmm known.laid.grown.tree.manager) [
      | inl (z, same, full) ↦
          let none_free : s.pmm.free_pages ≡ 0 =
            known.laid.grown.tree.manager.free_eq ∙ count_all s.pmm.max_pages (used s.pmm) full in
          rw (z, same)
            (inr (
              refl,
              rollback-Kept done dir start s₀ s known.aligned (omega (arith, known.few)) known.laid,
              inl (omega (arith, none_free, known.spent)),
            ))
      | inr (p, address, nonzero, granted) ↦
          let manager = (pmm_alloc s.pmm).1 in
          let s' : Space = record { mem = zero_page (p * page_size) s.mem; pmm = manager } in
          let no_null : (p * page_size == 0) ≡ false = ground arith in
          let plain =
            frame-page p
              (omega (arith, small n done dir start flags p s₀ s manager known nonzero granted)) in
          rw (address, no_null)
            (elim (paging_map-MapResult dir (nth_page start done) (p * page_size) flags s'
              (kept n done dir start flags p s₀ s manager known nonzero granted).grown.tree plain
              f) [
                | inl (e, k, why) ↦ rw e (
                    inr (
                      refl,
                      rollback-Kept done dir start s₀
                          (paging_map dir (nth_page start done) (p * page_size) flags s').1
                          known.aligned (omega (arith, known.few))
                          (Kept-Laid dir start (between 0 done) s₀ s'
                            (laid' n done dir start flags p s₀ s manager known nonzero granted)
                            (paging_map dir (nth_page start done) (p * page_size) flags s').1 k),
                      map-Refused n done dir start flags p s₀ s manager known nonzero granted why,
                    ))
                | inr (e, m) ↦
                    let next : u64 (nth_page start done + page_size) ≡ nth_page start (suc done) =
                      omega (arith, known.high) in
                    let count : suc done + n ≡ done + suc n = omega arith in
                    rw (e, next)
                      (subst
                        (λ x. AllocOutcome dir start x s₀ (
                          alloc_pages n (suc done) dir start (nth_page start (suc done)) flags
                            (paging_map dir (nth_page start done) (p * page_size) flags s').1))
                        count
                        (alloc_pages-AllocOutcome n (suc done) dir start flags s₀
                          (paging_map dir (nth_page start done) (p * page_size) flags s').1 f
                          (next_Progress n done dir start flags p s₀ s manager known nonzero granted
                            (paging_map dir (nth_page start done) (p * page_size) flags s').1 m)))
              ])
    ]

-- `vmm_alloc` for an aligned range of at most 2 ^ 44 bytes that ends a page or more below 2 ^ 64, in a
-- tree of tables, with flags outside of the frame: it returns STATUS_OK, and each page of the range, which
-- led nowhere, leads to a page of its own that was free, which is
-- filled with zeros, and every other address leads where it did; or it
-- returns STATUS_ERROR and every address leads where it did, and then fewer pages were
-- free at the start than 4 for each page of the range, or an address was not canonical or led somewhere
-- already. A page that was in use and is no table keeps its content.
pub vmm_alloc-AllocOutcome :
    (dir virt size flags : ℕ) (s : Space)
    → IsTree dir s
    → frame flags ≡ 0
    → size ≢ 0
    → size ≤ 2 ^ 44
    → virt % 4096 ≡ 0
    → virt + size + 4096 ≤ 2 ^ 64
    → AllocOutcome dir virt (pages_of size) s (vmm_alloc (some dir) virt size flags s)
unfolding vmm_alloc
vmm_alloc-AllocOutcome dir virt size flags s tree f some_size small_size aligned high =
    let guard : (size == 0 || not (virt % page_size == 0)) ≡ false =
      ground (arith, some_size, aligned) in
    let start : virt ≡ nth_page virt 0 = omega arith in
    let count : 0 + pages_of size ≡ pages_of size = omega arith in
    rw guard (
      subst
        (λ x.
          AllocOutcome dir virt (pages_of size) s
            (alloc_pages (pages_of size) 0 dir virt x flags s))
        (sym start)
        (subst
          (λ x.
            AllocOutcome dir virt x s
              (alloc_pages (pages_of size) 0 dir virt (nth_page virt 0) flags s))
          count
          (alloc_pages-AllocOutcome (pages_of size) 0 dir virt flags s s f (record {
            laid = none-Laid dir virt 0 s tree;
            spent = omega arith;
            aligned = aligned;
            high = omega (arith, high, small_size);
            few = omega (arith, small_size);
          }))))
