-- ===== src/Vmm/Drop.antt =====
-- Taking a page away from a range: it is given back, and its address unmapped, in either order.
use taavi_os.Common.{
  ℕ, ◌+◌, ◌*◌, ◌%◌, ◌^◌, ◌<◌, ◌≤◌, ◌≡◌, ◌≢◌, inl, inr, refl, sym, ap, ◌∙◌, Bool, true, false, not,
  ◌&&◌, Bool-cases, arith, none, some, List, length, ◌==◌, if◌then◌else◌,
}
use taavi_os.Pmm.Pages.{Pmm, page_size, test_bit}
use taavi_os.Pmm.Alloc.{pmm_free}
use taavi_os.Pmm.AllocLaws.{free-FreeResult}
use taavi_os.Pmm.Valid as PmmValid
use taavi_os.Paging.Space.{Space, paging_unmap, paging_get_phys}
use taavi_os.Paging.Walk.{table_at, IsTree}
use taavi_os.Paging.WalkLaws.{table_path, translate, or_zero, paging_get_phys-translate}
use taavi_os.Paging.Kept.{IsNoTable}
use taavi_os.Paging.Agree.{agree-IsTree}
use taavi_os.Paging.Leaf.{same_page}
use taavi_os.Paging.MapLaws.{same_page_refl}
use taavi_os.Paging.UnmapLaws.{Unmapped, paging_unmap-UnmapResult}
use taavi_os.Vmm.Pages.{invalid_physical_page, undo_page, free_page}
use taavi_os.Vmm.Held.{HoldsPage, nth_page, Laid, same_page-apart}

-- Page `p` is given back and the page of `virt` leads nowhere; nothing else changes.
pub record Dropped (dir virt p : ℕ) (s s' : Space) : Type 0 where
  pub tree : IsTree dir s'
  pub grows :
      (path : List ℕ) (a : ℕ)
      → length path ≤ 3
      → table_at s.mem dir path ≡ some a
      → table_at s'.mem dir path ≡ some a
  pub news :
      (path : List ℕ) (n : ℕ)
      → length path ≤ 3
      → n < 2 ^ 32
      → n ≢ p
      → test_bit n s.pmm ≡ true
      → table_at s'.mem dir path ≡ some (n * page_size)
      → table_at s.mem dir path ≡ some (n * page_size)
  pub uses : (n : ℕ) → n < 2 ^ 32 → n ≢ p → test_bit n s.pmm ≡ true → test_bit n s'.pmm ≡ true
  pub keeps :
      (n j : ℕ)
      → n < 2 ^ 32
      → n ≢ p
      → test_bit n s.pmm ≡ true
      → IsNoTable dir s'.mem (n * page_size)
      → s'.mem (n * page_size) j ≡ s.mem (n * page_size) j
  pub unmapped :
      (w : ℕ) → translate dir w s'.mem ≡ (if same_page virt w then none else translate dir w s.mem)

-- What giving page `p` back changes.
record GivenBack (s : Pmm) (p : ℕ) (s' : Pmm) : Type 0 where
  pub valid : PmmValid.IsValid s'
  pub others : (n : ℕ) → n < 2 ^ 32 → n ≢ p → test_bit n s ≡ true → test_bit n s' ≡ true

pmm_free-GivenBack :
    (s : Pmm) (p : ℕ) → PmmValid.IsValid s → p ≢ 0 → GivenBack s p (pmm_free (p * page_size) s).1
pmm_free-GivenBack s p v nonzero =
    elim (free-FreeResult s (p * page_size) v (omega (arith, nonzero))) [
      | inl (e, same, why) ↦ rw same (record { valid = v; others = λ n lt ne t. t })
      | inr (inl (e, same, why)) ↦ rw same (record { valid = v; others = λ n lt ne t. t })
      | inr (inr (q, e, f, lt, t, r)) ↦
          let g : q ≡ p = omega (arith, f) in
          record { valid = r.valid; others = λ n l ne u. ground (arith, r.freed n l, u, ne, g) }
    ]

module _ (dir virt p : ℕ) (s : Space) (tree : IsTree dir s) (aligned : virt % 4096 ≡ 0)
    (at : translate dir virt s.mem ≡ some (p * page_size + virt % 4096)) where
  get_phys-page : paging_get_phys dir virt s ≡ p * page_size
  get_phys-page = paging_get_phys-translate dir virt s tree ∙ ap or_zero at ∙ omega (arith, aligned)

  unmap-Unmapped :
      (a : ℕ) × (table_at s.mem dir (table_path virt) ≡ some a)
      → Unmapped dir virt s (paging_unmap dir virt s).1
  unmap-Unmapped (a, there) = elim (paging_unmap-UnmapResult dir virt s tree) [
    | inl (e, kept, inl odd) ↦ absurd (ground (arith, odd, aligned))
    | inl (e, kept, inr (inl nowhere)) ↦ absurd (cc (at, nowhere))
    | inl (e, kept, inr (inr missing)) ↦ absurd (missing a there)
    | inr (e, u) ↦ u
  ]

no_invalid : (p : ℕ) → (p * page_size == invalid_physical_page) ≡ false
no_invalid p = ground arith

GivenBack-IsTree :
    (dir p : ℕ) (s : Space) (manager : Pmm)
    → IsTree dir s
    → GivenBack s.pmm p manager
    → ((path : List ℕ) → length path ≤ 3 → table_at s.mem dir path ≢ some (p * page_size))
    → IsTree dir (record s { pmm = manager })
GivenBack-IsTree dir p s manager tree g no_table =
    agree-IsTree dir s (record s { pmm = manager }) (λ path a j l e. refl) tree g.valid
      (λ path n l lt e t.
        g.others n lt (λ f. no_table path l (e ∙ ap (λ x. some (x * page_size)) f)) t)

-- The body of a rollback
pub undo_page-Dropped :
    (dir virt p : ℕ) (s₀ s : Space)
    → IsTree dir s
    → HoldsPage dir s₀ s virt p
    → virt % 4096 ≡ 0
    → Dropped dir virt p s (undo_page dir virt s)
unfolding undo_page
undo_page-Dropped dir virt p s₀ s tree h aligned =
    let at = h.mapped virt (same_page_refl virt) in
    let manager = (pmm_free (p * page_size) s.pmm).1 in
    let g = pmm_free-GivenBack s.pmm p tree.manager h.nonzero in
    let u =
      unmap-Unmapped dir virt p (record s { pmm = manager })
        (GivenBack-IsTree dir p s manager tree g h.no_table) aligned at h.table in
    rw (get_phys-page dir virt p s tree aligned at, no_invalid p)
      (record {
        tree = u.grown.tree;
        grows = u.grown.grows;
        news = λ path n l lt ne t e. u.grown.news path n l lt (g.others n lt ne t) e;
        uses = λ n lt ne t. u.grown.uses n lt (g.others n lt ne t);
        keeps = λ n j lt ne t o. u.grown.keeps n j lt (g.others n lt ne t) o;
        unmapped = u.unmapped;
      })

-- The body of `vmm_free`
pub free_page-Dropped :
    (dir virt p : ℕ) (s₀ s : Space)
    → IsTree dir s
    → HoldsPage dir s₀ s virt p
    → virt % 4096 ≡ 0
    → Dropped dir virt p s (free_page dir virt s)
unfolding free_page
free_page-Dropped dir virt p s₀ s tree h aligned =
    let at = h.mapped virt (same_page_refl virt) in
    let s' = (paging_unmap dir virt s).1 in
    let manager = (pmm_free (p * page_size) s'.pmm).1 in
    let u = unmap-Unmapped dir virt p s tree aligned at h.table in
    let g = pmm_free-GivenBack s'.pmm p u.grown.tree.manager h.nonzero in
    rw (get_phys-page dir virt p s tree aligned at, no_invalid p)
      (record {
        tree =
            GivenBack-IsTree dir p s' manager u.grown.tree g
              (λ path l e. h.no_table path l (u.grown.news path p l h.small h.used e));
        grows = u.grown.grows;
        news = λ path n l lt ne t e. u.grown.news path n l lt t e;
        uses = λ n lt ne t. g.others n lt ne (u.grown.uses n lt t);
        keeps = λ n j lt ne t o. u.grown.keeps n j lt t o;
        unmapped = u.unmapped;
      })

-- A range without one of its pages
pub drop-Laid :
    (dir start : ℕ) (held held' : ℕ → Bool) (m : ℕ) (s₀ s s' : Space)
    (laid : Laid dir start held s₀ s)
    → held m ≡ true
    → Dropped dir (nth_page start m) (laid.page m) s s'
    → ((k : ℕ) → held k ≡ true → k ≢ m → same_page (nth_page start k) (nth_page start m) ≡ false)
    → ((k : ℕ) → held' k ≡ (not (k == m) && held k))
    → Laid dir start held' s₀ s'
drop-Laid dir start held held' m s₀ s s' laid here d apart new = record {
  grown = record {
    tree = d.tree;
    grows = λ path a l e. d.grows path a l (laid.grown.grows path a l e);
    news = λ path n l lt t e.
        laid.grown.news path n l lt t (d.news path n l lt (other n t) (laid.grown.uses n lt t) e);
    uses = λ n lt t. d.uses n lt (other n t) (laid.grown.uses n lt t);
    keeps = λ n j lt t o.
        d.keeps n j lt (other n t) (laid.grown.uses n lt t) o
        ∙ laid.grown.keeps n j lt t (λ path l e. o path l (d.grows path (n * page_size) l e));
  };
  page = laid.page;
  holds = holds;
  distinct = λ j k e f g. laid.distinct j k (ground (arith, new j, e)) (ground (arith, new k, f)) g;
  outside = outside;
}
  where
    gone : HoldsPage dir s₀ s (nth_page start m) (laid.page m)
    gone = laid.holds m here

    other : (n : ℕ) → test_bit n s₀.pmm ≡ true → n ≢ laid.page m
    other n t e = ground (arith, t, gone.was_free, ap (λ x. test_bit x s₀.pmm) e)

    holds : (k : ℕ) → held' k ≡ true → HoldsPage dir s₀ s' (nth_page start k) (laid.page k)
    holds k e =
        let old : held k ≡ true = ground (arith, new k, e) in
        let ne : k ≢ m = ground (arith, new k, e) in
        let h = laid.holds k old in
        let two : laid.page k ≢ laid.page m = λ f. ne (laid.distinct k m old here f) in
        record {
          small = h.small;
          nonzero = h.nonzero;
          was_free = h.was_free;
          used = d.uses (laid.page k) h.small two h.used;
          no_table =
              λ path l f. h.no_table path l (d.news path (laid.page k) l h.small two h.used f);
          table =
              let (a, f) = h.table in
              (a, d.grows (table_path (nth_page start k)) a (omega arith) f);
          zeros = λ j.
              d.keeps (laid.page k) j h.small two h.used
                (λ path l f. h.no_table path l (d.news path (laid.page k) l h.small two h.used f))
              ∙ h.zeros j;
          before = h.before;
          mapped = λ w y.
              let away =
                same_page-apart (nth_page start k) (nth_page start m) w (apart k old ne) y in
              d.unmapped w ∙ rw away (h.mapped w y);
        }

    outside :
        (w : ℕ)
        → ((k : ℕ) → held' k ≡ true → same_page (nth_page start k) w ≡ false)
        → translate dir w s'.mem ≡ translate dir w s₀.mem
    outside w n = d.unmapped w ∙ elim (Bool-cases (same_page (nth_page start m) w)) [
      | inl y ↦ rw y (sym (gone.before w y))
      | inr away ↦ rw away (
          laid.outside w (λ k e. elim (Bool-cases (k == m)) [
            | inl f ↦
                let g : k ≡ m = ground arith in ap (λ x. same_page (nth_page start x) w) g ∙ away
            | inr f ↦ n k (ground (arith, new k, e, f))
          ]))
    ]
