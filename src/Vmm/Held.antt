-- ===== src/Vmm/Held.antt =====
-- The pages that a range of addresses holds, and what keeps them.
use taavi_os.Common.{
  ℕ, ◌+◌, ◌*◌, ◌%◌, ◌^◌, ◌<◌, ◌≤◌, ◌≡◌, ◌≢◌, inl, inr, refl, sym, ◌∙◌, subst, Bool, true, false,
  ◌||◌, Bool-cases, arith, none, some, some_inj, List, length, ◌==◌, if◌then◌else◌,
}
use taavi_os.Pmm.Pages.{page_size, test_bit}
use taavi_os.Paging.Space.{Space}
use taavi_os.Paging.Walk.{table_at}
use taavi_os.Paging.WalkLaws.{table_path, translate}
use taavi_os.Paging.Kept.{Grown, trans-Grown, Kept}
use taavi_os.Paging.Leaf.{same_page}
use taavi_os.Paging.MapLaws.{Mapped, same_page_refl}

-- `virt` holds page `p`: a page that was free before, is in use and is no table; all addresses of the
-- page of `virt` lead to it, and they led nowhere before. It is filled with zeros.
pub record HoldsPage (dir : ℕ) (s₀ s : Space) (virt p : ℕ) : Type 0 where
  pub small : p < 2 ^ 32
  pub nonzero : p ≢ 0
  pub was_free : test_bit p s₀.pmm ≡ false
  pub used : test_bit p s.pmm ≡ true
  pub no_table : (path : List ℕ) → length path ≤ 3 → table_at s.mem dir path ≢ some (p * page_size)
  pub table : (a : ℕ) × (table_at s.mem dir (table_path virt) ≡ some a)
  pub zeros : (j : ℕ) → s.mem (p * page_size) j ≡ 0
  pub before : (w : ℕ) → same_page virt w ≡ true → translate dir w s₀.mem ≡ none
  pub mapped :
      (w : ℕ) → same_page virt w ≡ true → translate dir w s.mem ≡ some (p * page_size + w % 4096)

pub grown-HoldsPage :
    (dir : ℕ) (s₀ s s' : Space) (virt p : ℕ)
    → HoldsPage dir s₀ s virt p
    → Grown dir s s'
    → ((w : ℕ) → same_page virt w ≡ true → translate dir w s'.mem ≡ translate dir w s.mem)
    → HoldsPage dir s₀ s' virt p
grown-HoldsPage dir s₀ s s' virt p h g same = record {
  small = h.small;
  nonzero = h.nonzero;
  was_free = h.was_free;
  used = g.uses p h.small h.used;
  no_table = λ path l e. h.no_table path l (g.news path p l h.small h.used e);
  table = let (a, e) = h.table in (a, g.grows (table_path virt) a (omega arith) e);
  zeros = λ j.
      g.keeps p j h.small h.used (λ path l e. h.no_table path l (g.news path p l h.small h.used e))
      ∙ h.zeros j;
  before = h.before;
  mapped = λ w y. same w y ∙ h.mapped w y;
}

-- An address holds one page only.
pub one-HoldsPage :
    (dir : ℕ) (s₀ s : Space) (virt p q : ℕ)
    → HoldsPage dir s₀ s virt p
    → HoldsPage dir s₀ s virt q
    → p ≡ q
one-HoldsPage dir s₀ s virt p q h g =
    let e : p * page_size + virt % 4096 ≡ q * page_size + virt % 4096 =
      some_inj (sym (h.mapped virt (same_page_refl virt)) ∙ g.mapped virt (same_page_refl virt)) in
    omega (arith, e)

-- The address of page `k` of a range
abbrev pub nth_page : ℕ → ℕ → ℕ
nth_page start k = start + k * page_size

-- The pages `k` of the range with `held k` each hold a page of their own, and every other address leads
-- where it led before.
pub record Laid (dir start : ℕ) (held : ℕ → Bool) (s₀ s : Space) : Type 0 where
  pub grown : Grown dir s₀ s
  pub page : ℕ → ℕ
  pub holds : (k : ℕ) → held k ≡ true → HoldsPage dir s₀ s (nth_page start k) (page k)
  pub distinct : (j k : ℕ) → held j ≡ true → held k ≡ true → page j ≡ page k → j ≡ k
  pub outside :
      (w : ℕ)
      → ((k : ℕ) → held k ≡ true → same_page (nth_page start k) w ≡ false)
      → translate dir w s.mem ≡ translate dir w s₀.mem

pub same_page-apart :
    (v w x : ℕ) → same_page v w ≡ false → same_page v x ≡ true → same_page w x ≡ false
same_page-apart v w x n y = ground arith

module _ (dir start : ℕ) (held : ℕ → Bool) (s₀ s : Space) (laid : Laid dir start held s₀ s) where
  pub Kept-Laid : (s' : Space) → Kept dir s s' → Laid dir start held s₀ s'
  Kept-Laid s' h = record {
    grown = trans-Grown dir s₀ s s' laid.grown h.grown;
    page = laid.page;
    holds = λ k e.
        grown-HoldsPage dir s₀ s s' (nth_page start k) (laid.page k) (laid.holds k e) h.grown
          (λ w y. h.same w);
    distinct = laid.distinct;
    outside = λ w n. h.same w ∙ laid.outside w n;
  }

  -- A page of another number, for an address of another page
  pub add-Laid :
      (held' : ℕ → Bool) (m p : ℕ) (s' : Space)
      → Mapped dir (nth_page start m) (p * page_size) s s'
      → p < 2 ^ 32
      → p ≢ 0
      → test_bit p s₀.pmm ≡ false
      → test_bit p s.pmm ≡ true
      → ((path : List ℕ) → length path ≤ 3 → table_at s.mem dir path ≢ some (p * page_size))
      → ((j : ℕ) → s.mem (p * page_size) j ≡ 0)
      → ((k : ℕ) → held k ≡ true → laid.page k ≢ p)
      → ((k : ℕ) → held k ≡ true → same_page (nth_page start k) (nth_page start m) ≡ false)
      → ((k : ℕ) → held' k ≡ (k == m || held k))
      → Laid dir start held' s₀ s'
  add-Laid held' m p s' h small nonzero free used no_table zeros other apart new = record {
    grown = trans-Grown dir s₀ s s' laid.grown h.grown;
    page = page;
    holds = holds;
    distinct = distinct;
    outside = λ w n.
        let here : same_page (nth_page start m) w ≡ false = n m (ground (arith, new m)) in
        h.mapped w ∙ rw here (laid.outside w (λ k e. n k (ground (arith, new k, e))));
  }
    where
      page : ℕ → ℕ
      page k = if k == m then p else laid.page k

      holds_new : HoldsPage dir s₀ s' (nth_page start m) p
      holds_new = record {
        small = small;
        nonzero = nonzero;
        was_free = free;
        used = h.grown.uses p small used;
        no_table = λ path l e. no_table path l (h.grown.news path p l small used e);
        table = h.table;
        zeros = λ j.
            h.grown.keeps p j small used
              (λ path l e. no_table path l (h.grown.news path p l small used e))
            ∙ zeros j;
        before = λ w y.
            sym (
              laid.outside w (λ k e. elim (Bool-cases (same_page (nth_page start k) w)) [
                | inr n ↦ n
                | inl z ↦
                    let away =
                      same_page-apart (nth_page start k) (nth_page start m) w (apart k e) z in
                    absurd (cc (away, y))
              ]))
            ∙ h.before w y;
        mapped = λ w y. h.mapped w ∙ rw y refl;
      }

      holds : (k : ℕ) → held' k ≡ true → HoldsPage dir s₀ s' (nth_page start k) (page k)
      holds k e = elim (Bool-cases (k == m)) [
        | inl y ↦
            let g : m ≡ k = ground arith in
            rw y (subst (λ x. HoldsPage dir s₀ s' (nth_page start x) p) g holds_new)
        | inr n ↦
            let old : held k ≡ true = ground (arith, new k, e) in
            rw n (
              grown-HoldsPage dir s₀ s s' (nth_page start k) (laid.page k) (laid.holds k old)
                h.grown
                (λ w y.
                  let away =
                    same_page-apart (nth_page start k) (nth_page start m) w (apart k old) y in
                  h.mapped w ∙ rw away refl))
      ]

      distinct : (j k : ℕ) → held' j ≡ true → held' k ≡ true → page j ≡ page k → j ≡ k
      distinct j k e f g = elim (Bool-cases (j == m)) [
        | inl a ↦ elim (Bool-cases (k == m)) [
          | inl b ↦ ground arith
          | inr b ↦
              let old : held k ≡ true = ground (arith, new k, f) in
              let q : p ≡ laid.page k = rw (a, b) at g in absurd (other k old (sym q))
        ]
        | inr a ↦
            let old : held j ≡ true = ground (arith, new j, e) in
            elim (Bool-cases (k == m)) [
              | inl b ↦ let q : laid.page j ≡ p = rw (a, b) at g in absurd (other j old q)
              | inr b ↦ laid.distinct j k old (ground (arith, new k, f)) (rw (a, b) at g)
            ]
      ]
