-- ===== src/Paging/Agree.antt =====
-- Changes of the memory and of the manager that do not touch the tables of a directory.
use taavi_os.Common.{
  ℕ, ◌*◌, ◌^◌, ◌<◌, ◌≤◌, ◌≡◌, inl, inr, refl, sym, ap, ◌∙◌, true, Bool-cases, arith, Option, none,
  some, List, length,
}
use taavi_os.Pmm.Pages.{page_size, test_bit}
use taavi_os.Pmm.Valid as PmmValid
use taavi_os.Paging.Entry.{is_aligned, page_present, page_huge, has, frame, pd_index, pt_index}
use taavi_os.Paging.Space.{Space}
use taavi_os.Paging.Walk.{entry_table, next_table, table_at, IsTree}
use taavi_os.Paging.WalkLaws.{
  table_at-same, directory_path, table_path, leaf_phys, walk_from, translate,
}
use taavi_os.Paging.Kept.{Kept}

module _ (dir : ℕ) (s s' : Space)
    (agree : (p : List ℕ) (a j : ℕ)
      → length p ≤ 3
      → table_at s.mem dir p ≡ some a
      → s'.mem a j ≡ s.mem a j) where
  pub agree-table_at : (p : List ℕ) → length p ≤ 3 → table_at s'.mem dir p ≡ table_at s.mem dir p
  agree-table_at =
      table_at-same s.mem s'.mem dir
        (λ p a j l e. ap entry_table (agree p a j (omega (arith, l)) e))

  pub agree-walk_from :
      (virt : ℕ) (o : Option ℕ)
      → table_at s.mem dir (directory_path virt) ≡ o
      → walk_from virt o s'.mem ≡ walk_from virt o s.mem
  agree-walk_from virt none e = refl
  agree-walk_from virt (some pd) e =
      rw (agree (directory_path virt) pd (pd_index virt) (omega arith) e)
        (elim (Bool-cases (has page_present (s.mem pd (pd_index virt)))) [
          | inr f ↦ rw f refl
          | inl f ↦ elim (Bool-cases (has page_huge (s.mem pd (pd_index virt)))) [
            | inl g ↦ rw (f, g) refl
            | inr g ↦
                let q : table_at s.mem dir (table_path virt)
                    ≡ some (frame (s.mem pd (pd_index virt))) =
                  ap (next_table s.mem (pd_index virt)) e ∙ rw (f, g) refl in
                rw (f, g)
                  (ap (λ x. leaf_phys x virt)
                    (agree (table_path virt) (frame (s.mem pd (pd_index virt))) (pt_index virt)
                      (omega arith) q))
          ]
        ])

  pub agree-translate : (virt : ℕ) → translate dir virt s'.mem ≡ translate dir virt s.mem
  agree-translate virt =
      ap (λ o. walk_from virt o s'.mem) (agree-table_at (directory_path virt) (omega arith))
      ∙ agree-walk_from virt (table_at s.mem dir (directory_path virt)) refl

  pub agree-IsTree :
      IsTree dir s
      → PmmValid.IsValid s'.pmm
      → ((p : List ℕ) (n : ℕ)
          → length p ≤ 3
          → n < 2 ^ 32
          → table_at s.mem dir p ≡ some (n * page_size)
          → test_bit n s.pmm ≡ true
          → test_bit n s'.pmm ≡ true)
      → IsTree dir s'
  agree-IsTree tree v held = record {
    manager = v;
    one_place = λ p q a lp lq ep eq.
        tree.one_place p q a lp lq (sym (agree-table_at p lp) ∙ ep)
          (sym (agree-table_at q lq) ∙ eq);
    in_use = λ p a l e.
        let old = sym (agree-table_at p l) ∙ e in
        let (n, g, lt, t) = tree.in_use p a l old in
        (n, g, lt, held p n l lt (old ∙ ap (λ (x : ℕ). some x) g) t);
    no_huge = λ p a i l e f.
        let old = sym (agree-table_at p (omega (arith, l))) ∙ e in
        let k = agree p a i (omega (arith, l)) old in
        ap (has page_huge) k ∙ tree.no_huge p a i l old (sym (ap (has page_present) k) ∙ f);
    aligned = λ p a i l e f.
        let old = sym (agree-table_at p (omega (arith, l))) ∙ e in
        let k = agree p a i (omega (arith, l)) old in
        ap is_aligned k ∙ tree.aligned p a i l old (sym (ap (has page_present) k) ∙ f);
  }

  pub agree-Kept :
      IsTree dir s
      → PmmValid.IsValid s'.pmm
      → ((n : ℕ) → n < 2 ^ 32 → test_bit n s.pmm ≡ true → test_bit n s'.pmm ≡ true)
      → ((n j : ℕ)
          → n < 2 ^ 32
          → test_bit n s.pmm ≡ true
          → s'.mem (n * page_size) j ≡ s.mem (n * page_size) j)
      → Kept dir s s'
  agree-Kept tree v uses keeps = record {
    grown = record {
      tree = agree-IsTree tree v (λ p n l lt e t. uses n lt t);
      grows = λ p a l e. agree-table_at p l ∙ e;
      news = λ p n l lt t e. sym (agree-table_at p l) ∙ e;
      uses = uses;
      keeps = λ n j lt t o. keeps n j lt t;
    };
    same = agree-translate;
  }
