-- ===== src/Paging/Fresh.antt =====
-- A new table under an entry that was not present: where it stands, and that nothing else changes.
use taavi_os.Common.{
  ℕ, ◌*◌, ◌^◌, ◌<◌, ◌≤◌, ◌≡◌, ◌≢◌, ◌⊎◌, inl, inr, refl, sym, ap, ◌∙◌, true, false, ◌&&◌, Bool-cases,
  arith, Option, none, some, some_inj, List, [], ◌∷◌, length, ◌==◌,
}
use taavi_os.Pmm.Pages.{Pmm, page_size, test_bit}
use taavi_os.Pmm.Valid.{Granted}
use taavi_os.Paging.Entry.{is_aligned, page_present, page_huge, has, frame, pd_index, pt_index}
use taavi_os.Paging.Space.{Space, write_entry, zero_page}
use taavi_os.Paging.Walk.{entry_table, next_table, table_at, IsTree}
use taavi_os.Paging.WalkLaws.{
  path_cases, directory_path, table_path, leaf_phys, walk_from, translate,
}
use taavi_os.Paging.Kept.{Kept}

-- The entry and the new page, and the memory after them.
module _ (dir : ℕ) (s : Space) (path : List ℕ) (table index page entry : ℕ) (manager : Pmm)
    (tree : IsTree dir s) (short : length path ≤ 2) (at : table_at s.mem dir path ≡ some table)
    (empty : has page_present (s.mem table index) ≡ false) (granted : Granted s.pmm page manager)
    (small : page < 2 ^ 32) (present : has page_present entry ≡ true)
    (not_huge : has page_huge entry ≡ false) (frames : frame entry ≡ page * page_size) where
  abbrev after : Space
  after = record {
    mem = write_entry table index entry (zero_page (page * page_size) s.mem);
    pmm = manager;
  }

  -- The page is no table of the directory.
  other_page :
      (p : List ℕ) (a : ℕ) → length p ≤ 3 → table_at s.mem dir p ≡ some a → a ≢ page * page_size
  other_page p a l e q =
      let (n, f, lt, t) = tree.in_use p a l e in
      let same : n ≡ page = omega (arith, f, q) in
      ground (arith, t, granted.was_free, ap (λ x. test_bit x s.pmm) same)

  new_entry : after.mem table index ≡ entry
  new_entry = ground arith

  old_entry :
      (p : List ℕ) (a j : ℕ)
      → length p ≤ 3
      → table_at s.mem dir p ≡ some a
      → (a ≢ table) ⊎ (j ≢ index)
      → after.mem a j ≡ s.mem a j
  old_entry p a j l e n = ground (arith, other_page p a l e, n)

  new_page : (j : ℕ) → after.mem (page * page_size) j ≡ 0
  new_page j = ground (arith, other_page path table (omega (arith, short)) at)

  -- A table below another place keeps its entry.
  step :
      (k : ℕ) (p : List ℕ) (o : Option ℕ)
      → length p ≤ 2
      → (k ∷ p) ≢ (index ∷ path)
      → table_at s.mem dir p ≡ o
      → next_table after.mem k o ≡ next_table s.mem k o
  step k p none l n e = refl
  step k p (some a) l n e = elim (Bool-cases (a == table && k == index)) [
    | inr apart ↦ ap entry_table (old_entry p a k (omega (arith, l)) e (ground (arith)))
    | inl here ↦
        let f : a ≡ table = ground arith in
        let g : k ≡ index = ground arith in
        let q : p ≡ path =
          tree.one_place p path table (omega (arith, l)) (omega (arith, short))
            (e ∙ ap (λ (x : ℕ). some x) f) at in
        absurd (n (cc (g, q)))
  ]

  short-at : (p : List ℕ) → length p ≤ length path → table_at after.mem dir p ≡ table_at s.mem dir p
  short-at [] l = refl
  short-at (k ∷ p) l =
      ap (next_table after.mem k) (short-at p (omega (arith, l)))
      ∙ step k p (table_at s.mem dir p) (omega (arith, l, short))
          (λ e. omega (arith, l, ap (λ (x : List ℕ). length x) e)) refl

  -- At the new entry stands the new table,
  pub fresh-at : table_at after.mem dir (index ∷ path) ≡ some (page * page_size)
  fresh-at =
      ap (next_table after.mem index) (short-at path (omega arith) ∙ at)
      ∙ ap entry_table new_entry
      ∙ rw (present, not_huge, frames) refl

  none_before : table_at s.mem dir (index ∷ path) ≡ none
  none_before = ap (next_table s.mem index) at ∙ rw empty refl

  -- and at every other path what stood there.
  pub others-at :
      (p : List ℕ)
      → length p ≤ 3
      → p ≢ (index ∷ path)
      → table_at after.mem dir p ≡ table_at s.mem dir p
  others-at [] l n = refl
  others-at (k ∷ p) l n = elim (path_cases p (index ∷ path)) [
    | inl e ↦
        ap (λ (x : List ℕ). table_at after.mem dir (k ∷ x)) e
        ∙ ap (next_table after.mem k) fresh-at
        ∙ ap entry_table (new_page k)
        ∙ sym (ap (next_table s.mem k) none_before)
        ∙ sym (ap (λ (x : List ℕ). table_at s.mem dir (k ∷ x)) e)
    | inr other ↦
        ap (next_table after.mem k) (others-at p (omega (arith, l)) other)
        ∙ step k p (table_at s.mem dir p) (omega (arith, l)) n refl
  ]

  -- The directory stays a tree of tables.
  fresh-IsTree : IsTree dir after
  fresh-IsTree = record {
    manager = granted.valid;
    one_place = one_place;
    in_use = λ p a l e. elim (path_cases p (index ∷ path)) [
      | inl f ↦ (
        page,
        some_inj (sym e ∙ ap (table_at after.mem dir) f ∙ fresh-at),
        small,
        ground (arith, granted.taken page small),
      )
      | inr other ↦
          let (n, g, lt, t) = tree.in_use p a l (sym (others-at p l other) ∙ e) in
          (n, g, lt, ground (arith, granted.taken n lt, t))
    ];
    no_huge = λ p a i l e f. elim (path_cases p (index ∷ path)) [
      | inl g ↦
          let h : a ≡ page * page_size =
            some_inj (sym e ∙ ap (table_at after.mem dir) g ∙ fresh-at) in
          ap (has page_huge) (ap (λ x. after.mem x i) h ∙ new_page i)
      | inr other ↦
          let old = sym (others-at p (omega (arith, l)) other) ∙ e in
          elim (Bool-cases (a == table && i == index)) [
            | inl here ↦
                let q : after.mem a i ≡ entry = ground arith in ap (has page_huge) q ∙ not_huge
            | inr apart ↦
                let q = old_entry p a i (omega (arith, l)) old (ground arith) in
                ap (has page_huge) q ∙ tree.no_huge p a i l old (sym (ap (has page_present) q) ∙ f)
          ]
    ];
    aligned = λ p a i l e f. elim (path_cases p (index ∷ path)) [
      | inl g ↦
          let h : a ≡ page * page_size =
            some_inj (sym e ∙ ap (table_at after.mem dir) g ∙ fresh-at) in
          ap is_aligned (ap (λ x. after.mem x i) h ∙ new_page i)
      | inr other ↦
          let old = sym (others-at p (omega (arith, l)) other) ∙ e in
          elim (Bool-cases (a == table && i == index)) [
            | inl here ↦
                let q : after.mem a i ≡ entry = ground arith in ap is_aligned q ∙ rw not_huge refl
            | inr apart ↦
                let q = old_entry p a i (omega (arith, l)) old (ground arith) in
                ap is_aligned q ∙ tree.aligned p a i l old (sym (ap (has page_present) q) ∙ f)
          ]
    ];
  }
    where
      one_place :
          (p q : List ℕ) (a : ℕ)
          → length p ≤ 3
          → length q ≤ 3
          → table_at after.mem dir p ≡ some a
          → table_at after.mem dir q ≡ some a
          → p ≡ q
      one_place p q a lp lq ep eq = elim (path_cases p (index ∷ path)) [
        | inl f ↦ elim (path_cases q (index ∷ path)) [
          | inl g ↦ f ∙ sym g
          | inr other ↦ absurd (
              other_page q a lq (sym (others-at q lq other) ∙ eq)
                (some_inj (sym ep ∙ ap (table_at after.mem dir) f ∙ fresh-at)))
        ]
        | inr one ↦ elim (path_cases q (index ∷ path)) [
          | inl g ↦ absurd (
              other_page p a lp (sym (others-at p lp one) ∙ ep)
                (some_inj (sym eq ∙ ap (table_at after.mem dir) g ∙ fresh-at)))
          | inr other ↦
              tree.one_place p q a lp lq (sym (others-at p lp one) ∙ ep)
                (sym (others-at q lq other) ∙ eq)
        ]
      ]

  leaf_phys-after :
      (virt pd : ℕ)
      → table_at s.mem dir (directory_path virt) ≡ some pd
      → has page_present (s.mem pd (pd_index virt)) ≡ true
      → has page_huge (s.mem pd (pd_index virt)) ≡ false
      → leaf_phys (after.mem (frame (s.mem pd (pd_index virt))) (pt_index virt)) virt
        ≡ leaf_phys (s.mem (frame (s.mem pd (pd_index virt))) (pt_index virt)) virt
  leaf_phys-after virt pd e f g =
      let pt = frame (s.mem pd (pd_index virt)) in
      let q : table_at s.mem dir (table_path virt) ≡ some pt =
        ap (next_table s.mem (pd_index virt)) e ∙ rw (f, g) refl in
      let other : pt ≢ table = λ h.
        let two : table_path virt ≡ path =
          tree.one_place (table_path virt) path table (omega arith) (omega (arith, short))
            (q ∙ ap (λ (x : ℕ). some x) h) at in
        omega (arith, short, ap (λ (x : List ℕ). length x) two) in
      rw (old_entry (table_path virt) pt (pt_index virt) (omega arith) q (inl other)) refl

  walk_from-after :
      (virt : ℕ) (o : Option ℕ)
      → table_at s.mem dir (directory_path virt) ≡ o
      → walk_from virt o after.mem ≡ walk_from virt o s.mem
  walk_from-after virt none e = refl
  walk_from-after virt (some pd) e = elim (Bool-cases (pd == table && pd_index virt == index)) [
    | inl here ↦
        let f : pd ≡ table = ground arith in
        let g : pd_index virt ≡ index = ground arith in
        rw (f, g, new_entry, present, not_huge, frames, new_page (pt_index virt), empty) refl
    | inr apart ↦
        let same =
          old_entry (directory_path virt) pd (pd_index virt) (omega arith) e (ground arith) in
        rw same (elim (Bool-cases (has page_present (s.mem pd (pd_index virt)))) [
          | inr f ↦ rw f refl
          | inl f ↦ elim (Bool-cases (has page_huge (s.mem pd (pd_index virt)))) [
            | inl g ↦ rw (f, g) refl
            | inr g ↦ rw (f, g) (leaf_phys-after virt pd e f g)
          ]
        ])
  ]

  -- A new table keeps the tree and every address.
  pub fresh-Kept : Kept dir s after
  fresh-Kept = record {
    grown = record {
      tree = fresh-IsTree;
      grows = λ p a l e. elim (path_cases p (index ∷ path)) [
        | inl f ↦ absurd (cc (e, ap (table_at s.mem dir) f, none_before))
        | inr other ↦ others-at p l other ∙ e
      ];
      news = λ p n l lt t e. elim (path_cases p (index ∷ path)) [
        | inl f ↦
            let g : n * page_size ≡ page * page_size =
              some_inj (sym e ∙ ap (table_at after.mem dir) f ∙ fresh-at) in
            let h : n ≡ page = omega (arith, g) in
            ground (arith, t, granted.was_free, ap (λ x. test_bit x s.pmm) h)
        | inr other ↦ sym (others-at p l other) ∙ e
      ];
      uses = λ n lt t. ground (arith, granted.taken n lt, t);
      keeps = λ n j lt t o.
          let one : n * page_size ≢ table = λ g.
            o path (omega (arith, short))
              (short-at path (omega arith) ∙ at ∙ ap (λ (x : ℕ). some x) (sym g)) in
          let two : n * page_size ≢ page * page_size = λ g.
            o (index ∷ path) (omega (arith, short)) (fresh-at ∙ ap (λ (x : ℕ). some x) (sym g)) in
          ground (arith, one, two);
    };
    same = both;
  }
    where
      both : (virt : ℕ) → translate dir virt after.mem ≡ translate dir virt s.mem
      both virt = elim (path_cases (directory_path virt) (index ∷ path)) [
        | inl e ↦
            ap (λ o. walk_from virt o after.mem) (ap (table_at after.mem dir) e ∙ fresh-at)
            ∙ rw (new_page (pd_index virt)) refl
            ∙ sym (ap (λ o. walk_from virt o s.mem) (ap (table_at s.mem dir) e ∙ none_before))
        | inr other ↦
            ap (λ o. walk_from virt o after.mem)
              (others-at (directory_path virt) (omega arith) other)
            ∙ walk_from-after virt (table_at s.mem dir (directory_path virt)) refl
      ]
