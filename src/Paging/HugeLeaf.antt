-- ===== src/Paging/HugeLeaf.antt =====
-- Writing a page of 2 MiB into a page directory, and which addresses see it.
use taavi_os.Common.{
  ℕ, ◌+◌, ◌/◌, ◌%◌, ◌^◌, ◌≤◌, ◌≡◌, ◌≢◌, ◌⊎◌, inl, inr, refl, sym, ap, ◌∙◌, Bool, true, false, ◌&&◌,
  Bool-cases, arith, Option, none, some, List, length, ◌==◌, if◌then◌else◌,
}
use taavi_os.Paging.Entry.{
  huge_frame, is_aligned, page_present, page_huge, has, frame, pml4_index, pdp_index, pd_index,
  pt_index, huge_page_size,
}
use taavi_os.Paging.Space.{Space, write_entry}
use taavi_os.Paging.Walk.{entry_table, next_table, table_at, IsTree}
use taavi_os.Paging.WalkLaws.{
  table_at-same, directory_path, table_path, leaf_phys, walk_from, translate,
}
use taavi_os.Paging.Kept.{Grown, same_tables-Grown, same_tables-IsTree}

-- Two addresses in one page of 2 MiB, by the 27 bits that the tables read.
abbrev pub same_huge_page : ℕ → ℕ → Bool
same_huge_page virt other = virt / 2 ^ 21 % 2 ^ 27 == other / 2 ^ 21 % 2 ^ 27

record HugeIndices (v w : ℕ) : Type 0 where
  pub pml4 : pml4_index v ≡ pml4_index w
  pub pdp : pdp_index v ≡ pdp_index w
  pub pd : pd_index v ≡ pd_index w

same_huge_page-HugeIndices : (v w : ℕ) → same_huge_page v w ≡ true → HugeIndices v w
same_huge_page-HugeIndices v w e =
    let f : v / 2 ^ 21 % 2 ^ 27 ≡ w / 2 ^ 21 % 2 ^ 27 = ground arith in
    record { pml4 = omega (arith, f); pdp = omega (arith, f); pd = omega (arith, f) }

HugeIndices-same_huge_page : (v w : ℕ) → HugeIndices v w → same_huge_page v w ≡ true
HugeIndices-same_huge_page v w h =
    let f : v / 2 ^ 21 % 2 ^ 27 ≡ w / 2 ^ 21 % 2 ^ 27 = omega (arith, h.pml4, h.pdp, h.pd) in
    ground (arith, f)

module _ (dir : ℕ) (s : Space) (virt pd entry : ℕ) (tree : IsTree dir s)
    (at : table_at s.mem dir (directory_path virt) ≡ some pd)
    (empty : has page_present (s.mem pd (pd_index virt)) ≡ false)
    (present : has page_present entry ≡ true) (huge : has page_huge entry ≡ true)
    (aligned : is_aligned entry ≡ true) where
  abbrev written : Space
  written = record s { mem = write_entry pd (pd_index virt) entry s.mem }

  huge_leaf : written.mem pd (pd_index virt) ≡ entry
  huge_leaf = ground arith

  same_table : (a j : ℕ) → entry_table (written.mem a j) ≡ entry_table (s.mem a j)
  same_table a j = elim (Bool-cases (a == pd && j == pd_index virt)) [
    | inr apart ↦ rw apart refl
    | inl here ↦
        let f : a ≡ pd = ground arith in
        let g : j ≡ pd_index virt = ground arith in rw (f, g, huge_leaf, present, huge, empty) refl
  ]

  same_tables : (p : List ℕ) → length p ≤ 3 → table_at written.mem dir p ≡ table_at s.mem dir p
  same_tables = table_at-same s.mem written.mem dir (λ p a j l e. same_table a j)

  -- Another place keeps its entry.
  other_entry :
      (p : List ℕ) (a j : ℕ)
      → length p ≤ 3
      → table_at s.mem dir p ≡ some a
      → (p ≢ directory_path virt) ⊎ (j ≢ pd_index virt)
      → written.mem a j ≡ s.mem a j
  other_entry p a j l e (inr n) = ground (arith, n)
  other_entry p a j l e (inl n) =
      let apart : a ≢ pd = λ f. n (
        tree.one_place p (directory_path virt) pd l (omega arith) (e ∙ ap (λ (x : ℕ). some x) f)
          at) in
      ground (arith, apart)

  huge_written-IsTree : IsTree dir written
  huge_written-IsTree =
      same_tables-IsTree dir s written.mem tree same_tables
        (λ p a i l e f.
          let same =
            other_entry p a i (omega (arith, l)) e
              (inl (λ g. omega (arith, l, ap (λ (x : List ℕ). length x) g))) in
          ap (has page_huge) same ∙ tree.no_huge p a i l e (sym (ap (has page_present) same) ∙ f))
        (λ p a i l e f. elim (Bool-cases (a == pd && i == pd_index virt)) [
          | inl here ↦ let q : written.mem a i ≡ entry = rw here refl in ap is_aligned q ∙ aligned
          | inr apart ↦
              let same : written.mem a i ≡ s.mem a i = rw apart refl in
              ap is_aligned same ∙ tree.aligned p a i l e (sym (ap (has page_present) same) ∙ f)
        ])

  pub huge_written-Grown : Grown dir s written
  huge_written-Grown = same_tables-Grown dir s written.mem huge_written-IsTree same_tables (λ a j o.
      let apart : a ≢ pd =
        λ g. o (directory_path virt) (omega arith) (at ∙ ap (λ (x : ℕ). some x) (sym g)) in
      ground (arith, apart))

  walk_from-other :
      (w : ℕ) (o : Option ℕ)
      → same_huge_page virt w ≡ false
      → table_at s.mem dir (directory_path w) ≡ o
      → walk_from w o written.mem ≡ walk_from w o s.mem
  walk_from-other w none n e = refl
  walk_from-other w (some a) n e =
      rw (other_entry (directory_path w) a (pd_index w) (omega arith) e apart)
        (elim (Bool-cases (has page_present (s.mem a (pd_index w)))) [
          | inr f ↦ rw f refl
          | inl f ↦ elim (Bool-cases (has page_huge (s.mem a (pd_index w)))) [
            | inl g ↦ rw (f, g) refl
            | inr g ↦
                let q : table_at s.mem dir (table_path w) ≡ some (frame (s.mem a (pd_index w))) =
                  ap (next_table s.mem (pd_index w)) e ∙ rw (f, g) refl in
                rw (f, g)
                  (ap (λ x. leaf_phys x w)
                    (other_entry (table_path w) (frame (s.mem a (pd_index w))) (pt_index w)
                      (omega arith) q (inl (λ h. omega (arith, ap (λ (x : List ℕ). length x) h)))))
          ]
        ])
    where
      apart : (directory_path w ≢ directory_path virt) ⊎ (pd_index w ≢ pd_index virt)
      apart = elim (Bool-cases (pd_index w == pd_index virt)) [
        | inr f ↦ inr (ground arith)
        | inl f ↦ inl (λ g.
            let h : pd_index virt ≡ pd_index w = ground arith in
            let same : same_huge_page virt w ≡ true =
              HugeIndices-same_huge_page virt w (record { pml4 = cc g; pdp = cc g; pd = h }) in
            cc (same, n))
      ]

  -- Exactly the addresses of its page see the entry.
  pub huge_written-translate :
      (w : ℕ)
      → translate dir w written.mem ≡ (
          if same_huge_page virt w
          then some (huge_frame entry + w % huge_page_size)
          else translate dir w s.mem)
  huge_written-translate w =
      ap (λ o. walk_from w o written.mem) (same_tables (directory_path w) (omega arith))
      ∙ elim (Bool-cases (same_huge_page virt w)) [
        | inr n ↦ rw n (walk_from-other w (table_at s.mem dir (directory_path w)) n refl)
        | inl y ↦ rw y (
            let h = same_huge_page-HugeIndices virt w y in
            let q : directory_path w ≡ directory_path virt = rw (h.pml4, h.pdp) refl in
            ap (λ x. walk_from w (table_at s.mem dir x) written.mem) q
            ∙ rw (at, sym h.pd, huge_leaf, present, huge) refl)
      ]
