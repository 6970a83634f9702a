-- ===== src/Paging/Leaf.antt =====
-- Writing an entry of a page table, and which addresses see it.
use taavi_os.Common.{
  ℕ, ◌/◌, ◌%◌, ◌^◌, ◌≤◌, ◌≡◌, ◌≢◌, inl, inr, refl, sym, ap, ◌∙◌, Bool, true, false, ◌&&◌,
  Bool-cases, arith, Option, none, some, some_inj, List, length, ◌==◌, if◌then◌else◌,
}
use taavi_os.Paging.Entry.{
  is_aligned, page_present, page_huge, has, frame, pml4_index, pdp_index, pd_index, pt_index,
}
use taavi_os.Paging.Space.{Space, write_entry}
use taavi_os.Paging.Walk.{entry_table, next_table, table_at, IsTree}
use taavi_os.Paging.WalkLaws.{
  table_at-same, directory_path, table_path, leaf_phys, walk_from, translate,
}
use taavi_os.Paging.Kept.{Grown, same_tables-IsTree, same_tables-Grown}

-- Two addresses in one page of 4 KiB, by the 36 bits that the tables read.
abbrev pub same_page : ℕ → ℕ → Bool
same_page virt other = virt / 4096 % 2 ^ 36 == other / 4096 % 2 ^ 36

-- The same four indices
record SameIndices (v w : ℕ) : Type 0 where
  pub pml4 : pml4_index v ≡ pml4_index w
  pub pdp : pdp_index v ≡ pdp_index w
  pub pd : pd_index v ≡ pd_index w
  pub pt : pt_index v ≡ pt_index w

same_page-SameIndices : (v w : ℕ) → same_page v w ≡ true → SameIndices v w
same_page-SameIndices v w e =
    let f : v / 4096 % 2 ^ 36 ≡ w / 4096 % 2 ^ 36 = ground arith in
    record {
      pml4 = omega (arith, f);
      pdp = omega (arith, f);
      pd = omega (arith, f);
      pt = omega (arith, f);
    }

SameIndices-same_page : (v w : ℕ) → SameIndices v w → same_page v w ≡ true
SameIndices-same_page v w h =
    let f : v / 4096 % 2 ^ 36 ≡ w / 4096 % 2 ^ 36 = omega (arith, h.pml4, h.pdp, h.pd, h.pt) in
    ground (arith, f)

SameIndices-table_path : (v w : ℕ) → SameIndices v w → table_path w ≡ table_path v
SameIndices-table_path v w h = rw (h.pml4, h.pdp, h.pd) refl

-- The entry above a page table
above_table :
    (mem : ℕ → ℕ → ℕ) (index table : ℕ) (o : Option ℕ)
    → next_table mem index o ≡ some table
    → (pd : ℕ) × (o ≡ some pd)
      × (has page_present (mem pd index) ≡ true)
      × (has page_huge (mem pd index) ≡ false)
      × (frame (mem pd index) ≡ table)
above_table mem index table none e = absurd (cc e)
above_table mem index table (some pd) e = elim (Bool-cases (has page_present (mem pd index))) [
  | inr f ↦ let g : none ≡ some table = rw f at e in absurd (cc g)
  | inl f ↦ elim (Bool-cases (has page_huge (mem pd index))) [
    | inl g ↦ let h : none ≡ some table = rw (f, g) at e in absurd (cc h)
    | inr g ↦ (pd, refl, f, g, some_inj (rw (f, g) at e))
  ]
]

module _ (dir : ℕ) (s : Space) (virt table entry : ℕ) (tree : IsTree dir s)
    (at : table_at s.mem dir (table_path virt) ≡ some table) where
  abbrev written : Space
  written = record s { mem = write_entry table (pt_index virt) entry s.mem }

  -- No table above the page tables changes.
  same_entry :
      (p : List ℕ) (a j : ℕ)
      → length p ≤ 2
      → table_at s.mem dir p ≡ some a
      → written.mem a j ≡ s.mem a j
  same_entry p a j l e =
      let apart : a ≢ table = λ f.
        let one : p ≡ table_path virt =
          tree.one_place p (table_path virt) table (omega (arith, l)) (omega arith)
            (e ∙ ap (λ (x : ℕ). some x) f) at in
        omega (arith, l, ap (λ (x : List ℕ). length x) one) in
      ground (arith, apart)

  same_tables : (p : List ℕ) → length p ≤ 3 → table_at written.mem dir p ≡ table_at s.mem dir p
  same_tables =
      table_at-same s.mem written.mem dir (λ p a j l e. ap entry_table (same_entry p a j l e))

  written-IsTree : IsTree dir written
  written-IsTree =
      same_tables-IsTree dir s written.mem tree same_tables
        (λ p a i l e f.
          let same = same_entry p a i (omega (arith, l)) e in
          ap (has page_huge) same ∙ tree.no_huge p a i l e (sym (ap (has page_present) same) ∙ f))
        (λ p a i l e f.
          let same = same_entry p a i l e in
          ap is_aligned same ∙ tree.aligned p a i l e (sym (ap (has page_present) same) ∙ f))

  pub written-Grown : Grown dir s written
  written-Grown = same_tables-Grown dir s written.mem written-IsTree same_tables (λ a j o.
      let apart : a ≢ table =
        λ g. o (table_path virt) (omega arith) (at ∙ ap (λ (x : ℕ). some x) (sym g)) in
      ground (arith, apart))

  same_leaf :
      (w pd : ℕ)
      → same_page virt w ≡ false
      → table_at s.mem dir (directory_path w) ≡ some pd
      → has page_present (s.mem pd (pd_index w)) ≡ true
      → has page_huge (s.mem pd (pd_index w)) ≡ false
      → written.mem (frame (s.mem pd (pd_index w))) (pt_index w)
        ≡ s.mem (frame (s.mem pd (pd_index w))) (pt_index w)
  same_leaf w pd n e f g =
      let pt = frame (s.mem pd (pd_index w)) in
      elim (Bool-cases (pt == table && pt_index w == pt_index virt)) [
        | inr apart ↦ rw apart refl
        | inl here ↦
            let h : pt ≡ table = ground arith in
            let last : pt_index virt ≡ pt_index w = ground arith in
            let q : table_at s.mem dir (table_path w) ≡ some table =
              ap (next_table s.mem (pd_index w)) e ∙ rw (f, g) (ap (λ (x : ℕ). some x) h) in
            let one : table_path virt ≡ table_path w =
              tree.one_place (table_path virt) (table_path w) table (omega arith) (omega arith) at
                q in
            let same : same_page virt w ≡ true =
              SameIndices-same_page virt w
                (record { pml4 = cc one; pdp = cc one; pd = cc one; pt = last }) in
            absurd (cc (same, n))
      ]

  walk_from-other :
      (w : ℕ) (o : Option ℕ)
      → same_page virt w ≡ false
      → table_at s.mem dir (directory_path w) ≡ o
      → walk_from w o written.mem ≡ walk_from w o s.mem
  walk_from-other w none n e = refl
  walk_from-other w (some pd) n e =
      rw (same_entry (directory_path w) pd (pd_index w) (omega arith) e)
        (elim (Bool-cases (has page_present (s.mem pd (pd_index w)))) [
          | inr f ↦ rw f refl
          | inl f ↦ elim (Bool-cases (has page_huge (s.mem pd (pd_index w)))) [
            | inl g ↦ rw (f, g) refl
            | inr g ↦ rw (f, g) (ap (λ x. leaf_phys x w) (same_leaf w pd n e f g))
          ]
        ])

  written_leaf : written.mem table (pt_index virt) ≡ entry
  written_leaf = ground arith

  walk_from-written :
      (w : ℕ) (o : Option ℕ)
      → SameIndices virt w
      → table_at s.mem dir (directory_path virt) ≡ o
      → walk_from w o written.mem ≡ leaf_phys entry w
  walk_from-written w o h e =
      let (pd, f, g, i, j) =
        above_table s.mem (pd_index virt) table (table_at s.mem dir (directory_path virt)) at in
      let k = same_entry (directory_path virt) pd (pd_index virt) (omega arith) f in
      rw (sym e, f, sym h.pd, sym h.pt, k, g, i, j, written_leaf) refl

  -- Exactly the addresses of its page see the entry.
  pub written-translate :
      (w : ℕ)
      → translate dir w written.mem
        ≡ (if same_page virt w then leaf_phys entry w else translate dir w s.mem)
  written-translate w =
      ap (λ o. walk_from w o written.mem) (same_tables (directory_path w) (omega arith))
      ∙ elim (Bool-cases (same_page virt w)) [
        | inr n ↦ rw n (walk_from-other w (table_at s.mem dir (directory_path w)) n refl)
        | inl y ↦ rw y (
            let h = same_page-SameIndices virt w y in
            let q : directory_path w ≡ directory_path virt = rw (h.pml4, h.pdp) refl in
            ap (λ x. walk_from w (table_at s.mem dir x) written.mem) q
            ∙ walk_from-written w (table_at s.mem dir (directory_path virt)) h refl)
      ]

  -- What the page table held before is what the addresses of its page saw.
  pub leaf-translate :
      (w : ℕ)
      → same_page virt w ≡ true
      → translate dir w s.mem ≡ leaf_phys (s.mem table (pt_index virt)) w
  leaf-translate w y =
      let h = same_page-SameIndices virt w y in
      let q : directory_path w ≡ directory_path virt = rw (h.pml4, h.pdp) refl in
      let (pd, f, g, i, j) =
        above_table s.mem (pd_index virt) table (table_at s.mem dir (directory_path virt)) at in
      ap (λ x. walk_from w (table_at s.mem dir x) s.mem) q
      ∙ rw (f, sym h.pd, sym h.pt, g, i, j) refl
