-- ===== src/Paging/WalkLaws.antt =====
-- Which changes of the memory keep the tables of a directory, and how `paging_get_phys` reads them.
use taavi_os.Common.{
  true, ℕ, ◌+◌, ◌%◌, ◌≤◌, ◌≡◌, ◌≢◌, ◌⊎◌, inl, inr, refl, ap, ◌∙◌, Bool-cases, arith, Option, none,
  some, List, [], ◌∷◌, length, ◌==◌, if◌then◌else◌,
}
use taavi_os.Paging.Entry.{
  huge_frame, is_aligned, page_present, huge_page_size, page_huge, has, frame, pml4_index,
  pdp_index, pd_index, pt_index,
}
use taavi_os.Paging.Space.{Space, phys_in_directory, paging_get_phys}
use taavi_os.Paging.Walk.{entry_table, next_table, table_at, IsTree}

-- Two paths are one, or not.
pub path_cases : (p q : List ℕ) → (p ≡ q) ⊎ (p ≢ q)
path_cases [] [] = inl refl
path_cases [] (j ∷ q) = inr (λ e. cc e)
path_cases (i ∷ p) [] = inr (λ e. cc e)
path_cases (i ∷ p) (j ∷ q) = elim (Bool-cases (i == j)) [
  | inr n ↦ inr (λ e. let f : i ≡ j = cc e in ground (arith))
  | inl y ↦ elim (path_cases p q) [
    | inl f ↦ let g : i ≡ j = ground arith in inl (cc (f, g))
    | inr n ↦ inr (λ e. n (cc e))
  ]
]

-- A memory in which every entry above the page tables leads where it did has the same tables.
pub table_at-same :
    (m m' : ℕ → ℕ → ℕ) (dir : ℕ)
    → ((p : List ℕ) (a j : ℕ)
        → length p ≤ 2
        → table_at m dir p ≡ some a
        → entry_table (m' a j) ≡ entry_table (m a j))
    → (p : List ℕ) → length p ≤ 3
    → table_at m' dir p ≡ table_at m dir p
table_at-same m m' dir h [] l = refl
table_at-same m m' dir h (i ∷ p) l =
    ap (next_table m' i) (table_at-same m m' dir h p (omega (arith, l)))
    ∙ step (table_at m dir p) refl
  where
    step : (o : Option ℕ) → table_at m dir p ≡ o → next_table m' i o ≡ next_table m i o
    step none e = refl
    step (some a) e = h p a i (omega (arith, l)) e

-- The directory and the page table of an address.
abbrev pub directory_path : ℕ → List ℕ
directory_path virt = pdp_index virt ∷ pml4_index virt ∷ []

abbrev pub table_path : ℕ → List ℕ
table_path virt = pd_index virt ∷ directory_path virt

-- What the processor finds for an address: the entry of a page table gives a page of 4 KiB, the entry of
-- a page directory may give one of 2 MiB, whose address is in bits 21 to 51 only, and `none` is a page fault.
abbrev pub leaf_phys : ℕ → ℕ → Option ℕ
leaf_phys entry virt = if has page_present entry then some (frame entry + virt % 4096) else none

abbrev pub walk_from : ℕ → Option ℕ → (ℕ → ℕ → ℕ) → Option ℕ
walk_from virt none mem = none
walk_from virt (some pd) mem =
    let entry = mem pd (pd_index virt) in
    if has page_present entry
    then (if has page_huge entry
        then some (huge_frame entry + virt % huge_page_size)
        else leaf_phys (mem (frame entry) (pt_index virt)) virt)
    else none

abbrev pub translate : ℕ → ℕ → (ℕ → ℕ → ℕ) → Option ℕ
translate dir virt mem = walk_from virt (table_at mem dir (directory_path virt)) mem

abbrev pub or_zero : Option ℕ → ℕ
or_zero none = 0
or_zero (some phys) = phys

phys_in_directory-walk_from :
    (virt pd : ℕ) (s : Space)
    → (has page_present (s.mem pd (pd_index virt)) ≡ true
        → is_aligned (s.mem pd (pd_index virt)) ≡ true)
    → phys_in_directory virt pd s ≡ or_zero (walk_from virt (some pd) s.mem)
phys_in_directory-walk_from virt pd s ok =
    let entry = s.mem pd (pd_index virt) in
    elim (Bool-cases (has page_present entry)) [
      | inr e ↦ rw e refl
      | inl e ↦ elim (Bool-cases (has page_huge entry)) [
        | inl f ↦
            let low : huge_frame entry ≡ frame entry = ground (arith, ok e, f) in
            rw (e, f, low) refl
        | inr f ↦ elim (Bool-cases (has page_present (s.mem (frame entry) (pt_index virt)))) [
          | inl g ↦ rw (e, f, g) refl
          | inr g ↦ rw (e, f, g) refl
        ]
      ]
    ]

-- In a tree of tables `paging_get_phys` returns the address that the processor finds, and 0 where the
-- processor finds none.
pub paging_get_phys-translate :
    (dir virt : ℕ) (s : Space)
    → IsTree dir s
    → paging_get_phys dir virt s ≡ or_zero (translate dir virt s.mem)
unfolding paging_get_phys
paging_get_phys-translate dir virt s v =
    elim (Bool-cases (has page_present (s.mem dir (pml4_index virt)))) [
      | inr e ↦ rw e refl
      | inl e ↦
          rw (e, v.no_huge [] dir (pml4_index virt) (omega arith) refl e)
            (let pdp = frame (s.mem dir (pml4_index virt)) in
              let at : table_at s.mem dir (pml4_index virt ∷ []) ≡ some pdp =
                rw (e, v.no_huge [] dir (pml4_index virt) (omega arith) refl e) refl in
              elim (Bool-cases (has page_present (s.mem pdp (pdp_index virt)))) [
                | inr f ↦ rw f refl
                | inl f ↦
                    rw (f, v.no_huge (pml4_index virt ∷ []) pdp (pdp_index virt) (omega arith) at f)
                      (phys_in_directory-walk_from virt (frame (s.mem pdp (pdp_index virt))) s (
                        v.aligned (directory_path virt) (frame (s.mem pdp (pdp_index virt)))
                          (pd_index virt) (omega arith)
                          (ap (next_table s.mem (pdp_index virt)) at
                            ∙ rw
                                (
                                  f,
                                  v.no_huge (pml4_index virt ∷ []) pdp (pdp_index virt)
                                      (omega arith) at f,
                                )
                                refl)))
              ])
    ]
