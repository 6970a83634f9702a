-- ===== src/Vmm/Faults.antt =====
-- `vmm_free` where nothing is mapped.
use taavi_os.Common.{
  ℕ, ◌<◌, ◌≡◌, inl, inr, refl, ap, ◌∙◌, true, false, Bool-cases, Option, none, some, List, [], ◌∷◌,
}
use taavi_os.Config.{status_ok}
use taavi_os.Pmm.Pages.{page_size, test_bit}
use taavi_os.Pmm.Valid as PmmValid
use taavi_os.Pmm.AllocLaws.{free_zero-test_bit, free_zero-not_IsValid}
use taavi_os.Paging.Entry.{
  page_present, page_huge, has, pml4_index, pdp_index, pd_index, pt_index, is_address_viable,
}
use taavi_os.Paging.Space.{
  Space, search_or_create_table, descend_on, descend, unmap_entry, paging_unmap, paging_get_phys,
}
use taavi_os.Paging.Walk.{IsTree}
use taavi_os.Paging.WalkLaws.{translate, or_zero, paging_get_phys-translate}
use taavi_os.Vmm.Pages.{free_pages, vmm_free}

search_same_pmm :
    (table index flags : ℕ) (s : Space)
    → (search_or_create_table table index false flags s).1.pmm ≡ s.pmm
unfolding search_or_create_table
search_same_pmm table index flags s = elim (Bool-cases (has page_present (s.mem table index))) [
  | inr e ↦ rw e refl
  | inl e ↦ elim (Bool-cases (has page_huge (s.mem table index))) [
    | inl f ↦ rw (e, f) refl
    | inr f ↦ rw (e, f) refl
  ]
]

descend_on-same_pmm :
    (s : Space) (r : Option ℕ × Space) (rest : ℕ → Space → Option ℕ × Space)
    → r.1.pmm ≡ s.pmm
    → ((a : ℕ) (s' : Space) → (rest a s').1.pmm ≡ s'.pmm)
    → (descend_on r rest).1.pmm ≡ s.pmm
unfolding descend_on
descend_on-same_pmm s (none, s') rest e h = e
descend_on-same_pmm s (some a, s') rest e h = h a s' ∙ e

descend-same_pmm :
    (is : List ℕ) (flags table : ℕ) (s : Space) → (descend is false flags table s).1.pmm ≡ s.pmm
unfolding descend
descend-same_pmm [] flags table s = refl
descend-same_pmm (i ∷ is) flags table s =
    descend_on-same_pmm s (search_or_create_table table i false flags s) (descend is false flags)
      (search_same_pmm table i flags s) (λ a s'. descend-same_pmm is flags a s')

unmap_entry-same_pmm : (index : ℕ) (r : Option ℕ × Space) → (unmap_entry index r).1.pmm ≡ r.1.pmm
unfolding unmap_entry
unmap_entry-same_pmm index (none, s) = refl
unmap_entry-same_pmm index (some table, s) =
    elim (Bool-cases (has page_present (s.mem table index))) [
      | inl e ↦ rw e refl
      | inr e ↦ rw e refl
    ]

-- `paging_unmap` allocates no page.
pub paging_unmap-same_pmm : (dir virt : ℕ) (s : Space) → (paging_unmap dir virt s).1.pmm ≡ s.pmm
unfolding paging_unmap
paging_unmap-same_pmm dir virt s = elim (Bool-cases (is_address_viable virt)) [
  | inr e ↦ rw e refl
  | inl e ↦ rw e (
      unmap_entry-same_pmm (pt_index virt)
        (descend (pml4_index virt ∷ pdp_index virt ∷ pd_index virt ∷ []) false 0 dir s)
      ∙ descend-same_pmm (pml4_index virt ∷ pdp_index virt ∷ pd_index virt ∷ []) 0 dir s)
]

-- `vmm_free` of one page in a tree of tables, at an address that leads nowhere: `paging_get_phys` returns
-- 0, which is not INVALID_PHYSICAL_PAGE, so page 0, which was taken, is free after the call, the call
-- returns STATUS_OK, and the manager is valid no more.
pub vmm_free-frees_zero :
    (dir virt : ℕ) (s : Space)
    → IsTree dir s
    → 0 < s.pmm.max_pages
    → translate dir virt s.mem ≡ none
    → let res = vmm_free (some dir) virt page_size s in
      (res.0 ≡ status_ok)
      × (test_bit 0 s.pmm ≡ true)
      × (test_bit 0 res.1.pmm ≡ false)
      × ¬ (PmmValid.IsValid res.1.pmm)
unfolding vmm_free
vmm_free-frees_zero dir virt s tree some_page nowhere =
    let (free, invalid) =
      one_page (paging_get_phys-translate dir virt s tree ∙ ap or_zero nowhere) in
    (refl, tree.manager.zero_used, free, invalid)
  where
    one_page :
        paging_get_phys dir virt s ≡ 0
        → (test_bit 0 (free_pages 1 dir virt s).pmm ≡ false)
          × ¬ (PmmValid.IsValid (free_pages 1 dir virt s).pmm)
    one_page e =
        rw (e, paging_unmap-same_pmm dir virt s)
          (
            free_zero-test_bit s.pmm tree.manager some_page,
            free_zero-not_IsValid s.pmm tree.manager some_page,
          )
