-- ===== src/Vmm/Tests.antt =====
-- The theorems of the ranges at two pages of a directory without entries.
use taavi_os.Common.{true, ℕ, ◌+◌, ◌*◌, ◌≡◌, refl, some, arith}
use taavi_os.Config.{status_ok}
use taavi_os.Pmm.Alloc.{pmm_alloc}
use taavi_os.Paging.Space.{paging_map}
use taavi_os.Paging.Kept.{Kept}
use taavi_os.Paging.Sample.{small_space, root, small-IsTree}
use taavi_os.Vmm.Pages.{vmm_alloc, vmm_free}
use taavi_os.Vmm.AllocLaws.{AllocOutcome, vmm_alloc-AllocOutcome}
use taavi_os.Vmm.FreeLaws.{vmm_free-vmm_alloc}
use taavi_os.Vmm.Stacks.{Stacks, vmm_alloc_kstack, vmm_free_kstack}
use taavi_os.Vmm.StackLaws.{
  StackResult, vmm_alloc_kstack-StackResult, vmm_free_kstack-vmm_alloc_kstack,
}
use taavi_os.Vmm.UserSpace.{vmm_free_user_space}
use taavi_os.Vmm.UserLaws.{OnlyKernel, vmm_free_user_space-OnlyKernel}
use taavi_os.Common.{inl, inr, false}
use taavi_os.Paging.Entry.{has, page_huge}
use taavi_os.Paging.Walk.{IsTree}
use taavi_os.Paging.MapLaws.{paging_map-MapResult}
use taavi_os.Paging.Space.{Space}
use taavi_os.Vmm.Faults.{vmm_free-frees_zero}
use taavi_os.Pmm.Pages.{test_bit, page_size}
use taavi_os.Pmm.Valid.{IsValid}

vmm_alloc-AllocOutcome_example :
    AllocOutcome root 0x40_3000 2 small_space (vmm_alloc (some root) 0x40_3000 0x1800 7 small_space)
vmm_alloc-AllocOutcome_example =
    vmm_alloc-AllocOutcome root 0x40_3000 0x1800 7 small_space small-IsTree refl (omega arith)
      (omega arith) refl (omega arith)

two_pages : (vmm_alloc (some root) 0x40_3000 0x1800 7 small_space).0 ≡ status_ok
unfolding vmm_alloc pmm_alloc paging_map
two_pages = refl

vmm_free-vmm_alloc_example :
    ((vmm_free
        (some root)
        0x40_3000
        0x1800
        (vmm_alloc (some root) 0x40_3000 0x1800 7 small_space).1).0
      ≡ status_ok)
    × Kept root small_space
        (vmm_free
          (some root)
          0x40_3000
          0x1800
          (vmm_alloc (some root) 0x40_3000 0x1800 7 small_space).1).1
vmm_free-vmm_alloc_example =
    vmm_free-vmm_alloc root 0x40_3000 0x1800 7 small_space small-IsTree refl (omega arith)
      (omega arith) refl (omega arith) two_pages

abbrev no_stacks : Stacks
no_stacks = record { kstack_map = λ i. 0; space = small_space }

vmm_alloc_kstack-StackResult_example : StackResult root no_stacks (vmm_alloc_kstack root no_stacks)
vmm_alloc_kstack-StackResult_example = vmm_alloc_kstack-StackResult root no_stacks small-IsTree

first_stack : (vmm_alloc_kstack root no_stacks).0 ≡ some (0xFFFF_C000_0000_0000 + 17 * 4096)
unfolding vmm_alloc_kstack vmm_alloc pmm_alloc paging_map
first_stack = refl

vmm_free_kstack-vmm_alloc_kstack_example :
    let res =
      vmm_free_kstack root
        (0xFFFF_C000_0000_0000 + 17 * 4096)
        (vmm_alloc_kstack root no_stacks).1 in
    (res.0 ≡ status_ok)
    × ((j : ℕ) → res.1.kstack_map j ≡ no_stacks.kstack_map j)
    × Kept root small_space res.1.space
vmm_free_kstack-vmm_alloc_kstack_example =
    vmm_free_kstack-vmm_alloc_kstack root (0xFFFF_C000_0000_0000 + 17 * 4096) no_stacks small-IsTree
      first_stack

vmm_free-frees_zero_example :
    let res = vmm_free (some root) 0x40_3000 page_size small_space in
    (res.0 ≡ status_ok)
    × (test_bit 0 small_space.pmm ≡ true)
    × (test_bit 0 res.1.pmm ≡ false)
    × ¬ (IsValid res.1.pmm)
vmm_free-frees_zero_example =
    vmm_free-frees_zero root 0x40_3000 small_space small-IsTree (omega arith) refl

-- The directory after one page has been mapped.
abbrev one_mapped : Space
one_mapped = (paging_map root 0x40_3000 0x9000 7 small_space).1

one_ok : (paging_map root 0x40_3000 0x9000 7 small_space).0 ≡ status_ok
unfolding paging_map pmm_alloc
one_ok = refl

one_mapped-IsTree : IsTree root one_mapped
one_mapped-IsTree =
    elim (paging_map-MapResult root 0x40_3000 0x9000 7 small_space small-IsTree refl refl) [
      | inl (e, kept, why) ↦ kept.grown.tree
      | inr (e, m) ↦ m.grown.tree
    ]

one_mapped_entries : (a k : ℕ) → has page_huge (one_mapped.mem a k) ≡ false
unfolding paging_map pmm_alloc
one_mapped_entries a k = ground arith

vmm_free_user_space-OnlyKernel_example :
    OnlyKernel root one_mapped (vmm_free_user_space (some root) one_mapped)
vmm_free_user_space-OnlyKernel_example =
    vmm_free_user_space-OnlyKernel root one_mapped one_mapped-IsTree
      (λ i j a k lt e f. one_mapped_entries a k)
