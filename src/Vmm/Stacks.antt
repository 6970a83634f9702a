-- ===== src/Vmm/Stacks.antt =====
-- vmm.c: the kernel stacks, each in a slot of its own with an unmapped page below it.
use taavi_os.Common.{
  ℕ, zero, suc, ◌+◌, ◌-◌, ◌*◌, ◌/◌, ◌%◌, ◌^◌, Option, none, some, leb, ◌==◌, if◌then◌else◌,
}
use taavi_os.Config.{status_ok, status_error, max_tasks}
use taavi_os.Pmm.Pages.{page_size}
use taavi_os.Paging.Space.{Space}
use taavi_os.Vmm.Pages.{vmm_alloc, vmm_free}

abbrev pub kernel_stack_pages : ℕ
kernel_stack_pages = 16

abbrev pub kstack_region_base : ℕ
kstack_region_base = 0xFFFF_C000_0000_0000

-- (KERNEL_STACK_PAGES + 1) * PAGE_SIZE_BYTES
abbrev pub kstack_slot_size : ℕ
kstack_slot_size = 17 * 4096

-- PAGE_RW | PAGE_NX
abbrev pub kstack_flags : ℕ
kstack_flags = 0x2 + 2 ^ 63

-- `kstack_map`, and the memory.
pub record Stacks : Type 0 where
  pub kstack_map : ℕ → ℕ
  pub space : Space

abbrev pub set_slot : ℕ → ℕ → (ℕ → ℕ) → ℕ → ℕ
set_slot i value map j = if j == i then value else map j

-- The first slot from `i` on, of `n` slots left, that the map has as free.
unfoldable pub free_slot : ℕ → ℕ → (ℕ → ℕ) → Option ℕ
free_slot zero i map = none
free_slot (suc n) i map = let rest = free_slot n (suc i) map in if map i == 0 then some i else rest

-- The body of the loop of `vmm_alloc_kstack`, at the free slot.
unfoldable pub take_slot : Option ℕ → ℕ → Stacks → Option ℕ × Stacks
take_slot none kernel_page_dir s = (none, s)
take_slot (some i) kernel_page_dir s =
    let base = kstack_region_base + i * kstack_slot_size in
    let (status, space) =
      vmm_alloc (some kernel_page_dir) (base + page_size) (kernel_stack_pages * page_size)
        kstack_flags s.space in
    if status == status_error then (none, record s { space = space }) else (
      some (base + kstack_slot_size),
      record { kstack_map = set_slot i 1 s.kstack_map; space = space },
    )

-- `vmm_alloc_kstack`: the end of the new stack, `none` for STATUS_ERROR.
unfoldable pub vmm_alloc_kstack : ℕ → Stacks → Option ℕ × Stacks
unfolding free_slot take_slot
vmm_alloc_kstack kernel_page_dir s =
    take_slot (free_slot max_tasks 0 s.kstack_map) kernel_page_dir s

-- `a - b` on `uint64_t`
abbrev pub sub64 : ℕ → ℕ → ℕ
sub64 a b = (a + (2 ^ 64 - b)) % 2 ^ 64

unfoldable pub vmm_free_kstack : ℕ → ℕ → Stacks → ℕ × Stacks
vmm_free_kstack kernel_page_dir kernel_stack s =
    let index = sub64 (sub64 kernel_stack kstack_slot_size) kstack_region_base / kstack_slot_size in
    let size = kernel_stack_pages * page_size in
    let (status, space) = vmm_free (some kernel_page_dir) (sub64 kernel_stack size) size s.space in
    if leb max_tasks index
    then (status_error, s)
    else (if s.kstack_map index == 0
        then (status_error, s)
        else (if status == status_error
            then (status_error, record s { space = space })
            else (status_ok, record { kstack_map = set_slot index 0 s.kstack_map; space = space })))
