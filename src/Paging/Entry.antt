-- ===== src/Paging/Entry.antt =====
-- paging.h and paging.c: the entries of a table, and the parts of an address.
use Prim.Native.Nat.{bit_and}
use taavi_os.Common.{◌||◌, ℕ, ◌+◌, ◌-◌, ◌/◌, ◌%◌, ◌^◌, Bool, not, leb, ◌==◌, if◌then◌else◌}

abbrev pub page_present : ℕ
page_present = 0x1

abbrev pub page_rw : ℕ
page_rw = 0x2

abbrev pub page_user : ℕ
page_user = 0x4

abbrev pub page_huge : ℕ
page_huge = 0x80

abbrev pub page_user_rw : ℕ
page_user_rw = 0x7

abbrev pub page_frame_mask : ℕ
page_frame_mask = 0x000F_FFFF_FFFF_F000

abbrev pub huge_page_size : ℕ
huge_page_size = 0x20_0000

-- `(entry & flag) != 0`
abbrev pub has : ℕ → ℕ → Bool
has flag entry = not (bit_and entry flag == 0)

-- `entry & PAGE_FRAME_MASK`
abbrev pub frame : ℕ → ℕ
frame entry = bit_and entry page_frame_mask

-- The address in an entry of 2 MiB, as the processor reads it: bits 21 to 51.
abbrev pub huge_frame : ℕ → ℕ
huge_frame entry = bit_and entry 0x000F_FFFF_FFE0_0000

-- Of an entry of 2 MiB, the bits below its address are 0 in PAGE_FRAME_MASK.
abbrev pub is_aligned : ℕ → Bool
is_aligned entry = not (has page_huge entry) || (huge_frame entry == frame entry)

-- `(virt >> shift) & PT_INDEX_MASK` for the four shifts
abbrev pub pml4_index : ℕ → ℕ
pml4_index virt = virt / 2 ^ 39 % 512

abbrev pub pdp_index : ℕ → ℕ
pdp_index virt = virt / 2 ^ 30 % 512

abbrev pub pd_index : ℕ → ℕ
pd_index virt = virt / 2 ^ 21 % 512

abbrev pub pt_index : ℕ → ℕ
pt_index virt = virt / 2 ^ 12 % 512

-- `is_address_viable`
abbrev pub is_address_viable : ℕ → Bool
is_address_viable addr = addr % 4096 == 0

-- `((int64_t)virt << 16) >> 16`: the lower 48 bits, with their sign.
abbrev pub sign_extended : ℕ → ℕ
sign_extended virt =
    if leb (2 ^ 47) (virt % 2 ^ 48) then virt % 2 ^ 48 + (2 ^ 64 - 2 ^ 48) else virt % 2 ^ 48

abbrev pub is_canonical : ℕ → Bool
is_canonical virt = sign_extended virt == virt
