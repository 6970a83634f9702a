-- ===== src/Pmm.antt =====
-- kernel/arch/x86_64/mm/pmm/pmm.c: the physical memory manager, a bitmap of the pages below the top
-- of memory. `Pages` holds the bitmap, `Alloc` the allocator, `Boot` its start from the boot loader's
-- regions; the other children prove their laws.
pub mod Pages
pub mod Alloc
pub mod Boot
pub mod PagesLaws
pub mod Valid
pub mod AllocLaws
pub mod BootLaws
pub mod Tests
