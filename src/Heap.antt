-- ===== src/Heap.antt =====
-- kernel/mm/kmalloc/kmalloc.c, on i386: the kernel heap. `Free` gives memory back, `Alloc` takes it;
-- `Layout` says what a free list stands for, and the other children prove the operations against it.
pub mod Free
pub mod Alloc
pub mod Layout
pub mod MergeLaws
pub mod Insert
pub mod FreeLaws
pub mod TakeLaws
pub mod GrowLaws
pub mod AllocLaws
pub mod RoundTrip
pub mod Tests
