-- ===== src/Vmm.antt =====
-- kernel/arch/x86_64/mm/vmm/vmm.c: ranges of addresses of the 64-bit kernel. `Pages` has the operations;
-- the other children prove their laws.
pub mod Pages
pub mod Held
pub mod Drop
pub mod Rollback
pub mod Zeroed
pub mod AllocLaws
pub mod FreeLaws
pub mod Stacks
pub mod StackLaws
pub mod Faults
pub mod UserSpace
pub mod Shrinks
pub mod UserLaws
mod Tests
