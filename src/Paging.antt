-- ===== src/Paging.antt =====
-- kernel/arch/x86_64/mm/paging: the page tables of the 64-bit kernel. `Entry` has the entries, `Space`
-- the memory and the operations; the other children prove their laws.
pub mod Entry
pub mod EntryLaws
pub mod Space
pub mod Walk
pub mod WalkLaws
pub mod Kept
pub mod Agree
pub mod Fresh
pub mod Step
pub mod Descend
pub mod Leaf
pub mod MapLaws
pub mod UnmapLaws
pub mod HugeLeaf
pub mod HugeLaws
pub mod CreateLaws
pub mod Sample
mod Tests
