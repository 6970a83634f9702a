-- ===== src/Fat.antt =====
-- kernel/fs/fat32: the FAT32 file system. `Volume` holds its state and the disk, `Init` makes it,
-- `Cluster` has the calls on clusters and on the allocation table, `Name` the 8.3 names, `Dir` the
-- search of a directory, `File` the reading of a file and `Write` the writing into one; the other
-- children prove their laws.
pub mod Volume
pub mod Cluster
pub mod Init
pub mod InitLaws
pub mod Entry
pub mod SetLaws
pub mod LimitLaws
pub mod AllocLaws
pub mod LinkLaws
pub mod DataLaws
pub mod File
pub mod Name
pub mod NameLaws
pub mod Chain
pub mod FileLaws
pub mod Dir
pub mod DirLaws
pub mod Write
pub mod SizeLaws
pub mod WriteEnds
pub mod WriteLaws
mod Tests
