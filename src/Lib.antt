-- ===== src/Lib.antt =====
-- TaaviOS: a verification library for the core of the kernel.
--
-- The 32-bit kernel is built around clerks: kernel tasks that serve the requests of user tasks. A
-- system call puts a request in the table of a clerk (the ledger), blocks the caller and wakes the
-- clerk; the scheduler runs the clerk, which fetches the request, answers it and wakes the caller,
-- who collects the answer; the reaper clerk frees what is over. Below them stand the task table, the
-- kernel heap, from which requests and buffers come, the file system that the file clerk calls, and,
-- in the 64-bit kernel, the physical memory manager, which gives pages to the page tables and to the
-- ranges of addresses that are allocated.
--
-- - `Common`: names of the standard library, Boolean tests, lemmas on lists and on bits.
-- - `Config`: the constants of kernel/include/config.h.
-- - `Task`: the task table, kernel/arch/x86/include/i386/task.h, and the lookups of
--   kernel/arch/x86/tcb/task.c. A slot is `none` where the source has NULL.
-- - `Ledger`: kernel/arch/x86/protocols/ledger_core.c, all of its functions under their own names.
--   `World` is its state: the clerk queues, the task table and the kernel heap. `Queue` places a
--   request, `Submit` has the calls that make one, `Serve` those of a clerk, `Collect` the one of the
--   caller, `Reap` the one of the reaper. A function returns its `int` and the new `World`. A table
--   entry stands for a pointer and the request it points to, as each request is in one entry only;
--   a read beyond a buffer is `none`. kmalloc and kfree are the parameter `Allocator`, about which
--   nothing is assumed. The other children prove their laws.
-- - `Pmm`: kernel/arch/x86_64/mm/pmm/pmm.c, the bitmap of physical pages, its start from the memory
--   map of the boot loader, allocation and release.
-- - `Sched`: kernel/arch/x86/tcb/sched.c, the choice of the next task, the waking of clerks with work,
--   the switch, and the calls that change a task's state. `Machine` is its state.
-- - `Recovery`: kernel/arch/x86/protocols/blankie.c and hail_mary.c: the reset of a clerk and the
--   recovery after a fault. `clerk_recovery` is reaper_recovery of the reaper clerk and the functions
--   like it of the other clerks; a yield does not return to a task that has not started.
-- - `Strings`: kernel/libraries/kstring/kstring.c: strings are lists of bytes, `none` is a read beyond
--   the memory given; `int` results are 32-bit patterns. Ten rounds of `digits` print any `int`.
-- - `History`: userspace/library/libc/history.c: the lines that the shell remembers; a line is
--   returned as its index in the array.
-- - `Heap`: kernel/mm/kmalloc/kmalloc.c on i386. The free list is the list of the addresses that the
--   `next` pointers link, and the headers are a store by address. The virtual memory manager is the
--   parameter `Vmm`. The fuel of `kmalloc` is a round for each growth below HEAP_CEIL, and one more.
-- - `Fat`: kernel/fs/fat32 (fat32_init of fat32main.c, fat32helpers.c, fat32read.c, and of fat32write.c
--   fat32_write_file_at_offset) on a disk that is the parameter `Drive`, by what ata_read_sector and
--   ata_write_sector do. `Volume` is f32_fs, the disk and the heap; `Init` makes it from a boot sector,
--   `Cluster` has the clusters and the allocation table, `Name` the names, `Dir` the search of a
--   directory, `File` the reading of a file and `Write` the writing into one. The fuel of the last two
--   is a round for each cluster's worth of bytes, and one more; the search takes its fuel as an
--   argument, as the source has no bound; the search for a dot has one round for each value of its index
--   of 8 bits. A volume lies below sector 2^28, as ata.c gives 28 bits of a sector number to the drive. The other children prove their laws.
-- - `Spin`: kernel/libraries/locks/spinlock.c with the word size of the 64-bit kernel. A CPU's place in
--   spin_light_lock and spin_light_unlock is its `Phase`; a step is one access to the lock, and an
--   interleaving is the list of the CPUs in the order of their accesses.
-- - `Paging`: kernel/arch/x86_64/mm/paging/paging.c with the constants of x86_64/include/paging.h.
--   `Space` is the physical memory, by page and index, and the `Pmm`; a pointer to a table is the
--   physical address of the table. `Walk` and `WalkLaws` have the tree of tables and the walk of the
--   processor, `translate`, which takes bits 21 to 51 of an entry of 2 MiB as its address. `Entry` has the bits of an entry; the other children prove their laws.
-- - `Vmm`: kernel/arch/x86_64/mm/vmm/vmm.c: `Pages` has vmm_alloc with its rollback and vmm_free,
--   `Stacks` the kernel stacks, `UserSpace` vmm_free_user_space. A rollback takes the number
--   of the pages that are done as its fuel.
--
-- Loops are structural recursion, on the table or on the number of rounds that the source's bounds
-- give: MAX_TASKS + 1 offsets of the round robin, `max_pages` pages of the bitmap, CLERK_COUNT queues,
-- the whole pages of a memory region. Numbers are natural; a cast and an overflow of `uint32_t` or
-- `uint64_t` is written as `% 2 ^ 32` or `% 2 ^ 64`, and STATUS_ERROR as its 32-bit pattern.
--
-- Not modelled: log output; the words of an interrupt frame, of which the address is kept; page
-- directories of the 32-bit kernel beyond their address; paging_init; the permissions of a mapping
-- and the TLB; the drivers. The changes of directories and fat32_write_file, the system calls and
-- most of the user space are planned.
pub mod Common
pub mod Config
pub mod Task
pub mod Ledger
pub mod Pmm
pub mod Sched
pub mod Fat
pub mod Heap
pub mod History
pub mod Paging
pub mod Recovery
pub mod Spin
pub mod Strings
pub mod Vmm
