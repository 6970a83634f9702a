-- ===== src/Ledger.antt =====
-- kernel/arch/x86/protocols/ledger_core.c: the request tables through which tasks ask clerks for
-- service. The children define the operations in the order of the file, and prove their laws.
pub mod Operation
pub mod Types
pub mod Queue
pub mod Serve
pub mod Entries
pub mod Fetch
pub mod Collect
pub mod Submit
pub mod Lifecycle
pub mod Steps
pub mod Calls
pub mod Valid
pub mod Wake
pub mod Answer
pub mod Reap
pub mod Cleared
pub mod Reaping
pub mod Tests
